-- ===== src/Download/Worker/Steps.antt =====
-- The writer's thread of source/download/Worker.cpp and the threads that call the writer, as steps that
-- interleave. A step that needs the mutex is taken only while the thread does not hold it.
use node_link.Base.{◌≡◌, ◌≢◌, Bool, true, false, ℤ, List, [], ◌∷◌, ◌++◌}
use node_link.Parsing.Buffer.{Buffer}
use node_link.Download.Worker.{
  Job, Writer, Thread, not_started, waiting, draining, finished, writing, add,
}

abbrev pub set_thread : Thread → Writer → Writer
set_thread t w = record w { thread = t }

-- The job that was taken off the queue and is not yet written.
abbrev pub in_hand : Thread → List Job
in_hand (writing j) = j ∷ []
in_hand _ = []

-- `!q.empty() || stop_flag`
abbrev pub may_wake : List Job → Bool → Bool
may_wake [] stop = stop
may_wake (j ∷ q) stop = true

-- A step, with the jobs that it adds.
pub data Step : Writer → List Job → Writer → Type 0 where
  -- `start`
  starts : {w : Writer} → w.thread ≡ not_started → Step w [] (set_thread waiting w)
  -- `add`, under the mutex
  adds :
      {w : Writer} (b : Buffer) (offset : ℤ)
      → w.thread ≢ draining
      → Step w (record { b = b; offset = offset } ∷ []) (add w b offset).0
  -- `~Writer`, up to its `join`
  stops : {w : Writer} → w.thread ≢ draining → Step w [] (record w { stop_flag = true })
  -- `cv.wait` returns, with the mutex held
  wakes :
      {w : Writer}
      → w.thread ≡ waiting
      → may_wake w.q w.stop_flag ≡ true
      → Step w [] (set_thread draining w)
  -- `q.front()`, `q.pop()` and `lock.unlock()`
  pops :
      {w : Writer} (j : Job) (q : List Job)
      → w.thread ≡ draining
      → w.q ≡ j ∷ q
      → Step w [] (record w { q = q; thread = writing j })
  -- `seekp` and `write`, to a file that no other thread touches, and `lock.lock()`
  writes :
      {w : Writer} (j : Job)
      → w.thread ≡ writing j
      → Step w [] (record w { out = w.out ++ j ∷ []; thread = draining })
  -- the outer loop goes round, and `cv.wait` releases the mutex
  sleeps :
      {w : Writer}
      → w.thread ≡ draining
      → w.q ≡ []
      → w.stop_flag ≡ false
      → Step w [] (set_thread waiting w)
  -- `if (stop_flag && q.empty()) break;`
  leaves :
      {w : Writer}
      → w.thread ≡ draining
      → w.q ≡ []
      → w.stop_flag ≡ true
      → Step w [] (set_thread finished w)

-- Steps one after the other, with all the jobs that they add, in order.
pub data Run (w : Writer) : List Job → Writer → Type 0 where
  start_at : Run w [] w
  then_step :
      {js ks : List Job} {w' w'' : Writer} → Run w js w' → Step w' ks w'' → Run w (js ++ ks) w''
