-- ===== src/Download/Worker/Fifo.antt =====
-- The writer writes the jobs in the order in which they were added, and stops only when all are written.
use node_link.Base.{
  ◌≡◌, ◌≢◌, refl, ap, sym, subst, ◌∙◌, Bool, true, List, [], ◌∷◌, ◌++◌, append_assoc, append-nil,
  arith,
}
use node_link.Download.Worker.{
  Job, Writer, Thread, not_started, waiting, draining, finished, writing, new_writer, add,
}
use node_link.Download.Worker.Steps.{
  set_thread, in_hand, may_wake, Step, starts, adds, stops, wakes, pops, writes, sleeps, leaves,
  Run, start_at, then_step,
}

-- The jobs that the writer has received: written, in hand, and queued.
abbrev pub received : Writer → List Job
received w = w.out ++ (in_hand w.thread ++ w.q)

-- A change of the thread alone.
move-received :
    (w : Writer) (from to : Thread)
    → w.thread ≡ from
    → in_hand from ≡ in_hand to
    → received (set_thread to w) ≡ received w ++ []
move-received w from to e same =
    ap (λ h. w.out ++ (h ++ w.q)) (sym same)
    ∙ ap (λ t. w.out ++ (in_hand t ++ w.q)) (sym e)
    ∙ sym (append-nil (received w))

Step-received : {w w' : Writer} {ks : List Job} → Step w ks w' → received w' ≡ received w ++ ks
unfolding add
Step-received (starts {w = w} e) = move-received w not_started waiting e refl
Step-received (adds {w = w} b offset free) =
    let job : List Job = record { b = b; offset = offset } ∷ [] in
    sym (
      append_assoc w.out (in_hand w.thread ++ w.q) job
      ∙ ap (λ xs. w.out ++ xs) (append_assoc (in_hand w.thread) w.q job))
Step-received (stops {w = w} free) = sym (append-nil (received w))
Step-received (wakes {w = w} e ready) = move-received w waiting draining e refl
Step-received (pops {w = w} j q e front) =
    ap (λ t. w.out ++ (in_hand t ++ j ∷ q)) (sym e)
    ∙ ap (λ xs. w.out ++ (in_hand w.thread ++ xs)) (sym front)
    ∙ sym (append-nil (received w))
Step-received (writes {w = w} j e) =
    append_assoc w.out (j ∷ []) w.q
    ∙ ap (λ t. w.out ++ (in_hand t ++ w.q)) (sym e)
    ∙ sym (append-nil (received w))
Step-received (sleeps {w = w} e empty on) = move-received w draining waiting e refl
Step-received (leaves {w = w} e empty off) = move-received w draining finished e refl

-- Whatever the interleaving, the jobs added so far are those written, the one in hand and those queued, in
-- the order in which they were added.
pub Run-received : {w : Writer} {js : List Job} → Run new_writer js w → js ≡ received w
Run-received start_at = refl
Run-received (then_step {js = js} {ks = ks} r s) =
    ap (λ xs. xs ++ ks) (Run-received r) ∙ sym (Step-received s)

-- The step with which the thread leaves its loop is taken only when every job that was added has been
-- written, in the order in which they were added, and none is queued.
pub leaving-all_written :
    {w w' : Writer} {js ks : List Job}
    → Run new_writer js w
    → Step w ks w'
    → w.thread ≢ finished
    → w'.thread ≡ finished
    → (js ≡ w'.out) × (w'.q ≡ [])
unfolding add
leaving-all_written r (starts e) before after = absurd (ground arith)
leaving-all_written r (adds b offset free) before after = absurd (before after)
leaving-all_written r (stops free) before after = absurd (before after)
leaving-all_written r (wakes e ready) before after = absurd (ground arith)
leaving-all_written r (pops j q e front) before after = absurd (ground arith)
leaving-all_written r (writes j e) before after = absurd (ground arith)
leaving-all_written r (sleeps e empty on) before after = absurd (ground arith)
leaving-all_written {w} r (leaves e empty off) before after = (
  Run-received r
      ∙ ap (λ t. w.out ++ (in_hand t ++ w.q)) e
      ∙ ap (λ xs. w.out ++ xs) empty
      ∙ append-nil w.out,
  empty,
)

-- A thread that has started and not left.
abbrev pub IsRunning : Thread → Type 0
IsRunning not_started = ⊥
IsRunning finished = ⊥
IsRunning _ = Unit {0}

prepend : {w v u : Writer} {ks js : List Job} → Step w ks v → Run v js u → Run w (ks ++ js) u
prepend {w} {v} {ks = ks} s start_at =
    subst (λ l. Run w l v) (sym (append-nil ks)) (then_step start_at s)
prepend {w} {u = u} {ks = ks} s (then_step {js = js} {ks = ls} r t) =
    subst (λ l. Run w l u) (append_assoc ks js ls) (then_step (prepend s r) t)

-- A run of the thread alone, to its end, after which `written` has been added to the file.
abbrev pub Finishes : Writer → List Job → Type 0
Finishes w written =
    (w' : Writer) × Run w [] w' × (w'.thread ≡ finished) × (w'.q ≡ []) × (w'.out ≡ written)

after-Step : (w v : Writer) (js : List Job) → Step w [] v → Finishes v js → Finishes w js
after-Step w v js s (w', r, left, empty, all) = (w', prepend s r, left, empty, all)

drains :
    (q : List Job) (w : Writer)
    → w.thread ≡ draining
    → w.q ≡ q
    → w.stop_flag ≡ true
    → Finishes w (w.out ++ q)
drains [] w e empty stop = (
  set_thread finished w,
  prepend (leaves e empty stop) start_at,
  refl,
  empty,
  sym (append-nil w.out),
)
drains (j ∷ q) w e front stop =
    let hand : Writer = record w { q = q; thread = writing j } in
    let next : Writer = record hand { out = w.out ++ j ∷ []; thread = draining } in
    after-Step w hand (w.out ++ j ∷ q) (pops j q e front) (
      after-Step hand next (w.out ++ j ∷ q) (writes j refl)
        (subst (Finishes next) (append_assoc w.out (j ∷ []) q) (drains q next refl refl stop)))

may_wake-stopped : (q : List Job) (stop : Bool) → stop ≡ true → may_wake q stop ≡ true
may_wake-stopped [] stop e = e
may_wake-stopped (j ∷ q) stop e = refl

Finishes-from :
    (w : Writer) (t : Thread)
    → w.thread ≡ t
    → IsRunning t
    → w.stop_flag ≡ true
    → Finishes w (w.out ++ (in_hand t ++ w.q))
Finishes-from w not_started e h stop = absurd h
Finishes-from w finished e h stop = absurd h
Finishes-from w waiting e h stop =
    after-Step w (set_thread draining w) _ (wakes e (may_wake-stopped w.q w.stop_flag stop))
      (drains w.q (set_thread draining w) refl refl stop)
Finishes-from w draining e h stop = drains w.q w e refl stop
Finishes-from w (writing j) e h stop =
    let next : Writer = record w { out = w.out ++ j ∷ []; thread = draining } in
    after-Step w next _ (writes j e)
      (subst (Finishes next) (append_assoc w.out (j ∷ []) w.q) (drains w.q next refl refl stop))

-- Once the writer is told to stop, its thread, wherever it stands and whatever was added before, gets by
-- steps of its own through the queue and out of its loop, and the file has received every job that was
-- added, in the order in which they were added.
pub stopped-Finishes :
    {w : Writer} {js : List Job}
    → Run new_writer js w
    → IsRunning w.thread
    → w.stop_flag ≡ true
    → Finishes w js
stopped-Finishes {w} r h e =
    subst (Finishes w) (sym (Run-received r)) (Finishes-from w w.thread refl h e)
