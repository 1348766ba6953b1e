-- ===== src/Download/Worker.antt =====
-- include/download/Worker.h and source/download/Worker.cpp: the disk writer with its queue and
-- thread, and the counters of the progress display.
pub mod Steps
pub mod Fifo
pub mod File
pub mod Display
pub mod Refresh
mod Tests
use node_link.Base.{ℕ, ◌+◌, Bool, false, ℤ, List, [], ◌∷◌, ◌++◌}
use node_link.Parsing.Buffer.{Buffer, size_t}

pub record Job : Type 0 where
  pub b : Buffer
  pub offset : ℤ

-- Where the writer's thread stands. It holds the mutex while it is `draining`; `writing` has a job
-- in hand and the mutex released.
pub data Thread : Type 0 where
  not_started waiting draining finished : Thread
  writing : Job → Thread

-- `q` is the queue, its front first; `out` holds the writes that the file has received, oldest first.
pub record Writer : Type 0 where
  pub q : List Job
  pub out : List Job
  pub stop_flag : Bool
  pub thread : Thread

abbrev pub new_writer : Writer
new_writer = record { q = []; out = []; stop_flag = false; thread = not_started }

-- `Writer::add`. The buffer is moved into the job, which leaves the caller an empty one.
unfoldable pub add : Writer → Buffer → ℤ → Writer × Buffer
add w b offset = (record w { q = w.q ++ record { b = b; offset = offset } ∷ [] }, [])

-- The atomic counters of class `Speed`.
pub record Speed : Type 0 where
  pub bytes_downloaded : ℕ
  pub total_bytes : ℕ
  pub session_bytes : ℕ

abbrev pub new_speed : ℕ → Speed
new_speed total = record { bytes_downloaded = 0; total_bytes = total; session_bytes = 0 }

-- `Speed::add`
unfoldable pub count_bytes : Speed → ℕ → Speed
count_bytes s bytes = record s {
  bytes_downloaded = size_t (s.bytes_downloaded + bytes);
  session_bytes = size_t (s.session_bytes + bytes);
}
