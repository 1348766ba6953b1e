-- ===== src/Download/Worker/Refresh.antt =====
-- The progress display's thread of source/download/Worker.cpp and the thread that counts the bytes, as
-- steps that interleave. Each access to an atomic counter is a step.
pub mod Counting
pub mod Drawing
mod Tests
use node_link.Base.{
  ℕ, ◌+◌, ◌%◌, ◌^◌, ◌≡◌, Bool, true, false, List, [], ◌∷◌, ◌++◌, Option, none, some,
}
use node_link.Parsing.Buffer.{size_t}
use node_link.Download.Worker.{Speed, new_speed}
use node_link.Download.Worker.Display.{Sample}

-- Where the display's thread stands: at the loop's condition with the place of the spinner, or in a
-- round, behind the read of `session_bytes`, or behind that of `bytes_downloaded` for the bar.
pub data Stage : Type 0 where
  not_started finished : Stage
  checking : ℕ → Stage
  measured : ℕ → ℕ → Stage
  half_drawn : ℕ → ℕ → ℕ → Stage

-- `adding` is the argument of an `add` that has increased one counter but not yet the other. `drawn`
-- are the rounds that were printed, oldest first.
pub record Display : Type 0 where
  pub speed : Speed
  pub adding : Option ℕ
  pub stage : Stage
  pub stop_flag : Bool
  pub drawn : List Sample

abbrev pub new_display : ℕ → Display
new_display total = record {
  speed = new_speed total;
  adding = none;
  stage = not_started;
  stop_flag = false;
  drawn = [];
}

-- A step, with the bytes that a call of `add` begins to count.
pub data Tick : Display → List ℕ → Display → Type 0 where
  -- `start`
  starts : {s : Display} → s.stage ≡ not_started → Tick s [] (record s { stage = checking 0 })
  -- `bytes_downloaded += b;`
  adds_downloaded :
      {s : Display} (b : ℕ)
      → s.adding ≡ none
      → Tick s (b ∷ []) (record s {
        speed = record s.speed { bytes_downloaded = size_t (s.speed.bytes_downloaded + b) };
        adding = some b;
      })
  -- `session_bytes += b;`
  adds_session :
      {s : Display} (b : ℕ)
      → s.adding ≡ some b
      → Tick s [] (record s {
        speed = record s.speed { session_bytes = size_t (s.speed.session_bytes + b) };
        adding = none;
      })
  -- `while (!stop_flag)`, and `session_bytes.exchange(0)`
  exchanges :
      {s : Display} (spin : ℕ)
      → s.stage ≡ checking spin
      → s.stop_flag ≡ false
      → Tick s [] (record s {
        speed = record s.speed { session_bytes = 0 };
        stage = measured s.speed.session_bytes spin;
      })
  -- the read of `bytes_downloaded` for the bar
  reads :
      {s : Display} (current spin : ℕ)
      → s.stage ≡ measured current spin
      → Tick s [] (record s { stage = half_drawn current s.speed.bytes_downloaded spin })
  -- its second read, the end of the round, and `spin_index = (spin_index + 1) % 4;`
  draws :
      {s : Display} (current seen spin : ℕ)
      → s.stage ≡ half_drawn current seen spin
      → Tick s [] (record s {
        stage = checking ((spin + 1) % 4);
        drawn =
            s.drawn
            ++ record {
              current = current;
              seen = seen;
              seen_again = s.speed.bytes_downloaded;
              spin_index = spin;
            }
              ∷ [];
      })
  -- `~Speed`, up to its `join`
  stops : {s : Display} → Tick s [] (record s { stop_flag = true })
  leaves :
      {s : Display} (spin : ℕ)
      → s.stage ≡ checking spin
      → s.stop_flag ≡ true
      → Tick s [] (record s { stage = finished })

-- Steps one after the other, with all that was counted, in order.
pub data Ticks (s : Display) : List ℕ → Display → Type 0 where
  start_at : Ticks s [] s
  then_tick :
      {bs cs : List ℕ} {s' s'' : Display} → Ticks s bs s' → Tick s' cs s'' → Ticks s (bs ++ cs) s''
