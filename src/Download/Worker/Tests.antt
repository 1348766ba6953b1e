-- ===== src/Download/Worker/Tests.antt =====
-- A run of the writer, and instances of its theorems.
use node_link.Base.{◌≢◌, ◌≡◌, refl, true, false, pos, [], ◌∷◌, inl, arith}
use node_link.Download.Worker.{Job, Writer, waiting, draining, finished, writing, new_writer, add}
use node_link.Download.Worker.Steps.{
  starts, adds, stops, wakes, pops, writes, leaves, Run, start_at, then_step,
}
use node_link.Download.Worker.Fifo.{
  received, Run-received, leaving-all_written, Finishes, stopped-Finishes,
}
use node_link.Download.Worker.File.{file_of, leaving-file}

-- A writer whose thread has a job in hand when another one is added and it is told to stop.
abbrev first_job : Job
first_job = record { b = b'a' ∷ []; offset = pos 0 }

abbrev second_job : Job
second_job = record { b = b'b' ∷ []; offset = pos 1 }

abbrev busy : Writer
busy = record { q = second_job ∷ []; out = []; stop_flag = true; thread = writing first_job }

not_draining : waiting ≢ draining
not_draining e = ground arith

not_draining_busy : writing first_job ≢ draining
not_draining_busy e = ground arith

busy-Run : Run new_writer (first_job ∷ second_job ∷ []) busy
unfolding add
busy-Run =
    then_step
      (then_step
        (then_step
          (then_step
            (then_step (then_step start_at (starts refl)) (adds (b'a' ∷ []) (pos 0) not_draining))
            (wakes refl refl))
          (pops first_job [] refl refl))
        (adds (b'b' ∷ []) (pos 1) not_draining_busy))
      (stops not_draining_busy)

Run-received_example : first_job ∷ second_job ∷ [] ≡ received busy
Run-received_example = Run-received busy-Run

-- A writer that was told to stop and has nothing left to write.
abbrev stopping : Writer
stopping = record { q = []; out = first_job ∷ []; stop_flag = true; thread = draining }

stopping-Run : Run new_writer (first_job ∷ []) stopping
unfolding add
stopping-Run =
    then_step
      (then_step
        (then_step
          (then_step
            (then_step (then_step start_at (starts refl)) (adds (b'a' ∷ []) (pos 0) not_draining))
            (stops not_draining))
          (wakes refl refl))
        (pops first_job [] refl refl))
      (writes first_job refl)

not_finished : draining ≢ finished
not_finished e = ground arith

leaving-all_written_example : (first_job ∷ [] ≡ stopping.out) × (stopping.q ≡ [])
leaving-all_written_example =
    leaving-all_written stopping-Run (leaves refl refl refl) not_finished refl

stopped-Finishes_example : Finishes busy (first_job ∷ second_job ∷ [])
stopped-Finishes_example = stopped-Finishes busy-Run tt refl

leaving-file_example :
    file_of (record stopping { thread = finished }).out
    ≡ record { bytes = b'a' ∷ []; failed = false }
leaving-file_example =
    leaving-file (b'a' ∷ []) stopping-Run (leaves refl refl refl) not_finished refl
      ((refl, (omega arith, refl)), tt) (λ k h. inl (omega arith, omega arith))
