-- ===== src/Download/Downloader/Whole/Tests.antt =====
-- The download of six bytes of a torrent that `load` returns, an instance of its theorem; and of three bytes
-- whose hashes match, which reach the file.
use node_link.Base.{
  ℕ, zero, suc, ◌≡◌, ◌≢◌, refl, ◌<◌, inl, inr, true, false, pos, minus_one, [], ◌∷◌, replicate,
  Covered, arith, length, get_or, ◌≤◌, ◌∙◌, sym, subst, List, bytes_eq_refl,
}
use node_link.Parsing.Buffer.{Buffer}
use node_link.Parsing.Sha1.{calculate}
use node_link.Parsing.TorrentFile.{TorrentFile}
use node_link.Download.Worker.{Job, Writer, waiting, draining, finished, new_writer, add}
use node_link.Download.Worker.Steps.{
  starts, adds, stops, wakes, pops, writes, leaves, Run, start_at, then_step,
}
use node_link.Download.Worker.File.{file_of}
use node_link.Download.Downloader.Whole.{
  Order, IsDelivery, job_of, jobs_of, IsWritten, downloaded, downloaded_lem, all_blocks-file_of,
}
use node_link.Download.Downloader.Whole.Pieces.{piece_of, Describes}

abbrev abc : Buffer
abc = b'a' ∷ b'b' ∷ b'c' ∷ []

abbrev two_pieces : TorrentFile
two_pieces = record {
  announce = [];
  name = [];
  length = pos 3;
  piece_length = pos 2;
  piece_hashes = calculate (b'a' ∷ b'b' ∷ []) ∷ calculate (b'c' ∷ []) ∷ [];
  info_hash = replicate 20 5;
}

two_pieces-Describes : Describes two_pieces abc 2
two_pieces-Describes = record {
  width = refl;
  size = refl;
  some_width = omega arith;
  narrow = omega arith;
  some_pieces = omega arith;
  few = omega arith;
  small = omega arith;
  short = omega arith;
  full = omega arith;
}

-- The second piece comes first, and the first one's second byte before its first.
abbrev order : Order
order = (1, (0, b'c' ∷ []) ∷ []) ∷ (0, (1, b'b' ∷ []) ∷ (0, b'a' ∷ []) ∷ []) ∷ []

order-IsDelivery : IsDelivery two_pieces abc 2 minus_one order
order-IsDelivery = (
  omega arith,
  λ e. absurd (omega arith),
  ((((omega arith, refl), omega arith), tt), refl, λ k h. inl (omega arith, omega arith)),
  (
    omega arith,
    λ e. absurd (omega arith),
    ((((omega arith, refl), omega arith), (((omega arith, refl), omega arith), tt)), refl, both),
    tt,
  ),
)
  where
    both : (k : ℕ) → k < 2 → Covered ((1, b'b' ∷ []) ∷ (0, b'a' ∷ []) ∷ []) k
    both zero h = inr (inl (omega arith, omega arith))
    both (suc k) h = inl (omega arith, omega arith)

abbrev matching_jobs : List Job
matching_jobs = job_of abc 2 1 ∷ job_of abc 2 0 ∷ []

-- Both pieces are queued.
two_pieces-jobs_of : jobs_of two_pieces abc 2 order ≡ matching_jobs
two_pieces-jobs_of =
    rw (bytes_eq_refl (calculate (piece_of abc 2 1)), bytes_eq_refl (calculate (piece_of abc 2 0)))
      refl

-- The writer has written both jobs and was told to stop.
abbrev written : Writer
written = record { q = []; out = matching_jobs; stop_flag = true; thread = draining }

not_draining : waiting ≢ draining
not_draining e = ground arith

written-Run : Run new_writer matching_jobs written
unfolding add
written-Run =
    let queued =
      then_step
        (then_step (then_step start_at (starts refl)) (adds (b'c' ∷ []) (pos 2) not_draining))
        (adds (b'a' ∷ b'b' ∷ []) (pos 0) not_draining) in
    let woken = then_step (then_step queued (stops not_draining)) (wakes refl refl) in
    let one =
      then_step (then_step woken (pops (job_of abc 2 1) (job_of abc 2 0 ∷ []) refl refl))
        (writes (job_of abc 2 1) refl) in
    then_step (then_step one (pops (job_of abc 2 0) [] refl refl)) (writes (job_of abc 2 0) refl)

not_finished : draining ≢ finished
not_finished e = ground arith

two_pieces-queue : (downloaded two_pieces (replicate 20 1) [] order).file_writer.q ≡ matching_jobs
two_pieces-queue =
    (downloaded_lem two_pieces abc 2 two_pieces-Describes (replicate 20 1) [] order
      order-IsDelivery).1
    ∙ two_pieces-jobs_of

-- All three bytes come to the file.
every_byte :
    (file : Buffer) × (file_of written.out ≡ record { bytes = file; failed = false })
    × (length file ≤ 3)
    × ((k : ℕ)
        → IsWritten two_pieces abc 2 order k
        → (k < length file) × (get_or file k 0 ≡ get_or abc k 0))
every_byte =
    let (run, queue, file, bytes, short, agrees) =
      all_blocks-file_of two_pieces (replicate 20 1) [] abc 2 order two_pieces-Describes
        order-IsDelivery
        (subst (λ js. Run new_writer js written) (sym two_pieces-queue) written-Run)
        (leaves refl refl refl) not_finished refl in
    (file, bytes, short, agrees)

abbrev six : Buffer
six = 1 ∷ 2 ∷ 3 ∷ 4 ∷ 5 ∷ 6 ∷ []

-- The last piece first, then the first one in two blocks.
abbrev arrivals : Order
arrivals = (1, (0, 5 ∷ 6 ∷ []) ∷ []) ∷ (0, (2, 3 ∷ 4 ∷ []) ∷ (0, 1 ∷ 2 ∷ []) ∷ []) ∷ []

-- The writer was given nothing and told to stop.
abbrev idle : Writer
idle = record { q = []; out = []; stop_flag = true; thread = draining }
