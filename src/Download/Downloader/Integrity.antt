-- ===== src/Download/Downloader/Integrity.antt =====
-- The integrity of what is written: a piece is handed to the writer only with the expected hash, and for
-- its place in the file.
use node_link.Base.{
  ℕ, ◌≡◌, sym, ap, subst, ◌∙◌, ℤ, ℤ_of_int, mul_int64, u64_of_int, [], ◌∷◌, All, All-append,
  get_elem?, bytes_eq, bytes_eq→eq, Option-cases, Outcome, ok, throw, undefined, out_of_fuel, some,
  then_run, lift_outcome, Keeps, inl, inr, Bool-cases,
}
use node_link.Parsing.Buffer.{Buffer}
use node_link.Parsing.Sha1.{calculate}
use node_link.Parsing.TorrentFile.{TorrentFile}
use node_link.Download.Worker.{Job, add}
use node_link.Download.Downloader.{
  Downloader, queue_piece, write_piece, verify_piece, on_block_received,
}
use node_link.Download.Downloader.Progress.{SameWriter, on_block_received-Keeps}

-- The job is a piece of the torrent: its bytes have the piece's hash, and stand at its place.
abbrev pub IsVerified : TorrentFile → Job → Type 0
IsVerified t j =
    (i : ℕ) × (get_elem? t.piece_hashes (u64_of_int i) ≡ some (calculate j.b))
    × (mul_int64 (ℤ_of_int i) t.piece_length ≡ ok j.offset)

abbrev pub AllVerified : TorrentFile → Downloader → Type 0
AllVerified t d = (d.torrent ≡ t) × All (IsVerified t) d.file_writer.q

AllVerified-SameWriter :
    (t : TorrentFile) (d d' : Downloader) → AllVerified t d → SameWriter d d' → AllVerified t d'
AllVerified-SameWriter t d d' h same =
    (same.0.0 ∙ h.0, subst (λ w. All (IsVerified t) w.q) (sym same.1) h.1)

-- The piece is queued at the place that was computed for it.
queued-AllVerified :
    (t : TorrentFile) (d : Downloader) (i : ℕ) (place : Outcome ℤ)
    → AllVerified t d
    → get_elem? t.piece_hashes (u64_of_int i) ≡ some (calculate d.piece_buffer)
    → mul_int64 (ℤ_of_int i) t.piece_length ≡ place
    → Keeps (AllVerified t) (then_run (lift_outcome place d) λ offset. queue_piece offset)
unfolding queue_piece add
queued-AllVerified t d i (ok offset) h found place = (
  h.0,
  All-append (IsVerified t) d.file_writer.q (record { b = d.piece_buffer; offset = offset } ∷ [])
      h.1 ((i, found, place), tt),
)
queued-AllVerified t d i (throw e) h found place = h
queued-AllVerified t d i undefined h found place = tt
queued-AllVerified t d i out_of_fuel h found place = tt

verify_piece-AllVerified :
    (t : TorrentFile) (d : Downloader) (i : ℕ)
    → AllVerified t d
    → Keeps (AllVerified t) (verify_piece i d)
unfolding verify_piece write_piece
verify_piece-AllVerified t d i h =
    elim (Option-cases (get_elem? d.torrent.piece_hashes (u64_of_int i))) [
      | inl out ↦ rw out tt
      | inr (hash, found) ↦ elim (Bool-cases (bytes_eq (calculate d.piece_buffer) hash)) [
        | inr ne ↦ rw (found, ne) h
        | inl eq ↦
            let hash_eq = bytes_eq→eq (calculate d.piece_buffer) hash eq in
            let listed : get_elem? t.piece_hashes (u64_of_int i) ≡ some (calculate d.piece_buffer) =
              subst (λ u. get_elem? u.piece_hashes (u64_of_int i) ≡ some (calculate d.piece_buffer))
                h.0 (found ∙ ap some (sym hash_eq)) in
            let place : mul_int64 (ℤ_of_int i) t.piece_length
                ≡ mul_int64 (ℤ_of_int i) d.torrent.piece_length =
              ap (λ u. mul_int64 (ℤ_of_int i) u.piece_length) (sym h.0) in
            rw (found, eq)
              (queued-AllVerified t d i (mul_int64 (ℤ_of_int i) d.torrent.piece_length) h listed
                place)
      ]
    ]

pub on_block_received-AllVerified :
    (t : TorrentFile) (d : Downloader) (i offset : ℕ) (block : Buffer)
    → AllVerified t d
    → Keeps (AllVerified t) (on_block_received i offset block d)
on_block_received-AllVerified t =
    on_block_received-Keeps (AllVerified t) (AllVerified-SameWriter t) (verify_piece-AllVerified t)
