-- ===== src/Download/Downloader/Assembly/Filling.antt =====
-- The piece buffer of OnBlockReceived in source/download/downloader.cpp while the blocks of one piece
-- arrive.
use node_link.Base.{
  ℕ, ◌+◌, ◌%◌, ◌^◌, ◌≤◌, ◌<◌, ◌≡◌, refl, ap, ◌∙◌, ◌⊎◌, inl, inr, true, false, u64_of_int, List, [],
  ◌∷◌, map, length, All, ok, then_run, Slice, IsSlice, Covered, Agrees, Agrees-eq, overwrite,
  overwrite-Agrees, length-overwrite, leb, ◌==◌, arith,
}
use node_link.Parsing.Buffer.{Buffer, size_t}
use node_link.Parsing.TorrentFile.{TorrentFile}
use node_link.Download.Worker.{Writer, count_bytes}
use node_link.Download.Downloader.{
  Downloader, begin_piece, copy_block, update_speed, verify_piece, check_integrity,
  on_block_received,
}
use node_link.Download.Downloader.Progress.{Block, caught, receive_all}

abbrev pub total : List Slice → ℕ
total [] = 0
total (s ∷ ss) = length s.1 + total ss

abbrev pub blocks_of : ℕ → List Slice → List Block
blocks_of i = map λ s. record { piece_index = i; offset = s.0; bytes = s.1 }

-- The blocks of a piece that were received so far stand in the piece buffer.
pub record IsFilling (t : TorrentFile) (w : Writer) (i : ℕ) (p : Buffer) (ss : List Slice)
    (d : Downloader) : Type 0 where
  pub same_torrent : d.torrent ≡ t
  pub same_writer : d.file_writer ≡ w
  pub index : d.current_piece_index ≡ i
  pub size : length d.piece_buffer ≡ length p
  pub received : d.piece_bytes_received ≡ total ss
  pub agrees : Agrees p ss d.piece_buffer

-- The downloader with the block copied and counted.
abbrev pub with_block : Slice → Downloader → Downloader
with_block s d = record d {
  piece_buffer = overwrite d.piece_buffer s.0 s.1;
  piece_bytes_received = d.piece_bytes_received + length s.1;
  speed = count_bytes d.speed (length s.1);
}

pub check_integrity_full :
    (i : ℕ) (d : Downloader)
    → (d.piece_bytes_received ≡ length d.piece_buffer) × (d.piece_bytes_received < 2 ^ 31)
    → check_integrity i d ≡ verify_piece i d
unfolding check_integrity
check_integrity_full i d (e, small) =
    let full : (u64_of_int d.piece_bytes_received == length d.piece_buffer) ≡ true = ground arith in
    rw full refl

pub check_integrity_more :
    (i : ℕ) (d : Downloader)
    → (d.piece_bytes_received < length d.piece_buffer) × (d.piece_bytes_received < 2 ^ 31)
    → check_integrity i d ≡ ok tt d
unfolding check_integrity
check_integrity_more i d (e, small) =
    let part : (u64_of_int d.piece_bytes_received == length d.piece_buffer) ≡ false =
      ground arith in
    rw part refl

module _ (t : TorrentFile) (w : Writer) (i : ℕ) (p : Buffer) (small : length p < 2 ^ 31) where
  pub with_block-IsFilling :
      (s : Slice) (ss : List Slice) (d : Downloader)
      → IsFilling t w i p ss d
      → IsSlice p s
      → IsFilling t w i p (s ∷ ss) (with_block s d)
  with_block-IsFilling s ss d f slice =
      let fits : s.0 + length s.1 ≤ length d.piece_buffer = omega (arith, slice.0, f.size) in
      record {
        same_torrent = f.same_torrent;
        same_writer = f.same_writer;
        index = f.index;
        size = length-overwrite d.piece_buffer s.0 s.1 fits ∙ f.size;
        received = omega (arith, f.received);
        agrees = overwrite-Agrees p ss d.piece_buffer s slice fits f.agrees;
      }

  pub on_block_received_step :
      (s : Slice) (ss : List Slice) (d : Downloader)
      → IsFilling t w i p ss d
      → IsSlice p s
      → total (s ∷ ss) ≤ length p
      → on_block_received i s.0 s.1 d ≡ check_integrity i (with_block s d)
  unfolding on_block_received begin_piece copy_block update_speed
  on_block_received_step s ss d f slice room =
      let here : (i == d.current_piece_index) ≡ true = ground (arith, f.index) in
      let size = f.size in
      let fits : s.0 + length s.1 ≤ length d.piece_buffer = omega (arith, slice.0, f.size) in
      let low : s.0 < 2 ^ 31 = omega (arith, slice.0) in
      let offset : u64_of_int s.0 ≡ s.0 = ground arith in
      let wrapped : leb (size_t (s.0 + length s.1)) (length d.piece_buffer) ≡ true = ground arith in
      let inside : leb (s.0 + length s.1) (length d.piece_buffer) ≡ true = ground arith in
      let count : (d.piece_bytes_received + length s.1) % 2 ^ 32
          ≡ d.piece_bytes_received + length s.1 =
        omega (arith, f.received) in
      rw (here, offset, wrapped, inside, count) refl

  -- All blocks of a piece, in any order, up to the verification of the whole piece.
  pub receive_all-filling :
      (ss done : List Slice) (d : Downloader)
      → IsFilling t w i p done d
      → All (λ s. IsSlice p s × (0 < length s.1)) ss
      → 0 < length ss
      → total ss + total done ≡ length p
      → ((k : ℕ) → k < length p → Covered ss k ⊎ Covered done k)
      → (d' : Downloader) × (d'.torrent ≡ t)
        × (d'.file_writer ≡ w)
        × (d'.piece_buffer ≡ p)
        × (d'.current_piece_index ≡ i)
        × (receive_all (blocks_of i ss) d
            ≡ then_run (caught (verify_piece i d')) (λ u. receive_all []))
  unfolding receive_all
  receive_all-filling [] done d f slices some_left sum cover = absurd (omega arith)
  receive_all-filling (s ∷ []) done d f slices some_left sum cover =
      let next = with_block-IsFilling s done d f slices.0.0 in
      let step = on_block_received_step s done d f slices.0.0 (omega arith) in
      let whole =
        Agrees-eq p (s ∷ done) (with_block s d).piece_buffer (omega (arith, next.size))
          (λ k h. one (cover k h)) next.agrees in
      (
        with_block s d,
        next.same_torrent,
        next.same_writer,
        whole,
        next.index,
        ap (λ r. then_run (caught r) (λ u. receive_all []))
            (step
              ∙ check_integrity_full i (with_block s d) (omega (arith, next.received, next.size))),
      )
    where
      one : {k : ℕ} → Covered (s ∷ []) k ⊎ Covered done k → Covered (s ∷ done) k
      one (inl (inl h)) = inl h
      one (inl (inr h)) = absurd h
      one (inr h) = inr h
  receive_all-filling (s ∷ s' ∷ ss) done d f slices some_left sum cover =
      let next = with_block-IsFilling s done d f slices.0.0 in
      let step = on_block_received_step s done d f slices.0.0 (omega arith) in
      let more =
        check_integrity_more i (with_block s d)
          (omega (arith, next.received, next.size, slices.1.0.1)) in
      let (d', same_torrent, same_writer, whole, index, run) =
        receive_all-filling (s' ∷ ss) (s ∷ done) (with_block s d) next slices.1 (omega arith)
          (omega arith) (λ k h. shift (cover k h)) in
      (
        d',
        same_torrent,
        same_writer,
        whole,
        index,
        ap (λ r. then_run (caught r) (λ u. receive_all (blocks_of i (s' ∷ ss)))) (step ∙ more)
            ∙ run,
      )
    where
      shift :
          {k : ℕ}
          → Covered (s ∷ s' ∷ ss) k ⊎ Covered done k
          → Covered (s' ∷ ss) k ⊎ Covered (s ∷ done) k
      shift (inl (inl h)) = inr (inl h)
      shift (inl (inr h)) = inl h
      shift (inr h) = inr (inr h)
