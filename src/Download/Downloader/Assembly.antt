-- ===== src/Download/Downloader/Assembly.antt =====
-- The assembly of a piece: the blocks of a piece, in any order, make up the piece, which is then handed
-- to the writer exactly if its hash is the expected one.
pub mod Filling
use node_link.Base.{
  ℕ, ◌+◌, ◌-◌, ◌*◌, ◌%◌, ◌^◌, ◌≤◌, ◌<◌, ◌≡◌, ◌≢◌, refl, ap, ◌∙◌, ◌⊎◌, inl, inr, true, false, pos,
  ℤ_of_int, mul_int64, ◌*ℤ◌, ◌+ℤ◌, u64_of_int, List, [], ◌∷◌, ◌++◌, map, length, All, replicate,
  length-replicate, get_elem?, bytes_eq, some, ok, then_run, Slice, IsSlice, Covered, Agrees,
  Agrees-eq, overwrite, overwrite-Agrees, length-overwrite, ltb, leb, ◌==◌, if◌then◌else◌,
  Bool-cases, arith,
}
use node_link.Parsing.Buffer.{Buffer, size_t}
use node_link.Parsing.Sha1.{calculate}
use node_link.Parsing.TorrentFile.{TorrentFile}
use node_link.Download.Worker.{Writer, add, count_bytes}
use node_link.Download.Downloader.{
  Downloader, piece_len, assign_buffer, begin_piece, copy_block, update_speed, queue_piece,
  write_piece, verify_piece, check_integrity, on_block_received,
}
use node_link.Download.Downloader.Progress.{Block, caught, receive_all}
use node_link.Download.Downloader.Assembly.Filling.{
  total, blocks_of, IsFilling, receive_all-filling,
}

-- The downloader at the beginning of a piece of `n` bytes.
abbrev pub begun : ℕ → ℕ → Downloader → Downloader
begun i n d = record d {
  current_piece_index = i;
  piece_bytes_received = 0;
  piece_buffer = replicate n 0;
}

module _ (d : Downloader) (i n : ℕ) (new : i ≢ d.current_piece_index) (small : n < 2 ^ 31)
    (size : piece_len d.torrent i ≡ ok (pos n)) where
  begin_piece-begun : begin_piece i d ≡ begin_piece i (begun i n d)
  unfolding begin_piece assign_buffer
  begin_piece-begun =
      let other : (i == d.current_piece_index) ≡ false = ground arith in
      let same : (i == i) ≡ true = ground arith in
      let wrapped : n % 2 ^ 64 ≡ n = omega arith in
      let allowed : ltb (2 ^ 63 - 1) n ≡ false = ground arith in
      rw (other, same, size, wrapped, allowed) refl

  pub on_block_received-begun :
      (offset : ℕ) (block : Buffer)
      → on_block_received i offset block d ≡ on_block_received i offset block (begun i n d)
  unfolding on_block_received
  on_block_received-begun offset block =
      ap
        (λ r. then_run r λ u d₁.
          then_run (copy_block offset block d₁)
            λ u₂ d₂. then_run (update_speed (length block) d₂) λ u₃ d₃. check_integrity i d₃)
        begin_piece-begun

  receive_all-begun :
      (ss : List Slice)
      → 0 < length ss
      → receive_all (blocks_of i ss) d ≡ receive_all (blocks_of i ss) (begun i n d)
  unfolding receive_all
  receive_all-begun [] h = absurd (omega arith)
  receive_all-begun (s ∷ ss) h =
      ap (λ r. then_run (caught r) (λ u. receive_all (blocks_of i ss)))
        (on_block_received-begun s.0 s.1)

total-positive : (ss : List Slice) → 0 < total ss → 0 < length ss
total-positive [] h = h
total-positive (s ∷ ss) h = omega arith

place_in_file :
    (i m : ℕ) → i < 2 ^ 31 → i * m < 2 ^ 63 → mul_int64 (ℤ_of_int i) (pos m) ≡ ok (pos (i * m))
unfolding mul_int64
place_in_file i m low fits =
    let index : ℤ_of_int i ≡ pos i = ground arith in
    let product : pos i *ℤ pos m ≡ pos (i * m) = ground arith in
    let inside : ltb (i * m) (2 ^ 63) ≡ true = ground arith in rw (index, product, inside) refl

pub verify_piece_lem :
    (d : Downloader) (i m : ℕ) (hash : Buffer)
    → i < 2 ^ 31
    → i * m < 2 ^ 63
    → get_elem? d.torrent.piece_hashes i ≡ some hash
    → d.torrent.piece_length ≡ pos m
    → (e : Downloader) × (verify_piece i d ≡ ok tt e)
      × (e.torrent ≡ d.torrent)
      × (e.current_piece_index ≡ d.current_piece_index)
      × (e.file_writer.q ≡ (
          if bytes_eq (calculate d.piece_buffer) hash
          then d.file_writer.q ++ record { b = d.piece_buffer; offset = pos (i * m) } ∷ []
          else d.file_writer.q))
unfolding verify_piece write_piece queue_piece add
verify_piece_lem d i m hash low fits expected width =
    let index : u64_of_int i ≡ i = ground arith in
    let place = place_in_file i m low fits in
    elim (Bool-cases (bytes_eq (calculate d.piece_buffer) hash)) [
      | inl same ↦ (
        record d {
          file_writer = record d.file_writer {
            q = d.file_writer.q ++ record { b = d.piece_buffer; offset = pos (i * m) } ∷ [];
          };
          piece_buffer = [];
          downloaded_bytes = d.downloaded_bytes +ℤ pos 0;
        },
        rw (index, expected, same, width, place) refl,
        refl,
        refl,
        rw same refl,
      )
      | inr other ↦ (d, rw (index, expected, other) refl, refl, refl, rw other refl)
    ]

Agrees-none : (p buffer : Buffer) → Agrees p [] buffer
Agrees-none p buffer k h = absurd h

-- What `piece_assembled` says, and that the downloader is left with the piece for its current one.
pub piece_received :
    (d : Downloader) (i m : ℕ) (p hash : Buffer) (ss : List Slice)
    → i < 2 ^ 31
    → i ≢ d.current_piece_index
    → piece_len d.torrent i ≡ ok (pos (length p))
    → 0 < length p
    → length p < 2 ^ 31
    → get_elem? d.torrent.piece_hashes i ≡ some hash
    → d.torrent.piece_length ≡ pos m
    → i * m < 2 ^ 63
    → All (λ s. IsSlice p s × (0 < length s.1)) ss
    → total ss ≡ length p
    → ((k : ℕ) → k < length p → Covered ss k)
    → (d' : Downloader) × (receive_all (blocks_of i ss) d ≡ ok tt d')
      × (d'.torrent ≡ d.torrent)
      × (d'.current_piece_index ≡ i)
      × (d'.file_writer.q ≡ (
          if bytes_eq (calculate p) hash
          then d.file_writer.q ++ record { b = p; offset = pos (i * m) } ∷ []
          else d.file_writer.q))
unfolding receive_all
piece_received d i m p hash ss low new size some_bytes small expected width place slices sum cover =
    let filling : IsFilling d.torrent d.file_writer i p [] (begun i (length p) d) = record {
      same_torrent = refl;
      same_writer = refl;
      index = refl;
      size = length-replicate (length p) 0;
      received = refl;
      agrees = Agrees-none p (replicate (length p) 0);
    } in
    let (d', same_torrent, same_writer, whole, here, run) =
      receive_all-filling d.torrent d.file_writer i p small ss [] (begun i (length p) d) filling
        slices (total-positive ss (omega arith)) (omega arith) (λ k h. inl (cover k h)) in
    let begin =
      receive_all-begun d i (length p) new small size ss (total-positive ss (omega arith)) in
    let (e, verified, kept, still, queue) =
      verify_piece_lem d' i m hash low place (rw same_torrent expected) (rw same_torrent width) in
    (
      e,
      begin ∙ run ∙ ap (λ r. then_run (caught r) (λ u. receive_all [])) verified,
      kept ∙ same_torrent,
      still ∙ here,
      rw (same_writer, whole) at queue,
    )

-- The blocks of a piece that is not the current one, in any order, not empty, cut from the piece, with
-- no byte missing and none twice, leave the downloader with the piece handed to the writer, at its place
-- in the file and behind what the writer had, if its hash is the expected one, and with nothing handed
-- over if it is not.
pub piece_assembled :
    (d : Downloader) (i m : ℕ) (p hash : Buffer) (ss : List Slice)
    → i < 2 ^ 31
    → i ≢ d.current_piece_index
    → piece_len d.torrent i ≡ ok (pos (length p))
    → 0 < length p
    → length p < 2 ^ 31
    → get_elem? d.torrent.piece_hashes i ≡ some hash
    → d.torrent.piece_length ≡ pos m
    → i * m < 2 ^ 63
    → All (λ s. IsSlice p s × (0 < length s.1)) ss
    → total ss ≡ length p
    → ((k : ℕ) → k < length p → Covered ss k)
    → (d' : Downloader) × (receive_all (blocks_of i ss) d ≡ ok tt d')
      × (d'.file_writer.q ≡ (
          if bytes_eq (calculate p) hash
          then d.file_writer.q ++ record { b = p; offset = pos (i * m) } ∷ []
          else d.file_writer.q))
piece_assembled d i m p hash ss low new size some_bytes small expected width place slices sum
      cover =
    let (d', run, kept, here, queue) =
      piece_received d i m p hash ss low new size some_bytes small expected width place slices sum
        cover in
    (d', run, queue)
