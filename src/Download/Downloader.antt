-- ===== src/Download/Downloader.antt =====
-- include/download/downloader.h and source/download/downloader.cpp: which piece is requested next,
-- and the assembly, the check and the hand-over of a piece.
pub mod Progress
pub mod Assembly
pub mod Whole
pub mod Interleaved
pub mod Integrity
pub mod Blocks
mod Tests
use node_link.Base.{
  overwrite, ℕ, zero, suc, ◌+◌, ◌-◌, ◌%◌, ◌^◌, Bool, true, false, ℤ, pos, negsuc, ◌+ℤ◌, leb_ℤ,
  u64_of_ℤ, minus_one, ℤ_of_int, u64_of_int, mul_int64, rem_int64, List, [], ◌∷◌, ◌++◌, length,
  get_elem?, take, drop, replicate, bytes_eq, Outcome, ok, throw, undefined, length_error, bind, M,
  Result, ◌>>=◌, ◌>>◌, pure, lift_outcome, run_on, in_range, leb, ltb, ◌==◌, if◌then◌else◌,
}
use node_link.Parsing.Buffer.{Buffer, size_t}
use node_link.Parsing.Sha1.{calculate}
use node_link.Parsing.TorrentFile.{TorrentFile}
use node_link.Tracker.Peer.{Peer}
use node_link.Download.Worker.{Writer, Speed, new_writer, new_speed, add, count_bytes}

pub record Downloader : Type 0 where
  pub torrent : TorrentFile
  pub my_id : Buffer
  pub peers : List Peer
  pub file_writer : Writer
  pub speed : Speed
  pub next_req_index : ℕ
  pub downloaded_bytes : ℤ
  pub piece_buffer : Buffer
  pub piece_bytes_received : ℕ
  pub current_piece_index : ℕ

unfoldable pub new_downloader : TorrentFile → Buffer → List Peer → Downloader
new_downloader tf id p_list = record {
  torrent = tf;
  my_id = id;
  peers = p_list;
  file_writer = new_writer;
  speed = new_speed (u64_of_ℤ tf.length);
  next_req_index = 0;
  downloaded_bytes = pos 0;
  piece_buffer = [];
  piece_bytes_received = 0;
  current_piece_index = minus_one;
}

-- `int idx = next_req_index++; if (idx >= piece_hashes.size()) return -1; return idx;`
unfoldable pub get_next_piece_to_request : M Downloader ℕ
get_next_piece_to_request d =
    let idx = d.next_req_index in
    ok (if leb (length d.torrent.piece_hashes) (u64_of_int idx) then minus_one else idx)
      (record d { next_req_index = (idx + 1) % 2 ^ 32 })

unfoldable pub is_complete : Downloader → Bool
is_complete d = leb_ℤ d.torrent.length d.downloaded_bytes

-- The comparison of an `int` piece index with `piece_hashes.size() - 1`.
abbrev pub is_last_piece : TorrentFile → ℕ → Bool
is_last_piece t index = u64_of_int index == size_t (length t.piece_hashes + (2 ^ 64 - 1))

-- `if (rem != 0) piece_len = rem;`
abbrev pub or_remainder : ℤ → ℤ → ℤ
or_remainder piece_len (pos zero) = piece_len
or_remainder piece_len (pos (suc n)) = pos (suc n)
or_remainder piece_len (negsuc n) = negsuc n

-- The length of a piece: the last one may be shorter.
unfoldable pub piece_len : TorrentFile → ℕ → Outcome ℤ
piece_len t index =
    if is_last_piece t index
    then (bind (rem_int64 t.length t.piece_length) λ rem. ok (or_remainder t.piece_length rem))
    else ok t.piece_length

-- `piece_buffer.assign(piece_len, 0)`: a length over the vector's maximum, as a negative one is, is
-- refused by an exception.
unfoldable pub assign_buffer : ℤ → M Downloader (Unit {0})
assign_buffer len d =
    if ltb (2 ^ 63 - 1) (u64_of_ℤ len)
    then throw length_error d
    else ok tt (record d { piece_buffer = replicate (u64_of_ℤ len) 0 })

-- 1. Initialize Buffer for New Piece
unfoldable pub begin_piece : ℕ → M Downloader (Unit {0})
begin_piece piece_index d =
    if piece_index == d.current_piece_index
    then ok tt d
    else (run_on (record d { current_piece_index = piece_index; piece_bytes_received = 0 })
        do len ← lift_outcome (piece_len d.torrent piece_index); assign_buffer len)

-- 2. Copy Data to RAM Buffer, where `overwrite` is the `memcpy`. The guard's sum wraps as `size_t`; a block outside the buffer that
-- passes it is undefined behaviour.
unfoldable pub copy_block : ℕ → Buffer → M Downloader (Unit {0})
copy_block offset block d =
    if leb (size_t (u64_of_int offset + length block)) (length d.piece_buffer)
    then (if leb (u64_of_int offset + length block) (length d.piece_buffer)
        then ok tt (record d {
          piece_buffer = overwrite d.piece_buffer offset block;
          piece_bytes_received = (d.piece_bytes_received + length block) % 2 ^ 32;
        })
        else undefined)
    else ok tt d

-- 3. Update Speed UI
unfoldable pub update_speed : ℕ → M Downloader (Unit {0})
unfolding count_bytes
update_speed bytes d = ok tt (record d { speed = count_bytes d.speed bytes })

-- The piece is handed to the writer, and `downloaded_bytes` grows by the size that the buffer has
-- after the move.
unfoldable pub queue_piece : ℤ → M Downloader (Unit {0})
unfolding add
queue_piece global_offset d =
    let (w, moved) = add d.file_writer d.piece_buffer global_offset in
    ok tt (record d {
      file_writer = w;
      piece_buffer = moved;
      downloaded_bytes = d.downloaded_bytes +ℤ pos (length moved);
    })

-- SUCCESS: Write to Disk
unfoldable pub write_piece : ℕ → M Downloader (Unit {0})
write_piece piece_index d = run_on d do
  global_offset ← lift_outcome (mul_int64 (ℤ_of_int piece_index) d.torrent.piece_length)
  queue_piece global_offset

-- A, B and C: compare the piece's hash with the expected one. On a mismatch the piece is discarded.
unfoldable pub verify_piece : ℕ → M Downloader (Unit {0})
verify_piece piece_index d = run_on d do
  expected_hash ←
      lift_outcome (in_range (get_elem? d.torrent.piece_hashes (u64_of_int piece_index)))
  if bytes_eq (calculate d.piece_buffer) expected_hash then write_piece piece_index else pure tt

-- 4. CHECK INTEGRITY: Is the Piece Full?
unfoldable pub check_integrity : ℕ → M Downloader (Unit {0})
check_integrity piece_index d =
    if u64_of_int d.piece_bytes_received == length d.piece_buffer
    then verify_piece piece_index d
    else ok tt d

unfoldable pub on_block_received : ℕ → ℕ → Buffer → M Downloader (Unit {0})
on_block_received piece_index offset block = do
  begin_piece piece_index
  copy_block offset block
  update_speed (length block)
  check_integrity piece_index
