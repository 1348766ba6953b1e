-- ===== src/Download/Downloader/Interleaved.antt =====
-- OnBlockReceived of source/download/downloader.cpp when the blocks of different pieces alternate, as they do
-- when several connections download at once: the pieces share one buffer.
use node_link.Base.{
  ℕ, ◌+◌, ◌-◌, ◌%◌, ◌^◌, ◌<◌, ◌≤◌, ◌≡◌, ◌≢◌, refl, sym, ap, subst, ◌∙◌, inl, inr, false, pos,
  u64_of_int, List, [], ◌∷◌, length, replicate, length-replicate, length-overwrite, overwrite,
  Result, ok, throw, undefined, out_of_fuel, then_run, Ensures, Ensures-then_run, leb, ltb, ◌==◌,
  Bool-cases, arith,
}
use node_link.Parsing.Buffer.{size_t}
use node_link.Parsing.TorrentFile.{TorrentFile}
use node_link.Download.Worker.{Writer, count_bytes}
use node_link.Download.Downloader.{
  Downloader, piece_len, assign_buffer, begin_piece, copy_block, update_speed, check_integrity,
  on_block_received,
}
use node_link.Download.Downloader.Progress.{Block, caught, receive_all}
use node_link.Download.Downloader.Assembly.Filling.{check_integrity_more}

-- The block is smaller than its piece, and its offset is not negative.
abbrev pub IsPartial : TorrentFile → Block → Type 0
IsPartial t b =
    (n : ℕ) × (piece_len t b.piece_index ≡ ok (pos n))
    × (length b.bytes < n)
    × (n < 2 ^ 31)
    × (b.offset < 2 ^ 31)

-- No block comes directly after one of the same piece.
abbrev pub IsAlternating : TorrentFile → ℕ → List Block → Type 0
IsAlternating t last [] = Unit
IsAlternating t last (b ∷ bs) =
    (b.piece_index ≢ last) × IsPartial t b × IsAlternating t b.piece_index bs

-- The downloader with nothing received of the piece `i`, or a part of it.
record IsUnfinished (t : TorrentFile) (w : Writer) (i : ℕ) (d : Downloader) : Type 0 where
  same_torrent : d.torrent ≡ t
  same_writer : d.file_writer ≡ w
  index : d.current_piece_index ≡ i
  unfinished : d.piece_bytes_received < length d.piece_buffer
  small : length d.piece_buffer < 2 ^ 31

-- The call returns, and leaves a downloader of which `P` holds.
abbrev Returned : (Downloader → Type 0) → Result Downloader (Unit {0}) → Type 0
Returned P = Ensures (λ u. P) (λ e. ⊥)

returned :
    (P : Downloader → Type 0) (r : Result Downloader (Unit {0}))
    → Returned P r
    → (e : Downloader) × (r ≡ ok tt e) × P e
returned P (ok u e) h = (e, refl, h)
returned P (throw x e) h = absurd h
returned P undefined h = absurd h
returned P out_of_fuel h = absurd h

module _ (t : TorrentFile) (w : Writer) (b : Block) (d : Downloader) (same : d.torrent ≡ t)
    (writer : d.file_writer ≡ w) (new : b.piece_index ≢ d.current_piece_index)
    (partial : IsPartial t b) where
  abbrev fresh : Downloader
  fresh = record d {
    current_piece_index = b.piece_index;
    piece_bytes_received = 0;
    piece_buffer = replicate partial.0 0;
  }

  begin_piece_lem : begin_piece b.piece_index d ≡ ok tt fresh
  unfolding begin_piece assign_buffer
  begin_piece_lem =
      let other : (b.piece_index == d.current_piece_index) ≡ false = ground arith in
      let wrapped : partial.0 % 2 ^ 64 ≡ partial.0 = omega (arith, partial.3) in
      let allowed : ltb (2 ^ 63 - 1) partial.0 ≡ false = ground (arith, partial.3) in
      rw (other, same, partial.1, wrapped, allowed) refl

  abbrev copied : Downloader
  copied = record fresh {
    piece_buffer = overwrite fresh.piece_buffer b.offset b.bytes;
    piece_bytes_received = (0 + length b.bytes) % 2 ^ 32;
  }

  copy_block-IsUnfinished :
      Returned (IsUnfinished t w b.piece_index) (copy_block b.offset b.bytes fresh)
  unfolding copy_block
  copy_block-IsUnfinished =
      let size : length fresh.piece_buffer ≡ partial.0 = length-replicate partial.0 0 in
      let start : u64_of_int b.offset ≡ b.offset = ground (arith, partial.4) in
      let end : size_t (b.offset + length b.bytes) ≡ b.offset + length b.bytes =
        omega (arith, partial.2, partial.3, partial.4) in
      elim (Bool-cases (leb (b.offset + length b.bytes) (length fresh.piece_buffer))) [
        | inr dropped ↦
            rw (start, end, dropped)
              (record {
                same_torrent = same;
                same_writer = writer;
                index = refl;
                unfinished = omega (arith, size, partial.2);
                small = omega (arith, size, partial.3);
              })
        | inl inside ↦
            let fits : b.offset + length b.bytes ≤ length fresh.piece_buffer = ground arith in
            let kept = length-overwrite fresh.piece_buffer b.offset b.bytes fits in
            rw (start, end, inside)
              (record {
                same_torrent = same;
                same_writer = writer;
                index = refl;
                unfinished = omega (arith, kept, size, partial.2, partial.3);
                small = omega (arith, kept, size, partial.3);
              })
      ]

  counted-IsUnfinished :
      (e : Downloader)
      → IsUnfinished t w b.piece_index e
      → Returned (IsUnfinished t w b.piece_index) (
          check_integrity b.piece_index (record e { speed = count_bytes e.speed (length b.bytes) }))
  counted-IsUnfinished e h =
      let more =
        check_integrity_more b.piece_index
          (record e { speed = count_bytes e.speed (length b.bytes) })
          (h.unfinished, omega (arith, h.unfinished, h.small)) in
      subst (Returned (IsUnfinished t w b.piece_index)) (sym more) (record {
        same_torrent = h.same_torrent;
        same_writer = h.same_writer;
        index = h.index;
        unfinished = h.unfinished;
        small = h.small;
      })

  received-IsUnfinished :
      Returned (IsUnfinished t w b.piece_index) (on_block_received b.piece_index b.offset b.bytes d)
  unfolding on_block_received update_speed
  received-IsUnfinished = rw begin_piece_lem (
      Ensures-then_run (λ u. IsUnfinished t w b.piece_index) (λ u. IsUnfinished t w b.piece_index)
        (λ e. ⊥) _ _ copy_block-IsUnfinished (λ u e h. counted-IsUnfinished e h))

-- Blocks at offsets that are not negative, each smaller than its piece, of fewer than 2^31 bytes, and none
-- directly after one of the same piece, are all received, and never complete a piece: whatever they hold,
-- nothing is handed to the writer.
pub receive_all_alternating :
    (bs : List Block) (d : Downloader)
    → IsAlternating d.torrent d.current_piece_index bs
    → (e : Downloader) × (receive_all bs d ≡ ok tt e) × (e.file_writer ≡ d.file_writer)
unfolding receive_all
receive_all_alternating [] d h = (d, refl, refl)
receive_all_alternating (b ∷ bs) d (new, partial, rest) =
    let (e, run, h) =
      returned _ _ (received-IsUnfinished d.torrent d.file_writer b d refl refl new partial) in
    let (e', more, writer) = receive_all_alternating bs e (
      subst (λ t. IsAlternating t e.current_piece_index bs) (sym h.same_torrent)
        (subst (λ i. IsAlternating d.torrent i bs) (sym h.index) rest)) in
    (e', ap (λ r. then_run (caught r) (λ u. receive_all bs)) run ∙ more, writer ∙ h.same_writer)
