-- ===== src/Download/Downloader/Progress.antt =====
-- What a received block leaves unchanged: the torrent, the count of downloaded bytes, and, where
-- the torrent holds raw hashes, the writer's queue.
use node_link.Base.{
  ℕ, ◌≡◌, refl, ap, sym, subst, ◌∙◌, false, ℤ, pos, ◌<ℤ◌, u64_of_int, ℤ_of_int, mul_int64, List, [],
  ◌∷◌, length, get_elem?, get_elem?-All, bytes_eq, bytes_eq→eq, Option, Option-cases, inl, inr,
  Result, M, ok, throw, undefined, out_of_fuel, then_run, in_range, Keeps, Keeps-then_run,
  Keeps-lift_outcome, arith, ◌==◌, Bool-cases,
}
use node_link.Parsing.Buffer.{Buffer}
use node_link.Parsing.Sha1.{calculate}
use node_link.Parsing.Sha1.Digest.{length-calculate}
use node_link.Parsing.TorrentFile.{TorrentFile, load}
use node_link.Parsing.TorrentFile.Load.{HasRawHashes, load-HasRawHashes}
use node_link.Tracker.Peer.{Peer}
use node_link.Download.Worker.{new_writer}
use node_link.Download.Downloader.{
  Downloader, new_downloader, is_complete, piece_len, assign_buffer, begin_piece, copy_block,
  update_speed, queue_piece, write_piece, verify_piece, check_integrity, on_block_received,
}

abbrev pub SameCount : Downloader → Downloader → Type 0
SameCount d d' = (d'.torrent ≡ d.torrent) × (d'.downloaded_bytes ≡ d.downloaded_bytes)

abbrev pub SameWriter : Downloader → Downloader → Type 0
SameWriter d d' = SameCount d d' × (d'.file_writer ≡ d.file_writer)

begin_piece-SameWriter : (d : Downloader) (i : ℕ) → Keeps (SameWriter d) (begin_piece i d)
unfolding begin_piece assign_buffer
begin_piece-SameWriter d i = elim (Bool-cases (i == d.current_piece_index)) [
  | inl same ↦ rw same ((refl, refl), refl)
  | inr new ↦ rw new (
      Keeps-then_run (SameWriter d) (SameWriter d) _ _ (λ s k. k)
        (Keeps-lift_outcome (SameWriter d) (piece_len d.torrent i)
          (record d { current_piece_index = i; piece_bytes_received = 0 }) ((refl, refl), refl))
        (λ len s k. ground arith))
]

copy_block-SameWriter :
    (d : Downloader) (offset : ℕ) (block : Buffer)
    → Keeps (SameWriter d) (copy_block offset block d)
unfolding copy_block
copy_block-SameWriter d offset block = ground arith

update_speed-SameWriter : (d : Downloader) (n : ℕ) → Keeps (SameWriter d) (update_speed n d)
unfolding update_speed
update_speed-SameWriter d n = ((refl, refl), refl)

-- A received block keeps what its verification keeps, if that concerns only the torrent, the
-- writer and the count.
module _ (R : Downloader → Type 0) (transfer : (d d' : Downloader) → R d → SameWriter d d' → R d')
    (verify : (d : Downloader) (i : ℕ) → R d → Keeps R (verify_piece i d)) where
  check_integrity-Keeps : (d : Downloader) (i : ℕ) → R d → Keeps R (check_integrity i d)
  unfolding check_integrity
  check_integrity-Keeps d i h =
      elim (Bool-cases (u64_of_int d.piece_bytes_received == length d.piece_buffer)) [
        | inl full ↦ rw full (verify d i h)
        | inr more ↦ rw more h
      ]

  pub on_block_received-Keeps :
      (d : Downloader) (i offset : ℕ) (block : Buffer)
      → R d
      → Keeps R (on_block_received i offset block d)
  unfolding on_block_received
  on_block_received-Keeps d i offset block h =
      Keeps-then_run (SameWriter d) R _ _ (λ s. transfer d s h) (begin_piece-SameWriter d i)
        λ _ s₁ k₁.
          let h₁ = transfer d s₁ h k₁ in
          Keeps-then_run (SameWriter s₁) R _ _ (λ s. transfer s₁ s h₁)
            (copy_block-SameWriter s₁ offset block)
            λ _ s₂ k₂.
              let h₂ = transfer s₁ s₂ h₁ k₂ in
              Keeps-then_run (SameWriter s₂) R _ _ (λ s. transfer s₂ s h₂)
                (update_speed-SameWriter s₂ (length block))
                λ _ s₃ k₃. check_integrity-Keeps s₃ i (transfer s₂ s₃ h₂ k₃)

queue_piece-SameCount :
    (d₀ d : Downloader) (offset : ℤ) → SameCount d₀ d → Keeps (SameCount d₀) (queue_piece offset d)
unfolding queue_piece
queue_piece-SameCount d₀ d offset h = ground arith

write_piece-SameCount :
    (d₀ d : Downloader) (i : ℕ) → SameCount d₀ d → Keeps (SameCount d₀) (write_piece i d)
unfolding write_piece
write_piece-SameCount d₀ d i h =
    Keeps-then_run (SameCount d₀) (SameCount d₀) _ _ (λ s k. k)
      (Keeps-lift_outcome (SameCount d₀) (mul_int64 (ℤ_of_int i) d.torrent.piece_length) d h)
      (λ offset s k. queue_piece-SameCount d₀ s offset k)

verify_piece-SameCount :
    (d₀ d : Downloader) (i : ℕ) → SameCount d₀ d → Keeps (SameCount d₀) (verify_piece i d)
unfolding verify_piece
verify_piece-SameCount d₀ d i h =
    Keeps-then_run (SameCount d₀) (SameCount d₀) _ _ (λ s k. k)
      (Keeps-lift_outcome (SameCount d₀)
        (in_range (get_elem? d.torrent.piece_hashes (u64_of_int i))) d h)
      (λ expected s k. elim (Bool-cases (bytes_eq (calculate d.piece_buffer) expected)) [
        | inl eq ↦ rw eq (write_piece-SameCount d₀ s i k)
        | inr ne ↦ rw ne k
      ])

verify_piece-SameWriter :
    (d₀ d : Downloader) (i : ℕ)
    → HasRawHashes d₀.torrent
    → SameWriter d₀ d
    → Keeps (SameWriter d₀) (verify_piece i d)
unfolding verify_piece
verify_piece-SameWriter d₀ d i raw h =
    elim (Option-cases (get_elem? d.torrent.piece_hashes (u64_of_int i))) [
      | inl out ↦ rw out tt
      | inr (hash, found) ↦ rw found (elim (Bool-cases (bytes_eq (calculate d.piece_buffer) hash)) [
        | inl eq ↦
            let raw_d : HasRawHashes d.torrent = subst HasRawHashes (sym h.0.0) raw in
            let text = length-calculate d.piece_buffer in
            let same = ap length (bytes_eq→eq (calculate d.piece_buffer) hash eq) in
            let short = get_elem?-All _ d.torrent.piece_hashes _ hash found raw_d in
            absurd (omega arith)
        | inr ne ↦ rw ne h
      ])
    ]

-- One received block.
pub record Block : Type 0 where
  pub piece_index : ℕ
  pub offset : ℕ
  pub bytes : Buffer

-- A block whose handling throws closes its connection, and leaves the downloader as it then is.
abbrev pub caught : Result Downloader (Unit {0}) → Result Downloader (Unit {0})
caught (throw e d) = ok tt d
caught r = r

-- Blocks in the order in which the connections deliver them.
unfoldable pub receive_all : List Block → M Downloader (Unit {0})
receive_all [] d = ok tt d
receive_all (b ∷ bs) d =
    then_run (caught (on_block_received b.piece_index b.offset b.bytes d)) λ _. receive_all bs

caught-Keeps :
    (R : Downloader → Type 0) (r : Result Downloader (Unit {0})) → Keeps R r → Keeps R (caught r)
caught-Keeps R (ok a s) k = k
caught-Keeps R (throw e s) k = k
caught-Keeps R undefined k = k
caught-Keeps R out_of_fuel k = k

module _ (R : Downloader → Type 0)
    (step : (d : Downloader) (i offset : ℕ) (block : Buffer)
      → R d
      → Keeps R (on_block_received i offset block d)) where
  receive_all-Keeps : (bs : List Block) (d : Downloader) → R d → Keeps R (receive_all bs d)
  unfolding receive_all
  receive_all-Keeps [] d h = h
  receive_all-Keeps (b ∷ bs) d h =
      let first = on_block_received b.piece_index b.offset b.bytes d in
      Keeps-then_run R R (caught first) _ (λ s k. k)
        (caught-Keeps R first (step d b.piece_index b.offset b.bytes h))
        (λ _ s k. receive_all-Keeps bs s k)

pub on_block_received-SameCount :
    (d₀ d : Downloader) (i offset : ℕ) (block : Buffer)
    → SameCount d₀ d
    → Keeps (SameCount d₀) (on_block_received i offset block d)
on_block_received-SameCount d₀ =
    on_block_received-Keeps (SameCount d₀) (λ s s' h k. (k.0.0 ∙ h.0, k.0.1 ∙ h.1))
      (λ s i h. verify_piece-SameCount d₀ s i h)

pub on_block_received-SameWriter :
    (d₀ d : Downloader) (i offset : ℕ) (block : Buffer)
    → HasRawHashes d₀.torrent
    → SameWriter d₀ d
    → Keeps (SameWriter d₀) (on_block_received i offset block d)
on_block_received-SameWriter d₀ d i offset block raw =
    on_block_received-Keeps (SameWriter d₀)
      (λ s s' h k. ((k.0.0 ∙ h.0.0, k.0.1 ∙ h.0.1), k.1 ∙ h.1))
      (λ s i h. verify_piece-SameWriter d₀ s i raw h) d i offset block

receive_all-SameCount : (bs : List Block) (d : Downloader) → Keeps (SameCount d) (receive_all bs d)
receive_all-SameCount bs d =
    receive_all-Keeps (SameCount d) (on_block_received-SameCount d) bs d (refl, refl)

receive_all-SameWriter :
    (bs : List Block) (d : Downloader)
    → HasRawHashes d.torrent
    → Keeps (SameWriter d) (receive_all bs d)
receive_all-SameWriter bs d raw =
    receive_all-Keeps (SameWriter d)
      (λ s i offset block h. on_block_received-SameWriter d s i offset block raw h) bs d
      ((refl, refl), refl)

-- However many blocks arrive, the count of downloaded bytes stays at zero, since each piece's size
-- is taken after its buffer was moved to the writer: a torrent with bytes to download is never
-- complete.
never_complete :
    (t : TorrentFile) (id : Buffer) (peers : List Peer) (bs : List Block) (d : Downloader)
    → pos 0 <ℤ t.length
    → receive_all bs (new_downloader t id peers) ≡ ok tt d
    → (d.downloaded_bytes ≡ pos 0) × (is_complete d ≡ false)
unfolding is_complete new_downloader
never_complete t id peers bs d positive e =
    let kept =
      subst (Keeps (SameCount (new_downloader t id peers))) e
        (receive_all-SameCount bs (new_downloader t id peers)) in
    (kept.1, rw (kept.0, kept.1) (ground arith))

-- For every torrent that `Load` returns, no piece is ever handed to the writer, whatever blocks
-- arrive: the computed hash is hexadecimal text of 40 characters, and the expected ones are the raw
-- 20 bytes.
never_written :
    (sha1 : Buffer → Buffer) (file : Option Buffer) (t : TorrentFile) (id : Buffer)
    (peers : List Peer) (bs : List Block) (d : Downloader)
    → load sha1 file ≡ ok t
    → receive_all bs (new_downloader t id peers) ≡ ok tt d
    → d.file_writer ≡ new_writer
unfolding new_downloader
never_written sha1 file t id peers bs d loaded e =
    (subst (Keeps (SameWriter (new_downloader t id peers))) e (
      receive_all-SameWriter bs (new_downloader t id peers)
        (load-HasRawHashes sha1 file t loaded))).1
