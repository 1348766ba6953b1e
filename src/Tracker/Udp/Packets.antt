-- ===== src/Tracker/Udp/Packets.antt =====
-- The packets of the UDP tracker: their layout, and which connect responses are taken.
use node_link.Base.{
  ℕ, ◌+◌, ◌/◌, ◌%◌, ◌^◌, ◌≤◌, ◌<◌, ◌≡◌, refl, ap, sym, ◌∙◌, [], ◌∷◌, ◌++◌, length, take, drop,
  length-append, take-append_exact, drop-append_exact, drop-append_past, length-take,
  take-append-drop, ok, arith, ltb, ◌==◌, true, false, ℤ, pos, negsuc, u64_of_ℤ,
}
use node_link.Parsing.Buffer.{Buffer, IsBytes, be32, be32_bytes}
use node_link.Parsing.Buffer.RoundTrip.{be32-be32_bytes, be32_bytes-be32}
use node_link.Parsing.TorrentFile.{TorrentFile}
use node_link.Tracker.Udp.{write_be64, first_word, fold_bytes, read_connect, announce_request}

-- The connection id that is read is the one that was written.
pub fold_bytes-write_be64 : (v : ℕ) → v < 2 ^ 64 → fold_bytes 0 (write_be64 [] v) ≡ v
unfolding write_be64
fold_bytes-write_be64 v h = omega arith

pub length-write_be64 : (v : ℕ) → length (write_be64 [] v) ≡ 8
unfolding write_be64
length-write_be64 v = refl

pub read_connect-valid :
    (transaction_id connection_id : ℕ) (rest : Buffer)
    → transaction_id < 2 ^ 32
    → connection_id < 2 ^ 64
    → read_connect transaction_id
        (be32_bytes 0 ++ (be32_bytes transaction_id ++ (write_be64 [] connection_id ++ rest)))
      ≡ ok connection_id
unfolding read_connect first_word write_be64
read_connect-valid tid cid rest ht hc =
    let same : (be32 (tid / 2 ^ 24 % 256) (tid / 2 ^ 16 % 256) (tid / 2 ^ 8 % 256) (tid % 256)
          == tid)
        ≡ true =
      ground (arith, be32-be32_bytes tid ht) in
    let long : ltb (length (be32_bytes 0 ++ (be32_bytes tid ++ (write_be64 [] cid ++ rest)))) 16
        ≡ false =
      ground arith in
    rw (long, same, read_connect) (ap ok (fold_bytes-write_be64 cid hc))

-- A connect response is taken only if it has 16 bytes at least, of which the first four are zero and the
-- next four are the transaction id of the request.
pub read_connect_sound :
    (transaction_id connection_id : ℕ) (response : Buffer)
    → IsBytes response
    → read_connect transaction_id response ≡ ok connection_id
    → (id : Buffer) × (rest : Buffer) × (length id ≡ 8)
      × (response ≡ be32_bytes 0 ++ (be32_bytes transaction_id ++ (id ++ rest)))
      × (connection_id ≡ fold_bytes 0 id)
unfolding read_connect first_word
read_connect_sound tid cid (a0 ∷ a1 ∷ a2 ∷ a3 ∷ t0 ∷ t1 ∷ t2 ∷ t3 ∷ s) h e =
    let facts : (be32 a0 a1 a2 a3 ≡ 0)
        × (be32 t0 t1 t2 t3 ≡ tid)
        × (8 ≤ length s)
        × (cid ≡ fold_bytes 0 (take 8 s)) =
      ground arith in
    let zeros : be32_bytes 0 ≡ a0 ∷ a1 ∷ a2 ∷ a3 ∷ [] =
      ap be32_bytes (sym facts.0) ∙ be32_bytes-be32 a0 a1 a2 a3 h.0 h.1.0 h.1.1.0 h.1.1.1.0 in
    let same : be32_bytes tid ≡ t0 ∷ t1 ∷ t2 ∷ t3 ∷ [] =
      ap be32_bytes (sym facts.1)
      ∙ be32_bytes-be32 t0 t1 t2 t3 (omega arith) (omega arith) (omega arith) (omega arith) in
    (
      take 8 s,
      drop 8 s,
      omega (arith, length-take 8 s),
      ap (λ x. x ++ (t0 ∷ t1 ∷ t2 ∷ t3 ∷ s)) (sym zeros)
          ∙ ap (λ x. be32_bytes 0 ++ (x ++ s)) (sym same)
          ∙ ap (λ x. be32_bytes 0 ++ (be32_bytes tid ++ x)) (sym (take-append-drop 8 s)),
      facts.3,
    )
read_connect_sound tid cid _ h e = absurd (ground arith)

u64_of_ℤ-bound : (z : ℤ) → u64_of_ℤ z < 2 ^ 64
u64_of_ℤ-bound (pos n) = omega arith
u64_of_ℤ-bound (negsuc n) = omega arith

-- With an info hash and a peer id of 20 bytes each, and numbers that fit their fields, the announce
-- request has 98 bytes: the connection id in the first eight, then the action 1 and the transaction id,
-- the info hash in the bytes 16 to 35, the peer id in the bytes 36 to 55, the bytes left to download in
-- the bytes 64 to 71, and the port in the last two.
pub announce_request_layout :
    (connection_id transaction_id key : ℕ) (t : TorrentFile) (peer_id : Buffer) (port : ℕ)
    → length t.info_hash ≡ 20
    → length peer_id ≡ 20
    → connection_id < 2 ^ 64
    → transaction_id < 2 ^ 32
    → port < 2 ^ 16
    → let packet = announce_request connection_id transaction_id key t peer_id port in
      (length packet ≡ 98)
      × (fold_bytes 0 (take 8 packet) ≡ connection_id)
      × (fold_bytes 0 (take 4 (drop 8 packet)) ≡ 1)
      × (fold_bytes 0 (take 4 (drop 12 packet)) ≡ transaction_id)
      × (take 20 (drop 16 packet) ≡ t.info_hash)
      × (take 20 (drop 36 packet) ≡ peer_id)
      × (fold_bytes 0 (take 8 (drop 64 packet)) ≡ u64_of_ℤ t.length)
      × (fold_bytes 0 (drop 96 packet) ≡ port)
unfolding announce_request write_be64
announce_request_layout cid tid key t peer_id port hi hp hc ht hport =
    let size : (s : Buffer) → length (t.info_hash ++ (peer_id ++ s)) ≡ 40 + length s =
      λ s. omega (arith, length-append t.info_hash (peer_id ++ s), length-append peer_id s) in
    let past : (k m : ℕ) (s : Buffer)
        → k ≡ 40 + m
        → drop k (t.info_hash ++ (peer_id ++ s)) ≡ drop m s =
      λ k m s e.
        drop-append_past (20 + m) k t.info_hash (peer_id ++ s) (omega arith)
        ∙ drop-append_past m (20 + m) peer_id s (omega arith) in
    (
      rw (size, announce_request) (omega arith),
      fold_bytes-write_be64 cid hc,
      refl,
      omega arith,
      take-append_exact 20 t.info_hash _ hi,
      ap (take 20) (drop-append_exact 20 t.info_hash _ hi) ∙ take-append_exact 20 peer_id _ hp,
      ap (λ s. fold_bytes 0 (take 8 s)) (past 48 8 _ refl)
          ∙ fold_bytes-write_be64 (u64_of_ℤ t.length) (u64_of_ℤ-bound t.length),
      ap (fold_bytes 0) (past 80 40 _ refl) ∙ omega arith,
    )
