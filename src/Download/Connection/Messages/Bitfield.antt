-- ===== src/Download/Connection/Messages/Bitfield.antt =====
-- The bitfield message: which pieces a peer has after it.
use node_link.Base.{
  ℕ, zero, suc, ◌+◌, ◌-◌, ◌*◌, ◌/◌, ◌%◌, ◌^◌, ◌≤◌, ◌<◌, ◌≡◌, refl, ap, sym, subst, ◌∙◌, Bool, true,
  false, ◌&&◌, ◌||◌, List, [], ◌∷◌, length, take, set, replicate, get_or, length-set, length-append,
  length-take, length-replicate, u64_of_int, ok, ltb, leb, ◌==◌, if◌then◌else◌, Bool-cases, inl,
  inr, ==→eq, ==→ne, ltb→lt, arith,
}
use node_link.Parsing.Buffer.{Buffer}
use node_link.Download.Connection.State.{Link, Env, has_piece}
use node_link.Download.Connection.Messages.{resize, mark_bit, mark_bits, mark_bytes, on_bitfield}

-- Bit `n` of a byte and of a byte string, the most significant one first.
abbrev pub bit_of : ℕ → ℕ → Bool
bit_of byte n = byte / 2 ^ (7 - n) % 2 == 1

abbrev pub bit_at : Buffer → ℕ → Bool
bit_at [] n = false
bit_at (byte ∷ s) n = if ltb n 8 then bit_of byte n else bit_at s (n - 8)

get_or-set_same : (xs : List Bool) (i : ℕ) → i < length xs → get_or (set xs i true) i false ≡ true
get_or-set_same [] i h = absurd (omega arith)
get_or-set_same (x ∷ xs) zero h = refl
get_or-set_same (x ∷ xs) (suc i) h = get_or-set_same xs i (omega arith)

get_or-set_other :
    (xs : List Bool) (i k : ℕ) → ¬ (k ≡ i) → get_or (set xs i true) k false ≡ get_or xs k false
get_or-set_other [] i k h = refl
get_or-set_other (x ∷ xs) zero zero h = absurd (h refl)
get_or-set_other (x ∷ xs) zero (suc k) h = refl
get_or-set_other (x ∷ xs) (suc i) zero h = refl
get_or-set_other (x ∷ xs) (suc i) (suc k) h = get_or-set_other xs i k (λ e. h (ap suc e))

length-mark_bit : (byte i bit : ℕ) (p : List Bool) → length (mark_bit byte i bit p) ≡ length p
length-mark_bit byte i bit p = let same = length-set p (i * 8 + bit) true in ground (arith, same)

mark_bit-same :
    (byte i bit : ℕ) (p : List Bool)
    → get_or (mark_bit byte i bit p) (i * 8 + bit) false
      ≡ get_or p (i * 8 + bit) false || (ltb (i * 8 + bit) (length p) && bit_of byte bit)
mark_bit-same byte i bit p = elim (Bool-cases (bit_of byte bit)) [
  | inl one ↦ elim (Bool-cases (ltb (i * 8 + bit) (length p))) [
    | inl inside ↦
        rw (one, inside)
          (let same = get_or-set_same p (i * 8 + bit) (ltb→lt (i * 8 + bit) (length p) inside) in
            ground (arith, same))
    | inr out ↦ rw (one, out) (ground arith)
  ]
  | inr clear ↦ rw clear (ground arith)
]

mark_bit-other :
    (byte i bit k : ℕ) (p : List Bool)
    → ¬ (k ≡ i * 8 + bit)
    → get_or (mark_bit byte i bit p) k false ≡ get_or p k false
mark_bit-other byte i bit k p h =
    let same = get_or-set_other p (i * 8 + bit) k h in ground (arith, same)

-- What a round over the bits from `bit` on adds to piece `k`.
abbrev in_round : ℕ → ℕ → ℕ → ℕ → ℕ → ℕ → Bool
in_round rounds byte i bit k count =
    leb (i * 8 + bit) k
    && (ltb k (i * 8 + bit + rounds) && (ltb k count && bit_of byte (k - i * 8)))

mark_bits_lem :
    (rounds byte i bit k : ℕ) (p : List Bool)
    → get_or (mark_bits rounds byte i bit p) k false
      ≡ get_or p k false || in_round rounds byte i bit k (length p)
unfolding mark_bits
mark_bits_lem zero byte i bit k p = ground arith
mark_bits_lem (suc rounds) byte i bit k p =
    let ih = mark_bits_lem rounds byte i (bit + 1) k (mark_bit byte i bit p) in
    let size = length-mark_bit byte i bit p in
    elim (Bool-cases (k == i * 8 + bit)) [
      | inl here ↦
          let e = ==→eq k (i * 8 + bit) here in
          let place : bit_of byte (k - i * 8) ≡ bit_of byte bit =
            (let n : k - i * 8 ≡ bit = omega arith in ap (bit_of byte) n) in
          let marked =
            subst
              (λ n.
                get_or (mark_bit byte i bit p) n false
                ≡ get_or p n false || (ltb (i * 8 + bit) (length p) && bit_of byte bit))
              (sym e) (mark_bit-same byte i bit p) in
          let past : leb (i * 8 + (bit + 1)) k ≡ false = ground arith in
          let from : leb (i * 8 + bit) k ≡ true = ground arith in
          let upto : ltb k (i * 8 + bit + suc rounds) ≡ true = ground arith in
          let within : ltb k (length p) ≡ ltb (i * 8 + bit) (length p) =
            ap (λ n. ltb n (length p)) e in
          ih ∙ rw (past, from, upto, within, place, marked) (ground arith)
      | inr there ↦
          let other = mark_bit-other byte i bit k p (==→ne k (i * 8 + bit) there) in
          let from : leb (i * 8 + (bit + 1)) k ≡ leb (i * 8 + bit) k = ground arith in
          let upto : i * 8 + (bit + 1) + rounds ≡ i * 8 + bit + suc rounds = omega arith in
          ih ∙ rw (other, from, upto, size) refl
    ]

length-mark_bits :
    (rounds byte i bit : ℕ) (p : List Bool) → length (mark_bits rounds byte i bit p) ≡ length p
unfolding mark_bits
length-mark_bits zero byte i bit p = refl
length-mark_bits (suc rounds) byte i bit p =
    length-mark_bits rounds byte i (bit + 1) (mark_bit byte i bit p) ∙ length-mark_bit byte i bit p

length-mark_bytes : (s : Buffer) (i : ℕ) (p : List Bool) → length (mark_bytes s i p) ≡ length p
unfolding mark_bytes
length-mark_bytes [] i p = refl
length-mark_bytes (byte ∷ s) i p =
    length-mark_bytes s (i + 1) (mark_bits 8 byte i 0 p) ∙ length-mark_bits 8 byte i 0 p

mark_bytes_lem :
    (s : Buffer) (i k : ℕ) (p : List Bool)
    → get_or (mark_bytes s i p) k false
      ≡ get_or p k false || (leb (i * 8) k && (ltb k (length p) && bit_at s (k - i * 8)))
unfolding mark_bytes
mark_bytes_lem [] i k p = ground arith
mark_bytes_lem (byte ∷ s) i k p =
    let marked = mark_bits_lem 8 byte i 0 k p in
    let ih = mark_bytes_lem s (i + 1) k (mark_bits 8 byte i 0 p) in
    let size = length-mark_bits 8 byte i 0 p in
    let index : k - (i + 1) * 8 ≡ k - i * 8 - 8 = omega arith in
    ih
    ∙ rw (marked, size, index)
        (elim (Bool-cases (leb (i * 8) k)) [
          | inr before ↦
              let first : leb (i * 8 + 0) k ≡ false = ground arith in
              let later : leb ((i + 1) * 8) k ≡ false = ground arith in
              rw (before, first, later) (ground arith)
          | inl from ↦
              let first : leb (i * 8 + 0) k ≡ true = ground arith in
              elim (Bool-cases (ltb k (i * 8 + 0 + 8))) [
                | inl here ↦
                    let later : leb ((i + 1) * 8) k ≡ false = ground arith in
                    let small : ltb (k - i * 8) 8 ≡ true = ground arith in
                    rw (from, first, here, later, small) (ground arith)
                | inr there ↦
                    let later : leb ((i + 1) * 8) k ≡ true = ground arith in
                    let large : ltb (k - i * 8) 8 ≡ false = ground arith in
                    rw (from, first, there, later, large) (ground arith)
              ]
        ])

get_or-replicate : (n k : ℕ) → get_or (replicate n false) k false ≡ false
get_or-replicate zero k = refl
get_or-replicate (suc n) zero = refl
get_or-replicate (suc n) (suc k) = get_or-replicate n k

get_or-resize :
    (n k : ℕ) (p : List Bool) → get_or (resize n p) k false ≡ ltb k n && get_or p k false
get_or-resize zero k p = get_or-replicate (0 - length p) k ∙ ground arith
get_or-resize (suc n) k [] = get_or-replicate (suc n - 0) k ∙ ground arith
get_or-resize (suc n) zero (x ∷ p) = ground arith
get_or-resize (suc n) (suc k) (x ∷ p) =
    let rest : suc n - suc (length p) ≡ n - length p = omega arith in
    let same : ltb (suc k) (suc n) ≡ ltb k n = ground arith in rw (rest, same) (get_or-resize n k p)

length-resize : (n : ℕ) (p : List Bool) → length (resize n p) ≡ n
length-resize n p = omega (
  arith,
  length-append (take n p) (replicate (n - length p) false),
  length-take n p,
  length-replicate (n - length p) false,
)

get_or-out : (xs : List Bool) (k : ℕ) → length xs ≤ k → get_or xs k false ≡ false
get_or-out [] k h = refl
get_or-out (x ∷ xs) zero h = absurd (omega arith)
get_or-out (x ∷ xs) (suc k) h = get_or-out xs k (omega arith)

has_piece_lem : (l : Link) (k : ℕ) → k < 2 ^ 31 → has_piece l k ≡ get_or l.peer_pieces k false
unfolding has_piece
has_piece_lem l k h =
    let same : u64_of_int k ≡ k = ground arith in
    elim (Bool-cases (leb (length l.peer_pieces) k)) [
      | inl out ↦
          let past : length l.peer_pieces ≤ k = ground arith in
          let gone = get_or-out l.peer_pieces k past in rw (same, out, gone) refl
      | inr inside ↦ rw (same, inside) refl
    ]

-- After a bitfield message, a peer has the pieces that it had and those whose bit is set in the message,
-- the first piece in the most significant bit of the first byte, as far as the torrent has such pieces
-- and their index is below 2 ^ 31; nothing else of the connection changes.
pub on_bitfield_lem :
    (payload : Buffer) (e : Env)
    → (l : Link) × (on_bitfield payload e ≡ ok tt (record e { link = l }))
      × (l ≡ record e.link { peer_pieces = l.peer_pieces })
      × ((k : ℕ)
          → k < 2 ^ 31
          → has_piece l k
            ≡ ltb k (length e.downloader.torrent.piece_hashes)
              && (has_piece e.link k || bit_at payload k))
unfolding on_bitfield
on_bitfield_lem payload e =
    let n : ℕ = length e.downloader.torrent.piece_hashes in
    let old : List Bool = e.link.peer_pieces in
    let after : Link = record e.link { peer_pieces = mark_bytes payload 0 (resize n old) } in
    (
      after,
      refl,
      refl,
      λ k small.
          let index : k - 0 * 8 ≡ k = omega arith in
          let from : leb (0 * 8) k ≡ true = ground arith in
          has_piece_lem after k small
          ∙ mark_bytes_lem payload 0 k (resize n old)
          ∙ rw (get_or-resize, length-resize, index, from, has_piece_lem e.link k small)
              (ground arith),
    )
