-- ===== src/Parsing/Sha1/Reference.antt =====
-- That include/parsing/Sha1.h computes SHA-1 as RFC 3174 defines it.
pub mod Disjoint
pub mod Standard
pub mod Encodings
pub mod Schedule
mod Tests
use Prim.Native.Nat.{bit_and, bit_or, bit_xor}
use node_link.Base.{
  ℕ, zero, suc, ◌+◌, ◌-◌, ◌*◌, ◌/◌, ◌%◌, ◌^◌, ◌≤◌, ◌<◌, ◌≡◌, refl, sym, ap, subst, ◌∙◌, true, false,
  List, [], ◌∷◌, ◌++◌, length, length-append, length-replicate, replicate, ltb, ◌==◌, if◌then◌else◌,
  arith,
}
use node_link.Parsing.Buffer.{Buffer, IsBytes}
use node_link.Parsing.Sha1.{
  left_rotate, bit_not, Words, round_f, round_k, round, rounds, add_words, compress, compress_all,
  initial, print_words, calculate,
}
use node_link.Parsing.Sha1.Padding.{pad-padded, length-padded, padded-IsBytes}
use node_link.Parsing.Sha1.Reference.Standard.{
  word, plus, shift, padded, f_of, k_of, mix, scheduled, step, steps, chained, hashed, text_of,
  digest,
}
use node_link.Parsing.Sha1.Reference.Encodings.{hex_word-hex_text}
use node_link.Parsing.Sha1.Reference.Schedule.{scheduled_first, scheduled_next, values, all_words}

round_f-f_of : (t : ℕ) (s : Words) → t < 80 → round_f t s ≡ f_of (t / 20) s.b s.c s.d
unfolding round_f bit_not
round_f-f_of t s h = ground arith

round_k-k_of : (t : ℕ) → t < 80 → round_k t ≡ k_of (t / 20)
unfolding round_k
round_k-k_of t h = ground arith

round-step : (t w : ℕ) (s : Words) → t < 80 → round t w s ≡ step t w s
unfolding round left_rotate
round-step t w s h =
    let f = round_f-f_of t s h in
    let k = round_k-k_of t h in
    let sum : shift 5 s.a + round_f t s + s.e + round_k t + w
        ≡ shift 5 s.a + round_f t s + s.e + w + round_k t =
      omega arith in
    ap (λ n. record { a = n % 2 ^ 32; b = s.a; c = shift 30 s.b; d = s.c; e = s.d })
      (sum
        ∙ ap (λ n. shift 5 s.a + n + s.e + w + round_k t) f
        ∙ ap (λ n. shift 5 s.a + f_of (t / 20) s.b s.c s.d + s.e + w + n) k)

rounds-steps :
    (w : ℕ → ℕ) (h : Words) (n t : ℕ)
    → t + n ≤ 80
    → rounds t (values w t n) (steps w t h) ≡ steps w (t + n) h
unfolding rounds
rounds-steps w h zero t b = let none : t ≡ t + 0 = omega arith in ap (λ k. steps w k h) none
rounds-steps w h (suc n) t b =
    let next : t + 1 ≡ suc t = omega arith in
    let moved : suc t + n ≡ t + suc n = omega arith in
    ap (rounds (t + 1) (values w (t + 1) n)) (round-step t (w t) (steps w t h) (omega arith))
    ∙ ap (λ k. rounds k (values w k n) (steps w (suc t) h)) next
    ∙ rounds-steps w h n (suc t) (omega arith)
    ∙ ap (λ k. steps w k h) moved

compress_lem :
    (m : Buffer) (i : ℕ) (h : Words)
    → IsBytes m
    → compress m i h ≡ chained h (steps (scheduled m i) 80 h)
unfolding compress add_words
compress_lem m i h bytes = ap (chained h) (
    ap (λ w. rounds 0 w h) (all_words m i bytes)
    ∙ rounds-steps (scheduled m i) h 80 0 (omega arith))

compress_all-hashed :
    (m : Buffer) (blocks n : ℕ)
    → IsBytes m
    → compress_all blocks m (64 * n) (hashed m n) ≡ hashed m (n + blocks)
unfolding compress_all hashed
compress_all-hashed m zero n h = let none : n ≡ n + 0 = omega arith in ap (hashed m) none
compress_all-hashed m (suc blocks) n h =
    let next : 64 * n + 64 ≡ 64 * suc n = omega arith in
    let moved : suc n + blocks ≡ n + suc blocks = omega arith in
    ap (compress_all blocks m (64 * n + 64)) (compress_lem m (64 * n) (hashed m n) h)
    ∙ ap (λ i. compress_all blocks m i (hashed m (suc n))) next
    ∙ compress_all-hashed m blocks (suc n) h
    ∙ ap (hashed m) moved

-- The words of a digest have 32 bits.
abbrev AreWords : Words → Type 0
AreWords h = (h.a < 2 ^ 32) × (h.b < 2 ^ 32) × (h.c < 2 ^ 32) × (h.d < 2 ^ 32) × (h.e < 2 ^ 32)

hashed-AreWords : (m : Buffer) (n : ℕ) → AreWords (hashed m n)
unfolding hashed
hashed-AreWords m zero = omega arith
hashed-AreWords m (suc n) = omega arith

print_words-text_of : (h : Words) → AreWords h → print_words h ≡ text_of h
unfolding print_words
print_words-text_of h (a, b, c, d, e) =
    rw
      (
        hex_word-hex_text h.a a,
        hex_word-hex_text h.b b,
        hex_word-hex_text h.c c,
        hex_word-hex_text h.d d,
        hex_word-hex_text h.e e,
      )
      refl

calculate-digest :
    (input : Buffer) → IsBytes input → length input < 2 ^ 60 → calculate input ≡ digest input
unfolding calculate digest hashed
calculate-digest input bytes h =
    let whole = length-padded input in
    let blocks : (length (padded input) + 63) / 64 ≡ length (padded input) / 64 = omega arith in
    let none : 0 + length (padded input) / 64 ≡ length (padded input) / 64 = omega arith in
    let n = length (padded input) / 64 in
    ap (λ m. print_words (compress_all ((length m + 63) / 64) m 0 initial)) (pad-padded input h)
    ∙ ap print_words (
        ap (λ k. compress_all k (padded input) 0 initial) blocks
        ∙ compress_all-hashed (padded input) n 0 (padded-IsBytes input bytes)
        ∙ ap (hashed (padded input)) none)
    ∙ print_words-text_of (hashed (padded input) n) (hashed-AreWords (padded input) n)

-- For an input of less than 2 ^ 60 bytes, the code's digest is the text of the chaining values that RFC 3174
-- defines for the padded message, which has whole blocks; and the words W(t) of a block, which these
-- values are made with, are the block's own below 16, and from 16 on the rotated exclusive or of four
-- words before.
pub calculate_lem :
    (input : Buffer)
    → IsBytes input
    → length input < 2 ^ 60
    → (calculate input ≡ digest input)
      × (length (padded input) % 64 ≡ 0)
      × ((m : Buffer) (i t : ℕ) → t < 16 → scheduled m i t ≡ word m (i + 4 * t))
      × ((m : Buffer) (i t : ℕ)
          → scheduled m i (t + 16)
            ≡ mix
                (scheduled m i (t + 13))
                (scheduled m i (t + 8))
                (scheduled m i (t + 2))
                (scheduled m i t))
calculate_lem input bytes h =
    (calculate-digest input bytes h, length-padded input, scheduled_first, scheduled_next)
