-- ===== src/Parsing/Sha1/Digest.antt =====
-- The digest is 40 characters of hexadecimal text.
use native.Mathlib.Nat.{pow-suc}
use node_link.Base.{
  ℕ, zero, suc, ◌+◌, ◌-◌, ◌*◌, ◌/◌, ◌%◌, ◌^◌, ◌≤◌, ◌<◌, ◌≡◌, refl, ◌∙◌, ==→eq, inl, inr, [], ◌∷◌,
  ◌++◌, arith, length, length-append, length-replicate, replicate, ltb, ◌==◌, if◌then◌else◌,
  Bool-cases,
}
use node_link.Parsing.Buffer.{Buffer}
use node_link.Parsing.Sha1.{
  pad, Words, compress_all, initial, hex_digit, hex, set_width, hex_word, print_words, calculate,
}

length-hex : (fuel n : ℕ) → length (hex fuel n) ≤ fuel
unfolding hex
length-hex zero n = omega arith
length-hex (suc fuel) n = elim (Bool-cases (n / 16 == 0)) [
  | inl last ↦ rw last (omega arith)
  | inr more ↦ rw more (
      omega (
        arith,
        length-hex fuel (n / 16),
        length-append (hex fuel (n / 16)) (hex_digit (n % 16) ∷ []),
      ))
]

length-hex_word : (n : ℕ) → length (hex_word n) ≡ 8
unfolding hex_word set_width
length-hex_word n = omega (
  arith,
  length-hex 8 n,
  length-append (replicate (8 - length (hex 8 n)) b'0') (hex 8 n),
  length-replicate {A = ℕ} (8 - length (hex 8 n)) b'0',
)

length-print_words : (h : Words) → length (print_words h) ≡ 40
unfolding print_words
length-print_words h =
    let de = length-append (hex_word h.d) (hex_word h.e) in
    let cde = length-append (hex_word h.c) (hex_word h.d ++ hex_word h.e) in
    let bcde = length-append (hex_word h.b) (hex_word h.c ++ (hex_word h.d ++ hex_word h.e)) in
    omega (
      arith,
      de,
      cde,
      bcde,
      length-append (hex_word h.a)
          (hex_word h.b ++ (hex_word h.c ++ (hex_word h.d ++ hex_word h.e))),
      length-hex_word h.a,
      length-hex_word h.b,
      length-hex_word h.c,
      length-hex_word h.d,
      length-hex_word h.e,
    )

-- Whatever the input, the digest is a text of 40 characters.
pub length-calculate : (input : Buffer) → length (calculate input) ≡ 40
unfolding calculate
length-calculate input =
    length-print_words (compress_all ((length (pad input) + 63) / 64) (pad input) 0 initial)

-- The number that a hexadecimal text stands for.
abbrev pub digit_value : ℕ → ℕ
digit_value c = if ltb c b'a' then c - b'0' else c - b'a' + 10

pub from_hex : ℕ → Buffer → ℕ
from_hex acc [] = acc
from_hex acc (c ∷ text) = from_hex (acc * 16 + digit_value c) text

from_hex-append : (acc : ℕ) (s t : Buffer) → from_hex acc (s ++ t) ≡ from_hex (from_hex acc s) t
unfolding from_hex
from_hex-append acc [] t = refl
from_hex-append acc (c ∷ s) t = from_hex-append (acc * 16 + digit_value c) s t

from_hex-hex : (fuel n : ℕ) → n < 16 ^ fuel → from_hex 0 (hex fuel n) ≡ n
unfolding from_hex hex
from_hex-hex zero n h = omega arith
from_hex-hex (suc fuel) n h = elim (Bool-cases (n / 16 == 0)) [
  | inl last ↦ let small = ==→eq (n / 16) 0 last in rw last (ground arith)
  | inr more ↦
      let ih = from_hex-hex fuel (n / 16) (omega (arith, pow-suc 16 fuel)) in
      rw (more, from_hex-append 0 (hex fuel (n / 16)) (hex_digit (n % 16) ∷ []), ih) (ground arith)
]

from_hex-zeros : (k : ℕ) (t : Buffer) → from_hex 0 (replicate k b'0' ++ t) ≡ from_hex 0 t
unfolding from_hex
from_hex-zeros zero t = refl
from_hex-zeros (suc k) t = from_hex-zeros k t

-- A `uint32_t` is printed in full: its eight digits read back as the number.
from_hex-hex_word : (n : ℕ) → n < 2 ^ 32 → from_hex 0 (hex_word n) ≡ n
unfolding hex_word set_width
from_hex-hex_word n h = from_hex-zeros (8 - length (hex 8 n)) (hex 8 n) ∙ from_hex-hex 8 n h
