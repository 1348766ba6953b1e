-- ===== src/Parsing/Sha1/Reference/Encodings.antt =====
-- Words, numbers and text in include/parsing/Sha1.h, and in RFC 3174.
use Prim.Native.Nat.{bit_or}
use mathlib.Core.Path.{ap₂}
use native.Mathlib.Nat.{pow-suc}
use node_link.Base.{
  ℕ, zero, suc, ◌+◌, ◌-◌, ◌*◌, ◌/◌, ◌%◌, ◌^◌, ◌<◌, ◌≡◌, refl, ap, sym, ◌∙◌, inl, inr, [], ◌∷◌, ◌++◌,
  append_assoc, append-nil, length, length-append, get_or, replicate, ◌==◌, ==→eq, Bool-cases,
  arith,
}
use node_link.Parsing.Buffer.{Buffer, IsBytes}
use node_link.Parsing.Text.{ascii}
use node_link.Parsing.Sha1.{u32, load_word, length_bytes, hex_digit, hex, set_width, hex_word}
use node_link.Parsing.Sha1.Reference.Disjoint.{bit_or-sum}
use node_link.Parsing.Sha1.Reference.Standard.{word, big_endian, hex_text}

get_or-IsBytes : (m : Buffer) (i : ℕ) → IsBytes m → get_or m i 0 < 256
get_or-IsBytes [] i h = omega arith
get_or-IsBytes (b ∷ m) zero h = h.0
get_or-IsBytes (b ∷ m) (suc i) h = get_or-IsBytes m i h.1

or_bytes :
    (b0 b1 b2 b3 : ℕ)
    → b0 < 256
    → b1 < 256
    → b2 < 256
    → b3 < 256
    → bit_or (bit_or (bit_or (u32 (b0 * 2 ^ 24)) (b1 * 2 ^ 16)) (b2 * 2 ^ 8)) b3
      ≡ b0 * 2 ^ 24 + b1 * 2 ^ 16 + b2 * 2 ^ 8 + b3
or_bytes b0 b1 b2 b3 h0 h1 h2 h3 =
    let narrow : u32 (b0 * 2 ^ 24) ≡ b0 * 2 ^ 24 = omega arith in
    let two : b0 * 2 ^ 24 + b1 * 2 ^ 16 ≡ (b0 * 256 + b1) * 2 ^ 16 = omega arith in
    let three : (b0 * 256 + b1) * 2 ^ 16 + b2 * 2 ^ 8 ≡ (b0 * 65536 + b1 * 256 + b2) * 2 ^ 8 =
      omega arith in
    ap (λ n. bit_or (bit_or (bit_or n (b1 * 2 ^ 16)) (b2 * 2 ^ 8)) b3) narrow
    ∙ ap (λ n. bit_or (bit_or n (b2 * 2 ^ 8)) b3)
        (bit_or-sum 24 b0 (b1 * 2 ^ 16) (omega arith) ∙ two)
    ∙ ap (λ n. bit_or n b3) (bit_or-sum 16 (b0 * 256 + b1) (b2 * 2 ^ 8) (omega arith) ∙ three)
    ∙ bit_or-sum 8 (b0 * 65536 + b1 * 256 + b2) b3 h3
    ∙ omega arith

pub load_word-word : (m : Buffer) (i : ℕ) → IsBytes m → load_word m i ≡ word m i
unfolding load_word
load_word-word m i h =
    or_bytes (get_or m i 0) (get_or m (i + 1) 0) (get_or m (i + 2) 0) (get_or m (i + 3) 0)
      (get_or-IsBytes m i h) (get_or-IsBytes m (i + 1) h) (get_or-IsBytes m (i + 2) h)
      (get_or-IsBytes m (i + 3) h)

pub length_bytes-big_endian : (n : ℕ) → length_bytes n ≡ big_endian 8 n
unfolding length_bytes
length_bytes-big_endian n =
    let e2 : n / 256 / 256 ≡ n / 2 ^ 16 = omega arith in
    let e3 : n / 2 ^ 16 / 256 ≡ n / 2 ^ 24 = omega arith in
    let e4 : n / 2 ^ 24 / 256 ≡ n / 2 ^ 32 = omega arith in
    let e5 : n / 2 ^ 32 / 256 ≡ n / 2 ^ 40 = omega arith in
    let e6 : n / 2 ^ 40 / 256 ≡ n / 2 ^ 48 = omega arith in
    let e7 : n / 2 ^ 48 / 256 ≡ n / 2 ^ 56 = omega arith in rw (e2, e3, e4, e5, e6, e7) refl

pub big_endian-IsBytes : (n : ℕ) → IsBytes (big_endian 8 n)
big_endian-IsBytes n = omega arith

replicate-snoc : (k c : ℕ) → replicate (suc k) c ≡ replicate k c ++ c ∷ []
replicate-snoc zero c = refl
replicate-snoc (suc k) c = ap (◌∷◌ c) (replicate-snoc k c)

hex_text-zero : (k : ℕ) → hex_text k 0 ≡ replicate k b'0'
hex_text-zero zero = refl
hex_text-zero (suc k) = ap (λ t. t ++ b'0' ∷ []) (hex_text-zero k) ∙ sym (replicate-snoc k b'0')

hex_digit-table : (n : ℕ) → n < 16 → hex_digit n ≡ get_or (ascii "0123456789abcdef") n 0
hex_digit-table n h = ground arith

-- A further digit behind a text widens the field by one.
set_width-snoc :
    (k c : ℕ) (text : Buffer) → set_width (suc k) (text ++ c ∷ []) ≡ set_width k text ++ c ∷ []
unfolding set_width
set_width-snoc k c text =
    let fill : suc k - length (text ++ c ∷ []) ≡ k - length text =
      omega (arith, length-append text (c ∷ [])) in
    rw fill (sym (append_assoc (replicate (k - length text) b'0') text (c ∷ [])))

set_width-nil : (k : ℕ) → set_width k [] ≡ hex_text k 0
unfolding set_width
set_width-nil k =
    let all : k - 0 ≡ k = omega arith in
    rw all (append-nil (replicate k b'0') ∙ sym (hex_text-zero k))

set_width-hex : (k n : ℕ) → n < 16 ^ k → set_width k (hex k n) ≡ hex_text k n
unfolding hex
set_width-hex zero n h = set_width-nil 0
set_width-hex (suc k) n h =
    let digit = hex_digit-table (n % 16) (omega arith) in
    elim (Bool-cases (n / 16 == 0)) [
      | inl last ↦
          let small : n / 16 ≡ 0 = ==→eq (n / 16) 0 last in
          let same : n % 16 ≡ n = omega arith in
          rw last (
            set_width-snoc k (hex_digit n) []
            ∙ ap₂ (λ s c. s ++ c ∷ []) (set_width-nil k ∙ ap (hex_text k) (sym small))
                (ap hex_digit (sym same) ∙ digit))
      | inr more ↦
          let rest = set_width-hex k (n / 16) (omega (arith, pow-suc 16 k)) in
          rw more (
            set_width-snoc k (hex_digit (n % 16)) (hex k (n / 16))
            ∙ ap₂ (λ s c. s ++ c ∷ []) rest digit)
    ]

pub hex_word-hex_text : (n : ℕ) → n < 2 ^ 32 → hex_word n ≡ hex_text 8 n
unfolding hex_word
hex_word-hex_text n h = set_width-hex 8 n h
