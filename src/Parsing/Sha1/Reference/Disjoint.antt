-- ===== src/Parsing/Sha1/Reference/Disjoint.antt =====
-- `|` of numbers without a common binary digit is their sum, as for the bytes that include/parsing/Sha1.h puts
-- together to a word.
use Prim.Native.Nat.{max, bit_or, bit_or-bitwise, digits}
use native.Mathlib.Nat.{pow-suc, mul_assoc}
use node_link.Base.{ℕ, zero, suc, ◌+◌, ◌*◌, ◌/◌, ◌%◌, ◌^◌, ◌≤◌, ◌<◌, ◌≡◌, refl, ap, sym, ◌∙◌, arith}

-- The digits of `|`, on fuel.
abbrev or_digits : ℕ → ℕ → ℕ → ℕ
or_digits fuel a b = digits (λ y. y) max fuel a b

or_digits-same : (a : ℕ) (f g b : ℕ) → a ≤ f → a ≤ g → or_digits f a b ≡ or_digits g a b
or_digits-same zero zero zero b hf hg = refl
or_digits-same zero zero (suc g) b hf hg = refl
or_digits-same zero (suc f) zero b hf hg = refl
or_digits-same zero (suc f) (suc g) b hf hg = refl
or_digits-same (suc a) zero g b hf hg = absurd (omega arith)
or_digits-same (suc a) (suc f) zero b hf hg = absurd (omega arith)
or_digits-same (suc a) (suc f) (suc g) b hf hg =
    ap (λ n. n * 2 + max (suc a % 2) (b % 2))
      (or_digits-same (suc a / 2) f g (b / 2) (omega arith) (omega arith))

-- The lowest digits, and the others.
halves : (a b : ℕ) → bit_or a b ≡ bit_or (a / 2) (b / 2) * 2 + max (a % 2) (b % 2)
halves zero b = omega (arith, bit_or-bitwise 0 b, bit_or-bitwise 0 (b / 2))
halves (suc a) b =
    bit_or-bitwise (suc a) b
    ∙ ap (λ n. n * 2 + max (suc a % 2) (b % 2))
        (or_digits-same (suc a / 2) a (suc a / 2) (b / 2) (omega arith) (omega arith)
          ∙ sym (bit_or-bitwise (suc a / 2) (b / 2)))

or_zero : (f a : ℕ) → a ≤ f → bit_or a 0 ≡ a
or_zero f zero h = bit_or-bitwise 0 0
or_zero zero (suc a) h = absurd (omega arith)
or_zero (suc f) (suc a) h = omega (arith, halves (suc a) 0, or_zero f (suc a / 2) (omega arith))

-- A number below 2 ^ k fits behind a multiple of 2 ^ k.
pub bit_or-sum : (k a b : ℕ) → b < 2 ^ k → bit_or (a * 2 ^ k) b ≡ a * 2 ^ k + b
bit_or-sum zero a zero h = omega (arith, or_zero (a * 1) (a * 1) (omega arith))
bit_or-sum zero a (suc b) h = absurd (omega arith)
bit_or-sum (suc k) a b h =
    let shifted : a * 2 ^ suc k ≡ a * 2 ^ k * 2 =
      ap (◌*◌ a) (pow-suc 2 k) ∙ sym (mul_assoc a (2 ^ k) 2) in
    let rest = bit_or-sum k a (b / 2) (omega (arith, pow-suc 2 k)) in
    let half : a * 2 ^ k * 2 / 2 ≡ a * 2 ^ k = omega arith in
    let split = halves (a * 2 ^ k * 2) b in
    ap (λ n. bit_or n b) shifted
    ∙ split
    ∙ ap (λ n. bit_or n (b / 2) * 2 + max (a * 2 ^ k * 2 % 2) (b % 2)) half
    ∙ omega (arith, rest, shifted)
