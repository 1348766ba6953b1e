-- ===== src/Base/Ints.antt =====
-- The integer types of the program. `int64_t` and `long long` are ℤ. An `int` is the 32-bit
-- pattern that stands for it, so `int` and `uint32_t` convert to one another unchanged.
use Prim.Native.Nat.{ℕ, zero, suc, ◌+◌, ◌-◌, ◌*◌, ◌%◌, ◌^◌, ◌≤◌, ◌<◌}
use mathlib.Core.Bool.{Bool}
use node_link.Base.Outcomes.{Outcome, ok, undefined}
use node_link.Base.Tests.{if◌then◌else◌, ltb, leb}

-- `negsuc n` is -(n + 1).
pub data ℤ : Type 0 where
  pos : ℕ → ℤ
  negsuc : ℕ → ℤ

abbrev pub pos_part : ℤ → ℕ
pos_part (pos n) = n
pos_part (negsuc n) = 0

abbrev pub neg_part : ℤ → ℕ
neg_part (pos n) = 0
neg_part (negsuc n) = suc n

abbrev pub neg_ℕ : ℕ → ℤ
neg_ℕ zero = pos 0
neg_ℕ (suc n) = negsuc n

abbrev pub neg_ℤ : ℤ → ℤ
neg_ℤ (pos n) = neg_ℕ n
neg_ℤ (negsuc n) = pos (suc n)

-- a - b, as an integer.
abbrev pub sub_ℕ : ℕ → ℕ → ℤ
sub_ℕ a b = if leb b a then pos (a - b) else negsuc (b - a - 1)

infixl 65 ◌+ℤ◌
abbrev pub ◌+ℤ◌ : ℤ → ℤ → ℤ
a +ℤ b = sub_ℕ (pos_part a + pos_part b) (neg_part a + neg_part b)

infix 50 ◌≤ℤ◌ ◌<ℤ◌
abbrev pub ◌≤ℤ◌ : ℤ → ℤ → Type 0
a ≤ℤ b = pos_part a + neg_part b ≤ pos_part b + neg_part a

abbrev pub ◌<ℤ◌ : ℤ → ℤ → Type 0
a <ℤ b = pos_part a + neg_part b < pos_part b + neg_part a

abbrev pub ltb_ℤ : ℤ → ℤ → Bool
ltb_ℤ a b = ltb (pos_part a + neg_part b) (pos_part b + neg_part a)

abbrev pub leb_ℤ : ℤ → ℤ → Bool
leb_ℤ a b = leb (pos_part a + neg_part b) (pos_part b + neg_part a)

-- Conversion to `size_t` and `uint64_t`.
abbrev pub u64_of_ℤ : ℤ → ℕ
u64_of_ℤ (pos n) = n % 2 ^ 64
u64_of_ℤ (negsuc n) = 2 ^ 64 - 1 - n % 2 ^ 64

-- Conversion to `uint32_t`, or to `int` as its pattern.
abbrev pub u32_of_ℤ : ℤ → ℕ
u32_of_ℤ (pos n) = n % 2 ^ 32
u32_of_ℤ (negsuc n) = 2 ^ 32 - 1 - n % 2 ^ 32

-- The `int` -1.
abbrev pub minus_one : ℕ
minus_one = 0xffff_ffff

-- An `int` compared with or converted to `long long`.
abbrev pub ℤ_of_int : ℕ → ℤ
ℤ_of_int w = if ltb w (2 ^ 31) then pos w else negsuc (2 ^ 32 - 1 - w)

-- An `int` compared with or converted to `size_t`: the sign is extended.
abbrev pub u64_of_int : ℕ → ℕ
u64_of_int w = if ltb w (2 ^ 31) then w else w + (2 ^ 64 - 2 ^ 32)

infixl 70 ◌*ℤ◌
abbrev pub ◌*ℤ◌ : ℤ → ℤ → ℤ
a *ℤ b =
    sub_ℕ (pos_part a * pos_part b + neg_part a * neg_part b)
      (pos_part a * neg_part b + neg_part a * pos_part b)

abbrev pub fits_int64 : ℤ → Bool
fits_int64 (pos n) = ltb n (2 ^ 63)
fits_int64 (negsuc n) = ltb n (2 ^ 63)

-- `a * b` on `int64_t`: an overflow is undefined behaviour.
unfoldable pub mul_int64 : ℤ → ℤ → Outcome ℤ
mul_int64 a b = if fits_int64 (a *ℤ b) then ok (a *ℤ b) else undefined

-- The remainder takes the sign of the dividend.
abbrev pub rem_ℕ : ℤ → ℕ → ℤ
rem_ℕ (pos n) m = pos (n % m)
rem_ℕ (negsuc n) m = neg_ℕ (suc n % m)

-- `a % b` on `long long`: division by zero, and the minimum by -1, are undefined behaviour.
unfoldable pub rem_int64 : ℤ → ℤ → Outcome ℤ
rem_int64 a (pos zero) = undefined
rem_int64 a (pos (suc m)) = ok (rem_ℕ a (suc m))
rem_int64 a (negsuc zero) = if fits_int64 (neg_ℤ a) then ok (pos 0) else undefined
rem_int64 a (negsuc (suc m)) = ok (rem_ℕ a (suc (suc m)))
