-- ===== src/Base/Slices.antt =====
-- Writing the parts of a byte string in any order: when every byte of it is covered, the whole string
-- stands there.
use Prim.Native.Nat.{ℕ, zero, suc, ◌+◌, ◌-◌, ◌≤◌, ◌<◌}
use mathlib.Core.Path.{◌≡◌, refl, ap, ap₂, ◌∙◌}
use mathlib.Core.Logic.{◌⊎◌, inl, inr}
use mathlib.Core.Bool.{true, false, ◌&&◌}
use mathlib.Core.List.{List, [], ◌∷◌, ◌++◌}
use native.Mathlib.Omega.{arith}
use node_link.Base.Tests.{if◌then◌else◌, ltb, leb, Bool-cases, ltb→lt, ltb→le}
use node_link.Base.Lists.{length, get_or, take, drop, length-append, length-take, length-drop}

-- The bytes at the offset are replaced by the block's.
abbrev pub overwrite : List ℕ → ℕ → List ℕ → List ℕ
overwrite buffer offset block = take offset buffer ++ (block ++ drop (offset + length block) buffer)

-- A part of a byte string: where it stands, and its bytes.
abbrev pub Slice : Type 0
Slice = ℕ × List ℕ

abbrev pub IsSlice : List ℕ → Slice → Type 0
IsSlice c s = (s.0 + length s.1 ≤ length c) × (s.1 ≡ take (length s.1) (drop s.0 c))

abbrev pub Holds : Slice → ℕ → Type 0
Holds s k = (s.0 ≤ k) × (k < s.0 + length s.1)

-- Some slice of the list holds the byte.
abbrev pub Covered : List Slice → ℕ → Type 0
Covered [] k = ⊥
Covered (s ∷ ss) k = Holds s k ⊎ Covered ss k

pub list-ext :
    (xs ys : List ℕ)
    → length xs ≡ length ys
    → ((k : ℕ) → k < length ys → get_or xs k 0 ≡ get_or ys k 0)
    → xs ≡ ys
list-ext [] [] e h = refl
list-ext [] (y ∷ ys) e h = absurd (omega arith)
list-ext (x ∷ xs) [] e h = absurd (omega arith)
list-ext (x ∷ xs) (y ∷ ys) e h =
    ap₂ ◌∷◌ (h 0 (omega arith)) (list-ext xs ys (omega arith) (λ k b. h (suc k) (omega arith)))

get_or-take-drop :
    (n off k : ℕ) (c : List ℕ) → k < n → get_or (take n (drop off c)) k 0 ≡ get_or c (off + k) 0
get_or-take-drop zero off k c h = absurd (omega arith)
get_or-take-drop (suc n) zero k [] h = refl
get_or-take-drop (suc n) zero zero (x ∷ c) h = refl
get_or-take-drop (suc n) zero (suc k) (x ∷ c) h =
    let e : 0 + k ≡ k = omega arith in
    let e' : 0 + suc k ≡ suc k = omega arith in
    rw e' (rw e at (get_or-take-drop n zero k c (omega arith)))
get_or-take-drop (suc n) (suc off) k [] h = refl
get_or-take-drop (suc n) (suc off) k (x ∷ c) h =
    let e : suc off + k ≡ suc (off + k) = omega arith in rw e (get_or-take-drop (suc n) off k c h)

drop-nil : (n : ℕ) → drop {A = ℕ} n [] ≡ []
drop-nil zero = refl
drop-nil (suc n) = refl

get_or-over_prefix :
    (b buffer : List ℕ) (k : ℕ)
    → get_or (b ++ drop (length b) buffer) k 0
      ≡ (if ltb k (length b) then get_or b k 0 else get_or buffer k 0)
get_or-over_prefix [] buffer k = ground arith
get_or-over_prefix (x ∷ b) [] zero = ground arith
get_or-over_prefix (x ∷ b) [] (suc k) =
    let ih = get_or-over_prefix b [] k in
    let shorter : ltb (suc k) (suc (length b)) ≡ ltb k (length b) = ground arith in
    rw shorter (rw (drop-nil (length b)) at ih)
get_or-over_prefix (x ∷ b) (y ∷ buffer) zero = ground arith
get_or-over_prefix (x ∷ b) (y ∷ buffer) (suc k) = ground (arith, get_or-over_prefix b buffer k)

get_or-overwrite :
    (buffer : List ℕ) (off : ℕ) (b : List ℕ) (k : ℕ)
    → off + length b ≤ length buffer
    → get_or (overwrite buffer off b) k 0
      ≡ (if leb off k && ltb k (off + length b) then get_or b (k - off) 0 else get_or buffer k 0)
get_or-overwrite buffer zero b k h =
    let e : 0 + length b ≡ length b = omega arith in
    let e' : k - 0 ≡ k = omega arith in
    let from : leb 0 k ≡ true = ground arith in rw (e, e', from) (get_or-over_prefix b buffer k)
get_or-overwrite [] (suc off) b k h = absurd (omega arith)
get_or-overwrite (y ∷ buffer) (suc off) b zero h = ground arith
get_or-overwrite (y ∷ buffer) (suc off) b (suc k) h =
    let e : suc off + length b ≡ suc (off + length b) = omega arith in
    let from : leb (suc off) (suc k) ≡ leb off k = ground arith in
    let upto : ltb (suc k) (suc (off + length b)) ≡ ltb k (off + length b) = ground arith in
    let index : suc k - suc off ≡ k - off = omega arith in
    rw (e, from, upto, index) (get_or-overwrite buffer off b k (omega arith))

pub length-overwrite :
    (buffer : List ℕ) (off : ℕ) (b : List ℕ)
    → off + length b ≤ length buffer
    → length (overwrite buffer off b) ≡ length buffer
length-overwrite buffer off b h = omega (
  arith,
  length-append (take off buffer) (b ++ drop (off + length b) buffer),
  length-append b (drop (off + length b) buffer),
  length-take off buffer,
  length-drop (off + length b) buffer,
)

-- The buffer agrees with the byte string wherever the slices hold a byte.
abbrev pub Agrees : List ℕ → List Slice → List ℕ → Type 0
Agrees c ss buffer =
    (k : ℕ) → Covered ss k → (k < length buffer) × (get_or buffer k 0 ≡ get_or c k 0)

pub overwrite-Agrees :
    (c : List ℕ) (ss : List Slice) (buffer : List ℕ) (s : Slice)
    → IsSlice c s
    → s.0 + length s.1 ≤ length buffer
    → Agrees c ss buffer
    → Agrees c (s ∷ ss) (overwrite buffer s.0 s.1)
overwrite-Agrees c ss buffer s slice fits agrees k covered =
    elim (Bool-cases (leb s.0 k && ltb k (s.0 + length s.1))) [
      | inl here ↦
          let inside : Holds s k = ground arith in
          let index : s.0 + (k - s.0) ≡ k = omega (arith, inside.0) in
          let byte =
            get_or-take-drop (length s.1) s.0 (k - s.0) c (omega (arith, inside.0, inside.1)) in
          (
            omega (arith, length-overwrite buffer s.0 s.1 fits, inside.1),
            get_or-overwrite buffer s.0 s.1 k fits
                ∙ rw here
                    (ap (λ b. get_or b (k - s.0) 0) slice.1 ∙ byte ∙ ap (λ n. get_or c n 0) index),
          )
      | inr there ↦
          let old : Covered ss k = covered_other s ss k there covered in
          (
            omega (arith, length-overwrite buffer s.0 s.1 fits, (agrees k old).0),
            get_or-overwrite buffer s.0 s.1 k fits ∙ rw there (agrees k old).1,
          )
    ]
  where
    covered_other :
        (s : Slice) (ss : List Slice) (k : ℕ)
        → (leb s.0 k && ltb k (s.0 + length s.1)) ≡ false
        → Holds s k ⊎ Covered ss k
        → Covered ss k
    covered_other s ss k e (inl h) = absurd (ground (arith, h.0, h.1))
    covered_other s ss k e (inr h) = h

-- A buffer of the string's length that agrees with it at every byte is the string.
pub Agrees-eq :
    (c : List ℕ) (ss : List Slice) (buffer : List ℕ)
    → length buffer ≤ length c
    → ((k : ℕ) → k < length c → Covered ss k)
    → Agrees c ss buffer
    → buffer ≡ c
Agrees-eq c ss buffer short all agrees =
    list-ext buffer c (same_length (Bool-cases (ltb (length buffer) (length c))))
      (λ k h. (agrees k (all k h)).1)
  where
    same_length :
        (ltb (length buffer) (length c) ≡ true) ⊎ (ltb (length buffer) (length c) ≡ false)
        → length buffer ≡ length c
    same_length (inl less) =
        let lt = ltb→lt (length buffer) (length c) less in
        absurd (omega (arith, (agrees (length buffer) (all (length buffer) lt)).0))
    same_length (inr not_less) = omega (arith, ltb→le (length buffer) (length c) not_less)
