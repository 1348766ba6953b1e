-- ===== src/Parsing/Text/Decimal.antt =====
-- Printed numbers read back, and hold nothing but digits and a sign.
use native.Mathlib.Nat.{pow-suc}
use node_link.Base.{
  All-append, ℕ, zero, suc, ◌+◌, ◌-◌, ◌*◌, ◌/◌, ◌%◌, ◌^◌, ◌≤◌, ◌<◌, ◌≡◌, refl, ap, sym, subst, ◌∙◌,
  ◌≢◌, true, false, ℤ, pos, negsuc, fits_int64, [], ◌∷◌, ◌++◌, All, some, ok, arith, ◌==◌,
  Bool-cases, inl, inr, ==→eq,
}
use node_link.Parsing.Buffer.{Buffer}
use node_link.Parsing.Text.{
  split_at, is_digit, is_space, skip_space, digits_value, in_bounds, read_digits, read_sign, stoll,
  stoi, digits, to_string, to_string_ℤ,
}

abbrev pub IsDigit : ℕ → Type 0
IsDigit c = (b'0' ≤ c) × (c ≤ b'9')

digits-IsDigit : (fuel n : ℕ) → All IsDigit (digits fuel n)
unfolding digits
digits-IsDigit zero n = tt
digits-IsDigit (suc fuel) n = elim (Bool-cases (n / 10 == 0)) [
  | inl last ↦ let small = ==→eq (n / 10) 0 last in rw last ((omega arith, omega arith), tt)
  | inr more ↦ rw more (
      All-append IsDigit (digits fuel (n / 10)) ((b'0' + n % 10) ∷ [])
        (digits-IsDigit fuel (n / 10)) ((omega arith, omega arith), tt))
]

-- A run of digits and the text behind it.
digits_value-append :
    (acc : ℕ) (s t : Buffer)
    → All IsDigit s
    → digits_value acc (s ++ t) ≡ digits_value (digits_value acc s) t
unfolding digits_value
digits_value-append acc [] t h = refl
digits_value-append acc (c ∷ s) t h =
    let d : is_digit c ≡ true = ground arith in
    rw d (digits_value-append (acc * 10 + (c - b'0')) s t h.1)

digits_value-digits : (fuel n : ℕ) → n < 10 ^ fuel → digits_value 0 (digits fuel n) ≡ n
unfolding digits_value digits
digits_value-digits zero n h = omega arith
digits_value-digits (suc fuel) n h = elim (Bool-cases (n / 10 == 0)) [
  | inl last ↦ let small = ==→eq (n / 10) 0 last in rw last (ground arith)
  | inr more ↦
      let ih = digits_value-digits fuel (n / 10) (omega (arith, pow-suc 10 fuel)) in
      rw
        (
          more,
          digits_value-append 0 (digits fuel (n / 10)) ((b'0' + n % 10) ∷ [])
              (digits-IsDigit fuel (n / 10)),
          ih,
        )
        (ground arith)
]

cons_append : (s : Buffer) (x : ℕ) → (c : ℕ) × (r : Buffer) × (s ++ x ∷ [] ≡ c ∷ r)
cons_append [] x = (x, [], refl)
cons_append (c ∷ s) x = (c, s ++ x ∷ [], refl)

pub digits_cons : (fuel n : ℕ) → (c : ℕ) × (s : Buffer) × (digits (suc fuel) n ≡ c ∷ s)
unfolding digits
digits_cons fuel n = elim (Bool-cases (n / 10 == 0)) [
  | inl last ↦ (b'0' + n, [], rw last)
  | inr more ↦
      let (c, s, e) = cons_append (digits fuel (n / 10)) (b'0' + n % 10) in (c, s, rw more e)
]

-- A text that begins with a digit, read as a number of any width.
read_sign_digits :
    (bits c : ℕ) (s : Buffer)
    → IsDigit c
    → read_sign bits (skip_space (c ∷ s)) ≡ in_bounds bits false (digits_value 0 (c ∷ s))
unfolding skip_space read_sign read_digits
read_sign_digits bits c s h =
    let space : is_space c ≡ false = ground arith in
    let minus : (c == b'-') ≡ false = ground arith in
    let plus : (c == b'+') ≡ false = ground arith in
    let digit : is_digit c ≡ true = ground arith in rw (space, minus, plus, digit)

-- `stoll` of a text that begins with a digit, or with a minus sign and a digit.
pub stoll_digits :
    (c : ℕ) (s : Buffer) → IsDigit c → stoll (c ∷ s) ≡ in_bounds 63 false (digits_value 0 (c ∷ s))
unfolding stoll
stoll_digits c s h = read_sign_digits 63 c s h

stoll_minus :
    (c : ℕ) (s : Buffer)
    → IsDigit c
    → stoll (b'-' ∷ c ∷ s) ≡ in_bounds 63 true (digits_value 0 (c ∷ s))
unfolding stoll skip_space read_sign read_digits
stoll_minus c s h = let digit : is_digit c ≡ true = ground arith in rw digit

-- A printed number is a digit and more digits, which read back as the number.
pub to_string_digits :
    (n : ℕ)
    → n < 10 ^ 20
    → (c : ℕ) × (s : Buffer) × (to_string n ≡ c ∷ s)
      × All IsDigit (c ∷ s)
      × (digits_value 0 (c ∷ s) ≡ n)
unfolding to_string
to_string_digits n h =
    let (c, s, e) = digits_cons 19 n in
    (
      c,
      s,
      e,
      subst (All IsDigit) e (digits-IsDigit 20 n),
      ap (digits_value 0) (sym e) ∙ digits_value-digits 20 n h,
    )

-- Every `int64_t` reads back from its print.
pub stoll-to_string_ℤ : (z : ℤ) → fits_int64 z ≡ true → stoll (to_string_ℤ z) ≡ ok z
unfolding to_string_ℤ in_bounds
stoll-to_string_ℤ (pos n) h =
    let (c, s, e, all, value) = to_string_digits n (ground arith) in
    rw (e, stoll_digits c s all.0, value) (ground arith)
stoll-to_string_ℤ (negsuc n) h =
    let (c, s, e, all, value) = to_string_digits (suc n) (ground arith) in
    rw (e, stoll_minus c s all.0, value) (ground arith)

-- Every `int` that is not negative reads back from its print.
pub stoi-to_string : (n : ℕ) → n < 2 ^ 31 → stoi (to_string n) ≡ ok (pos n)
unfolding stoi in_bounds
stoi-to_string n h =
    let (c, s, e, all, value) = to_string_digits n (omega arith) in
    rw (e, read_sign_digits 31 c s all.0, value) (ground arith)

pub split_at-append :
    (c : ℕ) (s t : Buffer) → All (λ b. b ≢ c) s → split_at c (s ++ c ∷ t) ≡ some (s, t)
unfolding split_at
split_at-append c [] t h = ground arith
split_at-append c (b ∷ s) t h =
    let other : (b == c) ≡ false = ground (arith, h.0) in rw (other, split_at-append c s t h.1)

pub All-ne :
    (c : ℕ) (s : Buffer) → ((b : ℕ) → IsDigit b → b ≢ c) → All IsDigit s → All (λ b. b ≢ c) s
All-ne c [] f h = tt
All-ne c (b ∷ s) f h = (f b h.0, All-ne c s f h.1)

pub to_string-IsDigit : (n : ℕ) → All IsDigit (to_string n)
unfolding to_string
to_string-IsDigit n = digits-IsDigit 20 n

-- No printed number holds the byte that ends it.
pub to_string-ne_colon : (n : ℕ) → All (λ b. b ≢ b':') (to_string n)
unfolding to_string
to_string-ne_colon n = All-ne b':' (digits 20 n) (λ b h. omega arith) (digits-IsDigit 20 n)

pub to_string_ℤ-ne_e : (z : ℤ) → All (λ b. b ≢ b'e') (to_string_ℤ z)
unfolding to_string_ℤ to_string
to_string_ℤ-ne_e (pos n) = All-ne b'e' (digits 20 n) (λ b h. omega arith) (digits-IsDigit 20 n)
to_string_ℤ-ne_e (negsuc n) =
    (omega arith, All-ne b'e' (digits 20 (suc n)) (λ b h. omega arith) (digits-IsDigit 20 (suc n)))
