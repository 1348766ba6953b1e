-- ===== src/Download/Worker/Display/Shape.antt =====
-- The shape of the bar, and the unit of a size, in the progress display of
-- source/download/Worker.cpp.
use node_link.Base.{
  ℕ, zero, suc, ◌+◌, ◌-◌, ◌≤◌, ◌<◌, ◌≡◌, refl, sym, ap, subst, ◌∙◌, true, false, ℤ, pos, negsuc, [],
  ◌∷◌, ◌++◌, take, replicate, get_elem?, get_or, take_all, length-replicate, some, ok, ltb,
  Bool-cases, inl, inr, arith,
}
use mathlib.Core.Path.{ap₂}
use node_link.Parsing.Buffer.{Buffer}
use node_link.Download.Worker.Display.{Double, units, cell, bar_from, bar, scale, format_bytes}

-- Filled cells, the tip, and empty cells.
abbrev pub bar_shape : ℕ → ℕ → Buffer
bar_shape width p = take width (replicate p b'#' ++ (b'>' ∷ replicate (width - p - 1) b'.'))

bar_from-empty : (rounds i : ℕ) (p : ℕ) → p < i → bar_from rounds i (pos p) ≡ replicate rounds b'.'
unfolding bar_from
bar_from-empty zero i p h = refl
bar_from-empty (suc rounds) i p h =
    let c : cell i (pos p) ≡ b'.' = ground arith in
    ap₂ ◌∷◌ c (bar_from-empty rounds (i + 1) p (omega arith))

bar_from-negative : (rounds i n : ℕ) → bar_from rounds i (negsuc n) ≡ replicate rounds b'.'
unfolding bar_from
bar_from-negative zero i n = refl
bar_from-negative (suc rounds) i n =
    let c : cell i (negsuc n) ≡ b'.' = ground arith in
    ap₂ ◌∷◌ c (bar_from-negative rounds (i + 1) n)

bar_from-shape : (rounds i p : ℕ) → i ≤ p → bar_from rounds i (pos p) ≡ bar_shape rounds (p - i)
unfolding bar_from
bar_from-shape zero i p h = refl
bar_from-shape (suc rounds) i p h = elim (Bool-cases (ltb i p)) [
  | inl before ↦
      let c : cell i (pos p) ≡ b'#' = ground arith in
      let step : p - i ≡ suc (p - (i + 1)) = ground arith in
      let size : suc rounds - suc (p - (i + 1)) - 1 ≡ rounds - (p - (i + 1)) - 1 = omega arith in
      rw (step, size, c) (ap (◌∷◌ b'#') (bar_from-shape rounds (i + 1) p (ground arith)))
  | inr here ↦
      let c : cell i (pos p) ≡ b'>' = ground arith in
      let step : p - i ≡ 0 = ground arith in
      let size : suc rounds - 0 - 1 ≡ rounds = omega arith in
      rw (step, size, c)
        (ap (◌∷◌ b'>') (
          bar_from-empty rounds (i + 1) p (ground arith)
          ∙ sym (
              take_all rounds (replicate rounds b'.')
                (omega (arith, length-replicate {A = ℕ} rounds b'.')))))
]

-- The bar at a position, from 0 on and below 0.
abbrev pub bar_at : ℤ → Buffer
bar_at (pos n) = bar_shape 50 n
bar_at (negsuc n) = replicate 50 b'.'

pub bar_lem : (p : ℤ) → bar p ≡ bar_at p
unfolding bar
bar_lem (pos n) =
    let e : n - 0 ≡ n = omega arith in
    subst (λ k. bar_from 50 0 (pos n) ≡ bar_shape 50 k) e (bar_from-shape 50 0 n (omega arith))
bar_lem (negsuc n) = bar_from-negative 50 0 n

units_lem : (n : ℕ) → n ≤ 3 → get_elem? units n ≡ some (get_or units n [])
units_lem zero h = refl
units_lem (suc zero) h = refl
units_lem (suc (suc zero)) h = refl
units_lem (suc (suc (suc zero))) h = refl
units_lem (suc (suc (suc (suc n)))) h = absurd (omega arith)

module _ {ℓ} {W : Type ℓ} ⦃d : Double W⦄ where
  -- Divided by 1024 so often.
  abbrev pub divided : ℕ → W → W
  divided zero x = x
  divided (suc n) x = divided n (d.div x (d.of_nat 1024))

  scale_lem :
      (rounds : ℕ) (x : W) (i : ℕ)
      → (n : ℕ) × (n ≤ rounds)
        × (scale rounds x i ≡ (divided n x, i + n))
        × ((m : ℕ) → m < n → d.ge (divided m x) (d.of_nat 1024) ≡ true)
        × (n < rounds → d.ge (divided n x) (d.of_nat 1024) ≡ false)
  unfolding scale
  scale_lem zero x i = (
    0,
    omega arith,
    ap (λ k. (x, k)) (omega arith),
    (λ m h. absurd (omega arith)),
    λ h. absurd (omega arith),
  )
  scale_lem (suc rounds) x i = elim (Bool-cases (d.ge x (d.of_nat 1024))) [
    | inr small ↦ (
      0,
      omega arith,
      rw small (ap (λ k. (x, k)) (omega arith)),
      (λ m h. absurd (omega arith)),
      λ h. small,
    )
    | inl big ↦
        let (n, few, run, bigs, last) = scale_lem rounds (d.div x (d.of_nat 1024)) (i + 1) in
        (
          suc n,
          omega arith,
          rw (big, run) (ap (λ k. (divided n (d.div x (d.of_nat 1024)), k)) (omega arith)),
          all n big bigs,
          λ h. last (omega arith),
        )
  ]
    where
      all :
          (n : ℕ)
          → d.ge x (d.of_nat 1024) ≡ true
          → ((m : ℕ) → m < n → d.ge (divided m (d.div x (d.of_nat 1024))) (d.of_nat 1024) ≡ true)
          → (m : ℕ) → m < suc n
          → d.ge (divided m x) (d.of_nat 1024) ≡ true
      all n big bigs zero h = big
      all n big bigs (suc m) h = bigs m (omega arith)

  -- A size is divided by 1024 as long as that many are left, three times at most, and printed with
  -- the unit that stands for the divisions.
  pub format_bytes_lem :
      (x : W)
      → (n : ℕ) × (n ≤ 3)
        × (format_bytes x ≡ ok (d.print_fixed (divided n x) ++ (b' ' ∷ get_or units n [])))
        × ((m : ℕ) → m < n → d.ge (divided m x) (d.of_nat 1024) ≡ true)
        × (n < 3 → d.ge (divided n x) (d.of_nat 1024) ≡ false)
  unfolding format_bytes
  format_bytes_lem x =
      let (n, few, run, bigs, last) = scale_lem 3 x 0 in
      let place : 0 + n ≡ n = omega arith in
      (n, few, rw (run, place, units_lem n few) refl, bigs, last)
