-- ===== src/Parsing/Sha1/Reference/Schedule.antt =====
-- That include/parsing/Sha1.h fills in the words W(0) … W(79) of a block as RFC 3174 has them.
use node_link.Base.{
  ℕ, zero, suc, ◌+◌, ◌-◌, ◌*◌, ◌≤◌, ◌<◌, ◌≡◌, refl, sym, ap, ◌∙◌, true, List, [], ◌∷◌, ◌++◌, get_or,
  ltb, arith,
}
use mathlib.Core.Path.{ap₂}
use node_link.Parsing.Buffer.{Buffer, IsBytes}
use node_link.Parsing.Sha1.{left_rotate, block_words, extend_words}
use node_link.Parsing.Sha1.Reference.Standard.{word, mix, window, scheduled}
use node_link.Parsing.Sha1.Reference.Encodings.{load_word-word}

window-shift : (m : Buffer) (i t n k : ℕ) → n + k < 16 → window m i (t + n) k ≡ window m i t (n + k)
unfolding window
window-shift m i t zero k h =
    let none : t + 0 ≡ t = omega arith in let same : 0 + k ≡ k = omega arith in rw (none, same) refl
window-shift m i t (suc n) k h =
    let later : t + suc n ≡ suc (t + n) = omega arith in
    let inner : ltb k 15 ≡ true = ground arith in
    let moved : n + (k + 1) ≡ suc n + k = omega arith in
    ap (λ u. window m i u k) later
    ∙ rw inner (window-shift m i t n (k + 1) (omega arith) ∙ ap (window m i t) moved)

-- W(t) is the block's word for t below 16,
pub scheduled_first : (m : Buffer) (i t : ℕ) → t < 16 → scheduled m i t ≡ word m (i + 4 * t)
unfolding window
scheduled_first m i t h =
    let from : t ≡ 0 + t = omega arith in
    let end : t + 0 ≡ t = omega arith in
    ap (scheduled m i) from
    ∙ window-shift m i 0 t 0 (omega arith)
    ∙ ap (λ k. word m (i + 4 * k)) end

-- and made of four words before it from 16 on.
pub scheduled_next :
    (m : Buffer) (i t : ℕ)
    → scheduled m i (t + 16)
      ≡ mix
          (scheduled m i (t + 13))
          (scheduled m i (t + 8))
          (scheduled m i (t + 2))
          (scheduled m i t)
unfolding window
scheduled_next m i t =
    let last : t + 16 ≡ suc t + 15 = omega arith in
    ap (scheduled m i) last
    ∙ window-shift m i (suc t) 15 0 (omega arith)
    ∙ rw
        (
          window-shift m i t 13 0 (omega arith),
          window-shift m i t 8 0 (omega arith),
          window-shift m i t 2 0 (omega arith),
        )
        refl

-- `n` values of a function from the argument `k` on.
abbrev pub values : (ℕ → ℕ) → ℕ → ℕ → List ℕ
values f k zero = []
values f k (suc n) = f k ∷ values f (k + 1) n

values-snoc : (f : ℕ → ℕ) (k n : ℕ) → values f k (n + 1) ≡ values f k n ++ f (k + n) ∷ []
values-snoc f k zero = let none : k + 0 ≡ k = omega arith in ap (λ j. f j ∷ []) (sym none)
values-snoc f k (suc n) =
    let longer : suc n + 1 ≡ suc (n + 1) = omega arith in
    let moved : k + 1 + n ≡ k + suc n = omega arith in
    ap (values f k) longer
    ∙ ap (◌∷◌ (f k)) (values-snoc f (k + 1) n ∙ ap (λ j. values f (k + 1) n ++ f j ∷ []) moved)

get_or-values : (f : ℕ → ℕ) (k n j : ℕ) → j < n → get_or (values f k n) j 0 ≡ f (k + j)
get_or-values f k zero j h = absurd (omega arith)
get_or-values f k (suc n) zero h = let none : k ≡ k + 0 = omega arith in ap f none
get_or-values f k (suc n) (suc j) h =
    let moved : k + 1 + j ≡ k + suc j = omega arith in
    get_or-values f (k + 1) n j (omega arith) ∙ ap f moved

block_words-values :
    (m : Buffer) (i k n : ℕ)
    → IsBytes m
    → block_words n m (i + 4 * k) ≡ values (λ t. word m (i + 4 * t)) k n
unfolding block_words
block_words-values m i k zero h = refl
block_words-values m i k (suc n) h =
    let moved : i + 4 * k + 4 ≡ i + 4 * (k + 1) = omega arith in
    ap₂ ◌∷◌ (load_word-word m (i + 4 * k) h)
      (ap (block_words n m) moved ∙ block_words-values m i (k + 1) n h)

word-values :
    (m : Buffer) (i j k : ℕ) → k < j → get_or (values (scheduled m i) 0 j) k 0 ≡ scheduled m i k
word-values m i j k h =
    let none : 0 + k ≡ k = omega arith in
    get_or-values (scheduled m i) 0 j k h ∙ ap (scheduled m i) none

-- The word that the loop computes for `j`.
next_word :
    (m : Buffer) (i j : ℕ)
    → 16 ≤ j
    → mix
        (get_or (values (scheduled m i) 0 j) (j - 3) 0)
        (get_or (values (scheduled m i) 0 j) (j - 8) 0)
        (get_or (values (scheduled m i) 0 j) (j - 14) 0)
        (get_or (values (scheduled m i) 0 j) (j - 16) 0)
      ≡ scheduled m i j
next_word m i j h =
    let w3 = word-values m i j (j - 3) (omega arith) in
    let w8 = word-values m i j (j - 8) (omega arith) in
    let w14 = word-values m i j (j - 14) (omega arith) in
    let w16 = word-values m i j (j - 16) (omega arith) in
    let e3 : j - 3 ≡ j - 16 + 13 = omega arith in
    let e8 : j - 8 ≡ j - 16 + 8 = omega arith in
    let e14 : j - 14 ≡ j - 16 + 2 = omega arith in
    let e16 : j - 16 + 16 ≡ j = omega arith in
    rw (w3, w8, w14, w16, e3, e8, e14) (sym (scheduled_next m i (j - 16)) ∙ ap (scheduled m i) e16)

extend_words-values :
    (m : Buffer) (i n j : ℕ)
    → 16 ≤ j
    → extend_words n j (values (scheduled m i) 0 j) ≡ values (scheduled m i) 0 (j + n)
unfolding extend_words left_rotate
extend_words-values m i zero j h =
    let none : j ≡ j + 0 = omega arith in ap (values (scheduled m i) 0) none
extend_words-values m i (suc n) j h =
    let moved : j + 1 + n ≡ j + suc n = omega arith in
    let none : j ≡ 0 + j = omega arith in
    ap (λ w. extend_words n (j + 1) (values (scheduled m i) 0 j ++ w ∷ []))
      (next_word m i j h ∙ ap (scheduled m i) none)
    ∙ ap (extend_words n (j + 1)) (sym (values-snoc (scheduled m i) 0 j))
    ∙ extend_words-values m i n (j + 1) (omega arith)
    ∙ ap (values (scheduled m i) 0) moved

same_values :
    (f g : ℕ → ℕ) (k n : ℕ) → ((j : ℕ) → j < k + n → f j ≡ g j) → values f k n ≡ values g k n
same_values f g k zero h = refl
same_values f g k (suc n) h =
    ap₂ ◌∷◌ (h k (omega arith)) (same_values f g (k + 1) n (λ j b. h j (omega arith)))

-- The 80 words of a block are W(0) … W(79).
pub all_words :
    (m : Buffer) (i : ℕ)
    → IsBytes m
    → extend_words 64 16 (block_words 16 m i) ≡ values (scheduled m i) 0 80
all_words m i h =
    let start : i ≡ i + 4 * 0 = omega arith in
    ap (extend_words 64 16) (
      ap (block_words 16 m) start
      ∙ block_words-values m i 0 16 h
      ∙ sym (
          same_values (scheduled m i) (λ t. word m (i + 4 * t)) 0 16
            (λ t b. scheduled_first m i t (omega (arith, b)))))
    ∙ extend_words-values m i 64 16 (omega arith)
