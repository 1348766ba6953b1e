-- ===== src/Parsing/Bnode/Sound.antt =====
-- Whatever the bytes, decoding ends, in a valid value or in an exception.
use node_link.Base.{
  ℕ, zero, suc, ◌+◌, ◌*◌, ◌^◌, ◌≤◌, ◌<◌, ◌≡◌, refl, subst, Bool, true, false, pos_part, fits_int64,
  [], ◌∷◌, length, length-take, length-drop, some, Option-cases, inl, inr, ok, Returns,
  Returns-bind, Returns-mono, arith, ltb, ◌==◌, Bool-cases,
}
use node_link.Parsing.Buffer.{Buffer}
use node_link.Parsing.Text.{
  split_at, is_digit, skip_space, in_bounds, read_digits, read_sign, stoll, starts_with_digit,
  digits_value,
}
use node_link.Parsing.Bnode.{
  Bnode, int, string, list, dict, Entries, end, get_string, assign, decode_int, range, take_string,
  read, decode_string, decode_element, decode_list, decode_dict, decode, encode,
}
use node_link.Parsing.Bnode.Valid.{FitsMemory, IsValid, AllValid, ValidEntries, assign-ValidEntries}
use node_link.Parsing.Bnode.RoundTrip.{decode-encode}

in_bounds-Returns :
    (negative : Bool) (n : ℕ) → Returns (λ z. fits_int64 z ≡ true) (in_bounds 63 negative n)
unfolding in_bounds
in_bounds-Returns true zero = refl
in_bounds-Returns true (suc n) = ground arith
in_bounds-Returns false n = ground arith

read_digits-Returns :
    (negative : Bool) (s : Buffer) → Returns (λ z. fits_int64 z ≡ true) (read_digits 63 negative s)
unfolding read_digits
read_digits-Returns negative s = elim (Bool-cases (starts_with_digit s)) [
  | inl d ↦ rw d (in_bounds-Returns negative (digits_value 0 s))
  | inr d ↦ rw d tt
]

read_sign-Returns : (s : Buffer) → Returns (λ z. fits_int64 z ≡ true) (read_sign 63 s)
unfolding read_sign
read_sign-Returns [] = tt
read_sign-Returns (c ∷ s) = elim (Bool-cases (c == b'-')) [
  | inl m ↦ rw m (read_digits-Returns true s)
  | inr m ↦ elim (Bool-cases (c == b'+')) [
    | inl p ↦ rw (m, p) (read_digits-Returns false s)
    | inr p ↦ rw (m, p) (read_digits-Returns false (c ∷ s))
  ]
]

pub stoll-Returns : (s : Buffer) → Returns (λ z. fits_int64 z ≡ true) (stoll s)
unfolding stoll
stoll-Returns s = read_sign-Returns (skip_space s)

-- The two parts and the byte between them are the whole.
split_at-length :
    (c : ℕ) (s front back : Buffer)
    → split_at c s ≡ some (front, back)
    → length front + suc (length back) ≡ length s
unfolding split_at
split_at-length c [] front back e = absurd (ground arith)
split_at-length c (b ∷ s) front back e = elim (Bool-cases (b == c)) [
  | inl here ↦ ground arith
  | inr on ↦ elim (Option-cases (split_at c s)) [
    | inl out ↦ absurd (ground arith)
    | inr ((f, r), found) ↦ let ih = split_at-length c s f r found in ground arith
  ]
]

-- A value read off the front of `s`: it is valid, and at least a byte is gone.
abbrev Reads : {A : Type 0} → (A → Type 0) → Buffer → A × Buffer → Type 0
Reads P s r = P r.0 × (length r.1 < length s)

decode_int-Returns : (s : Buffer) → Returns (Reads IsValid s) (decode_int s)
unfolding decode_int
decode_int-Returns s = elim (Option-cases (split_at b'e' s)) [
  | inl out ↦ rw (out, decode_int) tt
  | inr ((num_str, rest), found) ↦
      let whole = split_at-length b'e' s num_str rest found in
      rw (found, decode_int)
        (Returns-bind (λ z. fits_int64 z ≡ true) (Reads IsValid s) (stoll num_str) _
          (stoll-Returns num_str) (λ z fits. (fits, omega arith)))
]

take_string-Returns :
    (len : ℕ) (s : Buffer)
    → length s < 2 ^ 63
    → Returns (λ r. IsValid r.0 × (length r.1 ≤ length s)) (take_string len s)
unfolding take_string range
take_string-Returns len s h = elim (Bool-cases (ltb (length s) len)) [
  | inl short ↦ rw short tt
  | inr fits ↦ rw fits (omega (arith, length-take len s), omega (arith, length-drop len s))
]

decode_string-Returns :
    (s : Buffer) → length s < 2 ^ 63 → Returns (Reads IsValid s) (decode_string s)
unfolding decode_string
decode_string-Returns s h = elim (Option-cases (split_at b':' s)) [
  | inl out ↦ rw (out, decode_string) tt
  | inr ((len_str, rest), found) ↦
      let whole = split_at-length b':' s len_str rest found in
      rw (found, decode_string)
        (Returns-bind (λ z. fits_int64 z ≡ true) (Reads IsValid s) (stoll len_str) _
          (stoll-Returns len_str)
          (λ z fits.
            Returns-mono _ (Reads IsValid s) (take_string (pos_part z) rest)
              (take_string-Returns (pos_part z) rest (omega arith)) (λ r k. (k.0, omega arith))))
]

get_string-Returns : (v : Bnode) → IsValid v → Returns FitsMemory (get_string v)
unfolding get_string
get_string-Returns (string s) h = h
get_string-Returns (int z) h = tt
get_string-Returns (list xs) h = tt
get_string-Returns (dict es) h = tt

-- One induction on the fuel. Each item takes a byte at least, so that the fuel stays above its bound.
mutual
  unfolding decode_element read

  element-Returns :
      (f : ℕ) (s : Buffer)
      → length s < 2 ^ 63
      → 2 * length s < f
      → Returns (Reads IsValid s) (decode_element f s)
  element-Returns zero s h enough = absurd (omega arith)
  element-Returns (suc f) [] h enough = tt
  element-Returns (suc f) (c ∷ s) h enough = elim (Bool-cases (c == b'i')) [
    | inl i ↦
        rw i (Returns-mono _ _ (decode_int s) (decode_int-Returns s) (λ r k. (k.0, omega arith)))
    | inr i ↦ elim (Bool-cases (c == b'l')) [
      | inl l ↦
          rw (i, l)
            (Returns-bind _ _ (decode_list f s) _ (list-Returns f s (omega arith) (omega arith))
              (λ r k. (k.0, omega arith)))
      | inr l ↦ elim (Bool-cases (c == b'd')) [
        | inl d ↦
            rw (i, l, d)
              (Returns-bind _ _ (decode_dict f end s) _
                (dict-Returns f end s tt (omega arith) (omega arith)) (λ r k. (k.0, omega arith)))
        | inr d ↦ elim (Bool-cases (is_digit c)) [
          | inl n ↦ rw (i, l, d, n) (decode_string-Returns (c ∷ s) h)
          | inr n ↦ rw (i, l, d, n) tt
        ]
      ]
    ]
  ]

  list-Returns :
      (f : ℕ) (s : Buffer)
      → length s < 2 ^ 63
      → suc (2 * length s) < f
      → Returns (Reads AllValid s) (decode_list f s)
  list-Returns zero s h enough = absurd (omega arith)
  list-Returns (suc f) [] h enough = tt
  list-Returns (suc f) (c ∷ s) h enough = elim (Bool-cases (c == b'e')) [
    | inl close ↦ rw close (tt, omega arith)
    | inr more ↦ rw more (
        Returns-bind (Reads IsValid (c ∷ s)) (Reads AllValid (c ∷ s)) (decode_element f (c ∷ s)) _
          (element-Returns f (c ∷ s) h (omega arith))
          λ r k.
            Returns-bind (Reads AllValid r.1) (Reads AllValid (c ∷ s)) (decode_list f r.1) _
              (list-Returns f r.1 (omega arith) (omega arith)) λ r' k'. ((k.0, k'.0), omega arith))
  ]

  dict-Returns :
      (f : ℕ) (es : Entries) (s : Buffer)
      → ValidEntries es
      → length s < 2 ^ 63
      → suc (2 * length s) < f
      → Returns (Reads ValidEntries s) (decode_dict f es s)
  dict-Returns zero es s v h enough = absurd (omega arith)
  dict-Returns (suc f) es [] v h enough = tt
  dict-Returns (suc f) es (c ∷ s) v h enough = elim (Bool-cases (c == b'e')) [
    | inl close ↦ rw close (v, omega arith)
    | inr more ↦ rw more (
        Returns-bind (Reads IsValid (c ∷ s)) (Reads ValidEntries (c ∷ s)) (decode_element f (c ∷ s))
          _ (element-Returns f (c ∷ s) h (omega arith))
          λ r k.
            Returns-bind FitsMemory (Reads ValidEntries (c ∷ s)) (get_string r.0) _
              (get_string-Returns r.0 k.0)
              λ key fits.
                Returns-bind (Reads IsValid r.1) (Reads ValidEntries (c ∷ s)) (decode_element f r.1)
                  _ (element-Returns f r.1 (omega arith) (omega arith))
                  λ r' k'.
                    Returns-mono (Reads ValidEntries r'.1) (Reads ValidEntries (c ∷ s))
                      (decode_dict f (assign key r'.0 es) r'.1)
                      (dict-Returns f (assign key r'.0 es) r'.1
                        (assign-ValidEntries key r'.0 es fits k'.0 v) (omega arith) (omega arith))
                      (λ r'' k''. (k''.0, omega arith)))
  ]

-- Decoding any bytes that fit in memory ends within its fuel, neither reads `data[index]` nor takes the range of a
-- string behind the end of the data, and a value that it returns is valid: its integers have 64 bits and the keys of its maps ascend.
pub decode-Returns : (s : Buffer) → length s < 2 ^ 63 → Returns IsValid (decode s)
unfolding decode
decode-Returns s h =
    Returns-bind (Reads IsValid s) IsValid (decode_element (2 * length s + 1) s) _
      (element-Returns (2 * length s + 1) s h (omega arith)) (λ r k. k.0)

-- Encoding is canonical: what was decoded from any bytes that fit in memory encodes to a text that
-- decodes to the same value.
pub decode-encode-decode :
    (s : Buffer) (v : Bnode) → length s < 2 ^ 63 → decode s ≡ ok v → decode (encode v) ≡ ok v
decode-encode-decode s v h e = decode-encode v (subst (Returns IsValid) e (decode-Returns s h))
