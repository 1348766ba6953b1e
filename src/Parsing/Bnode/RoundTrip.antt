-- ===== src/Parsing/Bnode/RoundTrip.antt =====
-- What was encoded decodes to the same value.
use node_link.Base.{
  ℕ, zero, suc, ◌+◌, ◌*◌, ◌^◌, ◌≤◌, ◌<◌, ◌≡◌, refl, ap, sym, ◌∙◌, true, false, ℤ, pos, fits_int64,
  [], ◌∷◌, ◌++◌, append_assoc, append-nil, length, length-append, take, drop, take-append_exact,
  drop-append_exact, ok, bind, arith, ◌==◌, le→ltb,
}
use node_link.Parsing.Buffer.{Buffer}
use node_link.Parsing.Text.{stoll, to_string, to_string_ℤ}
use node_link.Parsing.Text.Decimal.{
  IsDigit, to_string_digits, stoll-to_string_ℤ, split_at-append, to_string-ne_colon,
  to_string_ℤ-ne_e,
}
use node_link.Parsing.Bnode.{
  Bnode, int, string, list, dict, Bnodes, nil, cons, Entries, end, entry, get_string, assign,
  decode_int, range, take_string, decode_string, read, decode_element, decode_list, decode_dict,
  decode, encode_string, encode, encode_items, encode_entries,
}
use node_link.Parsing.Bnode.Valid.{
  FitsMemory, IsValid, AllValid, ValidEntries, append_entries, Fits, Fits-snoc, append_entries-snoc,
  assign_last,
}

decode_int-encode :
    (z : ℤ) (rest : Buffer)
    → fits_int64 z ≡ true
    → decode_int (to_string_ℤ z ++ b'e' ∷ rest) ≡ ok (int z, rest)
unfolding decode_int
decode_int-encode z rest h = rw (
  split_at-append b'e' (to_string_ℤ z) rest (to_string_ℤ-ne_e z),
  decode_int,
  stoll-to_string_ℤ z h,
)

stoll-to_string : (n : ℕ) → n < 2 ^ 63 → stoll (to_string n) ≡ ok (pos n)
unfolding to_string_ℤ
stoll-to_string n h = stoll-to_string_ℤ (pos n) (ground arith)

take_string-inside :
    (len : ℕ) (s : Buffer)
    → len ≤ length s
    → take_string len s ≡ ok (string (take len s), drop len s)
unfolding take_string range
take_string-inside len s h = rw (le→ltb (length s) len h) refl

decode_string-encode :
    (s rest : Buffer) → FitsMemory s → decode_string (encode_string s ++ rest) ≡ ok (string s, rest)
unfolding decode_string encode_string
decode_string-encode s rest h = rw (
  append_assoc (to_string (length s)) (b':' ∷ s) rest,
  split_at-append b':' (to_string (length s)) (s ++ rest) (to_string-ne_colon (length s)),
  decode_string,
  stoll-to_string (length s) h,
  take_string-inside (length s) (s ++ rest) (omega (arith, length-append s rest)),
  take-append_exact (length s) s rest refl,
  drop-append_exact (length s) s rest refl,
)

-- An encoded string begins with a digit.
encode_string-head :
    (s : Buffer) → FitsMemory s → (c : ℕ) × (t : Buffer) × (encode_string s ≡ c ∷ t) × IsDigit c
unfolding encode_string
encode_string-head s h =
    let (c, t, e, all, value) = to_string_digits (length s) (omega arith) in
    (c, t ++ b':' ∷ s, rw e refl, all.0)

decode_element_digit :
    (f c : ℕ) (t : Buffer) → IsDigit c → decode_element (suc f) (c ∷ t) ≡ decode_string (c ∷ t)
unfolding decode_element read
decode_element_digit f c t h = ground arith

pub decode_element-encode_string :
    (f : ℕ) (s rest : Buffer)
    → FitsMemory s
    → decode_element (suc f) (encode_string s ++ rest) ≡ ok (string s, rest)
decode_element-encode_string f s rest h =
    let (c, t, e, digit) = encode_string-head s h in
    ap (λ b. decode_element (suc f) (b ++ rest)) e
    ∙ decode_element_digit f c (t ++ rest) digit
    ∙ ap (λ b. decode_string (b ++ rest)) (sym e)
    ∙ decode_string-encode s rest h

decode_element_key :
    (f : ℕ) (s rest : Buffer)
    → 0 < f
    → FitsMemory s
    → decode_element f (encode_string s ++ rest) ≡ ok (string s, rest)
decode_element_key zero s rest fuelled h = absurd (omega arith)
decode_element_key (suc f) s rest fuelled h = decode_element-encode_string f s rest h

append_entries-end : (acc : Entries) → append_entries acc end ≡ acc
append_entries-end end = refl
append_entries-end (entry k v acc) = ap (entry k v) (append_entries-end acc)

-- No encoded value begins with the byte that closes a list.
abbrev Opens : Buffer → Type 0
Opens b = (c : ℕ) × (t : Buffer) × (b ≡ c ∷ t) × ((c == b'e') ≡ false)

encode_string-Opens : (s : Buffer) → FitsMemory s → Opens (encode_string s)
encode_string-Opens s h = let (c, t, e, digit) = encode_string-head s h in (c, t, e, ground arith)

encode-Opens : (v : Bnode) → IsValid v → Opens (encode v)
unfolding encode
encode-Opens (int z) h = (b'i', to_string_ℤ z ++ b'e' ∷ [], refl, refl)
encode-Opens (string s) h = encode_string-Opens s h
encode-Opens (list xs) h = (b'l', encode_items xs, refl, refl)
encode-Opens (dict es) h = (b'd', encode_entries es, refl, refl)

length-Opens : (b : Buffer) → Opens b → 0 < length b
length-Opens b (c, t, e, _) = rw e (omega arith)

-- In front of an encoded value the loops read one more item.
decode_list-more :
    (f : ℕ) (b rest : Buffer)
    → Opens b
    → decode_list (suc f) (b ++ rest)
      ≡ bind
          (decode_element f (b ++ rest))
          λ (x, r). bind (decode_list f r) λ (xs, r'). ok (cons x xs, r')
unfolding decode_list read
decode_list-more f b rest (c, t, e, closing) = rw (e, closing)

decode_dict-more :
    (f : ℕ) (acc : Entries) (b rest : Buffer)
    → Opens b
    → decode_dict (suc f) acc (b ++ rest)
      ≡ bind (decode_element f (b ++ rest)) λ (k, r).
        bind
          (get_string k)
          λ key. bind (decode_element f r) λ (v, r'). decode_dict f (assign key v acc) r'
unfolding decode_dict read
decode_dict-more f acc b rest (c, t, e, closing) = rw (e, closing)

mutual
  unfolding decode_element read encode get_string

  decode-encode_value :
      (v : Bnode) (f : ℕ) (rest : Buffer)
      → IsValid v
      → 2 * length (encode v) < f
      → decode_element f (encode v ++ rest) ≡ ok (v, rest)
  decode-encode_value v zero rest h enough = absurd (omega arith)
  decode-encode_value (int z) (suc f) rest h enough =
      rw (append_assoc (to_string_ℤ z) (b'e' ∷ []) rest) (decode_int-encode z rest h)
  decode-encode_value (string s) (suc f) rest h enough = decode_element-encode_string f s rest h
  decode-encode_value (list xs) (suc f) rest h enough =
      rw (decode-encode_items xs f rest h (omega arith))
  decode-encode_value (dict es) (suc f) rest h enough =
      rw (decode-encode_entries es f end rest h (ground arith) (omega arith))

  decode-encode_items :
      (xs : Bnodes) (f : ℕ) (rest : Buffer)
      → AllValid xs
      → suc (2 * length (encode_items xs)) < f
      → decode_list f (encode_items xs ++ rest) ≡ ok (xs, rest)
  decode-encode_items xs zero rest h enough = absurd (omega arith)
  decode-encode_items nil (suc f) rest h enough = refl
  decode-encode_items (cons x xs) (suc f) rest h enough =
      let opens = encode-Opens x h.0 in
      let some_bytes = length-Opens (encode x) opens in
      let sum = length-append (encode x) (encode_items xs) in
      ap (decode_list (suc f)) (append_assoc (encode x) (encode_items xs) rest)
      ∙ decode_list-more f (encode x) (encode_items xs ++ rest) opens
      ∙ rw (
        decode-encode_value x f (encode_items xs ++ rest) h.0 (omega arith),
        decode-encode_items xs f rest h.1 (omega arith),
      )

  decode-encode_entries :
      (es : Entries) (f : ℕ) (acc : Entries) (rest : Buffer)
      → ValidEntries es
      → Fits acc es
      → suc (2 * length (encode_entries es)) < f
      → decode_dict f acc (encode_entries es ++ rest) ≡ ok (append_entries acc es, rest)
  decode-encode_entries es zero acc rest h fits enough = absurd (omega arith)
  decode-encode_entries end (suc f) acc rest h fits enough =
      ap (λ a. ok (a, rest)) (sym (append_entries-end acc))
  decode-encode_entries (entry k v es) (suc f) acc rest h fits enough =
      let opens = encode_string-Opens k h.0 in
      let some_bytes = length-Opens (encode_string k) opens in
      let sum = length-append (encode_string k) (encode v ++ encode_entries es) in
      let sum' = length-append (encode v) (encode_entries es) in
      let valued = encode v ++ encode_entries es in
      let more = encode_entries es ++ rest in
      ap (decode_dict (suc f) acc) (append_assoc (encode_string k) valued rest)
      ∙ decode_dict-more f acc (encode_string k) (valued ++ rest) opens
      ∙ rw (
        decode_element_key f k (valued ++ rest) (omega arith) h.0,
        get_string,
        append_assoc (encode v) (encode_entries es) rest,
        decode-encode_value v f more h.1 (omega arith),
        assign_last k v acc fits,
        decode-encode_entries es f (append_entries acc (entry k v end)) rest h.3
            (Fits-snoc acc k v es fits h.2) (omega arith),
        append_entries-snoc acc k v es,
      )

-- With fuel above twice the length of the encoding, a valid value is read off the front of any text
-- that begins with its encoding, and the rest is left.
pub decode_element-encode :
    (v : Bnode) (f : ℕ) (rest : Buffer)
    → IsValid v
    → 2 * length (encode v) < f
    → decode_element f (encode v ++ rest) ≡ ok (v, rest)
decode_element-encode = decode-encode_value

-- Every valid value decodes from its encoding.
pub decode-encode : (v : Bnode) → IsValid v → decode (encode v) ≡ ok v
unfolding decode
decode-encode v h =
    let whole = decode-encode_value v (2 * length (encode v) + 1) [] h (omega arith) in
    rw (rw append-nil at whole)
