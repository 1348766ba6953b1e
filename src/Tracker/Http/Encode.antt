-- ===== src/Tracker/Http/Encode.antt =====
-- `UrlEncode` of source/tracker/tracker.cpp against a reader of percent-encoded text as RFC 3986 has it.
use node_link.Base.{
  ℕ, ◌+◌, ◌-◌, ◌*◌, ◌/◌, ◌%◌, ◌<◌, ◌≡◌, refl, Bool, true, false, ◌&&◌, ◌||◌, Option, none, some, [],
  ◌∷◌, leb, ◌==◌, if◌then◌else◌, Bool-cases, inl, inr, arith,
}
use node_link.Parsing.Buffer.{Buffer, IsBytes}
use node_link.Parsing.Sha1.{hex_digit}
use node_link.Tracker.Http.{is_unreserved, url_encode}

-- HEXDIG: a decimal digit or a letter A to F, of either case; no other byte has a value.
abbrev pub digit_value : ℕ → Option ℕ
digit_value c =
    if leb b'0' c && leb c b'9'
    then some (c - b'0')
    else if leb b'A' c && leb c b'F'
    then some (c - b'A' + 10)
    else if leb b'a' c && leb c b'f'
    then some (c - b'a' + 10)
    else none

abbrev pub both_digits : Option ℕ → Option ℕ → Option ℕ
both_digits (some high) (some low) = some (high * 16 + low)
both_digits (some high) none = none
both_digits none low = none

-- pct-encoded: the byte that two digits stand for.
abbrev pub escaped_byte : ℕ → ℕ → Option ℕ
escaped_byte c d = both_digits (digit_value c) (digit_value d)

-- unreserved: ALPHA, DIGIT, "-", ".", "_" and "~".
abbrev pub stands_for_itself : ℕ → Bool
stands_for_itself c =
    (leb b'A' c && leb c b'Z')
    || (leb b'a' c && leb c b'z')
    || (leb b'0' c && leb c b'9')
    || c == b'-'
    || c == b'.'
    || c == b'_'
    || c == b'~'

abbrev pub in_front : Option ℕ → Option Buffer → Option Buffer
in_front (some c) (some s) = some (c ∷ s)
in_front (some c) none = none
in_front none s = none

abbrev pub itself : ℕ → Option ℕ
itself c = if stands_for_itself c then some c else none

-- The bytes that a text of unreserved characters and of escapes stands for. Any other text has none.
unfoldable pub url_decode : Buffer → Option Buffer
url_decode [] = some []
url_decode (c ∷ []) = in_front (itself c) (some [])
url_decode (c ∷ d ∷ []) = in_front (itself c) (in_front (itself d) (some []))
url_decode (c ∷ d ∷ e ∷ s) =
    let behind_escape = url_decode s in
    let behind_one = url_decode (d ∷ e ∷ s) in
    if c == b'%' then in_front (escaped_byte d e) behind_escape else in_front (itself c) behind_one

digit_value-hex_digit : (n : ℕ) → n < 16 → digit_value (hex_digit n) ≡ some n
digit_value-hex_digit n h = ground arith

url_decode-cons :
    (c : ℕ) (s : Buffer)
    → (c == b'%') ≡ false
    → url_decode (c ∷ s) ≡ in_front (itself c) (url_decode s)
unfolding url_decode
url_decode-cons c [] h = refl
url_decode-cons c (d ∷ []) h = refl
url_decode-cons c (d ∷ e ∷ s) h = rw h refl

itself-is_unreserved : (c : ℕ) → is_unreserved c ≡ true → itself c ≡ some c
itself-is_unreserved c h = ground arith

-- Every byte string is what its URL encoding stands for in RFC 3986: the encoding has unreserved
-- characters and escapes of two hexadecimal digits only, and reading it gives the byte string back.
pub url_decode-url_encode : (s : Buffer) → IsBytes s → url_decode (url_encode s) ≡ some s
unfolding url_encode url_decode
url_decode-url_encode [] h = refl
url_decode-url_encode (c ∷ s) h = elim (Bool-cases (is_unreserved c)) [
  | inl plain ↦
      let other : (c == b'%') ≡ false = ground arith in
      rw plain (
        rw
          (
            url_decode-cons c (url_encode s) other,
            itself-is_unreserved c plain,
            url_decode-url_encode s h.1,
          )
          refl)
  | inr reserved ↦
      let value : c / 16 * 16 + c % 16 ≡ c = omega arith in
      rw
        (
          reserved,
          digit_value-hex_digit (c / 16) (omega (arith, h.0)),
          digit_value-hex_digit (c % 16) (omega arith),
          url_decode-url_encode s h.1,
          value,
        )
        refl
]
