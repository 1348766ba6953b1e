-- ===== src/Parsing/Text.antt =====
-- What the code uses of the standard library's text functions: std::stoll, std::stoi,
-- std::to_string, the order of std::string, and the search for a byte.
pub mod Decimal
pub mod Order
use Prim.Native.Char.{code}
use Prim.Native.String.{String}
use node_link.Base.{
  ℕ, zero, suc, ◌+◌, ◌-◌, ◌*◌, ◌/◌, ◌%◌, ◌^◌, Bool, true, false, ◌&&◌, ◌||◌, ℤ, pos, negsuc, neg_ℕ,
  List, [], ◌∷◌, ◌++◌, Option, none, some, Outcome, ok, throw, invalid_argument, out_of_range, bind,
  ltb, leb, ◌==◌, if◌then◌else◌,
}
use node_link.Parsing.Buffer.{Buffer}

-- The bytes of a literal, all of whose characters are ASCII.
abbrev pub ascii : String → Buffer
ascii String.[] = []
ascii (String.◌∷◌ c s) = code c ∷ ascii s

-- The bytes before and behind the first occurrence of a byte.
unfoldable pub split_at : ℕ → Buffer → Option (Buffer × Buffer)
split_at c [] = none
split_at c (b ∷ s) =
    if b == c
    then some ([], s)
    else elim (split_at c s) [ none ↦ none | some (front, back) ↦ some (b ∷ front, back) ]

-- What stands behind a prefix, if the text begins with it.
unfoldable pub strip_prefix : Buffer → Buffer → Option Buffer
strip_prefix [] s = some s
strip_prefix (p ∷ ps) [] = none
strip_prefix (p ∷ ps) (b ∷ s) = if p == b then strip_prefix ps s else none

-- What stands before and behind the first occurrence of a text.
unfoldable pub split_text : Buffer → Buffer → Option (Buffer × Buffer)
unfolding strip_prefix
split_text p [] = elim (strip_prefix p []) [ none ↦ none | some back ↦ some ([], back) ]
split_text p (b ∷ s) = elim (strip_prefix p (b ∷ s)) [
  | some back ↦ some ([], back)
  | none ↦ elim (split_text p s) [ none ↦ none | some (front, back) ↦ some (b ∷ front, back) ]
]

-- The order of std::map's keys: bytes are compared as unsigned numbers.
unfoldable pub bytes_lt : Buffer → Buffer → Bool
bytes_lt [] [] = false
bytes_lt [] (y ∷ ys) = true
bytes_lt (x ∷ xs) [] = false
bytes_lt (x ∷ xs) (y ∷ ys) = ltb x y || (x == y && bytes_lt xs ys)

abbrev pub is_digit : ℕ → Bool
is_digit c = leb b'0' c && leb c b'9'

abbrev pub is_space : ℕ → Bool
is_space c = c == b' ' || (leb 9 c && leb c 13)

unfoldable pub skip_space : Buffer → Buffer
skip_space [] = []
skip_space (c ∷ s) = if is_space c then skip_space s else c ∷ s

-- The number that a run of digits stands for; the run ends at the first other byte.
unfoldable pub digits_value : ℕ → Buffer → ℕ
digits_value acc [] = acc
digits_value acc (c ∷ s) =
    let next = digits_value (acc * 10 + (c - b'0')) s in if is_digit c then next else acc

abbrev pub starts_with_digit : Buffer → Bool
starts_with_digit [] = false
starts_with_digit (c ∷ s) = is_digit c

-- A number of `bits` + 1 bits, sign included, from its sign and size.
unfoldable pub in_bounds : ℕ → Bool → ℕ → Outcome ℤ
in_bounds bits negative n =
    if negative
    then (if leb n (2 ^ bits) then ok (neg_ℕ n) else throw out_of_range)
    else (if ltb n (2 ^ bits) then ok (pos n) else throw out_of_range)

unfoldable pub read_digits : ℕ → Bool → Buffer → Outcome ℤ
read_digits bits negative s =
    if starts_with_digit s
    then in_bounds bits negative (digits_value 0 s)
    else throw invalid_argument

unfoldable pub read_sign : ℕ → Buffer → Outcome ℤ
read_sign bits [] = throw invalid_argument
read_sign bits (c ∷ s) =
    if c == b'-'
    then read_digits bits true s
    else if c == b'+'
    then read_digits bits false s
    else read_digits bits false (c ∷ s)

-- std::stoll and std::stoi: leading white space and a sign are allowed, and what follows the digits
-- is ignored.
unfoldable pub stoll : Buffer → Outcome ℤ
stoll s = read_sign 63 (skip_space s)

unfoldable pub stoi : Buffer → Outcome ℤ
stoi s = read_sign 31 (skip_space s)

-- std::to_string of a number with at most `fuel` digits.
unfoldable pub digits : ℕ → ℕ → Buffer
digits zero n = []
digits (suc fuel) n =
    let front = digits fuel (n / 10) in
    if n / 10 == 0 then (b'0' + n) ∷ [] else front ++ (b'0' + n % 10) ∷ []

-- Numbers of 64 bits have at most twenty digits.
unfoldable pub to_string : ℕ → Buffer
to_string n = digits 20 n

unfoldable pub to_string_ℤ : ℤ → Buffer
to_string_ℤ (pos n) = to_string n
to_string_ℤ (negsuc n) = b'-' ∷ to_string (suc n)
