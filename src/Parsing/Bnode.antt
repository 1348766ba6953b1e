-- ===== src/Parsing/Bnode.antt =====
-- include/parsing/Bnode.h and source/parsing/Bnode.cpp: bencoded values, decoded and encoded.
pub mod Valid
pub mod RoundTrip
pub mod Sound
use node_link.Base.{
  ℕ, zero, suc, ◌+◌, ◌*◌, Bool, true, false, ℤ, pos, pos_part, List, [], ◌∷◌, ◌++◌, length, take,
  drop, Option, none, some, Outcome, ok, throw, undefined, out_of_fuel, runtime_error, bind, ltb,
  ◌==◌, if◌then◌else◌,
}
use node_link.Parsing.Buffer.{Buffer}
use node_link.Parsing.Text.{split_at, bytes_lt, is_digit, stoll, to_string, to_string_ℤ}

-- The variant, with its lists and its maps. A map holds its entries in the order of the keys.
mutual
  pub data Bnode : Type 0 where
    int : ℤ → Bnode
    string : Buffer → Bnode
    list : Bnodes → Bnode
    dict : Entries → Bnode

  pub data Bnodes : Type 0 where
    nil : Bnodes
    cons : Bnode → Bnodes → Bnodes

  pub data Entries : Type 0 where
    end : Entries
    entry : Buffer → Bnode → Entries → Entries

-- The getters, which throw on a value of another type.
unfoldable pub get_int : Bnode → Outcome ℤ
get_int (int z) = ok z
get_int _ = throw runtime_error

unfoldable pub get_string : Bnode → Outcome Buffer
get_string (string s) = ok s
get_string _ = throw runtime_error

-- `ToString`: a copy of the bytes.
abbrev pub to_text : Bnode → Outcome Buffer
to_text node = get_string node

unfoldable pub get_list : Bnode → Outcome Bnodes
get_list (list xs) = ok xs
get_list _ = throw runtime_error

unfoldable pub get_dict : Bnode → Outcome Entries
get_dict (dict es) = ok es
get_dict _ = throw runtime_error

-- `dict[key] = val`: a key that is there keeps its place and gets the new value.
unfoldable pub assign : Buffer → Bnode → Entries → Entries
assign k v end = entry k v end
assign k v (entry j w es) =
    if bytes_lt k j
    then entry k v (entry j w es)
    else if bytes_lt j k
    then entry j w (assign k v es)
    else entry j v es

-- The integer behind its `i`.
unfoldable pub decode_int : Buffer → Outcome (Bnode × Buffer)
decode_int s = elim (split_at b'e' s) [
  | none ↦ throw runtime_error
  | some (num_str, rest) ↦ bind (stoll num_str) λ z. ok (int z, rest)
]

-- `index >= data.size()`, of the bytes from the index on.
abbrev pub at_end : Buffer → Bool
at_end [] = true
at_end (c ∷ s) = false

-- `data[index]`, and the bytes behind it; behind the end of the data the read is undefined.
unfoldable pub read : Buffer → Outcome (ℕ × Buffer)
read [] = undefined
read (c ∷ s) = ok (c, s)

-- The vector made of the range from `data.begin() + start` to `data.begin() + start + len`, and what
-- follows it; a range that ends behind the end of the data is undefined.
unfoldable pub range : ℕ → Buffer → Outcome (Buffer × Buffer)
range len s = if ltb (length s) len then undefined else ok (take len s, drop len s)

-- The string of `len` bytes behind the colon. A length that begins with a digit is not negative.
unfoldable pub take_string : ℕ → Buffer → Outcome (Bnode × Buffer)
unfolding range
take_string len s =
    if ltb (length s) len
    then throw runtime_error
    else bind (range len s) λ (val, rest). ok (string val, rest)

unfoldable pub decode_string : Buffer → Outcome (Bnode × Buffer)
unfolding take_string
decode_string s = elim (split_at b':' s) [
  | none ↦ throw runtime_error
  | some (len_str, rest) ↦ bind (stoll len_str) λ len. take_string (pos_part len) rest
]

-- `DecodeElement`: the vector from the index on goes in, and what is left of it comes out. The
-- recursion runs on fuel; `decode_dict` has the entries read so far.
unfoldable mutual
  unfolding read decode_int decode_string

  pub decode_element : ℕ → Buffer → Outcome (Bnode × Buffer)
  decode_element zero s = out_of_fuel
  decode_element (suc f) s =
      if at_end s
      then throw runtime_error
      else bind (read s) λ (c, s').
        let as_list = bind (decode_list f s') λ (xs, rest). ok (list xs, rest) in
        let as_dict = bind (decode_dict f end s') λ (es, rest). ok (dict es, rest) in
        if c == b'i'
        then decode_int s'
        else if c == b'l'
        then as_list
        else if c == b'd'
        then as_dict
        else if is_digit c
        then decode_string s
        else throw runtime_error

  pub decode_list : ℕ → Buffer → Outcome (Bnodes × Buffer)
  decode_list zero s = out_of_fuel
  decode_list (suc f) s =
      if at_end s
      then throw runtime_error
      else bind (read s) λ (c, s').
        let more =
          bind (decode_element f s)
            λ (x, rest). bind (decode_list f rest) λ (xs, rest'). ok (cons x xs, rest') in
        if c == b'e' then ok (nil, s') else more

  pub decode_dict : ℕ → Entries → Buffer → Outcome (Entries × Buffer)
  decode_dict zero es s = out_of_fuel
  decode_dict (suc f) es s =
      if at_end s
      then throw runtime_error
      else bind (read s) λ (c, s').
        let more = bind (decode_element f s) λ (key_node, rest). bind (to_text key_node) λ key.
          bind (decode_element f rest) λ (val, rest'). decode_dict f (assign key val es) rest' in
        if c == b'e' then ok (es, s') else more

-- `Decode`: what follows the first element is ignored.
unfoldable pub decode : Buffer → Outcome Bnode
decode s = bind (decode_element (2 * length s + 1) s) λ (v, rest). ok v

-- The length, a colon and the bytes.
unfoldable pub encode_string : Buffer → Buffer
encode_string s = to_string (length s) ++ b':' ∷ s

unfoldable mutual
  pub encode : Bnode → Buffer
  encode (int z) = b'i' ∷ (to_string_ℤ z ++ b'e' ∷ [])
  encode (string s) = encode_string s
  encode (list xs) = b'l' ∷ encode_items xs
  encode (dict es) = b'd' ∷ encode_entries es

  pub encode_items : Bnodes → Buffer
  encode_items nil = b'e' ∷ []
  encode_items (cons x xs) = encode x ++ encode_items xs

  pub encode_entries : Entries → Buffer
  encode_entries end = b'e' ∷ []
  encode_entries (entry k v es) = encode_string k ++ (encode v ++ encode_entries es)
