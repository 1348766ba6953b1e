-- ===== src/Parsing/Sha1.antt =====
-- include/parsing/Sha1.h: SHA-1 of a byte vector, printed as hexadecimal text. Every `uint32_t` is
-- a number below 2 ^ 32, with the wrap of its sums written out.
pub mod Padding
pub mod Digest
pub mod Reference
use Prim.Native.Nat.{bit_and, bit_or, bit_xor}
use node_link.Base.{
  ℕ, zero, suc, ◌+◌, ◌-◌, ◌*◌, ◌/◌, ◌%◌, ◌^◌, Bool, List, [], ◌∷◌, ◌++◌, length, get_or, drop,
  replicate, ltb, ◌==◌, if◌then◌else◌,
}
use node_link.Parsing.Buffer.{Buffer, size_t}

abbrev pub u32 : ℕ → ℕ
u32 n = n % 2 ^ 32

-- (x << c) | (x >> (32 - c)) on uint32_t, for 0 < c < 32.
unfoldable pub left_rotate : ℕ → ℕ → ℕ
left_rotate x c = bit_or (u32 (x * 2 ^ c)) (x / 2 ^ (32 - c))

unfoldable pub bit_not : ℕ → ℕ
bit_not x = 2 ^ 32 - 1 - x

-- m[i] << 24 | m[i + 1] << 16 | m[i + 2] << 8 | m[i + 3]
unfoldable pub load_word : Buffer → ℕ → ℕ
load_word m i =
    bit_or
      (bit_or (bit_or (u32 (get_or m i 0 * 2 ^ 24)) (get_or m (i + 1) 0 * 2 ^ 16))
        (get_or m (i + 2) 0 * 2 ^ 8))
      (get_or m (i + 3) 0)

-- `while ((m.size() * 8) % 512 != 448) m.push_back(0)`, on fuel; 64 rounds are enough.
unfoldable pub pad_zeros : ℕ → Buffer → Buffer
pad_zeros zero m = m
pad_zeros (suc fuel) m =
    let more = pad_zeros fuel (m ++ 0 ∷ []) in
    if size_t (length m * 8) % 512 == 448 then m else more

-- The eight bytes (ml >> 56) & 0xFF, …, ml & 0xFF.
unfoldable pub length_bytes : ℕ → Buffer
length_bytes ml =
    (ml / 2 ^ 56 % 256)
    ∷ (ml / 2 ^ 48 % 256)
    ∷ (ml / 2 ^ 40 % 256)
    ∷ (ml / 2 ^ 32 % 256)
    ∷ (ml / 2 ^ 24 % 256)
    ∷ (ml / 2 ^ 16 % 256)
    ∷ (ml / 2 ^ 8 % 256)
    ∷ (ml % 256)
    ∷ []

unfoldable pub pad : Buffer → Buffer
unfolding pad_zeros length_bytes
pad input = pad_zeros 64 (input ++ 0x80 ∷ []) ++ length_bytes (size_t (length input * 8))

-- The first sixteen words of a block that begins at `i`.
unfoldable pub block_words : ℕ → Buffer → ℕ → List ℕ
unfolding load_word
block_words zero m i = []
block_words (suc n) m i = load_word m i ∷ block_words n m (i + 4)

-- w[j] = LeftRotate(w[j - 3] ^ w[j - 8] ^ w[j - 14] ^ w[j - 16], 1), for the next `n` values of j.
unfoldable pub extend_words : ℕ → ℕ → List ℕ → List ℕ
unfolding left_rotate
extend_words zero j w = w
extend_words (suc n) j w = extend_words n (j + 1) (w ++ next ∷ [])
  where
    next : ℕ
    next =
        left_rotate
          (bit_xor
            (bit_xor (bit_xor (get_or w (j - 3) 0) (get_or w (j - 8) 0)) (get_or w (j - 14) 0))
            (get_or w (j - 16) 0))
          1

-- The chaining values h0 … h4, and the working values a … e.
pub record Words : Type 0 where
  pub a : ℕ
  pub b : ℕ
  pub c : ℕ
  pub d : ℕ
  pub e : ℕ

unfoldable pub round_f : ℕ → Words → ℕ
unfolding bit_not
round_f j s =
    if ltb j 20
    then bit_or (bit_and s.b s.c) (bit_and (bit_not s.b) s.d)
    else if ltb j 40
    then bit_xor (bit_xor s.b s.c) s.d
    else if ltb j 60
    then bit_or (bit_or (bit_and s.b s.c) (bit_and s.b s.d)) (bit_and s.c s.d)
    else bit_xor (bit_xor s.b s.c) s.d

unfoldable pub round_k : ℕ → ℕ
round_k j =
    if ltb j 20
    then 0x5a827999
    else if ltb j 40
    then 0x6ed9eba1
    else if ltb j 60
    then 0x8f1bbcdc
    else 0xca62c1d6

unfoldable pub round : ℕ → ℕ → Words → Words
unfolding left_rotate round_f round_k
round j word s = record {
  a = u32 (left_rotate s.a 5 + round_f j s + s.e + round_k j + word);
  b = s.a;
  c = left_rotate s.b 30;
  d = s.c;
  e = s.d;
}

-- `for (j = 0; j < 80; j++)`, over the words that are left.
unfoldable pub rounds : ℕ → List ℕ → Words → Words
unfolding round
rounds j [] s = s
rounds j (word ∷ w) s = rounds (j + 1) w (round j word s)

unfoldable pub add_words : Words → Words → Words
add_words h s = record {
  a = u32 (h.a + s.a);
  b = u32 (h.b + s.b);
  c = u32 (h.c + s.c);
  d = u32 (h.d + s.d);
  e = u32 (h.e + s.e);
}

unfoldable pub compress : Buffer → ℕ → Words → Words
unfolding block_words extend_words rounds add_words
compress m i h = add_words h (rounds 0 (extend_words 64 16 (block_words 16 m i)) h)

-- `for (i = 0; i < m.size(); i += 64)`, for the blocks that are left.
unfoldable pub compress_all : ℕ → Buffer → ℕ → Words → Words
unfolding compress
compress_all zero m i h = h
compress_all (suc blocks) m i h = compress_all blocks m (i + 64) (compress m i h)

abbrev pub initial : Words
initial = record { a = 0x67452301; b = 0xefcdab89; c = 0x98badcfe; d = 0x10325476; e = 0xc3d2e1f0 }

abbrev pub hex_digit : ℕ → ℕ
hex_digit n = if ltb n 10 then b'0' + n else b'a' + (n - 10)

-- `std::hex << n`: lower case, without leading zeros. A `uint32_t` has at most eight digits.
unfoldable pub hex : ℕ → ℕ → Buffer
hex zero n = []
hex (suc fuel) n =
    let front = hex fuel (n / 16) in
    if n / 16 == 0 then hex_digit n ∷ [] else front ++ hex_digit (n % 16) ∷ []

-- `std::setw(width)` with the fill character '0'.
unfoldable pub set_width : ℕ → Buffer → Buffer
set_width width text = replicate (width - length text) b'0' ++ text

unfoldable pub hex_word : ℕ → Buffer
unfolding hex set_width
hex_word n = set_width 8 (hex 8 n)

unfoldable pub print_words : Words → Buffer
unfolding hex_word
print_words h = hex_word h.a ++ (hex_word h.b ++ (hex_word h.c ++ (hex_word h.d ++ hex_word h.e)))

-- The blocks of the padded message are (m.size() + 63) / 64, of which the loop runs each.
unfoldable pub calculate : Buffer → Buffer
unfolding pad compress_all print_words
calculate input = let m = pad input in print_words (compress_all ((length m + 63) / 64) m 0 initial)
