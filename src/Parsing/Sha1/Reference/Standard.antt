-- ===== src/Parsing/Sha1/Reference/Standard.antt =====
-- SHA-1 as RFC 3174 writes it down, with nothing of include/parsing/Sha1.h in it but the record of five words.
use Prim.Native.Nat.{bit_and, bit_or, bit_xor}
use node_link.Base.{
  ℕ, zero, suc, ◌+◌, ◌-◌, ◌*◌, ◌/◌, ◌%◌, ◌^◌, [], ◌∷◌, ◌++◌, length, get_or, replicate, ltb, ◌==◌,
  if◌then◌else◌,
}
use node_link.Parsing.Buffer.{Buffer}
use node_link.Parsing.Text.{ascii}
use node_link.Parsing.Sha1.{Words}

-- 2: bit strings and integers. A word is four bytes, the first of which is the most significant.
abbrev pub word : Buffer → ℕ → ℕ
word m i =
    get_or m i 0 * 2 ^ 24
    + get_or m (i + 1) 0 * 2 ^ 16
    + get_or m (i + 2) 0 * 2 ^ 8
    + get_or m (i + 3) 0

-- The `k` bytes of a number below 256 ^ k.
abbrev pub big_endian : ℕ → ℕ → Buffer
big_endian zero n = []
big_endian (suc k) n = big_endian k (n / 256) ++ (n % 256) ∷ []

-- The `k` hexadecimal digits of a number below 16 ^ k.
abbrev pub hex_text : ℕ → ℕ → Buffer
hex_text zero n = []
hex_text (suc k) n = hex_text k (n / 16) ++ get_or (ascii "0123456789abcdef") (n % 16) 0 ∷ []

-- 3b: X + Y. 3a: NOT X. 3c: S^n(X).
abbrev pub plus : ℕ → ℕ → ℕ
plus x y = (x + y) % 4294967296

abbrev pub complement : ℕ → ℕ
complement x = 4294967295 - x

abbrev pub shift : ℕ → ℕ → ℕ
shift n x = bit_or (x * 2 ^ n % 4294967296) (x / 2 ^ (32 - n))

-- 4: the message, "1" and zeros up to 56 bytes modulo 64, and the number of its bits in two words.
abbrev pub missing : ℕ → ℕ
missing n = (120 - n % 64) % 64

abbrev pub padded : Buffer → Buffer
padded input =
    input ++ (0x80 ∷ (replicate (missing (length input + 1)) 0 ++ big_endian 8 (length input * 8)))

-- 5: f(t; B, C, D) and K(t), by the quarter of the 80 steps in which t stands.
abbrev pub f_of : ℕ → ℕ → ℕ → ℕ → ℕ
f_of quarter b c d =
    if quarter == 0
    then bit_or (bit_and b c) (bit_and (complement b) d)
    else if quarter == 2
    then bit_or (bit_or (bit_and b c) (bit_and b d)) (bit_and c d)
    else bit_xor (bit_xor b c) d

abbrev pub k_of : ℕ → ℕ
k_of quarter = get_or (0x5a827999 ∷ 0x6ed9eba1 ∷ 0x8f1bbcdc ∷ 0xca62c1d6 ∷ []) quarter 0

-- 6.1b: S^1(W(t-3) XOR W(t-8) XOR W(t-14) XOR W(t-16))
abbrev pub mix : ℕ → ℕ → ℕ → ℕ → ℕ
mix a b c d = shift 1 (bit_xor (bit_xor (bit_xor a b) c) d)

-- The words W(t) … W(t + 15), of which the first sixteen are the block's that begins at `i`.
unfoldable pub window : Buffer → ℕ → ℕ → ℕ → ℕ
window m i zero k = word m (i + 4 * k)
window m i (suc t) k =
    if ltb k 15
    then window m i t (k + 1)
    else mix (window m i t 13) (window m i t 8) (window m i t 2) (window m i t 0)

-- W(t)
abbrev pub scheduled : Buffer → ℕ → ℕ → ℕ
scheduled m i t = window m i t 0

-- 6.1d: TEMP = S^5(A) + f(t; B, C, D) + E + W(t) + K(t); E = D; D = C; C = S^30(B); B = A; A = TEMP
abbrev pub step : ℕ → ℕ → Words → Words
step t w s = record {
  a = plus (shift 5 s.a + f_of (t / 20) s.b s.c s.d + s.e + w) (k_of (t / 20));
  b = s.a;
  c = shift 30 s.b;
  d = s.c;
  e = s.d;
}

-- The words A … E after the first `t` steps on a block with the words `w`.
abbrev pub steps : (ℕ → ℕ) → ℕ → Words → Words
steps w zero h = h
steps w (suc t) h = step t (w t) (steps w t h)

-- 6.1: H0 … H4
abbrev pub start : Words
start = record { a = 0x67452301; b = 0xefcdab89; c = 0x98badcfe; d = 0x10325476; e = 0xc3d2e1f0 }

-- 6.1e: H0 = H0 + A, …, H4 = H4 + E
abbrev pub chained : Words → Words → Words
chained h s = record {
  a = plus h.a s.a;
  b = plus h.b s.b;
  c = plus h.c s.c;
  d = plus h.d s.d;
  e = plus h.e s.e;
}

-- H0 … H4 after the first `n` blocks of the padded message.
unfoldable pub hashed : Buffer → ℕ → Words
unfolding window
hashed m zero = start
hashed m (suc n) = chained (hashed m n) (steps (scheduled m (64 * n)) 80 (hashed m n))

-- H0 … H4 as text.
abbrev pub text_of : Words → Buffer
text_of h =
    hex_text 8 h.a ++ (hex_text 8 h.b ++ (hex_text 8 h.c ++ (hex_text 8 h.d ++ hex_text 8 h.e)))

-- The digest of a message.
unfoldable pub digest : Buffer → Buffer
unfolding hashed
digest input = text_of (hashed (padded input) (length (padded input) / 64))
