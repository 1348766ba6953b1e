-- ===== src/Parsing/Buffer.antt =====
-- include/parsing/buffer.h: byte vectors, and big-endian integers in them.
pub mod RoundTrip
use node_link.Base.{
  ℕ, ◌+◌, ◌*◌, ◌/◌, ◌%◌, ◌^◌, ◌<◌, List, [], ◌∷◌, ◌++◌, Outcome, ok, throw, out_of_range, bind,
  in_range, length, get_elem?, All, ltb, if◌then◌else◌,
}

-- A byte string is a list of bytes too: `FromString` and `ToString` copy it unchanged.
abbrev pub Buffer : Type 0
Buffer = List ℕ

abbrev pub IsBytes : Buffer → Type 0
IsBytes = All λ b. b < 256

-- `size_t` arithmetic.
abbrev pub size_t : ℕ → ℕ
size_t n = n % 2 ^ 64

-- (b0 << 24) | (b1 << 16) | (b2 << 8) | b3. The shifted bytes do not overlap, so `|` is a sum.
abbrev pub be32 : ℕ → ℕ → ℕ → ℕ → ℕ
be32 b0 b1 b2 b3 = (b0 * 2 ^ 24 + b1 * 2 ^ 16 + b2 * 2 ^ 8 + b3) % 2 ^ 32

-- `buffer[index]`: out of range it is undefined behaviour.
abbrev pub byte_at : Buffer → ℕ → Outcome ℕ
byte_at buffer index = in_range (get_elem? buffer index)

unfoldable pub read_be32 : Buffer → ℕ → Outcome ℕ
read_be32 buffer index =
    if ltb (length buffer) (size_t (index + 4))
    then throw out_of_range
    else bind (byte_at buffer index) λ b0. bind (byte_at buffer (size_t (index + 1))) λ b1.
      bind (byte_at buffer (size_t (index + 2)))
        λ b2. bind (byte_at buffer (size_t (index + 3))) λ b3. ok (be32 b0 b1 b2 b3)

unfoldable pub read_be16 : Buffer → ℕ → Outcome ℕ
read_be16 buffer index =
    if ltb (length buffer) (size_t (index + 2))
    then throw out_of_range
    else bind (byte_at buffer index)
        λ b0. bind (byte_at buffer (size_t (index + 1))) λ b1. ok ((b0 * 2 ^ 8 + b1) % 2 ^ 16)

-- The four bytes (value >> 24) & 0xFF, …, value & 0xFF.
abbrev pub be32_bytes : ℕ → Buffer
be32_bytes value =
    (value / 2 ^ 24 % 256) ∷ (value / 2 ^ 16 % 256) ∷ (value / 2 ^ 8 % 256) ∷ (value % 256) ∷ []

unfoldable pub write_be32 : Buffer → ℕ → Buffer
write_be32 buffer value = buffer ++ be32_bytes value
