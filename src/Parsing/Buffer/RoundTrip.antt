-- ===== src/Parsing/Buffer/RoundTrip.antt =====
-- Reading at an index gives back what was written there, and the bounds check is exact below the
-- wrap of `size_t`.
use node_link.Base.{
  ℕ, suc, ◌+◌, ◌*◌, ◌/◌, ◌%◌, ◌^◌, ◌≤◌, ◌<◌, ◌≡◌, ap, [], ◌∷◌, ◌++◌, append_assoc, ok, throw,
  out_of_range, arith, length, get_elem?, length-append, get_elem?-some, le→ltb, lt→ltb,
}
use node_link.Parsing.Buffer.{
  Buffer, IsBytes, size_t, be32, read_be32, read_be16, be32_bytes, write_be32,
}

pub be32-be32_bytes :
    (v : ℕ)
    → v < 2 ^ 32
    → be32 (v / 2 ^ 24 % 256) (v / 2 ^ 16 % 256) (v / 2 ^ 8 % 256) (v % 256) ≡ v
be32-be32_bytes v h = omega arith

pub be32_bytes-IsBytes : (v : ℕ) → IsBytes (be32_bytes v)
be32_bytes-IsBytes v = omega arith

-- Bytes are determined by the number that they are read as.
pub be32_bytes-be32 :
    (b0 b1 b2 b3 : ℕ)
    → b0 < 256
    → b1 < 256
    → b2 < 256
    → b3 < 256
    → be32_bytes (be32 b0 b1 b2 b3) ≡ b0 ∷ b1 ∷ b2 ∷ b3 ∷ []
be32_bytes-be32 b0 b1 b2 b3 h0 h1 h2 h3 = ground arith

get_elem?-length : (xs ys : Buffer) (i : ℕ) → get_elem? (xs ++ ys) (length xs + i) ≡ get_elem? ys i
get_elem?-length [] ys i = let e : 0 + i ≡ i = omega arith in rw e
get_elem?-length (x ∷ xs) ys i =
    let e : length (x ∷ xs) + i ≡ suc (length xs + i) = omega arith in
    rw e (get_elem?-length xs ys i)

get_elem?-length_self : (xs ys : Buffer) → get_elem? (xs ++ ys) (length xs) ≡ get_elem? ys 0
get_elem?-length_self xs ys =
    let e : length xs + 0 ≡ length xs = omega arith in rw e at (get_elem?-length xs ys 0)

size_t-small : (n : ℕ) → n < 2 ^ 64 → size_t n ≡ n
size_t-small n h = omega arith

-- What `WriteBE32` appended to a buffer is read back at the buffer's old end, whatever follows.
pub read_be32-write_be32 :
    (b rest : Buffer) (v : ℕ)
    → v < 2 ^ 32
    → length b + 4 < 2 ^ 64
    → read_be32 (write_be32 b v ++ rest) (length b) ≡ ok v
unfolding read_be32 write_be32
read_be32-write_be32 b rest v hv hb =
    rw
      (
        append_assoc,
        size_t-small (length b + 4) hb,
        size_t-small (length b + 1) (omega arith),
        size_t-small (length b + 2) (omega arith),
        size_t-small (length b + 3) (omega arith),
        le→ltb (length (b ++ (be32_bytes v ++ rest))) (length b + 4)
            (omega (arith, length-append b (be32_bytes v ++ rest))),
        get_elem?-length_self,
        get_elem?-length b (be32_bytes v ++ rest) 1,
        get_elem?-length b (be32_bytes v ++ rest) 2,
        get_elem?-length b (be32_bytes v ++ rest) 3,
      )
      (ap ok (be32-be32_bytes v hv))

-- Below the wrap of `size_t` the guard of `ReadBE32` is exact: an index with four bytes behind it
-- gives a value below 2 ^ 32, and any other index is refused, so that no byte out of range is read.
read_be32_bounds :
    (b : Buffer) (i : ℕ)
    → i + 4 < 2 ^ 64
    → (i + 4 ≤ length b → (v : ℕ) × (read_be32 b i ≡ ok v) × (v < 2 ^ 32))
      × (length b < i + 4 → read_be32 b i ≡ throw out_of_range)
unfolding read_be32
read_be32_bounds b i h = (inside, λ out. rw (size_t-small (i + 4) h, lt→ltb _ _ out))
  where
    inside : i + 4 ≤ length b → (v : ℕ) × (read_be32 b i ≡ ok v) × (v < 2 ^ 32)
    inside fits =
        let (b0, e0) = get_elem?-some b i (omega arith) in
        let (b1, e1) = get_elem?-some b (i + 1) (omega arith) in
        let (b2, e2) = get_elem?-some b (i + 2) (omega arith) in
        let (b3, e3) = get_elem?-some b (i + 3) (omega arith) in
        (
          be32 b0 b1 b2 b3,
          rw (
            size_t-small (i + 4) h,
            size_t-small (i + 1) (omega arith),
            size_t-small (i + 2) (omega arith),
            size_t-small (i + 3) (omega arith),
            le→ltb _ _ fits,
            e0,
            e1,
            e2,
            e3,
          ),
          omega arith,
        )

-- The same of `ReadBE16` and two bytes.
read_be16_bounds :
    (b : Buffer) (i : ℕ)
    → i + 2 < 2 ^ 64
    → (i + 2 ≤ length b → (v : ℕ) × (read_be16 b i ≡ ok v) × (v < 2 ^ 16))
      × (length b < i + 2 → read_be16 b i ≡ throw out_of_range)
unfolding read_be16
read_be16_bounds b i h = (inside, λ out. rw (size_t-small (i + 2) h, lt→ltb _ _ out))
  where
    inside : i + 2 ≤ length b → (v : ℕ) × (read_be16 b i ≡ ok v) × (v < 2 ^ 16)
    inside fits =
        let (b0, e0) = get_elem?-some b i (omega arith) in
        let (b1, e1) = get_elem?-some b (i + 1) (omega arith) in
        (
          (b0 * 2 ^ 8 + b1) % 2 ^ 16,
          rw (size_t-small (i + 2) h, size_t-small (i + 1) (omega arith), le→ltb _ _ fits, e0, e1),
          omega arith,
        )
