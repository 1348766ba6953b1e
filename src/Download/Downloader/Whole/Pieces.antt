-- ===== src/Download/Downloader/Whole/Pieces.antt =====
-- The pieces of OnBlockReceived in source/download/downloader.cpp, for a torrent that describes a byte
-- string: their lengths, the last one's included, and where they stand in it.
use node_link.Base.{
  ℕ, zero, suc, ◌+◌, ◌-◌, ◌*◌, ◌/◌, ◌%◌, ◌^◌, ◌≤◌, ◌<◌, min, ◌≡◌, refl, sym, ap, ◌∙◌, inl, inr, ℤ,
  pos, rem_int64, length, length-take, length-drop, take, drop, take-length-take, ok, Holds,
  IsSlice, Bool-cases, ◌==◌, arith,
}
use node_link.Parsing.Buffer.{Buffer}
use node_link.Parsing.TorrentFile.{TorrentFile}
use node_link.Download.Downloader.{piece_len, or_remainder, is_last_piece}
use native.Mathlib.Nat.{
  mul-le-mul_right, mul-add-mod_self_right, mod-eq_of_lt, div-mul-le_self, lt-div-mul-add,
  div-lt_iff_lt-mul,
}

abbrev pub piece_of : Buffer → ℕ → ℕ → Buffer
piece_of c m i = take m (drop (i * m) c)

-- The torrent's numbers are those of the byte string `c`, cut in pieces of `m` bytes, the last of which may
-- be shorter. Its hashes are any.
pub record Describes (t : TorrentFile) (c : Buffer) (m : ℕ) : Type 0 where
  pub width : t.piece_length ≡ pos m
  pub size : t.length ≡ pos (length c)
  pub some_width : 0 < m
  pub narrow : m < 2 ^ 31
  pub some_pieces : 0 < length t.piece_hashes
  pub few : length t.piece_hashes < 2 ^ 31
  pub small : length c < 2 ^ 62
  pub short : length c ≤ length t.piece_hashes * m
  pub full : (length t.piece_hashes - 1) * m < length c

length-piece_of : (c : Buffer) (m i : ℕ) → length (piece_of c m i) ≡ min m (length c - i * m)
length-piece_of c m i = omega (arith, length-take m (drop (i * m) c), length-drop (i * m) c)

or_remainder_some : (len : ℤ) (r : ℕ) → 0 < r → or_remainder len (pos r) ≡ pos r
or_remainder_some len zero h = absurd (omega arith)
or_remainder_some len (suc r) h = refl

rem_int64_pos : (a m : ℕ) → 0 < m → rem_int64 (pos a) (pos m) ≡ ok (pos (a % m))
unfolding rem_int64
rem_int64_pos a zero h = absurd (omega arith)
rem_int64_pos a (suc m) h = refl

-- What is left of the last piece is the remainder of the length, unless the piece is a full one.
or_remainder_left :
    (i m r : ℕ) → 0 < r → r ≤ m → or_remainder (pos m) (pos ((i * m + r) % m)) ≡ pos r
or_remainder_left i m r some_left h = elim (Bool-cases (r == m)) [
  | inl same ↦
      let whole : i * m + r ≡ suc i * m + 0 = ground arith in
      let none_left : (suc i * m + 0) % m ≡ 0 =
        mul-add-mod_self_right (suc i) m 0 ∙ mod-eq_of_lt (ground arith) in
      ap (λ n. or_remainder (pos m) (pos (n % m))) whole
      ∙ ap (λ n. or_remainder (pos m) (pos n)) none_left
      ∙ ground arith
  | inr other ↦
      let part : (i * m + r) % m ≡ r = mul-add-mod_self_right i m r ∙ mod-eq_of_lt (ground arith) in
      ap (λ n. or_remainder (pos m) (pos n)) part ∙ or_remainder_some (pos m) r some_left
]

module _ (t : TorrentFile) (c : Buffer) (m : ℕ) (h : Describes t c m) (i : ℕ)
    (known : i < length t.piece_hashes) where
  pub piece-starts : i * m < length c
  piece-starts =
      let below : i * m ≤ (length t.piece_hashes - 1) * m = mul-le-mul_right m (omega arith) in
      omega (arith, h.full)

  pub piece_of-some : 0 < length (piece_of c m i)
  piece_of-some = omega (arith, length-piece_of c m i, piece-starts, h.some_width)

  pub piece_of-narrow : length (piece_of c m i) < 2 ^ 31
  piece_of-narrow = omega (arith, length-piece_of c m i, h.narrow)

  pub piece_of-IsSlice : IsSlice c (i * m, piece_of c m i)
  piece_of-IsSlice = (
    omega (arith, length-piece_of c m i, piece-starts),
    sym (take-length-take m (drop (i * m) c)),
  )

  piece_len_inner : i < length t.piece_hashes - 1 → length (piece_of c m i) ≡ m
  piece_len_inner inner =
      let next : suc i * m ≤ (length t.piece_hashes - 1) * m = mul-le-mul_right m (omega arith) in
      omega (arith, length-piece_of c m i, h.full)

  piece_len_last :
      i ≡ length t.piece_hashes - 1
      → or_remainder (pos m) (pos (length c % m)) ≡ pos (length (piece_of c m i))
  piece_len_last last =
      let all : length t.piece_hashes * m ≡ suc i * m = ap (λ n. n * m) (omega arith) in
      let left : length (piece_of c m i) ≡ length c - i * m =
        omega (arith, length-piece_of c m i, h.short) in
      let whole : length c ≡ i * m + length (piece_of c m i) = omega (arith, piece-starts) in
      ap (λ n. or_remainder (pos m) (pos (n % m))) whole
      ∙ or_remainder_left i m (length (piece_of c m i)) piece_of-some
          (omega (arith, length-piece_of c m i))

  pub piece_len_lem : piece_len t i ≡ ok (pos (length (piece_of c m i)))
  unfolding piece_len
  piece_len_lem = elim (Bool-cases (is_last_piece t i)) [
    | inl last ↦
        let at_end : i ≡ length t.piece_hashes - 1 = ground (arith, h.some_pieces, h.few) in
        rw (last, h.size, h.width, rem_int64_pos (length c) m h.some_width)
          (ap ok (piece_len_last at_end))
    | inr inner ↦
        let before : i < length t.piece_hashes - 1 = ground (arith, h.some_pieces, h.few) in
        rw (inner, h.width, piece_len_inner before) refl
  ]

-- The piece in which a byte stands.
pub piece_at :
    (t : TorrentFile) (c : Buffer) (m : ℕ)
    → Describes t c m
    → (k : ℕ) → k < length c
    → (i : ℕ) × (i < length t.piece_hashes) × Holds (i * m, piece_of c m i) k
piece_at t c m h k inside =
    let from : k / m * m ≤ k = div-mul-le_self k m in
    let to : k < k / m * m + m = lt-div-mul-add h.some_width in
    let known : k / m < length t.piece_hashes =
      (div-lt_iff_lt-mul h.some_width).1 (omega (arith, h.short)) in
    (k / m, known, (from, omega (arith, length-piece_of c m (k / m))))
