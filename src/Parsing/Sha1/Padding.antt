-- ===== src/Parsing/Sha1/Padding.antt =====
-- The padding of include/parsing/Sha1.h is the one of RFC 3174: the padded message has whole blocks, and begins
-- with the input.
use node_link.Base.{
  ℕ, zero, suc, ◌+◌, ◌*◌, ◌%◌, ◌^◌, ◌<◌, ◌≡◌, sym, inl, inr, [], ◌∷◌, ◌++◌, append_assoc,
  append-nil, All-append, ◌∙◌, arith, length, length-append, length-replicate, replicate, ap, ◌==◌,
  Bool-cases, ==→eq, ==→ne,
}
use node_link.Parsing.Buffer.{Buffer, IsBytes, size_t}
use node_link.Parsing.Sha1.{pad_zeros, pad}
use node_link.Parsing.Sha1.Reference.Standard.{big_endian, missing, padded}
use node_link.Parsing.Sha1.Reference.Encodings.{length_bytes-big_endian, big_endian-IsBytes}

-- Fuel above the number of missing zeros lets the loop end by its test.
pad_zeros_lem :
    (fuel : ℕ) (m : Buffer)
    → missing (length m) < fuel
    → length m + missing (length m) < 2 ^ 61
    → pad_zeros fuel m ≡ m ++ replicate (missing (length m)) 0
unfolding pad_zeros
pad_zeros_lem zero m h bound = absurd (omega arith)
pad_zeros_lem (suc fuel) m h bound = elim (Bool-cases (size_t (length m * 8) % 512 == 448)) [
  | inl done ↦
      let full = ==→eq (size_t (length m * 8) % 512) 448 done in
      let complete : missing (length m) ≡ 0 = omega arith in
      rw (done, complete) (sym (append-nil m))
  | inr more ↦
      let short = ==→ne (size_t (length m * 8) % 512) 448 more in
      let longer = length-append m (0 ∷ []) in
      let one_less : missing (length m) ≡ suc (missing (length (m ++ 0 ∷ []))) = omega arith in
      let rest = pad_zeros_lem fuel (m ++ 0 ∷ []) (omega arith) (omega arith) in
      rw (more, one_less)
        (rest ∙ append_assoc m (0 ∷ []) (replicate (missing (length (m ++ 0 ∷ []))) 0))
]

pub pad-padded : (input : Buffer) → length input < 2 ^ 60 → pad input ≡ padded input
unfolding pad
pad-padded input h =
    let marked = length-append input (0x80 ∷ []) in
    let zeros = pad_zeros_lem 64 (input ++ 0x80 ∷ []) (omega arith) (omega arith) in
    let bits : size_t (length input * 8) ≡ length input * 8 = omega arith in
    let same : length (input ++ 0x80 ∷ []) ≡ length input + 1 = omega arith in
    rw (bits, zeros, same, length_bytes-big_endian (length input * 8))
      (ap (λ l. l ++ big_endian 8 (length input * 8))
          (append_assoc input (0x80 ∷ []) (replicate (missing (length input + 1)) 0))
        ∙ append_assoc input (0x80 ∷ replicate (missing (length input + 1)) 0)
            (big_endian 8 (length input * 8)))

pub length-padded : (input : Buffer) → length (padded input) % 64 ≡ 0
length-padded input = omega (
  arith,
  length-append input
      (0x80 ∷ (replicate (missing (length input + 1)) 0 ++ big_endian 8 (length input * 8))),
  length-append (replicate (missing (length input + 1)) 0) (big_endian 8 (length input * 8)),
  length-replicate {A = ℕ} (missing (length input + 1)) 0,
)

zeros-IsBytes : (n : ℕ) → IsBytes (replicate n 0)
zeros-IsBytes zero = tt
zeros-IsBytes (suc n) = (omega arith, zeros-IsBytes n)

pub padded-IsBytes : (input : Buffer) → IsBytes input → IsBytes (padded input)
padded-IsBytes input h =
    let n = missing (length input + 1) in
    All-append _ input (0x80 ∷ (replicate n 0 ++ big_endian 8 (length input * 8))) h (
      omega arith,
      All-append _ (replicate n 0) (big_endian 8 (length input * 8)) (zeros-IsBytes n)
          (big_endian-IsBytes (length input * 8)),
    )
