-- ===== src/Parsing/Sha1/Reference/Tests.antt =====
-- The digest of "abc", an instance of its theorem, and as RFC 3174 lists it.
use node_link.Base.{ℕ, ◌+◌, ◌*◌, ◌%◌, ◌<◌, ◌≡◌, refl, [], ◌∷◌, length, arith}
use node_link.Parsing.Buffer.{Buffer}
use node_link.Parsing.Text.{ascii}
use node_link.Parsing.Sha1.{calculate}
use node_link.Parsing.Sha1.Reference.{calculate_lem}
use node_link.Parsing.Sha1.Reference.Standard.{word, padded, mix, scheduled, digest}

abbrev abc : Buffer
abc = b'a' ∷ b'b' ∷ b'c' ∷ []

-- 7.3, TEST1
digest-abc : digest abc ≡ ascii "a9993e364706816aba3e25717850c26c9cd0d89d"
unfolding digest
digest-abc = refl

calculate_lem_example :
    (calculate abc ≡ digest abc)
    × (length (padded abc) % 64 ≡ 0)
    × ((m : Buffer) (i t : ℕ) → t < 16 → scheduled m i t ≡ word m (i + 4 * t))
    × ((m : Buffer) (i t : ℕ)
        → scheduled m i (t + 16)
          ≡ mix
              (scheduled m i (t + 13))
              (scheduled m i (t + 8))
              (scheduled m i (t + 2))
              (scheduled m i t))
calculate_lem_example = calculate_lem abc (omega arith) (omega arith)
