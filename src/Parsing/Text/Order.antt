-- ===== src/Parsing/Text/Order.antt =====
-- The order of the keys is a strict total order.
use node_link.Base.{◌≡◌, refl, true, false, [], ◌∷◌, arith}
use node_link.Parsing.Buffer.{Buffer}
use node_link.Parsing.Text.{bytes_lt}

pub bytes_lt_asym : (a b : Buffer) → bytes_lt a b ≡ true → bytes_lt b a ≡ false
unfolding bytes_lt
bytes_lt_asym [] [] h = refl
bytes_lt_asym [] (y ∷ b) h = refl
bytes_lt_asym (x ∷ a) [] h = absurd (ground arith)
bytes_lt_asym (x ∷ a) (y ∷ b) h = ground (arith, bytes_lt_asym a b)

pub bytes_lt_trans :
    (a b c : Buffer) → bytes_lt a b ≡ true → bytes_lt b c ≡ true → bytes_lt a c ≡ true
unfolding bytes_lt
bytes_lt_trans [] [] c h k = k
bytes_lt_trans [] (y ∷ b) [] h k = absurd (ground arith)
bytes_lt_trans [] (y ∷ b) (z ∷ c) h k = refl
bytes_lt_trans (x ∷ a) [] c h k = absurd (ground arith)
bytes_lt_trans (x ∷ a) (y ∷ b) [] h k = absurd (ground arith)
bytes_lt_trans (x ∷ a) (y ∷ b) (z ∷ c) h k = ground (arith, bytes_lt_trans a b c)

pub bytes_lt_total : (a b : Buffer) → bytes_lt a b ≡ false → bytes_lt b a ≡ false → a ≡ b
unfolding bytes_lt
bytes_lt_total [] [] h k = refl
bytes_lt_total [] (y ∷ b) h k = absurd (ground arith)
bytes_lt_total (x ∷ a) [] h k = absurd (ground arith)
bytes_lt_total (x ∷ a) (y ∷ b) h k = ground (arith, bytes_lt_total a b)
