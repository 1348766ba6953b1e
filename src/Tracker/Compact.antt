-- ===== src/Tracker/Compact.antt =====
-- source/tracker/tracker.cpp: the compact list of peers, six bytes for each, that both kinds of
-- tracker answer with.
use node_link.Base.{
  ℕ, ◌+◌, ◌*◌, ◌/◌, ◌%◌, ◌^◌, ◌<◌, ◌≡◌, refl, List, [], ◌∷◌, ◌++◌, length, All, map, arith,
}
use node_link.Parsing.Buffer.{Buffer}
use node_link.Parsing.Text.{to_string}
use node_link.Tracker.Peer.{Peer}

-- Extract IP: four numbers with dots between them.
abbrev pub ip_text : ℕ → ℕ → ℕ → ℕ → Buffer
ip_text p1 p2 p3 p4 =
    to_string p1 ++ (b'.' ∷ (to_string p2 ++ (b'.' ∷ (to_string p3 ++ (b'.' ∷ to_string p4)))))

-- `for (i = …; i + 6 <= len; i += 6)`, for the bytes that are left.
unfoldable pub compact_peers : Buffer → List Peer
compact_peers (p1 ∷ p2 ∷ p3 ∷ p4 ∷ p5 ∷ p6 ∷ bin) =
    record { ip = ip_text p1 p2 p3 p4; port = (p5 * 2 ^ 8 + p6) % 2 ^ 16; id = [] }
    ∷ compact_peers bin
compact_peers _ = []

-- An IPv4 address, and what stands for it on the wire.
pub record Address : Type 0 where
  pub a : ℕ
  pub b : ℕ
  pub c : ℕ
  pub d : ℕ
  pub port : ℕ

abbrev pub address_bytes : List Address → Buffer
address_bytes [] = []
address_bytes (x ∷ xs) =
    x.a ∷ x.b ∷ x.c ∷ x.d ∷ (x.port / 2 ^ 8) ∷ (x.port % 2 ^ 8) ∷ address_bytes xs

abbrev pub peer_at : Address → Peer
peer_at x = record { ip = ip_text x.a x.b x.c x.d; port = x.port; id = [] }

-- A list of addresses whose ports have 16 bits is read back from its bytes, in order; up to five bytes
-- behind them are ignored.
pub compact_peers-address_bytes :
    (xs : List Address) (rest : Buffer)
    → All (λ x. x.port < 2 ^ 16) xs
    → length rest < 6
    → compact_peers (address_bytes xs ++ rest) ≡ map peer_at xs
unfolding compact_peers
compact_peers-address_bytes [] [] h r = refl
compact_peers-address_bytes [] (r1 ∷ []) h r = refl
compact_peers-address_bytes [] (r1 ∷ r2 ∷ []) h r = refl
compact_peers-address_bytes [] (r1 ∷ r2 ∷ r3 ∷ []) h r = refl
compact_peers-address_bytes [] (r1 ∷ r2 ∷ r3 ∷ r4 ∷ []) h r = refl
compact_peers-address_bytes [] (r1 ∷ r2 ∷ r3 ∷ r4 ∷ r5 ∷ []) h r = refl
compact_peers-address_bytes [] (r1 ∷ r2 ∷ r3 ∷ r4 ∷ r5 ∷ r6 ∷ rest) h r = absurd (omega arith)
compact_peers-address_bytes (x ∷ xs) rest h r =
    let port : (x.port / 2 ^ 8 * 2 ^ 8 + x.port % 2 ^ 8) % 2 ^ 16 ≡ x.port = omega (arith, h.0) in
    rw (port, compact_peers-address_bytes xs rest h.1 r)
