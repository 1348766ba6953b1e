-- ===== src/Download/Connection/Requests/Choice.antt =====
-- The choice of a piece: the first one from the downloader's counter on that the peer has.
use node_link.Base.{
  ℕ, zero, suc, ◌+◌, ◌-◌, ◌%◌, ◌^◌, ◌≤◌, ◌<◌, ◌≡◌, ap, ◌∙◌, ◌⊎◌, Bool, true, false, u64_of_int,
  minus_one, length, Result, ok, arith, ltb, ◌==◌, Bool-cases, inl, inr, ==→eq, ==→ne, ltb→le,
  ltb→lt,
}
use node_link.Download.Downloader.{get_next_piece_to_request}
use node_link.Download.Connection.State.{Link, Env, on_downloader, has_piece}
use node_link.Download.Connection.Requests.{assign_piece, pick_piece}

abbrev piece_count : Env → ℕ
piece_count e = length e.downloader.torrent.piece_hashes

abbrev next_index : Env → ℕ
next_index e = e.downloader.next_req_index

abbrev with_next : ℕ → Env → Env
with_next n e = record e { downloader = record e.downloader { next_req_index = n } }

take_candidate :
    (e : Env)
    → next_index e < piece_count e
    → piece_count e < 2 ^ 31 - 1
    → on_downloader get_next_piece_to_request e ≡ ok (next_index e) (with_next (next_index e + 1) e)
unfolding get_next_piece_to_request
take_candidate e h bound = ground arith

no_candidate :
    (e : Env)
    → piece_count e ≤ next_index e
    → next_index e < 2 ^ 31 - 1
    → on_downloader get_next_piece_to_request e ≡ ok minus_one (with_next (next_index e + 1) e)
unfolding get_next_piece_to_request
no_candidate e h bound = ground arith

-- The peer has none of the pieces from `lo` up to `hi`.
abbrev pub Lacks : Link → ℕ → ℕ → Type 0
Lacks l lo hi = (k : ℕ) → lo ≤ k → k < hi → has_piece l k ≡ false

Lacks-cons : (l : Link) (lo hi : ℕ) → has_piece l lo ≡ false → Lacks l (lo + 1) hi → Lacks l lo hi
Lacks-cons l lo hi h rest k a b = elim (Bool-cases (k == lo)) [
  | inl here ↦ ap (has_piece l) (==→eq k lo here) ∙ h
  | inr more ↦ let e = ==→ne k lo more in rest k (omega arith) b
]

-- What the loop does: it assigns the first piece that the peer has, from the downloader's counter
-- on, or finds that the peer has none of them and runs the counter past the last piece.
abbrev pub Picks : ℕ → Env → Result Env Bool → Type 0
Picks lo e r =
    ((j : ℕ) × (lo ≤ j)
      × (j < piece_count e)
      × (has_piece e.link j ≡ true)
      × Lacks e.link lo j
      × (r ≡ ok true (assign_piece j (with_next (j + 1) e))))
    ⊎ (Lacks e.link lo (piece_count e) × (r ≡ ok false (with_next (piece_count e + 1) e)))

skip_candidate :
    (lo : ℕ) (e : Env) (r : Result Env Bool)
    → has_piece e.link lo ≡ false
    → Picks (lo + 1) e r
    → Picks lo e r
skip_candidate lo e r h (inl (j, le, inside, held, lacks, eq)) =
    inl (j, omega arith, inside, held, Lacks-cons e.link lo j h lacks, eq)
skip_candidate lo e r h (inr (lacks, eq)) = inr (Lacks-cons e.link lo (piece_count e) h lacks, eq)

-- From a counter that has not passed the last of fewer than 2 ^ 31 - 1 pieces, and with fuel for every
-- piece that is left, the loop over the candidates assigns the first piece in index order, from the counter on,
-- that the peer has, however rare it is among the peers, and moves the counter behind it, or, where the peer has none of them, finds none and
-- moves the counter behind the last piece. Its bound on the attempts is never met.
pub pick_piece-Picks :
    (fuel attempts : ℕ) (e : Env)
    → next_index e ≤ piece_count e
    → piece_count e < 2 ^ 31 - 1
    → piece_count e < fuel + next_index e
    → attempts ≤ next_index e
    → Picks (next_index e) e (pick_piece fuel attempts e)
unfolding pick_piece
pick_piece-Picks zero attempts e le bound enough few = absurd (omega arith)
pick_piece-Picks (suc fuel) attempts e le bound enough few =
    elim (Bool-cases (ltb (next_index e) (piece_count e))) [
      | inr done ↦
          let last = ltb→le (next_index e) (piece_count e) done in
          let same : next_index e + 1 ≡ piece_count e + 1 = omega arith in
          inr (
            λ k a b. absurd (omega arith),
            rw (no_candidate e last (omega arith)) (ap (λ n. Result.ok false (with_next n e)) same),
          )
      | inl more ↦
          let inside = ltb→lt (next_index e) (piece_count e) more in
          let taken = take_candidate e inside bound in
          let index : (next_index e == minus_one) ≡ false = ground arith in
          elim (Bool-cases (has_piece e.link (next_index e))) [
            | inl held ↦ inl (
              next_index e,
              omega arith,
              inside,
              held,
              λ k a b. absurd (omega arith),
              rw (taken, index, held),
            )
            | inr lacks ↦
                let tried : (attempts + 1) % 2 ^ 32 ≡ attempts + 1 = omega arith in
                let few' : ltb (piece_count e) (u64_of_int (attempts + 1)) ≡ false = ground arith in
                skip_candidate (next_index e) e _ lacks (
                  rw (taken, index, lacks, tried, few')
                    (pick_piece-Picks fuel (attempts + 1) (with_next (next_index e + 1) e)
                      (omega arith) bound (omega arith) (omega arith)))
          ]
    ]
