-- ===== src/Download/Connection/Requests/Tiling.antt =====
-- The requests for one piece: each is for the next 16 KiB or for what is left, and together they
-- cover the piece, after which the connection takes a new one.
use node_link.Base.{
  ℕ, zero, suc, ◌+◌, ◌-◌, ◌^◌, ◌≤◌, ◌<◌, ◌≡◌, refl, ap, sym, ◌∙◌, ◌≢◌, Bool, true, false, pos,
  minus_one, List, [], ◌∷◌, ◌++◌, map, append_assoc, length, some, M, ok, then_run, arith, min,
  ◌==◌, if◌then◌else◌, Bool-cases, inl, inr, ==→eq, ==→ne,
}
use node_link.Parsing.Buffer.{Buffer}
use node_link.Download.Message.{build_request}
use node_link.Download.Downloader.{piece_len}
use node_link.Download.Connection.State.{Env, send_on, send}
use node_link.Download.Connection.Requests.{
  block_length, finish_piece, send_request, request_block, request_next_block,
}

abbrev pub block_size : ℕ
block_size = 16384

block_length_lem :
    (n offset : ℕ)
    → offset < n
    → n < 2 ^ 31
    → block_length (pos n) offset ≡ min block_size (n - offset)
unfolding block_length
block_length_lem n offset h bound = ground arith

-- The connection after a request for the next block of a piece of `n` bytes.
abbrev pub requested : ℕ → Env → Env
requested n e =
    let len = min block_size (n - e.link.block_offset) in
    let next = e.link.block_offset + len in
    record e {
      sent = e.sent ++ build_request e.link.current_piece e.link.block_offset len ∷ [];
      link = record e.link {
        block_offset = next;
        current_piece = if next == n then minus_one else e.link.current_piece;
      };
    }

module _ (accepts : ℕ → Bool) where
  send_lem :
      (e : Env) (bytes : Buffer) (fd : ℕ)
      → e.link.socket ≡ some fd
      → accepts (length e.sent) ≡ true
      → send accepts bytes e ≡ ok tt (record e { sent = e.sent ++ bytes ∷ [] })
  unfolding send send_on
  send_lem e bytes fd open_socket accepted = rw (open_socket, send_on, accepted)

  request_block_lem :
      (e : Env) (n fd : ℕ)
      → e.link.socket ≡ some fd
      → accepts (length e.sent) ≡ true
      → piece_len e.downloader.torrent e.link.current_piece ≡ ok (pos n)
      → e.link.block_offset < n
      → n < 2 ^ 31
      → request_block accepts e ≡ ok tt (requested n e)
  unfolding request_block send_request finish_piece
  request_block_lem e n fd open_socket accepted len inside bound =
      let size = block_length_lem n e.link.block_offset inside bound in
      let sends =
        send_lem e
          (build_request e.link.current_piece e.link.block_offset
            (min block_size (n - e.link.block_offset)))
          fd open_socket accepted in
      rw len (ground (arith, size, sends))

-- Consecutive blocks of at most 16 KiB, none empty, that cover the bytes from `offset` up to `n`.
pub data Tiles (n : ℕ) : ℕ → List (ℕ × ℕ) → Type 0 where
  covered : {offset : ℕ} → offset ≡ n → Tiles n offset []
  tile :
      {offset : ℕ} {rest : List (ℕ × ℕ)} (len : ℕ)
      → 0 < len
      → len ≤ block_size
      → Tiles n (offset + len) rest
      → Tiles n offset ((offset, len) ∷ rest)

abbrev pub requests : ℕ → List (ℕ × ℕ) → List Buffer
requests p = map λ (offset, len). build_request p offset len

-- Calls of `RequestNextBlock`, one after the other.
unfoldable pub request_times : (ℕ → Bool) → ℕ → M Env (Unit {0})
request_times accepts zero e = ok tt e
request_times accepts (suc k) e =
    then_run (request_next_block accepts e) λ _ e'. request_times accepts k e'

-- A connection that is at work on a piece of `n` bytes, of which it has requested the first ones.
pub record IsFetching (n fd : ℕ) (e : Env) : Type 0 where
  pub open_socket : e.link.socket ≡ some fd
  pub unchoked : e.link.choked ≡ false
  pub assigned : e.link.current_piece ≢ minus_one
  pub len : piece_len e.downloader.torrent e.link.current_piece ≡ ok (pos n)
  pub inside : e.link.block_offset < n
  pub bound : n < 2 ^ 31

pub requested-current_piece :
    (n : ℕ) (e : Env)
    → (e.link.block_offset + min block_size (n - e.link.block_offset) == n) ≡ false
    → (requested n e).link.current_piece ≡ e.link.current_piece
requested-current_piece n e more = rw more

pub requested-IsFetching :
    (n fd : ℕ) (e : Env)
    → IsFetching n fd e
    → (e.link.block_offset + min block_size (n - e.link.block_offset) == n) ≡ false
    → IsFetching n fd (requested n e)
requested-IsFetching n fd e f more =
    let same = requested-current_piece n e more in
    let short = ==→ne _ n more in
    record {
      open_socket = f.open_socket;
      unchoked = f.unchoked;
      assigned = λ q. f.assigned (sym same ∙ q);
      len = ap (piece_len e.downloader.torrent) same ∙ f.len;
      inside = omega (arith, f.inside);
      bound = f.bound;
    }

module _ (accepts : ℕ → Bool) (accepted : (k : ℕ) → accepts k ≡ true) where
  pub request_next_block_lem :
      (e : Env) (n fd : ℕ)
      → IsFetching n fd e
      → request_next_block accepts e ≡ ok tt (requested n e)
  unfolding request_next_block
  request_next_block_lem e n fd f =
      let block =
        request_block_lem accepts e n fd f.open_socket (accepted (length e.sent)) f.len f.inside
          f.bound in
      ground (arith, block, f.unchoked, f.assigned)

  -- A connection at work on a piece covers the rest of it: some number of calls of
  -- `RequestNextBlock`, all of whose sends the kernel takes, sends exactly one request for each of a
  -- list of consecutive blocks of at most 16 KiB that ends with the piece, and leaves the connection
  -- without a piece.
  pub request_times_lem :
      (k n fd : ℕ) (e : Env)
      → IsFetching n fd e
      → n - e.link.block_offset ≤ k
      → (ts : List (ℕ × ℕ)) × (e' : Env) × Tiles n e.link.block_offset ts
        × (request_times accepts (length ts) e ≡ ok tt e')
        × (e'.sent ≡ e.sent ++ requests e.link.current_piece ts)
        × (e'.link.current_piece ≡ minus_one)
  unfolding request_times
  request_times_lem zero n fd e f h = absurd (omega (arith, f.inside))
  request_times_lem (suc k) n fd e f h =
      let size : ℕ = min block_size (n - e.link.block_offset) in
      elim (Bool-cases (e.link.block_offset + size == n)) [
        | inl last ↦ (
          (e.link.block_offset, size) ∷ [],
          requested n e,
          tile _ (omega (arith, f.inside)) (omega arith)
              (covered (==→eq (e.link.block_offset + size) n last)),
          rw (request_next_block_lem e n fd f) refl,
          refl,
          rw last,
        )
        | inr more ↦
            let next = requested-IsFetching n fd e f more in
            let (ts, e', tiles, run, sent, free) =
              request_times_lem k n fd (requested n e) next (omega (arith, f.inside)) in
            (
              (e.link.block_offset, size) ∷ ts,
              e',
              tile _ (omega (arith, f.inside)) (omega arith) tiles,
              rw (request_next_block_lem e n fd f) run,
              sent
                  ∙ append_assoc e.sent _ _
                  ∙ ap
                      (λ p.
                        e.sent
                        ++ (build_request e.link.current_piece e.link.block_offset size
                            ∷ requests p ts))
                      (requested-current_piece n e more),
              free,
            )
      ]
