-- ===== src/Download/Connection/Requests.antt =====
-- `Connection::RequestNextBlock`: the choice of a piece, and the request for its next block.
pub mod Choice
pub mod Tiling
use node_link.Base.{
  ℕ, zero, suc, ◌+◌, ◌%◌, ◌^◌, Bool, true, false, ℤ, pos, ◌+ℤ◌, neg_ℤ, ltb_ℤ, leb_ℤ, u32_of_ℤ,
  ℤ_of_int, u64_of_int, minus_one, length, M, Result, ok, out_of_fuel, ◌>>=◌, ◌>>◌, then_run, pure,
  lift_outcome, run_on, ltb, ◌==◌, if◌then◌else◌,
}
use node_link.Download.Message.{build_request}
use node_link.Download.Downloader.{Downloader, get_next_piece_to_request, piece_len}
use node_link.Download.Connection.State.{Link, Env, set_link, on_downloader, has_piece, send}

-- `current_piece = candidate; block_offset = 0;`
abbrev pub assign_piece : ℕ → Env → Env
assign_piece candidate e =
    set_link e (record e.link { current_piece = candidate; block_offset = 0 })

-- `while (true)`: the loop over the candidates, on fuel. The result tells whether a piece was found.
unfoldable pub pick_piece : ℕ → ℕ → M Env Bool
pick_piece zero attempts e = out_of_fuel
pick_piece (suc fuel) attempts e =
    then_run (on_downloader get_next_piece_to_request e) λ candidate e'.
      let attempts' = (attempts + 1) % 2 ^ 32 in
      let retry = pick_piece fuel attempts' e' in
      if candidate == minus_one
      then ok false e'
      else if has_piece e'.link candidate
      then ok true (assign_piece candidate e')
      else if ltb (length e'.downloader.torrent.piece_hashes) (u64_of_int attempts')
      then ok false e'
      else retry

-- The bytes to request of a piece of length `len`, from an offset below it: 16 KiB at most. The sum
-- in the test is taken in `uint32_t`.
unfoldable pub block_length : ℤ → ℕ → ℕ
block_length len offset =
    if ltb_ℤ len (pos ((offset + 16384) % 2 ^ 32))
    then u32_of_ℤ (len +ℤ neg_ℤ (ℤ_of_int offset))
    else 16384

-- `block_offset += req_len;`
abbrev pub advance : ℕ → Env → Env
advance req_len e =
    set_link e (record e.link { block_offset = (e.link.block_offset + req_len) % 2 ^ 32 })

-- 3. If piece is done, reset current_piece so we get a new one next time
unfoldable pub finish_piece : ℤ → M Env (Unit {0})
finish_piece len e =
    if leb_ℤ len (ℤ_of_int e.link.block_offset)
    then ok tt (set_link e (record e.link { current_piece = minus_one }))
    else ok tt e

module _ (accepts : ℕ → Bool) where
  -- `if (block_offset < piece_len)`: the request, and the step to the next block.
  unfoldable pub send_request : ℤ → M Env (Unit {0})
  send_request len e =
      let offset = e.link.block_offset in
      let req_len = block_length len offset in
      if ltb_ℤ (ℤ_of_int offset) len
      then (then_run (send accepts (build_request e.link.current_piece offset req_len) e)
          λ _ e'. ok tt (advance req_len e'))
      else ok tt e

  -- 2. Calculate Block Size, and 3.
  unfoldable pub request_block : M Env (Unit {0})
  request_block e = run_on e do
    len ← lift_outcome (piece_len e.downloader.torrent e.link.current_piece)
    send_request len
    finish_piece len

  -- The fuel covers one more candidate than the torrent has pieces, after which the loop gives up.
  unfoldable pub request_next_block : M Env (Unit {0})
  request_next_block e =
      if e.link.choked
      then ok tt e
      else if e.link.current_piece == minus_one
      then (then_run (pick_piece (length e.downloader.torrent.piece_hashes + 2) 0 e)
          λ found. if found then request_block else pure tt)
      else request_block e
