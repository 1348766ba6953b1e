-- ===== src/Download/Connection/Messages/Fetching.antt =====
-- The dialogue in which a connection fetches a piece, from the first request to the check of the piece.
use node_link.Base.{
  ℕ, ◌*◌, ◌^◌, ◌<◌, ◌≡◌, ◌≢◌, refl, ap, sym, subst, ◌∙◌, Bool, true, pos, List, [], length, take,
  drop, get_elem?, some, Result, then_run, map_state, arith,
}
use node_link.Parsing.Buffer.{Buffer}
use node_link.Download.Downloader.Assembly.{begun, on_block_received-begun}
use node_link.Download.Downloader.Assembly.Filling.{IsFilling}
use node_link.Download.Connection.State.{Env}
use node_link.Download.Connection.Requests.{request_next_block}
use node_link.Download.Connection.Requests.Tiling.{
  requested, Tiles, covered, tile, IsFetching, request_next_block_lem,
}
use node_link.Download.Connection.Messages.{on_piece}
use node_link.Base.{length-replicate}
use node_link.Download.Connection.Messages.Answers.{
  payload, on_pieces, payload-index, payload-offset, Fetched,
}
use node_link.Download.Connection.Messages.Dialogue.{fetching}

-- The downloader at the beginning of the connection's piece.
abbrev with_piece : ℕ → Env → Env
with_piece n e = record e { downloader = begun e.link.current_piece n e.downloader }

module _ (accepts : ℕ → Bool) (accepted : (k : ℕ) → accepts k ≡ true) (e : Env) (p : Buffer)
    (fd : ℕ) (f : IsFetching (length p) fd e)
    (new : e.link.current_piece ≢ e.downloader.current_piece_index)
    (low : e.link.current_piece < 2 ^ 31) where
  on_piece-begun :
      (t : ℕ × ℕ)
      → t.0 < 2 ^ 32
      → on_piece accepts (payload e.link.current_piece p t) (requested (length p) e)
        ≡ on_piece accepts
            (payload e.link.current_piece p t)
            (requested (length p) (with_piece (length p) e))
  unfolding on_piece
  on_piece-begun t word =
      let i : ℕ = e.link.current_piece in
      rw (payload-index i p t (omega arith), payload-offset i p t word)
        (ap
          (λ r.
            then_run (map_state (λ d. record (requested (length p) e) { downloader = d }) r)
              λ u. request_next_block accepts)
          (on_block_received-begun e.downloader i (length p) new f.bound f.len t.0
            (take t.1 (drop t.0 p))))

  with_piece-IsFetching : IsFetching (length p) fd (with_piece (length p) e)
  with_piece-IsFetching = record {
    open_socket = f.open_socket;
    unchoked = f.unchoked;
    assigned = f.assigned;
    len = f.len;
    inside = f.inside;
    bound = f.bound;
  }

  dialogue-begun :
      (offset : ℕ) (ts : List (ℕ × ℕ))
      → Tiles (length p) offset ts
      → offset < length p
      → then_run (request_next_block accepts e) (λ u. on_pieces accepts e.link.current_piece p ts)
        ≡ then_run
            (request_next_block accepts (with_piece (length p) e))
            (λ u. on_pieces accepts e.link.current_piece p ts)
  unfolding on_pieces
  dialogue-begun offset ts (covered end) inside = absurd (omega arith)
  dialogue-begun offset ts (tile {rest = rest} len some_bytes few tiles) inside =
      let dialogue : Result Env (Unit {0}) → Result Env (Unit {0}) =
        λ r. then_run r λ u. on_pieces accepts e.link.current_piece p ts in
      ap dialogue (request_next_block_lem accepts accepted e (length p) fd f)
      ∙ ap (λ r. then_run r λ u. on_pieces accepts e.link.current_piece p rest)
          (on_piece-begun (offset, len) (omega (arith, f.bound)))
      ∙ sym (
          ap dialogue (
            request_next_block_lem accepts accepted (with_piece (length p) e) (length p) fd
              with_piece-IsFetching))

-- A connection that is unchoked and has taken a piece which the downloader has not begun, whose sends the
-- kernel takes, and a peer that answers each of its requests with the block of some bytes, of the length
-- of the piece: the requests are for consecutive blocks that cover the piece, and once the last answer
-- is in, the bytes stand behind what the writer had, at the piece's place in the file, if they have the
-- listed hash, and otherwise the writer has what it had. Then the connection asks for its next piece.
-- The piece's index and length are below 2^31, and its place in the file below 2^63.
pub fetch_piece :
    (accepts : ℕ → Bool) (accepted : (k : ℕ) → accepts k ≡ true) (e : Env) (m fd : ℕ)
    (p hash : Buffer)
    → IsFetching (length p) fd e
    → e.link.block_offset ≡ 0
    → e.link.current_piece ≢ e.downloader.current_piece_index
    → e.link.current_piece < 2 ^ 31
    → get_elem? e.downloader.torrent.piece_hashes e.link.current_piece ≡ some hash
    → e.downloader.torrent.piece_length ≡ pos m
    → e.link.current_piece * m < 2 ^ 63
    → (ts : List (ℕ × ℕ)) × Tiles (length p) 0 ts
      × Fetched accepts e.link.current_piece m p hash e.downloader.file_writer e
          (then_run (request_next_block accepts e) λ u. on_pieces accepts e.link.current_piece p ts)
          ts
fetch_piece accepts accepted e m fd p hash f start new low expected width place =
    let i : ℕ = e.link.current_piece in
    let d = e.downloader in
    let filling : IsFilling d.torrent d.file_writer i p [] (begun i (length p) d) = record {
      same_torrent = refl;
      same_writer = refl;
      index = refl;
      size = length-replicate (length p) 0;
      received = refl;
      agrees = λ k h. absurd h;
    } in
    let (ts, tiles, (e', run, sent, free, queue)) =
      fetching accepts accepted d.torrent d.file_writer i m fd p hash f.bound low place expected
        width (length p) [] (with_piece (length p) e)
        (with_piece-IsFetching accepts accepted e p fd f new low) filling refl (sym start)
        (λ k h. absurd (omega (arith, start))) (omega arith) in
    (
      ts,
      subst (λ o. Tiles (length p) o ts) start tiles,
      (
        e',
        dialogue-begun accepts accepted e p fd f new low e.link.block_offset ts tiles f.inside
            ∙ run,
        sent,
        free,
        queue,
      ),
    )
