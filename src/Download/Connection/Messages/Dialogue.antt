-- ===== src/Download/Connection/Messages/Dialogue.antt =====
-- The rounds of the dialogue in which a connection fetches a piece: a request, its answer, and so on to the
-- last block.
use node_link.Base.{
  ℕ, zero, suc, ◌+◌, ◌-◌, ◌*◌, ◌^◌, ◌≤◌, ◌<◌, ◌≡◌, refl, ap, ◌∙◌, inl, inr, Bool, true, pos, List,
  [], ◌∷◌, ◌++◌, append_assoc, length, get_elem?, some, then_run, Slice, Covered, overwrite, ltb,
  ltb→lt, ltb→le, Agrees-eq, min, ◌==◌, Bool-cases, ==→eq, ==→ne, arith,
}
use node_link.Parsing.Buffer.{Buffer}
use node_link.Parsing.TorrentFile.{TorrentFile}
use node_link.Download.Message.{build_request}
use node_link.Download.Worker.{Writer}
use node_link.Download.Downloader.{Downloader}
use node_link.Download.Downloader.Assembly.{verify_piece_lem}
use node_link.Download.Downloader.Assembly.Filling.{
  total, IsFilling, with_block, check_integrity_full, check_integrity_more, with_block-IsFilling,
  on_block_received_step,
}
use node_link.Download.Connection.State.{Env}
use node_link.Download.Connection.Requests.{request_next_block}
use node_link.Download.Connection.Requests.Tiling.{
  block_size, requested, Tiles, covered, tile, requests, IsFetching, requested-IsFetching,
  requested-current_piece, request_next_block_lem,
}
use node_link.Download.Connection.Messages.{on_piece}
use node_link.Download.Connection.Messages.Answers.{
  payload, on_pieces, on_piece_lem, then_run-ok, block_of, block_of-IsSlice, queue_with, Fetched,
}

module _ (accepts : ℕ → Bool) (accepted : (k : ℕ) → accepts k ≡ true) (t : TorrentFile) (w : Writer)
    (i m fd : ℕ) (p hash : Buffer) (small : length p < 2 ^ 31) (low : i < 2 ^ 31)
    (place : i * m < 2 ^ 63) (expected : get_elem? t.piece_hashes i ≡ some hash)
    (width : t.piece_length ≡ pos m) where
  cover-block :
      (offset len : ℕ) (done : List Slice) (k : ℕ)
      → offset + len ≤ length p
      → ((k : ℕ) → k < offset → Covered done k)
      → k < offset + len
      → Covered (block_of p offset len ∷ done) k
  cover-block offset len done k fits cover h = elim (Bool-cases (ltb k offset)) [
    | inl before ↦ inr (cover k (ltb→lt k offset before))
    | inr behind ↦
        inl (ltb→le k offset behind, omega (arith, (block_of-IsSlice p offset len fits).0))
  ]

  -- The last block.
  on_piece-last :
      (offset len : ℕ) (done : List Slice) (e : Env)
      → IsFilling t w i p done e.downloader
      → total done ≡ offset
      → ((k : ℕ) → k < offset → Covered done k)
      → 0 < len
      → offset + len ≡ length p
      → (d' : Downloader) × (on_piece accepts (payload i p (offset, len)) e
          ≡ request_next_block accepts (record e { downloader = d' }))
        × (d'.file_writer.q ≡ queue_with i m p hash w)
  on_piece-last offset len done e f sum cover some_bytes end =
      let s = block_of p offset len in
      let d = e.downloader in
      let (size, slice) = block_of-IsSlice p offset len (omega arith) in
      let next = with_block-IsFilling t w i p small s done d f slice in
      let step = on_block_received_step t w i p small s done d f slice (omega arith) in
      let full =
        check_integrity_full i (with_block s d) (omega (arith, next.received, next.size, size)) in
      let whole : overwrite d.piece_buffer offset s.1 ≡ p =
        Agrees-eq p (s ∷ done) (with_block s d).piece_buffer (omega (arith, next.size))
          (λ k h. cover-block offset len done k (omega arith) cover (omega arith)) next.agrees in
      let (d', verified, kept, still, queue) =
        verify_piece_lem (with_block s d) i m hash low place (rw next.same_torrent expected)
          (rw next.same_torrent width) in
      (
        d',
        on_piece_lem accepts i p (offset, len) e d' (omega arith) (omega arith)
            (step ∙ full ∙ verified),
        queue
            ∙ ap (λ b. queue_with i m b hash e.downloader.file_writer) whole
            ∙ ap (queue_with i m p hash) f.same_writer,
      )

  -- Another block.
  on_piece-more :
      (offset len : ℕ) (done : List Slice) (e : Env)
      → IsFilling t w i p done e.downloader
      → total done ≡ offset
      → 0 < len
      → offset + len < length p
      → let s = block_of p offset len in
        (on_piece accepts (payload i p (offset, len)) e
          ≡ request_next_block accepts (record e { downloader = with_block s e.downloader }))
        × IsFilling t w i p (s ∷ done) (with_block s e.downloader)
        × (total (s ∷ done) ≡ offset + len)
  on_piece-more offset len done e f sum some_bytes inside =
      let s = block_of p offset len in
      let d = e.downloader in
      let (size, slice) = block_of-IsSlice p offset len (omega arith) in
      let next = with_block-IsFilling t w i p small s done d f slice in
      let step = on_block_received_step t w i p small s done d f slice (omega arith) in
      let more =
        check_integrity_more i (with_block s d) (omega (arith, next.received, next.size, size)) in
      (
        on_piece_lem accepts i p (offset, len) e (with_block s d) (omega arith) (omega arith)
            (step ∙ more),
        next,
        omega arith,
      )

  -- The requests and answers from a connection that is about to ask for the next block.
  pub fetching :
      (k : ℕ) (done : List Slice) (e : Env)
      → IsFetching (length p) fd e
      → IsFilling t w i p done e.downloader
      → e.link.current_piece ≡ i
      → total done ≡ e.link.block_offset
      → ((k : ℕ) → k < e.link.block_offset → Covered done k)
      → length p - e.link.block_offset ≤ k
      → (ts : List (ℕ × ℕ)) × Tiles (length p) e.link.block_offset ts
        × Fetched accepts i m p hash w e
            (then_run (request_next_block accepts e) λ u. on_pieces accepts i p ts)
            ts
  unfolding on_pieces
  fetching zero done e g f here sum cover h = absurd (omega (arith, g.inside))
  fetching (suc k) done e g f here sum cover h =
      let n : ℕ = length p in
      let offset : ℕ = e.link.block_offset in
      let size : ℕ = min block_size (n - offset) in
      let asks = request_next_block_lem accepts accepted e n fd g in
      elim (Bool-cases (offset + size == n)) [
        | inl last ↦
            let (d', run, queue) =
              on_piece-last offset size done (requested n e) f sum cover (omega (arith, g.inside))
                (==→eq (offset + size) n last) in
            (
              (offset, size) ∷ [],
              tile size (omega (arith, g.inside)) (omega arith)
                  (covered (==→eq (offset + size) n last)),
              (
                record (requested n e) { downloader = d' },
                ap (λ r. then_run r λ u. on_pieces accepts i p ((offset, size) ∷ [])) asks
                    ∙ then_run-ok (on_piece accepts (payload i p (offset, size)) (requested n e))
                    ∙ run,
                ap (λ c. e.sent ++ build_request c offset size ∷ []) here,
                rw last refl,
                queue,
              ),
            )
        | inr more ↦
            let next = requested-IsFetching n fd e g more in
            let short = ==→ne (offset + size) n more in
            let (piece, filling, sum') =
              on_piece-more offset size done (requested n e) f sum (omega (arith, g.inside))
                (omega (arith, g.inside)) in
            let s = block_of p offset size in
            let (ts, tiles, (e', run, sent, free, queue)) =
              fetching k (s ∷ done)
                (record (requested n e) { downloader = with_block s e.downloader })
                (record {
                  open_socket = next.open_socket;
                  unchoked = next.unchoked;
                  assigned = next.assigned;
                  len = next.len;
                  inside = next.inside;
                  bound = next.bound;
                })
                filling (requested-current_piece n e more ∙ here) sum'
                (λ k' below. cover-block offset size done k' (omega (arith, g.inside)) cover below)
                (omega (arith, g.inside)) in
            (
              (offset, size) ∷ ts,
              tile size (omega (arith, g.inside)) (omega arith) tiles,
              (
                e',
                ap (λ r. then_run r λ u. on_pieces accepts i p ((offset, size) ∷ ts)) asks
                    ∙ ap (λ r. then_run r λ u. on_pieces accepts i p ts) piece
                    ∙ run,
                sent
                    ∙ append_assoc e.sent _ (requests i ts)
                    ∙ ap (λ c. e.sent ++ build_request c offset size ∷ requests i ts) here,
                free,
                queue,
              ),
            )
      ]
