-- ===== src/Download/Connection/Keeping/Handlers.antt =====
-- RequestNextBlock and the message handlers of Connection.cpp keep what the few changes that they make to a
-- connection keep: those of its members, a request that is sent, and the two calls of the downloader.
use node_link.Base.{
  ℕ, zero, suc, ◌+◌, ◌%◌, ◌^◌, ◌≡◌, refl, Bool, true, false, ℤ, [], ◌∷◌, ◌++◌, Option, none, some,
  M, Result, ok, then_run, lift_outcome, pure, Keeps, Keeps-then_run, Keeps-lift_outcome, length,
  drop, if◌then◌else◌, Bool-cases, inl, inr, arith,
}
use node_link.Parsing.Buffer.{Buffer, read_be32}
use node_link.Download.Message.{build_request}
use node_link.Download.Downloader.{get_next_piece_to_request, piece_len, on_block_received}
use node_link.Download.Connection.State.{Link, Env, set_link, on_downloader, send_on, send}
use node_link.Download.Connection.Requests.{
  pick_piece, block_length, advance, finish_piece, send_request, request_block, request_next_block,
}
use node_link.Download.Connection.Messages.{on_bitfield, set_choked, on_piece, dispatch}

module _ (E : Env → Type 0)
    (relink : (e : Env) (l : Link) → l.state ≡ e.link.state → E e → E (set_link e l))
    (request : (e : Env) (i offset n : ℕ)
      → E e
      → E (record e { sent = e.sent ++ build_request i offset n ∷ [] }))
    (block : (e : Env) (i offset : ℕ) (b : Buffer)
      → E e
      → Keeps E (on_downloader (on_block_received i offset b) e))
    (next : (e : Env) → E e → Keeps E (on_downloader get_next_piece_to_request e)) where
  -- Two calls, the second of which keeps what the first one left.
  and_then :
      {A B : Type 0} (r : Result Env A) (f : A → M Env B)
      → Keeps E r
      → ((a : A) (e : Env) → E e → Keeps E (f a e))
      → Keeps E (then_run r f)
  and_then r f h k = Keeps-then_run E E r f (λ e x. x) h k

  pick_piece-Keeps : (fuel attempts : ℕ) (e : Env) → E e → Keeps E (pick_piece fuel attempts e)
  unfolding pick_piece
  pick_piece-Keeps zero attempts e h = tt
  pick_piece-Keeps (suc fuel) attempts e h =
      and_then (on_downloader get_next_piece_to_request e) _ (next e h) (λ candidate e' h'.
        let ih = pick_piece-Keeps fuel ((attempts + 1) % 2 ^ 32) e' h' in
        let assigned =
          relink e' (record e'.link { current_piece = candidate; block_offset = 0 }) refl h' in
        ground (arith, ih, assigned))

  module _ (accepts : ℕ → Bool) where
    send_on-Keeps :
        (i offset n : ℕ) (socket : Option ℕ) (e : Env)
        → E e
        → Keeps E (send_on accepts socket (build_request i offset n) e)
    unfolding send_on
    send_on-Keeps i offset n none e h = tt
    send_on-Keeps i offset n (some fd) e h = elim (Bool-cases (accepts (length e.sent))) [
      | inl taken ↦ rw taken (request e i offset n h)
      | inr refused ↦ rw refused h
    ]

    send_request-Keeps : (len : ℤ) (e : Env) → E e → Keeps E (send_request accepts len e)
    unfolding send_request send
    send_request-Keeps len e h =
        let n : ℕ = block_length len e.link.block_offset in
        let packet = build_request e.link.current_piece e.link.block_offset n in
        let sent : Keeps E
            (then_run (send_on accepts e.link.socket packet e) λ u e'. ok tt (advance n e')) =
          and_then (send_on accepts e.link.socket packet e) _
            (send_on-Keeps e.link.current_piece e.link.block_offset n e.link.socket e h)
            (λ u e' h'. relink e' (advance n e').link refl h') in
        ground (arith, sent)

    finish_piece-Keeps : (len : ℤ) (e : Env) → E e → Keeps E (finish_piece len e)
    unfolding finish_piece
    finish_piece-Keeps len e h =
        let freed = relink e (record e.link { current_piece = 0xffff_ffff }) refl h in
        ground (arith, freed)

    request_block-Keeps : (e : Env) → E e → Keeps E (request_block accepts e)
    unfolding request_block
    request_block-Keeps e h =
        and_then (lift_outcome (piece_len e.downloader.torrent e.link.current_piece) e) _
          (Keeps-lift_outcome E (piece_len e.downloader.torrent e.link.current_piece) e h)
          (λ len e₁ h₁.
            and_then (send_request accepts len e₁) _ (send_request-Keeps len e₁ h₁)
              (λ u e₂ h₂. finish_piece-Keeps len e₂ h₂))

    request_next_block-Keeps : (e : Env) → E e → Keeps E (request_next_block accepts e)
    unfolding request_next_block
    request_next_block-Keeps e h =
        let fuel : ℕ = length e.downloader.torrent.piece_hashes + 2 in
        let picked : Keeps E (
            then_run (pick_piece fuel 0 e)
              λ found. if found then request_block accepts else pure tt) =
          and_then (pick_piece fuel 0 e) _ (pick_piece-Keeps fuel 0 e h)
            (λ found e' h'. let here = request_block-Keeps e' h' in ground (arith, here)) in
        let here = request_block-Keeps e h in ground (arith, picked, here)

    on_piece-Keeps : (payload : Buffer) (e : Env) → E e → Keeps E (on_piece accepts payload e)
    unfolding on_piece
    on_piece-Keeps payload e h =
        and_then (lift_outcome (read_be32 payload 0) e) _
          (Keeps-lift_outcome E (read_be32 payload 0) e h)
          (λ index e₁ h₁.
            and_then (lift_outcome (read_be32 payload 4) e₁) _
              (Keeps-lift_outcome E (read_be32 payload 4) e₁ h₁)
              (λ begin e₂ h₂.
                and_then (on_downloader (on_block_received index begin (drop 8 payload)) e₂) _
                  (block e₂ index begin (drop 8 payload) h₂)
                  (λ u e₃ h₃. request_next_block-Keeps e₃ h₃)))

    on_bitfield-Keeps : (payload : Buffer) (e : Env) → E e → Keeps E (on_bitfield payload e)
    unfolding on_bitfield
    on_bitfield-Keeps payload e h = relink e _ refl h

    pub dispatch-Keeps :
        (id : ℕ) (payload : Buffer) (e : Env) → E e → Keeps E (dispatch accepts id payload e)
    unfolding dispatch set_choked
    dispatch-Keeps id payload e h =
        let unchoked = relink e (record e.link { choked = false }) refl h in
        let choked = relink e (record e.link { choked = true }) refl h in
        let marked = on_bitfield-Keeps payload e h in
        let requests =
          request_next_block-Keeps (set_link e (record e.link { choked = false })) unchoked in
        let takes = on_piece-Keeps payload e h in ground (arith, requests, takes, choked, marked)
