-- ===== src/Download/Connection/Ends/Rounds.antt =====
-- `ProcessBuffer` ends: every round that goes on takes bytes out of the buffer, and no handler in it runs
-- without end.
use node_link.Base.{
  ℕ, zero, suc, ◌+◌, ◌-◌, ◌^◌, ◌<◌, ◌≡◌, refl, sym, subst, ◌∙◌, Bool, true, false, [], M, Result,
  ok, throw, undefined, out_of_fuel, then_run, lift_outcome, Keeps, Keeps-lift_outcome, Keeps-mono,
  length, drop, if◌then◌else◌, inl, inr, arith,
}
use node_link.Parsing.Buffer.{Buffer, read_be32}
use node_link.Parsing.TorrentFile.{TorrentFile}
use node_link.Download.Message.{build_interested}
use node_link.Download.Downloader.{Downloader, get_next_piece_to_request, on_block_received}
use node_link.Download.Downloader.Progress.{SameCount, on_block_received-SameCount}
use node_link.Download.Connection.State.{
  State, connecting, handshaking, downloading, Env, Session, set_link, on_downloader, send,
}
use node_link.Download.Connection.Messages.{
  on_bitfield, set_choked, on_piece, dispatch, Frame, incomplete, overrun, keep_alive, message,
  next_frame, with_rest, go_on, greeted, handle_frame, handle_handshake, process_round,
  process_loop, process_buffer,
}
use node_link.Download.Connection.Messages.Stream.{process_round-more}
use node_link.Download.Connection.Requests.{request_next_block}
use node_link.Download.Connection.Keeping.{on_downloader-Keeps, process_round-Keeps}
use node_link.Download.Connection.Ends.{
  Ends, Ends-lift_outcome, Ends-map_state, send-Ends, read_be32_ends, on_block_received-Ends,
  request_next_block-Ends,
}

-- A call that keeps `P`, and a call that ends from where `P` holds.
Ends-then_keeping :
    {S A B : Type 0} (P : S → Type 0) (r : Result S A) (f : A → M S B)
    → Ends r
    → Keeps P r
    → ((a : A) (s : S) → P s → Ends (f a s))
    → Ends (then_run r f)
Ends-then_keeping P (ok a s) f h k rest = rest a s k
Ends-then_keeping P (throw x s) f h k rest = tt
Ends-then_keeping P undefined f h k rest = tt
Ends-then_keeping P out_of_fuel f h k rest = h

module _ (accepts : ℕ → Bool) (t : TorrentFile) (bound : length t.piece_hashes < 2 ^ 31 - 1) where
  abbrev HasTorrent : Downloader → Type 0
  HasTorrent d = d.torrent ≡ t

  block-HasTorrent :
      (d : Downloader) (i offset : ℕ) (b : Buffer)
      → HasTorrent d
      → Keeps HasTorrent (on_block_received i offset b d)
  block-HasTorrent d i offset b h =
      Keeps-mono (SameCount d) HasTorrent (on_block_received i offset b d) (λ s k. k.0 ∙ h)
        (on_block_received-SameCount d d i offset b (refl, refl))

  next-HasTorrent : (d : Downloader) → HasTorrent d → Keeps HasTorrent (get_next_piece_to_request d)
  unfolding get_next_piece_to_request
  next-HasTorrent d h = h

  requests-Ends : (e : Env) → HasTorrent e.downloader → Ends (request_next_block accepts e)
  requests-Ends e h =
      request_next_block-Ends accepts e
        (subst (λ u. length u.piece_hashes < 2 ^ 31 - 1) (sym h) bound)

  on_piece-Ends :
      (payload : Buffer) (e : Env) → HasTorrent e.downloader → Ends (on_piece accepts payload e)
  unfolding on_piece
  on_piece-Ends payload e h =
      let P : Env → Type 0 = λ e. HasTorrent e.downloader in
      Ends-then_keeping P (lift_outcome (read_be32 payload 0) e) _
        (Ends-lift_outcome (read_be32 payload 0) e (read_be32_ends payload 0))
        (Keeps-lift_outcome P (read_be32 payload 0) e h)
        (λ index e₁ h₁.
          Ends-then_keeping P (lift_outcome (read_be32 payload 4) e₁) _
            (Ends-lift_outcome (read_be32 payload 4) e₁ (read_be32_ends payload 4))
            (Keeps-lift_outcome P (read_be32 payload 4) e₁ h₁)
            (λ begin e₂ h₂.
              Ends-then_keeping P
                (on_downloader (on_block_received index begin (drop 8 payload)) e₂) _
                (Ends-map_state _ _
                  (on_block_received-Ends index begin (drop 8 payload) e₂.downloader))
                (on_downloader-Keeps HasTorrent block-HasTorrent next-HasTorrent _ e₂
                  (block-HasTorrent e₂.downloader index begin (drop 8 payload) h₂))
                (λ u e₃ h₃. requests-Ends e₃ h₃)))

  dispatch-Ends :
      (id : ℕ) (payload : Buffer) (e : Env)
      → HasTorrent e.downloader
      → Ends (dispatch accepts id payload e)
  unfolding dispatch set_choked on_bitfield
  dispatch-Ends id payload e h =
      let requests = requests-Ends (set_link e (record e.link { choked = false })) h in
      let takes = on_piece-Ends payload e h in ground (arith, requests, takes)

  go_on-Ends :
      (rest : Buffer) (r : Result Env (Unit {0})) → Ends r → Ends (go_on (with_rest rest r))
  go_on-Ends rest (ok a e) h = tt
  go_on-Ends rest (throw x e) h = tt
  go_on-Ends rest undefined h = tt
  go_on-Ends rest out_of_fuel h = h

  handle_frame-Ends :
      (f : Frame) (s : Session) → HasTorrent s.env.downloader → Ends (handle_frame accepts f s)
  unfolding handle_frame
  handle_frame-Ends incomplete s h = tt
  handle_frame-Ends overrun s h = tt
  handle_frame-Ends (keep_alive rest) s h = tt
  handle_frame-Ends (message id payload rest) s h =
      go_on-Ends rest (dispatch accepts id payload s.env) (dispatch-Ends id payload s.env h)

  process_round-Ends :
      (st : State) (s : Session) → HasTorrent s.env.downloader → Ends (process_round accepts st s)
  unfolding process_round handle_handshake
  process_round-Ends handshaking s h =
      let sent =
        go_on-Ends (drop 68 s.recv_buffer) (send accepts build_interested (greeted s.env))
          (send-Ends accepts build_interested (greeted s.env)) in
      ground (arith, sent)
  process_round-Ends connecting s h = handle_frame-Ends (next_frame s.recv_buffer) s h
  process_round-Ends downloading s h = handle_frame-Ends (next_frame s.recv_buffer) s h

  process_loop-Ends :
      (fuel : ℕ) (s : Session)
      → HasTorrent s.env.downloader
      → length s.recv_buffer < fuel
      → Ends (process_loop accepts fuel s)
  unfolding process_loop
  process_loop-Ends zero s h short = absurd (omega arith)
  process_loop-Ends (suc fuel) s h short =
      go (process_round accepts s.env.link.state s) refl (process_round-Ends s.env.link.state s h)
        (process_round-Keeps HasTorrent block-HasTorrent next-HasTorrent accepts s.env.link.state s
          h)
        (λ s' h'. process_loop-Ends fuel s' h')
    where
      go :
          (r : Result Session Bool)
          → process_round accepts s.env.link.state s ≡ r
          → Ends r
          → Keeps (λ s'. HasTorrent s'.env.downloader) r
          → ((s' : Session)
              → HasTorrent s'.env.downloader
              → length s'.recv_buffer < fuel
              → Ends (process_loop accepts fuel s'))
          → Ends (then_run r λ more s'. if more then process_loop accepts fuel s' else ok tt s')
      go (throw x s') e n k ih = tt
      go undefined e n k ih = tt
      go out_of_fuel e n k ih = n
      go (ok false s') e n k ih = tt
      go (ok true s') e n k ih = elim (process_round-more accepts [] s s' s.env.link.state true e) [
        | inl (stop, _) ↦ absurd (ground arith)
        | inr (_, (shorter, _)) ↦ ih s' k (omega arith)
      ]

-- With fewer than 2 ^ 31 - 1 pieces, `ProcessBuffer` ends on any buffer in any state of the connection:
-- the loop over the frames and the loop over the candidate pieces stop within their fuel.
pub process_buffer-Ends :
    (accepts : ℕ → Bool) (s : Session)
    → length s.env.downloader.torrent.piece_hashes < 2 ^ 31 - 1
    → Ends (process_buffer accepts s)
unfolding process_buffer
process_buffer-Ends accepts s bound =
    process_loop-Ends accepts s.env.downloader.torrent bound (length s.recv_buffer + 1) s refl
      (omega arith)
