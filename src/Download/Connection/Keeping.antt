-- ===== src/Download/Connection/Keeping.antt =====
-- Connection.cpp: what the two operations that a connection calls on its downloader keep, its event
-- handlers keep.
pub mod Handlers
use node_link.Base.{
  ℕ, zero, suc, ◌+◌, ◌%◌, ◌^◌, Bool, false, ℤ, [], ◌∷◌, Option, none, some, M, Result, ok, throw,
  undefined, out_of_fuel, then_run, map_state, lift_outcome, pure, Keeps, Keeps-then_run,
  Keeps-lift_outcome, length, drop, if◌then◌else◌, arith,
}
use node_link.Parsing.Buffer.{Buffer, read_be32}
use node_link.Download.Message.{build_request, build_interested, build_handshake}
use node_link.Download.Downloader.{
  Downloader, get_next_piece_to_request, piece_len, on_block_received,
}
use node_link.Download.Connection.State.{
  State, connecting, handshaking, downloading, Env, Session, set_link, on_downloader, send_on, send,
}
use node_link.Download.Connection.Requests.{
  pick_piece, block_length, advance, finish_piece, send_request, request_block, request_next_block,
}
use node_link.Download.Connection.Messages.{
  on_bitfield, set_choked, on_piece, dispatch, Frame, incomplete, overrun, keep_alive, message,
  next_frame, with_rest, go_on, greeted, handle_frame, handle_handshake, process_round,
  process_loop, process_buffer,
}
use node_link.Download.Connection.Events.{
  closing_on_error, if_open, greet, on_ready_write, receive, on_ready_read,
}
use node_link.Download.Connection.Keeping.Handlers.{dispatch-Keeps}

module _ (R : Downloader → Type 0)
    (block : (d : Downloader) (i offset : ℕ) (b : Buffer)
      → R d
      → Keeps R (on_block_received i offset b d))
    (next : (d : Downloader) → R d → Keeps R (get_next_piece_to_request d)) where
  abbrev EnvKeeps : Env → Type 0
  EnvKeeps e = R e.downloader

  abbrev pub SessionKeeps : Session → Type 0
  SessionKeeps s = R s.env.downloader

  pub on_downloader-Keeps :
      {A : Type 0} (r : Result Downloader A) (e : Env)
      → Keeps R r
      → Keeps EnvKeeps (map_state (λ d. record e { downloader = d }) r)
  on_downloader-Keeps (ok a d) e h = h
  on_downloader-Keeps (throw x d) e h = h
  on_downloader-Keeps undefined e h = tt
  on_downloader-Keeps out_of_fuel e h = tt

  -- Two calls, the second of which keeps what the first one left.
  and_then :
      {A B : Type 0} (r : Result Env A) (f : A → M Env B)
      → Keeps EnvKeeps r
      → ((a : A) (e : Env) → EnvKeeps e → Keeps EnvKeeps (f a e))
      → Keeps EnvKeeps (then_run r f)
  and_then r f h k = Keeps-then_run EnvKeeps EnvKeeps r f (λ e x. x) h k

  send-Keeps :
      (accepts : ℕ → Bool) (bytes : Buffer) (e : Env)
      → EnvKeeps e
      → Keeps EnvKeeps (send accepts bytes e)
  unfolding send send_on
  send-Keeps accepts bytes e h = ground arith

  handled :
      (accepts : ℕ → Bool) (id : ℕ) (payload : Buffer) (e : Env)
      → EnvKeeps e
      → Keeps EnvKeeps (dispatch accepts id payload e)
  handled accepts id payload e =
      dispatch-Keeps EnvKeeps (λ e' l same h. h) (λ e' i offset n h. h)
        (λ e' i offset b h. on_downloader-Keeps _ e' (block e'.downloader i offset b h))
        (λ e' h. on_downloader-Keeps _ e' (next e'.downloader h)) accepts id payload e

  go_on-Keeps :
      (rest : Buffer) (r : Result Env (Unit {0}))
      → Keeps EnvKeeps r
      → Keeps SessionKeeps (go_on (with_rest rest r))
  go_on-Keeps rest (ok a e) h = h
  go_on-Keeps rest (throw x e) h = h
  go_on-Keeps rest undefined h = tt
  go_on-Keeps rest out_of_fuel h = tt

  handle_frame-Keeps :
      (accepts : ℕ → Bool) (f : Frame) (s : Session)
      → SessionKeeps s
      → Keeps SessionKeeps (handle_frame accepts f s)
  unfolding handle_frame
  handle_frame-Keeps accepts incomplete s h = h
  handle_frame-Keeps accepts overrun s h = tt
  handle_frame-Keeps accepts (keep_alive rest) s h = h
  handle_frame-Keeps accepts (message id payload rest) s h =
      go_on-Keeps rest (dispatch accepts id payload s.env) (handled accepts id payload s.env h)

  pub process_round-Keeps :
      (accepts : ℕ → Bool) (st : State) (s : Session)
      → SessionKeeps s
      → Keeps SessionKeeps (process_round accepts st s)
  unfolding process_round handle_handshake
  process_round-Keeps accepts handshaking s h =
      let sent =
        go_on-Keeps (drop 68 s.recv_buffer) (send accepts build_interested (greeted s.env))
          (send-Keeps accepts build_interested (greeted s.env) h) in
      ground (arith, sent)
  process_round-Keeps accepts connecting s h =
      handle_frame-Keeps accepts (next_frame s.recv_buffer) s h
  process_round-Keeps accepts downloading s h =
      handle_frame-Keeps accepts (next_frame s.recv_buffer) s h

  process_loop-Keeps :
      (accepts : ℕ → Bool) (fuel : ℕ) (s : Session)
      → SessionKeeps s
      → Keeps SessionKeeps (process_loop accepts fuel s)
  unfolding process_loop
  process_loop-Keeps accepts zero s h = tt
  process_loop-Keeps accepts (suc fuel) s h =
      Keeps-then_run SessionKeeps SessionKeeps (process_round accepts s.env.link.state s) _
        (λ t x. x) (process_round-Keeps accepts s.env.link.state s h)
        (λ more t k. let rest = process_loop-Keeps accepts fuel t k in ground (arith, rest))

  closing_on_error-Keeps :
      (r : Result Session (Unit {0}))
      → Keeps SessionKeeps r
      → Keeps SessionKeeps (closing_on_error r)
  closing_on_error-Keeps (ok a s) h = h
  closing_on_error-Keeps (throw x s) h = h
  closing_on_error-Keeps undefined h = tt
  closing_on_error-Keeps out_of_fuel h = tt

  if_open-Keeps :
      (socket : Option ℕ) (s : Session) (r : Result Session (Unit {0}))
      → SessionKeeps s
      → Keeps SessionKeeps r
      → Keeps SessionKeeps (if_open socket s r)
  if_open-Keeps none s r h k = h
  if_open-Keeps (some fd) s r h k = k

  greet-Keeps :
      (accepts : ℕ → Bool) (st : State) (s : Session)
      → SessionKeeps s
      → Keeps SessionKeeps (greet accepts st s)
  unfolding greet
  greet-Keeps accepts connecting s h =
      let packet = build_handshake s.env.downloader.torrent s.env.downloader.my_id in
      closing_on_error-Keeps _ (
        in_session s
          (then_run (send accepts packet s.env)
            λ u e. ok tt (set_link e (record e.link { state = handshaking })))
          (and_then (send accepts packet s.env) _ (send-Keeps accepts packet s.env h) (λ u e k. k)))
    where
      in_session :
          (s : Session) (r : Result Env (Unit {0}))
          → Keeps EnvKeeps r
          → Keeps SessionKeeps (map_state (λ e. record s { env = e }) r)
      in_session s (ok a e) k = k
      in_session s (throw x e) k = k
      in_session s undefined k = tt
      in_session s out_of_fuel k = tt
  greet-Keeps accepts handshaking s h = h
  greet-Keeps accepts downloading s h = h

  pub on_ready_write-Keeps :
      (accepts : ℕ → Bool) (s : Session)
      → SessionKeeps s
      → Keeps SessionKeeps (on_ready_write accepts s)
  unfolding on_ready_write
  on_ready_write-Keeps accepts s h =
      if_open-Keeps s.env.link.socket s (greet accepts s.env.link.state s) h
        (greet-Keeps accepts s.env.link.state s h)

  receive-Keeps :
      (accepts : ℕ → Bool) (chunk : Option Buffer) (s : Session)
      → SessionKeeps s
      → Keeps SessionKeeps (receive accepts chunk s)
  unfolding receive process_buffer
  receive-Keeps accepts none s h = h
  receive-Keeps accepts (some []) s h = h
  receive-Keeps accepts (some (byte ∷ chunk)) s h =
      closing_on_error-Keeps _ (process_loop-Keeps accepts _ _ h)

  pub on_ready_read-Keeps :
      (accepts : ℕ → Bool) (chunk : Option Buffer) (s : Session)
      → SessionKeeps s
      → Keeps SessionKeeps (on_ready_read accepts chunk s)
  unfolding on_ready_read
  on_ready_read-Keeps accepts chunk s h =
      if_open-Keeps s.env.link.socket s (receive accepts chunk s) h
        (receive-Keeps accepts chunk s h)
