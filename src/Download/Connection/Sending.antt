-- ===== src/Download/Connection/Sending.antt =====
-- What a connection of Connection.cpp sends, over all events of its socket: a handshake, an Interested
-- message, and then requests.
pub mod Rounds
mod Tests
use node_link.Base.{
  ℕ, zero, suc, ◌+◌, ◌≡◌, refl, sym, ap, subst, ◌∙◌, ◌⊎◌, inl, inr, Bool, true, false, List, [],
  ◌∷◌, ◌++◌, length, drop, All, All-append, Option, none, some, M, Result, ok, throw, undefined,
  out_of_fuel, then_run, map_state, Keeps, Keeps-then_run, Leaves, Leaves-then_run, Bool-cases, ltb,
  if◌then◌else◌, arith,
}
use node_link.Parsing.Buffer.{Buffer}
use node_link.Tracker.Peer.{Peer}
use node_link.Download.Message.{build_request, build_interested, build_handshake}
use node_link.Download.Downloader.{Downloader, get_next_piece_to_request, on_block_received}
use node_link.Download.Connection.State.{
  State, connecting, handshaking, downloading, Link, Env, Session, new_session, set_link,
  close_socket, on_downloader, send_on, send,
}
use node_link.Download.Connection.Messages.{
  dispatch, Frame, incomplete, overrun, keep_alive, message, next_frame, with_rest, go_on, greeted,
  handle_frame, handle_handshake, process_round, process_loop, process_buffer,
}
use node_link.Download.Connection.Events.{
  connect, closing_on_error, if_open, greet, on_ready_write, receive, on_ready_read,
}
use node_link.Download.Connection.Keeping.Handlers.{dispatch-Keeps}
use node_link.Download.Connection.Sending.Rounds.{
  IsDialogue, Talks, Talks-IsDialogue, process_loop-Continues,
}

-- What the event loop reports of a socket: that it may be written, or what `recv` returned.
pub data Signal : Type 0 where
  writable : Signal
  readable : Option Buffer → Signal

-- The handler that the loop calls for it.
abbrev pub react_to : (ℕ → Bool) → Signal → M Session (Unit {0})
react_to accepts writable = on_ready_write accepts
react_to accepts (readable chunk) = on_ready_read accepts chunk

unfoldable pub react : (ℕ → Bool) → List Signal → M Session (Unit {0})
react accepts [] s = ok tt s
react accepts (x ∷ xs) s = then_run (react_to accepts x s) λ u. react accepts xs

module _ (hello : Buffer) where
  abbrev Speaks : Session → Type 0
  Speaks s = Talks hello s.env ⊎ ((s.env.link.socket ≡ none) × IsDialogue hello s.env.sent)

  Speaks-IsDialogue : (s : Session) → Speaks s → IsDialogue hello s.env.sent
  Speaks-IsDialogue s (inl h) = Talks-IsDialogue hello s.env h
  Speaks-IsDialogue s (inr h) = h.1

  module _ (accepts : ℕ → Bool) where
    closing_on_error-Speaks :
        (r : Result Session (Unit {0}))
        → Leaves (λ u s. Talks hello s.env) (λ s. IsDialogue hello s.env.sent) r
        → Keeps Speaks (closing_on_error r)
    closing_on_error-Speaks (ok u s) h = inl h
    closing_on_error-Speaks (throw e s) h = inr (refl, h)
    closing_on_error-Speaks undefined h = tt
    closing_on_error-Speaks out_of_fuel h = tt

    receive-Speaks :
        (chunk : Option Buffer) (s : Session)
        → Talks hello s.env
        → Keeps Speaks (receive accepts chunk s)
    unfolding receive process_buffer
    receive-Speaks none s h = inr (refl, Talks-IsDialogue hello s.env h)
    receive-Speaks (some []) s h = inr (refl, Talks-IsDialogue hello s.env h)
    receive-Speaks (some (byte ∷ chunk)) s h =
        closing_on_error-Speaks _ (process_loop-Continues hello accepts _ _ h)

    greet-Speaks :
        (s : Session) → Talks hello s.env → Keeps Speaks (greet accepts s.env.link.state s)
    unfolding greet
    greet-Speaks s (inl h) = subst (λ st. Keeps Speaks (greet accepts st s)) (sym h.0) (inl (inl h))
    greet-Speaks s (inr h) = subst (λ st. Keeps Speaks (greet accepts st s)) (sym h.0) (inl (inr h))

    if_open-Speaks :
        (s : Session) (r : Result Session (Unit {0}))
        → Speaks s
        → (Talks hello s.env → Keeps Speaks r)
        → Keeps Speaks (if_open s.env.link.socket s r)
    if_open-Speaks s r (inl h) k = either s.env.link.socket
      where
        either : (socket : Option ℕ) → Keeps Speaks (if_open socket s r)
        either none = inl h
        either (some fd) = k h
    if_open-Speaks s r (inr h) k =
        subst (λ socket. Keeps Speaks (if_open socket s r)) (sym h.0) (inr h)

    react_to-Speaks : (x : Signal) (s : Session) → Speaks s → Keeps Speaks (react_to accepts x s)
    unfolding on_ready_write on_ready_read
    react_to-Speaks writable s h =
        if_open-Speaks s (greet accepts s.env.link.state s) h (greet-Speaks s)
    react_to-Speaks (readable chunk) s h =
        if_open-Speaks s (receive accepts chunk s) h (receive-Speaks chunk s)

    react-Speaks : (xs : List Signal) (s : Session) → Speaks s → Keeps Speaks (react accepts xs s)
    unfolding react
    react-Speaks [] s h = h
    react-Speaks (x ∷ xs) s h =
        Keeps-then_run Speaks Speaks (react_to accepts x s) _ (λ t k. k) (react_to-Speaks x s h)
          (λ u t k. react-Speaks xs t k)

-- The handshake, at the first event.
greeting-Speaks :
    (accepts : ℕ → Bool) (p : Peer) (d : Downloader) (fd : ℕ)
    → Keeps
        (Speaks (build_handshake d.torrent d.my_id))
        (react_to accepts writable (connect (some fd) (new_session p d)))
unfolding on_ready_write greet connect send send_on
greeting-Speaks accepts p d fd = elim (Bool-cases (accepts 0)) [
  | inl taken ↦ rw taken (inl (inl (refl, refl)))
  | inr refused ↦ rw refused (inr (refl, inl refl))
]

-- A connection that was made, whose socket is reported writable first, and then whatever the event
-- loop reports of it and the peer and the kernel answer, has sent a beginning of this: the handshake with the
-- torrent's hash and the client's id, one Interested message, and then requests only.
pub react-IsDialogue :
    (accepts : ℕ → Bool) (p : Peer) (d : Downloader) (fd : ℕ) (xs : List Signal) (s : Session)
    → react accepts (writable ∷ xs) (connect (some fd) (new_session p d)) ≡ ok tt s
    → IsDialogue (build_handshake d.torrent d.my_id) s.env.sent
unfolding react
react-IsDialogue accepts p d fd xs s e =
    let hello = build_handshake d.torrent d.my_id in
    Speaks-IsDialogue hello s (
      subst (Keeps (Speaks hello)) e (
        Keeps-then_run (Speaks hello) (Speaks hello)
          (react_to accepts writable (connect (some fd) (new_session p d))) _ (λ t k. k)
          (greeting-Speaks accepts p d fd) (λ u t k. react-Speaks hello accepts xs t k)))
