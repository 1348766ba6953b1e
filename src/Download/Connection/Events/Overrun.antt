-- ===== src/Download/Connection/Events/Overrun.antt =====
-- Which length prefixes make ProcessBuffer in source/download/Connection.cpp read behind the end of its
-- buffer.
use node_link.Base.{
  ℕ, suc, ◌+◌, ◌-◌, ◌^◌, ◌≤◌, ◌<◌, ◌≡◌, refl, ap, ◌∙◌, Bool, [], ◌∷◌, ◌++◌, length, some, undefined,
  arith,
}
use node_link.Parsing.Buffer.{Buffer}
use node_link.Download.Message.{read_message_length}
use node_link.Download.Connection.State.{downloading, Session}
use node_link.Download.Connection.Messages.{
  overrun, next_frame, handle_frame, process_round, process_loop, process_buffer,
}
use node_link.Download.Connection.Events.{if_open, closing_on_error, receive, on_ready_read}

read_message_length_bound : (b : Buffer) → read_message_length b < 2 ^ 32
unfolding read_message_length
read_message_length_bound [] = omega arith
read_message_length_bound (b0 ∷ []) = omega arith
read_message_length_bound (b0 ∷ b1 ∷ []) = omega arith
read_message_length_bound (b0 ∷ b1 ∷ b2 ∷ []) = omega arith
read_message_length_bound (b0 ∷ b1 ∷ b2 ∷ b3 ∷ b) = omega arith

next_frame-overrun :
    (b : Buffer)
    → 4 ≤ length b
    → length b < 2 ^ 32
    → 2 ^ 32 - 4 ≤ read_message_length b
    → next_frame b ≡ overrun
unfolding next_frame
next_frame-overrun b whole small far =
    let bound = read_message_length_bound b in ground (arith, bound)

process_buffer-overrun :
    (accepts : ℕ → Bool) (s : Session)
    → s.env.link.state ≡ downloading
    → next_frame s.recv_buffer ≡ overrun
    → process_buffer accepts s ≡ undefined
unfolding process_buffer process_loop process_round handle_frame
process_buffer-overrun accepts s state frame =
    let fuel : length s.recv_buffer + 1 ≡ suc (length s.recv_buffer) = omega arith in
    rw (fuel, state, frame) refl

-- When bytes that a peer sends behind its handshake arrive, and the four bytes at the front of the receive
-- buffer are then a length of 2 ^ 32 - 4 or more, the program reads behind the end of the buffer: the
-- sum of the length and four wraps, and every buffer of fewer than 2 ^ 32 bytes passes for a whole frame.
pub on_ready_read-overrun :
    (accepts : ℕ → Bool) (s : Session) (fd byte : ℕ) (chunk : Buffer)
    → s.env.link.socket ≡ some fd
    → s.env.link.state ≡ downloading
    → let buffer : Buffer = s.recv_buffer ++ byte ∷ chunk in
      4 ≤ length buffer
      → length buffer < 2 ^ 32
      → 2 ^ 32 - 4 ≤ read_message_length buffer
      → on_ready_read accepts (some (byte ∷ chunk)) s ≡ undefined
unfolding on_ready_read receive
on_ready_read-overrun accepts s fd byte chunk open_socket state whole small far =
    let buffer : Buffer = s.recv_buffer ++ byte ∷ chunk in
    ap (λ o. if_open o s (receive accepts (some (byte ∷ chunk)) s)) open_socket
    ∙ ap closing_on_error (
        process_buffer-overrun accepts (record s { recv_buffer = buffer }) state
          (next_frame-overrun buffer whole small far))
