-- ===== src/Download/Connection/Messages/Frames.antt =====
-- The frames at the front of a buffer: what they leave of it, and that bytes which arrive later do
-- not change them.
use node_link.Base.{
  ℕ, ◌+◌, ◌-◌, ◌≤◌, ◌<◌, ◌≡◌, refl, ap, sym, ◌∙◌, [], ◌∷◌, ◌++◌, length, take, drop, length-append,
  length-drop, take-append, drop-append, arith,
}
use node_link.Parsing.Buffer.{Buffer}
use node_link.Download.Message.{read_message_length, read_message_id}
use node_link.Download.Connection.Messages.{Frame, keep_alive, message, next_frame}

-- What a whole frame leaves of the buffer; a buffer with no whole frame stays.
abbrev pub rest_of : Frame → Buffer → Buffer
rest_of (keep_alive rest) b = rest
rest_of (message id payload rest) b = rest
rest_of _ b = b

read_message_length-append :
    (b x : Buffer) → 4 ≤ length b → read_message_length (b ++ x) ≡ read_message_length b
unfolding read_message_length
read_message_length-append (b0 ∷ b1 ∷ b2 ∷ b3 ∷ b) x h = refl
read_message_length-append [] x h = absurd (omega arith)
read_message_length-append (b0 ∷ []) x h = absurd (omega arith)
read_message_length-append (b0 ∷ b1 ∷ []) x h = absurd (omega arith)
read_message_length-append (b0 ∷ b1 ∷ b2 ∷ []) x h = absurd (omega arith)

read_message_id-append :
    (b x : Buffer) → 5 ≤ length b → read_message_id (b ++ x) ≡ read_message_id b
unfolding read_message_id
read_message_id-append (b0 ∷ b1 ∷ b2 ∷ b3 ∷ b4 ∷ b) x h = refl
read_message_id-append [] x h = absurd (omega arith)
read_message_id-append (b0 ∷ []) x h = absurd (omega arith)
read_message_id-append (b0 ∷ b1 ∷ []) x h = absurd (omega arith)
read_message_id-append (b0 ∷ b1 ∷ b2 ∷ []) x h = absurd (omega arith)
read_message_id-append (b0 ∷ b1 ∷ b2 ∷ b3 ∷ []) x h = absurd (omega arith)

-- The facts behind each outcome of the framing.
pub next_frame-keep_alive :
    (b r : Buffer)
    → next_frame b ≡ keep_alive r
    → (4 ≤ length b) × (read_message_length b ≡ 0) × (r ≡ drop 4 b)
unfolding next_frame
next_frame-keep_alive b r e = ground arith

pub next_frame-message :
    (b : Buffer) (id : ℕ) (p r : Buffer)
    → next_frame b ≡ message id p r
    → (0 < read_message_length b)
      × (4 + read_message_length b ≤ length b)
      × (id ≡ read_message_id b)
      × (p ≡ take (read_message_length b - 1) (drop 5 b))
      × (r ≡ drop (4 + read_message_length b) b)
unfolding next_frame
next_frame-message b id p r e = ground arith

next_frame_keep_alive :
    (b : Buffer) → 4 ≤ length b → read_message_length b ≡ 0 → next_frame b ≡ keep_alive (drop 4 b)
unfolding next_frame
next_frame_keep_alive b h z = ground arith

next_frame_message :
    (b : Buffer)
    → 0 < read_message_length b
    → 4 + read_message_length b ≤ length b
    → next_frame b
      ≡ message
          (read_message_id b)
          (take (read_message_length b - 1) (drop 5 b))
          (drop (4 + read_message_length b) b)
unfolding next_frame
next_frame_message b pos fits = ground arith

-- Bytes that arrive behind a whole frame do not change it.
pub next_frame-append_keep_alive :
    (b x r : Buffer) → next_frame b ≡ keep_alive r → next_frame (b ++ x) ≡ keep_alive (r ++ x)
next_frame-append_keep_alive b x r e =
    let (whole, zero_len, rest) = next_frame-keep_alive b r e in
    let same = read_message_length-append b x whole in
    next_frame_keep_alive (b ++ x) (omega (arith, length-append b x)) (same ∙ zero_len)
    ∙ ap keep_alive (drop-append 4 b x whole ∙ ap (λ r. r ++ x) (sym rest))

pub next_frame-append_message :
    (b x : Buffer) (id : ℕ) (p r : Buffer)
    → next_frame b ≡ message id p r
    → next_frame (b ++ x) ≡ message id p (r ++ x)
next_frame-append_message b x id p r e =
    let (positive, whole, id_eq, payload, rest) = next_frame-message b id p r e in
    let same = read_message_length-append b x (omega arith) in
    next_frame_message (b ++ x) (rw same positive) (rw same (omega (arith, length-append b x)))
    ∙ rw (
      same,
      read_message_id-append b x (omega arith),
      drop-append 5 b x (omega arith),
      drop-append (4 + read_message_length b) b x whole,
      take-append (read_message_length b - 1) (drop 5 b) x (omega (arith, length-drop 5 b)),
      id_eq,
      payload,
      rest,
    )
