-- ===== src/Download/Connection/Messages.antt =====
-- `Connection::ProcessBuffer`: the frames in the receive buffer, and what each message does.
pub mod Bitfield
pub mod Frames
pub mod Stream
pub mod Answers
pub mod Dialogue
pub mod Fetching
mod Tests
use node_link.Base.{
  ℕ, zero, suc, ◌+◌, ◌-◌, ◌*◌, ◌/◌, ◌%◌, ◌^◌, Bool, true, false, List, [], ◌∷◌, ◌++◌, length, take,
  drop, set, replicate, M, Result, ok, undefined, out_of_fuel, ◌>>=◌, ◌>>◌, then_run, lift_outcome,
  map_state, ltb, ◌==◌, if◌then◌else◌,
}
use node_link.Parsing.Buffer.{Buffer, read_be32}
use node_link.Download.Message
use node_link.Download.Message.{build_interested, read_message_length}
use node_link.Download.Downloader.{on_block_received}
use node_link.Download.Connection.State.{
  State, connecting, handshaking, downloading, Link, Env, Session, set_link, on_downloader, send,
}
use node_link.Download.Connection.Requests.{request_next_block}

-- `peer_pieces.resize(n, false)`
abbrev pub resize : ℕ → List Bool → List Bool
resize n pieces = take n pieces ++ replicate (n - length pieces) false

-- `if ((byte >> (7 - bit)) & 1)`: the piece with the index i * 8 + bit, if there is one.
abbrev pub mark_bit : ℕ → ℕ → ℕ → List Bool → List Bool
mark_bit byte i bit pieces =
    if byte / 2 ^ (7 - bit) % 2 == 1
    then (if ltb (i * 8 + bit) (length pieces) then set pieces (i * 8 + bit) true else pieces)
    else pieces

-- `for (bit = 0; bit < 8; ++bit)`, for the rounds that are left.
unfoldable pub mark_bits : ℕ → ℕ → ℕ → ℕ → List Bool → List Bool
mark_bits zero byte i bit pieces = pieces
mark_bits (suc rounds) byte i bit pieces =
    mark_bits rounds byte i (bit + 1) (mark_bit byte i bit pieces)

-- `for (i = 0; i < payload.size(); ++i)`, for the bytes that are left.
unfoldable pub mark_bytes : Buffer → ℕ → List Bool → List Bool
mark_bytes [] i pieces = pieces
mark_bytes (byte ∷ payload) i pieces = mark_bytes payload (i + 1) (mark_bits 8 byte i 0 pieces)

-- `case Message::BITFIELD`
unfoldable pub on_bitfield : Buffer → M Env (Unit {0})
on_bitfield payload e =
    let pieces = resize (length e.downloader.torrent.piece_hashes) e.link.peer_pieces in
    ok tt (set_link e (record e.link { peer_pieces = mark_bytes payload 0 pieces }))

-- `choked = …`
unfoldable pub set_choked : Bool → M Env (Unit {0})
set_choked b e = ok tt (set_link e (record e.link { choked = b }))

module _ (accepts : ℕ → Bool) where
  -- `case Message::PIECE`
  unfoldable pub on_piece : Buffer → M Env (Unit {0})
  on_piece payload = do
    index ← lift_outcome (read_be32 payload 0)
    begin ← lift_outcome (read_be32 payload 4)
    on_downloader (on_block_received index begin (drop 8 payload))
    request_next_block accepts

  -- `switch (id)`: the ids that it does not name are ignored.
  unfoldable pub dispatch : ℕ → Buffer → M Env (Unit {0})
  dispatch id payload =
      if id == Message.unchoke
      then (do set_choked false; request_next_block accepts)
      else if id == Message.bitfield
      then on_bitfield payload
      else if id == Message.choke
      then set_choked true
      else if id == Message.piece
      then on_piece payload
      else ok tt

-- What the front of the receive buffer holds: too little, a keep-alive or a message with the bytes
-- behind it, or a message whose length makes the code read behind the end of the buffer.
pub data Frame : Type 0 where
  incomplete overrun : Frame
  keep_alive : Buffer → Frame
  message : ℕ → Buffer → Buffer → Frame

-- The test `recv_buffer.size() < 4 + len` is taken in `uint32_t`, so that a length within four of
-- 2 ^ 32 passes it; the iterators are then past the end.
unfoldable pub next_frame : Buffer → Frame
next_frame buffer =
    let len = read_message_length buffer in
    if ltb (length buffer) 4
    then incomplete
    else if len == 0
    then keep_alive (drop 4 buffer)
    else if ltb (length buffer) ((4 + len) % 2 ^ 32)
    then incomplete
    else if ltb (length buffer) (4 + len)
    then overrun
    else message (Message.read_message_id buffer) (take (len - 1) (drop 5 buffer))
        (drop (4 + len) buffer)

-- A handler runs on all but the receive buffer, which then holds `rest`.
abbrev pub with_rest : {A : Type 0} → Buffer → Result Env A → Result Session A
with_rest rest = map_state λ e. record { env = e; recv_buffer = rest }

abbrev pub go_on : {S : Type 0} → Result S (Unit {0}) → Result S Bool
go_on r = then_run r λ _. ok true

abbrev pub greeted : Env → Env
greeted e = set_link e (record e.link { handshake_done = true; state = downloading })

module _ (accepts : ℕ → Bool) where
  -- One round of the loop on a message frame. The result tells whether the loop goes on.
  unfoldable pub handle_frame : Frame → M Session Bool
  handle_frame incomplete s = ok false s
  handle_frame overrun s = undefined
  handle_frame (keep_alive rest) s = ok true (record s { recv_buffer = rest })
  handle_frame (message id payload rest) s =
      go_on (with_rest rest (dispatch accepts id payload s.env))

  -- One round in the state HANDSHAKING.
  unfoldable pub handle_handshake : M Session Bool
  handle_handshake s =
      if ltb (length s.recv_buffer) 68
      then ok false s
      else go_on (with_rest (drop 68 s.recv_buffer) (send accepts build_interested (greeted s.env)))

  unfoldable pub process_round : State → M Session Bool
  process_round handshaking s = handle_handshake s
  process_round connecting s = handle_frame (next_frame s.recv_buffer) s
  process_round downloading s = handle_frame (next_frame s.recv_buffer) s

  unfoldable pub process_loop : ℕ → M Session (Unit {0})
  process_loop zero s = out_of_fuel
  process_loop (suc fuel) s =
      then_run (process_round s.env.link.state s)
        λ more s'. let rest = process_loop fuel s' in if more then rest else ok tt s'

  -- Every round that goes on takes four bytes at least out of the buffer.
  unfoldable pub process_buffer : M Session (Unit {0})
  process_buffer s = process_loop (length s.recv_buffer + 1) s
