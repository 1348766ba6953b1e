-- ===== src/Download/Connection/Sending/Tests.antt =====
-- A dialogue up to the first request, an instance of its theorem.
use node_link.Base.{◌≡◌, refl, List, [], ◌∷◌, ◌++◌, replicate, some, Result, ok}
use node_link.Download.Message.{
  build_handshake, build_interested, build_request, read_message_length, read_message_id,
}
use node_link.Download.Downloader.{get_next_piece_to_request, piece_len}
use node_link.Download.Connection.State.{Session, new_session, has_piece, send_on, send}
use node_link.Download.Connection.Requests.{
  pick_piece, block_length, finish_piece, send_request, request_block, request_next_block,
}
use node_link.Download.Connection.Messages.{
  mark_bits, mark_bytes, on_bitfield, set_choked, dispatch, next_frame, handle_frame,
  handle_handshake, process_round, process_loop, process_buffer,
}
use node_link.Download.Connection.Events.{connect, greet, on_ready_write, receive, on_ready_read}
use node_link.Download.Connection.Sending.{Signal, writable, readable, react, react-IsDialogue}
use node_link.Download.Connection.Sending.Rounds.{IsDialogue}
use node_link.Download.Tests.{client, address, accepting, opening}

-- The peer's handshake comes in two parts.
abbrev signals : List Signal
signals =
    readable (some (replicate 40 0)) ∷ writable ∷ readable (some (replicate 28 0 ++ opening)) ∷ []

abbrev left : Result Session (Unit {0}) → Session
left (ok u s) = s
left r = new_session address client

dialogue : Result Session (Unit {0})
unfolding react connect on_ready_write greet on_ready_read receive process_buffer process_loop
    process_round handle_handshake handle_frame next_frame read_message_length read_message_id
    dispatch on_bitfield mark_bytes mark_bits set_choked request_next_block pick_piece
    get_next_piece_to_request has_piece request_block piece_len block_length send_request
    finish_piece send send_on
dialogue = react accepting (writable ∷ signals) (connect (some 7) (new_session address client))

dialogue_sent :
    (left dialogue).env.sent
    ≡ build_handshake client.torrent client.my_id ∷ build_interested ∷ build_request 0 0 4 ∷ []
unfolding dialogue
dialogue_sent = refl

dialogue_returns : dialogue ≡ ok tt (left dialogue)
unfolding dialogue
dialogue_returns = refl

react-IsDialogue_example :
    IsDialogue (build_handshake client.torrent client.my_id) (left dialogue).env.sent
unfolding dialogue
react-IsDialogue_example =
    react-IsDialogue accepting address client 7 signals (left dialogue) dialogue_returns
