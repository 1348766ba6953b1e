-- ===== src/Download/Farm/Tests.antt =====
-- A run of the event loop, and instances of its theorems.
use node_link.Base.{
  rem_int64, mul_int64, All, pos, ℕ, ◌+◌, ◌<◌, ◌≡◌, refl, Bool, true, false, List, [], ◌∷◌, ◌++◌,
  length, replicate, Option, none, some, Result, ok, arith,
}
use node_link.Parsing.Buffer.{Buffer, read_be32}
use node_link.Parsing.Bnode.{encode}
use node_link.Tracker.Peer.{Peer}
use node_link.Download.Message.{
  build_handshake, build_interested, build_request, push_int32, read_message_length,
  read_message_id,
}
use node_link.Parsing.Sha1.{calculate}
use node_link.Download.Worker.{add, count_bytes}
use node_link.Download.Downloader.Integrity.{IsVerified}
use node_link.Download.Farm.Verified.{run-AllVerified}
use node_link.Download.Downloader.{
  on_block_received, begin_piece, assign_buffer, copy_block, update_speed, check_integrity,
  verify_piece, write_piece, queue_piece, new_downloader, get_next_piece_to_request, is_complete,
  piece_len,
}
use node_link.Download.Connection.State.{has_piece, send, send_on}
use node_link.Download.Connection.Requests.{
  pick_piece, block_length, finish_piece, send_request, request_block, request_next_block,
}
use node_link.Download.Connection.Messages.{
  mark_bits, mark_bytes, on_bitfield, on_piece, set_choked, dispatch, next_frame, handle_frame,
  handle_handshake, process_round, process_loop, process_buffer,
}
use node_link.Download.Connection.Events.{
  get_socket_fd, connect, greet, on_ready_write, receive, on_ready_read,
}
use node_link.Download.Farm.{
  Farm, Wait, events, interrupted, on_connection, on_writable, on_readable, handle_event,
  handle_events, run_until, run, add_connection, add_connections, start,
}
use node_link.Download.Farm.Endless.{run_endless, run_never_written}
use node_link.Download.Tests.{torrent, abc_torrent, fixed_sha1, torrent_bytes, torrent_loads}

abbrev peer_id : Buffer
peer_id = replicate 20 1

abbrev peers : List Peer
peers = record { ip = b'a' ∷ []; port = 1; id = [] } ∷ []

abbrev opens : ℕ → Option ℕ × Bool
opens n = (some (n + 3), true)

abbrev all_accepted : ℕ → ℕ → Bool
all_accepted i n = true

-- The socket is ready; then the peer's handshake, its bitfield with both pieces, and an unchoke arrive.
abbrev waits : List Wait
waits =
    events (record { connection = 0; writable = true; readable = none } ∷ [])
    ∷ interrupted
    ∷ events (
        record {
          connection = 0;
          writable = false;
          readable =
              some (some (replicate 68 0 ++ 0 ∷ 0 ∷ 0 ∷ 2 ∷ 5 ∷ 0xc0 ∷ 0 ∷ 0 ∷ 0 ∷ 1 ∷ 1 ∷ []));
        }
        ∷ [])
    ∷ []

abbrev outcome_state : Result Farm Bool → Farm
outcome_state (ok left f) = f
outcome_state r = start 3 opens (new_downloader torrent peer_id peers)

runs :
    (f : Farm) × (run all_accepted waits (start 3 opens (new_downloader torrent peer_id peers))
      ≡ ok false f)
unfolding run_until handle_events handle_event on_writable on_readable on_connection start
    add_connections add_connection connect get_socket_fd new_downloader is_complete on_ready_write
    greet on_ready_read receive process_buffer process_loop process_round handle_handshake
    handle_frame next_frame dispatch on_bitfield mark_bits mark_bytes set_choked request_next_block
    request_block send_request finish_piece block_length pick_piece has_piece
    get_next_piece_to_request piece_len send send_on build_handshake build_interested build_request
    push_int32 read_message_length read_message_id read_be32
runs = (
  outcome_state (run all_accepted waits (start 3 opens (new_downloader torrent peer_id peers))),
  refl,
)

connected : 0 < length (start 3 opens (new_downloader torrent peer_id peers)).connections
unfolding start add_connections add_connection connect get_socket_fd new_downloader
connected = omega arith

run_endless_example : ¬ (
    run all_accepted waits (start 3 opens (new_downloader torrent peer_id peers))
    ≡ ok true (start 3 opens (new_downloader torrent peer_id peers)))
run_endless_example =
    run_endless 3 all_accepted opens torrent peer_id peers waits
      (start 3 opens (new_downloader torrent peer_id peers)) (omega arith) connected
      (tt, (tt, (tt, tt)))

run_never_written_example :
    (runs.0.downloader.file_writer.q ≡ []) × (runs.0.downloader.file_writer.out ≡ [])
run_never_written_example =
    run_never_written fixed_sha1 (some (encode torrent_bytes)) 3 all_accepted opens torrent peer_id
      peers waits runs.0 false torrent_loads runs.1

-- The peer has the one piece, unchokes, and sends the piece's bytes.
abbrev delivery : List Wait
delivery =
    events (record { connection = 0; writable = true; readable = none } ∷ [])
    ∷ events (
        record {
          connection = 0;
          writable = false;
          readable = some (
              some (
                replicate 68 0
                ++ 0 ∷ 0 ∷ 0 ∷ 2 ∷ 5 ∷ 0x80 ∷ 0 ∷ 0 ∷ 0 ∷ 1 ∷ 1 ∷ 0 ∷ 0 ∷ 0 ∷ 12 ∷ 7 ∷ replicate 8 0
                ++ b'a' ∷ b'b' ∷ b'c' ∷ []));
        }
        ∷ [])
    ∷ []

delivered : Result Farm Bool
unfolding run_until handle_events handle_event on_writable on_readable on_connection start
    add_connections add_connection connect get_socket_fd new_downloader is_complete on_ready_write
    greet on_ready_read receive process_buffer process_loop process_round handle_handshake
    handle_frame next_frame dispatch on_bitfield mark_bits mark_bytes set_choked request_next_block
    request_block send_request finish_piece block_length pick_piece has_piece
    get_next_piece_to_request piece_len send send_on build_handshake build_interested build_request
    push_int32 read_message_length read_message_id read_be32 on_piece on_block_received begin_piece
    assign_buffer copy_block update_speed count_bytes check_integrity verify_piece write_piece
    queue_piece add rem_int64 mul_int64 calculate
delivered = run all_accepted delivery (start 3 opens (new_downloader abc_torrent peer_id peers))

delivered_job :
    (outcome_state delivered).downloader.file_writer.q
    ≡ record { b = b'a' ∷ b'b' ∷ b'c' ∷ []; offset = pos 0 } ∷ []
unfolding delivered
delivered_job = refl

run-AllVerified_example :
    All (IsVerified abc_torrent) (outcome_state delivered).downloader.file_writer.q
unfolding delivered
run-AllVerified_example =
    run-AllVerified 3 all_accepted opens abc_torrent peer_id peers delivery
      (outcome_state delivered) false refl
