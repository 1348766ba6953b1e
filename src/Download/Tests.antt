-- ===== src/Download/Tests.antt =====
-- Runs of the peer protocol on small inputs, and instances of its theorems.
use node_link.Base.{
  ℕ, ◌+◌, ◌++◌, ◌≡◌, refl, Bool, true, false, pos, List, [], ◌∷◌, length, replicate, drop, some,
  Result, ok, undefined, arith,
}
use node_link.Parsing.Buffer.{Buffer, read_be32}
use node_link.Parsing.Sha1.{calculate}
use node_link.Parsing.Text.{
  split_at, stoll, skip_space, read_sign, read_digits, digits_value, in_bounds, bytes_lt,
  to_string_ℤ, to_string, digits,
}
use node_link.Parsing.Bnode.{
  Bnode, get_dict, get_string, get_int, assign, decode_int, decode_string, decode_element, decode,
  encode, encode_string,
}
use node_link.Parsing.TorrentFile.{
  TorrentFile, find_key, extract_pieces, load_info, load_root, load,
}
use node_link.Parsing.TorrentFile.Load.{info_node, torrent_node}
use node_link.Tracker.Peer.{Peer}
use node_link.Download.Message.{build_request, read_message_length, read_message_id, request}
use node_link.Download.Message.Layout.{build_request_fields}
use node_link.Download.Worker.{new_writer, count_bytes}
use node_link.Download.Downloader.{
  Downloader, new_downloader, get_next_piece_to_request, piece_len, assign_buffer, begin_piece,
  copy_block, update_speed, verify_piece, check_integrity, on_block_received,
}
use node_link.Download.Downloader.Progress.{Block, receive_all}
use node_link.Download.Connection.State.{downloading, Env, Session, has_piece, send_on, send}
use node_link.Download.Connection.Requests.{
  pick_piece, block_length, finish_piece, send_request, request_block, request_next_block,
}
use node_link.Download.Connection.Requests.Choice.{Picks, pick_piece-Picks}
use node_link.Download.Connection.Messages.{
  mark_bits, mark_bytes, on_bitfield, set_choked, dispatch, next_frame, handle_frame, process_round,
  process_loop, process_buffer,
}
use node_link.Download.Connection.Events.{receive, on_ready_read}
use node_link.Download.Connection.Events.Overrun.{on_ready_read-overrun}
use node_link.Download.Connection.Events.Reassembly.{on_ready_read_chunks}

-- "abcd" and "ef", under raw hashes that no piece has.
abbrev pub torrent : TorrentFile
torrent = record {
  announce = [];
  name = [];
  length = pos 6;
  piece_length = pos 4;
  piece_hashes = replicate 20 7 ∷ replicate 20 9 ∷ [];
  info_hash = replicate 20 5;
}

abbrev pub abc : Buffer
abc = b'a' ∷ b'b' ∷ b'c' ∷ []

-- "a9993e364706816aba3e25717850c26c9cd0d89d"
abbrev pub abc_hash : Buffer
abc_hash =
    b'a' ∷ b'9' ∷ b'9' ∷ b'9' ∷ b'3' ∷ b'e' ∷ b'3' ∷ b'6' ∷ b'4' ∷ b'7' ∷ b'0' ∷ b'6' ∷ b'8' ∷ b'1'
    ∷ b'6' ∷ b'a' ∷ b'b' ∷ b'a' ∷ b'3' ∷ b'e' ∷ b'2' ∷ b'5' ∷ b'7' ∷ b'1' ∷ b'7' ∷ b'8' ∷ b'5'
    ∷ b'0' ∷ b'c' ∷ b'2' ∷ b'6' ∷ b'c' ∷ b'9' ∷ b'c' ∷ b'd' ∷ b'0' ∷ b'd' ∷ b'8' ∷ b'9' ∷ b'd' ∷ []

-- The one piece is "abc", and is listed with its hexadecimal hash.
abbrev pub abc_torrent : TorrentFile
abc_torrent = record {
  announce = [];
  name = [];
  length = pos 3;
  piece_length = pos 4;
  piece_hashes = abc_hash ∷ [];
  info_hash = replicate 20 5;
}

abbrev pub client : Downloader
client = record {
  torrent = torrent;
  my_id = replicate 20 1;
  peers = [];
  file_writer = new_writer;
  speed = record { bytes_downloaded = 0; total_bytes = 6; session_bytes = 0 };
  next_req_index = 0;
  downloaded_bytes = pos 0;
  piece_buffer = [];
  piece_bytes_received = 0;
  current_piece_index = 0xffff_ffff;
}

abbrev pub address : Peer
address = record { ip = []; port = 6881; id = [] }

-- After the handshake, with nothing received yet.
abbrev connected : Session
connected = record {
  env = record {
    link = record {
      peer = address;
      socket = some 7;
      state = downloading;
      choked = true;
      handshake_done = true;
      current_piece = 0xffff_ffff;
      block_offset = 0;
      peer_pieces = [];
    };
    downloader = client;
    sent = [];
  };
  recv_buffer = [];
}

abbrev pub accepting : ℕ → Bool
accepting n = true

-- A bitfield with both pieces, then an unchoke.
abbrev pub opening : Buffer
opening = 0 ∷ 0 ∷ 0 ∷ 2 ∷ 5 ∷ 0xc0 ∷ 0 ∷ 0 ∷ 0 ∷ 1 ∷ 1 ∷ []

abbrev outcome_sent : Result Session (Unit {0}) → List Buffer
outcome_sent (ok a s) = s.env.sent
outcome_sent r = []

ready : Result Session (Unit {0})
unfolding on_ready_read receive process_buffer process_loop process_round handle_frame next_frame
    read_message_length read_message_id dispatch on_bitfield mark_bytes mark_bits set_choked
    request_next_block pick_piece get_next_piece_to_request has_piece request_block piece_len
    block_length send_request finish_piece send send_on build_request
ready = on_ready_read accepting (some opening) connected

-- The unchoke brings a request for the first piece.
first_request : outcome_sent ready ≡ build_request 0 0 4 ∷ []
unfolding ready
first_request = refl

abbrev half_read : Session
half_read = record connected { recv_buffer = 0 ∷ 0 ∷ 0 ∷ [] }

on_ready_read_chunks_example :
    on_ready_read accepting (some (2 ∷ drop 4 opening)) half_read
    ≡ on_ready_read accepting (some opening) connected
unfolding on_ready_read receive process_buffer process_loop process_round handle_frame next_frame
    read_message_length
on_ready_read_chunks_example =
    on_ready_read_chunks accepting connected half_read 7 0 2 (0 ∷ 0 ∷ []) (drop 4 opening) refl refl

-- At work on the first piece, of four bytes.
abbrev fetching : Env
fetching = record connected.env {
  link = record connected.env.link {
    choked = false;
    current_piece = 0;
    peer_pieces = true ∷ true ∷ [];
  };
}

pick_piece-Picks_example : Picks 0 fetching (pick_piece 4 0 fetching)
pick_piece-Picks_example =
    pick_piece-Picks 4 0 fetching (omega arith) (omega arith) (omega arith) (omega arith)

abbrev blocks : List Block
blocks = record { piece_index = 0; offset = 0; bytes = b'a' ∷ b'b' ∷ b'c' ∷ b'd' ∷ [] } ∷ []

-- The downloader after both pieces.
received : Result Downloader (Unit {0})
unfolding receive_all new_downloader on_block_received begin_piece piece_len assign_buffer
    copy_block update_speed count_bytes check_integrity verify_piece calculate
received = receive_all blocks (new_downloader torrent (replicate 20 1) [])

abbrev outcome_state : Result Downloader (Unit {0}) → Downloader
outcome_state (ok a d) = d
outcome_state r = client

-- An encoded torrent file with those two hashes, and a stand-in for OpenSSL's SHA1.
abbrev pub fixed_sha1 : Buffer → Buffer
fixed_sha1 b = replicate 20 5

abbrev pub torrent_bytes : Bnode
torrent_bytes = torrent_node [] (info_node [] (pos 6) (pos 4) (replicate 20 7 ++ replicate 20 9))

pub torrent_loads : load fixed_sha1 (some (encode torrent_bytes)) ≡ ok torrent
unfolding load load_root load_info get_dict get_string get_int find_key extract_pieces decode
    decode_element decode_int decode_string split_at stoll skip_space read_sign read_digits
    digits_value in_bounds assign bytes_lt encode encode_string to_string_ℤ to_string digits
torrent_loads = refl

build_request_fields_example :
    (read_message_length (build_request 1 16384 2) ≡ 13)
    × (length (build_request 1 16384 2) ≡ 4 + read_message_length (build_request 1 16384 2))
    × (read_message_id (build_request 1 16384 2) ≡ request)
    × (read_be32 (drop 5 (build_request 1 16384 2)) 0 ≡ ok 1)
    × (read_be32 (drop 5 (build_request 1 16384 2)) 4 ≡ ok 16384)
    × (read_be32 (drop 5 (build_request 1 16384 2)) 8 ≡ ok 2)
build_request_fields_example =
    build_request_fields 1 16384 2 (omega arith) (omega arith) (omega arith)

-- The length 2^32 - 1, with which no byte of the message has to be there.
on_ready_read-overrun_example :
    on_ready_read accepting (some (255 ∷ 255 ∷ 255 ∷ 255 ∷ [])) connected ≡ undefined
unfolding read_message_length
on_ready_read-overrun_example =
    on_ready_read-overrun accepting connected 7 255 (255 ∷ 255 ∷ 255 ∷ []) refl refl (omega arith)
      (omega arith) (omega arith)
