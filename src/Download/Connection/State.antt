-- ===== src/Download/Connection/State.antt =====
-- The members of class Connection, and the calls that it makes on its socket and its downloader.
use node_link.Base.{
  ℕ, Bool, true, false, List, [], ◌∷◌, ◌++◌, length, get_or, Option, none, some, M, ok, throw,
  undefined, runtime_error, map_state, leb, u64_of_int, minus_one, if◌then◌else◌,
}
use node_link.Parsing.Buffer.{Buffer}
use node_link.Tracker.Peer.{Peer}
use node_link.Download.Downloader.{Downloader}

pub data State : Type 0 where
  connecting handshaking downloading : State

-- The members but for `recv_buffer`, which no message handler touches. `socket` is the descriptor
-- of the open socket, or `none` for the null pointer.
pub record Link : Type 0 where
  pub peer : Peer
  pub socket : Option ℕ
  pub state : State
  pub choked : Bool
  pub handshake_done : Bool
  pub current_piece : ℕ
  pub block_offset : ℕ
  pub peer_pieces : List Bool

-- A connection with the downloader that it refers to, and the buffers that it sent, oldest first.
pub record Env : Type 0 where
  pub link : Link
  pub downloader : Downloader
  pub sent : List Buffer

pub record Session : Type 0 where
  pub env : Env
  pub recv_buffer : Buffer

abbrev pub new_link : Peer → Link
new_link p = record {
  peer = p;
  socket = none;
  state = connecting;
  choked = true;
  handshake_done = false;
  current_piece = minus_one;
  block_offset = 0;
  peer_pieces = [];
}

abbrev pub new_session : Peer → Downloader → Session
new_session p d = record {
  env = record { link = new_link p; downloader = d; sent = [] };
  recv_buffer = [];
}

abbrev pub set_link : Env → Link → Env
set_link e l = record e { link = l }

-- `socket = nullptr`
abbrev pub close_socket : Env → Env
close_socket e = set_link e (record e.link { socket = none })

-- A method of the downloader, called from the connection.
abbrev pub on_downloader : {A : Type 0} → M Downloader A → M Env A
on_downloader m e = map_state (λ d. record e { downloader = d }) (m e.downloader)

-- `HasPiece`: no index out of range, a negative one included, is a piece of the peer.
unfoldable pub has_piece : Link → ℕ → Bool
has_piece l index =
    if leb (length l.peer_pieces) (u64_of_int index)
    then false
    else get_or l.peer_pieces (u64_of_int index) false

-- `TcpClient::Send` through a socket that is there. `accepts n` tells whether the kernel takes the
-- connection's send number `n`, counted from 0.
module _ (accepts : ℕ → Bool) where
  unfoldable pub send_on : Option ℕ → Buffer → M Env (Unit {0})
  send_on none bytes e = undefined
  send_on (some fd) bytes e =
      if accepts (length e.sent)
      then ok tt (record e { sent = e.sent ++ bytes ∷ [] })
      else throw runtime_error e

  unfoldable pub send : Buffer → M Env (Unit {0})
  unfolding send_on
  send bytes e = send_on e.link.socket bytes e
