-- ===== src/Tracker/Udp/Calls.antt =====
-- GetPeersUDP of source/tracker/tracker.cpp as the system calls that it makes. What the kernel answers, and
-- the random numbers, are arguments.
pub mod Answers
pub mod Life
pub mod Served
mod Tests
use node_link.Base.{
  ℕ, if◌then◌else◌, List, [], ◌∷◌, ◌++◌, take, Option, none, some, M, Result, Outcome, ok, throw,
  undefined, out_of_fuel, runtime_error, pure, ◌>>=◌, ◌>>◌, run_on, lift_outcome, ℤ_of_int,
  minus_one,
}
use node_link.Parsing.Buffer.{Buffer}
use node_link.Parsing.Text.{to_string_ℤ}
use node_link.Parsing.TorrentFile.{TorrentFile}
use node_link.Tracker.Peer.{Peer}
use node_link.Tracker.Url.{Url}
use node_link.Tracker.Udp.{connect_request, read_connect, announce_request, read_announce}
use node_link.Tracker.Transport.{
  datagram, Call, getaddrinfo, freeaddrinfo, socket, close, setsockopt, sendto, recvfrom, Kernel,
  is_negative,
}

-- The variable `sock`, which outlives the `try` block, and the calls that the process has made, oldest
-- first.
pub record Scope : Type 0 where
  pub sock : ℕ
  pub calls : List Call

abbrev pub make : Call → M Scope (Unit {0})
make c s = ok tt (record s { calls = s.calls ++ c ∷ [] })

-- 1. DNS Resolution (Hostname -> IP)
unfoldable pub look_up : Kernel → Url → M Scope (Unit {0})
look_up k url s =
    let found = k.resolves s.calls in
    run_on s do
      make (getaddrinfo url.host (to_string_ℤ (ℤ_of_int url.port)) found)
      if found then pure tt else throw runtime_error

-- 2. Create Socket. The addresses are freed if there is none.
unfoldable pub open_socket : Kernel → M Scope (Unit {0})
open_socket k s =
    let fd = k.socket_answer s.calls in
    run_on (record s { sock = fd })
      do
        make (socket datagram fd)
        if is_negative fd then (make freeaddrinfo >> throw runtime_error) else pure tt

-- `if (sendto(…) < 0) throw …`
unfoldable pub send_to : Kernel → Buffer → M Scope (Unit {0})
send_to k bytes s =
    let taken = k.takes s.calls in
    run_on s do make (sendto s.sock bytes); if taken then pure tt else throw runtime_error

-- An error gives the length -1, which the test of the length that follows rejects.
abbrev pub received_from : Option Buffer → M Scope Buffer
received_from none s = throw runtime_error s
received_from (some bytes) s = ok (take 1024 bytes) s

-- `recvfrom(sock, recv_buf.data(), 1024, …)`
unfoldable pub receive_from : Kernel → M Scope Buffer
receive_from k s =
    let answer = k.recv_answer s.calls in
    run_on s do make (recvfrom s.sock 1024); received_from answer

-- `close(sock)`
abbrev pub close_sock : M Scope (Unit {0})
close_sock s = make (close s.sock) s

-- The end of the scope of `GetPeersUDP`. An exception is caught, and closes the socket if there is one;
-- the result is still empty then.
unfoldable pub closed_on_error : Result Scope (List Peer) → Result Scope (List Peer)
closed_on_error (throw e s) =
    if is_negative s.sock then ok [] s else run_on s do close_sock; pure []
closed_on_error r = r

module _ (k : Kernel) (transaction_id key : ℕ) where
  -- STEP 1: CONNECT REQUEST
  unfoldable pub connect_step : M Scope ℕ
  connect_step = do
    send_to k (connect_request transaction_id)
    recv_buf ← receive_from k
    lift_outcome (read_connect transaction_id recv_buf)

  -- STEP 2: ANNOUNCE REQUEST
  unfoldable pub announce_step : TorrentFile → Buffer → ℕ → ℕ → M Scope (List Peer)
  announce_step t peer_id port connection_id = do
    send_to k (announce_request connection_id transaction_id key t peer_id port)
    recv_buf ← receive_from k
    lift_outcome (read_announce recv_buf)

  -- Both steps over the new socket, which they do not outlive.
  unfoldable pub talk : TorrentFile → Buffer → ℕ → M Scope (List Peer)
  talk t peer_id port s = run_on s do
    make (setsockopt s.sock 2)
    connection_id ← connect_step
    result ← announce_step t peer_id port connection_id
    make freeaddrinfo
    close_sock
    pure result

  -- The body of the `try` block.
  unfoldable pub try_udp : Url → TorrentFile → Buffer → ℕ → M Scope (List Peer)
  try_udp url t peer_id port = do look_up k url; open_socket k; talk t peer_id port

  -- `GetPeersUDP`
  unfoldable pub call_udp : Url → TorrentFile → Buffer → ℕ → List Call → Result Scope (List Peer)
  call_udp url t peer_id port calls =
      closed_on_error (try_udp url t peer_id port (record { sock = minus_one; calls = calls }))
