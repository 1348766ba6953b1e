-- ===== src/Tracker/Udp/Calls/Tests.antt =====
-- A UDP tracker on a kernel that delivers its answers, and on one that loses them.
use node_link.Base.{
  ◌≡◌, refl, Bool, true, false, if◌then◌else◌, List, [], ◌∷◌, ◌++◌, length, replicate, none, some,
  map, Result, ok, outcome_of, returns, minus_one, ◌==◌, ◌&&◌, arith,
}
use node_link.Parsing.Buffer.{be32_bytes}
use node_link.Parsing.Text.{ascii}
use node_link.Tracker.Peer.{Peer}
use node_link.Tracker.Compact.{compact_peers, address_bytes, peer_at}
use node_link.Tracker.Url.{Url, udp}
use node_link.Tracker.Udp.{write_be64, first_word, read_connect, announce_request, read_announce}
use node_link.Tracker.Transport.{Call, Kernel}
use node_link.Tracker.Transport.Accounts.{closes, lists_made, lists_freed}
use node_link.Tracker.Udp.Calls.{
  Scope, look_up, open_socket, send_to, receive_from, closed_on_error, connect_step, announce_step,
  talk, try_udp, call_udp,
}
use node_link.Tracker.Udp.Calls.Life.{IsLeft, call_udp-IsLeft}
use node_link.Tracker.Udp.Calls.Served.{IsOpen, ending, call_udp-ending}
use node_link.Tracker.Tests.{torrent, addresses}

abbrev tracker : Url
tracker = record { protocol = udp; host = ascii "host"; port = 80; path = ascii "/" }

-- The tracker takes the transaction id 9. Its first answer is the fifth call's.
abbrev kernel : Bool → Kernel
kernel delivers = record {
  resolves = λ cs. true;
  socket_answer = λ cs. 5;
  connects = λ cs. true;
  takes = λ cs. true;
  recv_answer = λ cs.
      if delivers
      then some (
          if length cs == 4
          then be32_bytes 0 ++ (be32_bytes 9 ++ (0 ∷ 0 ∷ 0 ∷ 0 ∷ 0 ∷ 0 ∷ 1 ∷ 2 ∷ []))
          else replicate 20 0 ++ address_bytes addresses)
      else none;
}

abbrev calls_left : Result Scope (List Peer) → List Call
calls_left (ok ps s) = s.calls
calls_left r = []

run_on_kernel : Bool → Result Scope (List Peer)
unfolding call_udp try_udp look_up open_socket talk connect_step announce_step send_to receive_from
    read_connect first_word read_announce closed_on_error
run_on_kernel delivers = call_udp (kernel delivers) 9 5 tracker torrent (replicate 20 1) 6881 []

-- The peers come across.
delivered : outcome_of (run_on_kernel true) ≡ ok (map peer_at addresses)
unfolding run_on_kernel compact_peers
delivered = refl

-- Where no answer comes, the socket is closed and the address list is kept.
lost :
    let cs = calls_left (run_on_kernel false) in
    (closes cs ≡ 5 ∷ []) × (lists_made cs ≡ 1) × (lists_freed cs ≡ 0)
unfolding run_on_kernel
lost = (refl, refl, refl)

call_udp-IsLeft_example :
    let body =
      try_udp
        (kernel false)
        9
        5
        tracker
        torrent
        (replicate 20 1)
        6881
        (record { sock = minus_one; calls = [] }) in
    (ps : List Peer) × (s : Scope) × (call_udp
        (kernel false)
        9
        5
        tracker
        torrent
        (replicate 20 1)
        6881
        []
      ≡ ok ps s)
    × IsLeft [] (returns body) s
call_udp-IsLeft_example =
    call_udp-IsLeft (kernel false) 9 5 torrent (replicate 20 1) 6881 tracker []

kernel-IsOpen : IsOpen (kernel true) 5
kernel-IsOpen = record {
  resolves = λ cs. refl;
  gives = λ cs. refl;
  valid = refl;
  takes = λ cs. refl;
}

call_udp-ending_example :
    call_udp (kernel true) 9 5 tracker torrent (replicate 20 1) 6881 []
    ≡ ending 5 9 tracker []
        (0 == 0 && 9 == 9)
        (announce_request 258 9 5 torrent (replicate 20 1) 6881)
        (map peer_at addresses)
unfolding write_be64
call_udp-ending_example =
    call_udp-ending (kernel true) 5 9 5 0 9 258 tracker [] torrent (replicate 20 1) 6881 []
      (replicate 20 0) [] addresses kernel-IsOpen (omega arith) (omega arith) (omega arith) refl
      (omega arith) refl (omega arith) refl (omega arith) (omega arith, tt)
