-- ===== src/Tracker/Udp/Calls/Served.antt =====
-- GetPeersUDP of source/tracker/tracker.cpp over a kernel that serves its calls: the calls that it makes, in
-- their order, the two datagrams, and what it makes of the answers.
use node_link.Base.{
  ℕ, ◌^◌, ◌≤◌, ◌<◌, ◌≡◌, refl, sym, ap, ◌∙◌, Bool, true, false, ◌&&◌, if◌then◌else◌, List, [], ◌∷◌,
  ◌++◌, append_assoc, append-nil, length, take, take_all, All, map, some, ok, throw, runtime_error,
  Result, lift_outcome, then_run, ◌==◌, ltb, Bool-cases, inl, inr, ℤ_of_int, arith,
}
use node_link.Parsing.Buffer.{Buffer, be32_bytes}
use node_link.Parsing.Buffer.RoundTrip.{be32-be32_bytes}
use node_link.Parsing.Text.{to_string_ℤ}
use node_link.Parsing.TorrentFile.{TorrentFile}
use node_link.Tracker.Peer.{Peer}
use node_link.Tracker.Url.{Url}
use node_link.Tracker.Compact.{Address, address_bytes, peer_at}
use node_link.Tracker.Udp.{
  write_be64, connect_request, first_word, read_connect, announce_request, read_announce,
}
use node_link.Tracker.Udp.Packets.{fold_bytes-write_be64}
use node_link.Tracker.Udp.Exchange.{read_announce-address_bytes}
use node_link.Tracker.Transport.{
  datagram, Call, getaddrinfo, freeaddrinfo, socket, close, setsockopt, sendto, recvfrom, Kernel,
  is_negative,
}
use node_link.Tracker.Udp.Calls.{
  Scope, look_up, open_socket, send_to, receive_from, closed_on_error, connect_step, announce_step,
  talk, try_udp, call_udp,
}

-- A connect response: the action, the transaction id, the connection id, and what follows them.
abbrev pub hello : ℕ → ℕ → ℕ → Buffer → Buffer
hello action id connection_id trailer =
    be32_bytes action ++ (be32_bytes id ++ (write_be64 [] connection_id ++ trailer))

read_connect-hello :
    (tid action id cid : ℕ) (trailer : Buffer)
    → action < 2 ^ 32
    → id < 2 ^ 32
    → cid < 2 ^ 64
    → read_connect tid (hello action id cid trailer)
      ≡ (if action == 0 && id == tid then ok cid else throw runtime_error)
unfolding read_connect first_word write_be64
read_connect-hello tid action id cid trailer ha hi hc =
    let long : ltb (length (hello action id cid trailer)) 16 ≡ false = ground arith in
    rw (long, read_connect, be32-be32_bytes action ha, be32-be32_bytes id hi)
      (elim (Bool-cases (action == 0)) [
        | inr other ↦ rw other refl
        | inl zeros ↦ elim (Bool-cases (id == tid)) [
          | inr other ↦ rw (zeros, other) refl
          | inl same ↦ rw (zeros, same) (ap ok (fold_bytes-write_be64 cid hc))
        ]
      ])

module _ (fd tid : ℕ) (url : Url) where
  -- The calls to the first datagram,
  abbrev pub opening_calls : List Call
  opening_calls =
      getaddrinfo url.host (to_string_ℤ (ℤ_of_int url.port)) true
      ∷ socket datagram fd
      ∷ setsockopt fd 2
      ∷ sendto fd (connect_request tid)
      ∷ []

  -- to the second one, after the first answer,
  abbrev pub announcing_calls : Buffer → List Call
  announcing_calls request = opening_calls ++ (recvfrom fd 1024 ∷ sendto fd request ∷ [])

  -- to the end, after the second answer,
  abbrev pub served_calls : Buffer → List Call
  served_calls request =
      announcing_calls request ++ (recvfrom fd 1024 ∷ freeaddrinfo ∷ close fd ∷ [])

  -- and to the end, after a first answer that is not taken.
  abbrev pub rejected_calls : List Call
  rejected_calls = opening_calls ++ (recvfrom fd 1024 ∷ close fd ∷ [])

  -- The result and the calls, by whether the connect response is the one that was asked for.
  abbrev pub ending : List Call → Bool → Buffer → List Peer → Result Scope (List Peer)
  ending calls true request peers =
      ok peers (record { sock = fd; calls = calls ++ served_calls request })
  ending calls false request peers = ok [] (record { sock = fd; calls = calls ++ rejected_calls })

-- A kernel that resolves the name, gives the descriptor, and takes every datagram.
pub record IsOpen (k : Kernel) (fd : ℕ) : Type 0 where
  pub resolves : (cs : List Call) → k.resolves cs ≡ true
  pub gives : (cs : List Call) → k.socket_answer cs ≡ fd
  pub valid : is_negative fd ≡ false
  pub takes : (cs : List Call) → k.takes cs ≡ true

-- The calls so far, with further ones appended one by one.
abbrev made : List Call → List Call → List Call
made calls [] = calls
made calls (c ∷ cs) = made (calls ++ c ∷ []) cs

made-append : (calls cs : List Call) → made calls cs ≡ calls ++ cs
made-append calls [] = sym (append-nil calls)
made-append calls (c ∷ cs) = made-append (calls ++ c ∷ []) cs ∙ append_assoc calls (c ∷ []) cs

module _ (k : Kernel) (fd tid key : ℕ) (o : IsOpen k fd) (url : Url) (calls : List Call) where
  abbrev scope_after : List Call → Scope
  scope_after cs = record { sock = fd; calls = made calls cs }

  -- An answer of at most 1024 bytes is received whole.
  receive_from_lem :
      (cs : List Call) (bytes : Buffer)
      → k.recv_answer (calls ++ cs) ≡ some bytes
      → length bytes ≤ 1024
      → receive_from k (record { sock = fd; calls = made calls cs })
        ≡ ok bytes (record { sock = fd; calls = made calls cs ++ recvfrom fd 1024 ∷ [] })
  unfolding receive_from
  receive_from_lem cs bytes came short =
      let here : k.recv_answer (made calls cs) ≡ some bytes =
        ap k.recv_answer (made-append calls cs) ∙ came in
      rw (here, take_all 1024 bytes short) refl

  connect_step_lem :
      (first : Buffer)
      → k.recv_answer (calls ++ opening_calls fd tid url) ≡ some first
      → length first ≤ 1024
      → connect_step k tid key (scope_after (take 3 (opening_calls fd tid url)))
        ≡ lift_outcome
            (read_connect tid first)
            (scope_after (opening_calls fd tid url ++ recvfrom fd 1024 ∷ []))
  unfolding connect_step send_to
  connect_step_lem first came short = rw o.takes (
      ap (λ r. then_run r λ b. lift_outcome (read_connect tid b))
        (receive_from_lem (opening_calls fd tid url) first came short))

  module _ (t : TorrentFile) (peer_id : Buffer) (port : ℕ) where
    announce_step_lem :
        (cid : ℕ) (second : Buffer)
        → let request = announce_request cid tid key t peer_id port in
          k.recv_answer (calls ++ announcing_calls fd tid url request) ≡ some second
          → length second ≤ 1024
          → announce_step k tid key t peer_id port cid
              (scope_after (opening_calls fd tid url ++ recvfrom fd 1024 ∷ []))
            ≡ lift_outcome
                (read_announce second)
                (scope_after (announcing_calls fd tid url request ++ recvfrom fd 1024 ∷ []))
    unfolding announce_step send_to
    announce_step_lem cid second came short =
        let request = announce_request cid tid key t peer_id port in
        rw o.takes (
          ap (λ r. then_run r λ b. lift_outcome (read_announce b))
            (receive_from_lem (announcing_calls fd tid url request) second came short))

    opened :
        call_udp k tid key url t peer_id port calls
        ≡ closed_on_error
            (talk k tid key t peer_id port (scope_after (take 2 (opening_calls fd tid url))))
    unfolding call_udp try_udp look_up open_socket
    opened = rw (o.resolves, o.gives, o.valid) refl

    talked :
        (cid : ℕ) (first second : Buffer) (taken : Bool) (peers : List Peer)
        → let request = announce_request cid tid key t peer_id port in
          k.recv_answer (calls ++ opening_calls fd tid url) ≡ some first
          → length first ≤ 1024
          → read_connect tid first ≡ (if taken then ok cid else throw runtime_error)
          → k.recv_answer (calls ++ announcing_calls fd tid url request) ≡ some second
          → length second ≤ 1024
          → read_announce second ≡ ok peers
          → closed_on_error
              (talk k tid key t peer_id port (scope_after (take 2 (opening_calls fd tid url))))
            ≡ ending fd tid url calls taken request peers
    unfolding talk closed_on_error
    talked cid first second true peers came short said came' short' listed =
        let request = announce_request cid tid key t peer_id port in
        rw
          (
            connect_step_lem first came short,
            said,
            announce_step_lem cid second came' short',
            listed,
          )
          (ap (λ cs. ok peers (record { sock = fd; calls = cs }))
            (made-append calls (served_calls fd tid url request)))
    talked cid first second false peers came short said came' short' listed =
        rw (connect_step_lem first came short, said, o.valid)
          (ap (λ cs. ok [] (record { sock = fd; calls = cs }))
            (made-append calls (rejected_calls fd tid url)))

-- Over a kernel that resolves the tracker's name, gives a descriptor and takes both datagrams, let the answer to
-- the connect request be an action, a transaction id, a connection id and a trailer, and the answer to the
-- announce request that is made with this connection id a header of 20 bytes, the compact list of some
-- addresses and less than six bytes more, both of at most 1024 bytes. If the action is 0 and the
-- transaction id is the request's, the call gives these peers in this order, having made exactly the
-- calls of the exchange: the lookup, the socket, its timeout, the connect request, its answer, the announce
-- request, its answer, and the release of the addresses and of the socket. Otherwise it gives no peers,
-- and after the first answer it only closes the socket: no announce request is sent.
pub call_udp-ending :
    (k : Kernel) (fd transaction_id key action id connection_id : ℕ) (url : Url) (calls : List Call)
    (t : TorrentFile) (peer_id : Buffer) (port : ℕ) (trailer head rest : Buffer) (xs : List Address)
    → IsOpen k fd
    → action < 2 ^ 32
    → id < 2 ^ 32
    → connection_id < 2 ^ 64
    → let request = announce_request connection_id transaction_id key t peer_id port in
      let first = hello action id connection_id trailer in
      let second = head ++ (address_bytes xs ++ rest) in
      k.recv_answer (calls ++ opening_calls fd transaction_id url) ≡ some first
      → length first ≤ 1024
      → k.recv_answer (calls ++ announcing_calls fd transaction_id url request) ≡ some second
      → length second ≤ 1024
      → length head ≡ 20
      → length rest < 6
      → All (λ x. x.port < 2 ^ 16) xs
      → call_udp k transaction_id key url t peer_id port calls
        ≡ ending fd transaction_id url calls
            (action == 0 && id == transaction_id)
            request
            (map peer_at xs)
call_udp-ending k fd tid key action id cid url calls t peer_id port trailer head rest xs o ha hi hc
      came short came' short' hh hr hx =
    opened k fd tid key o url calls t peer_id port
    ∙ talked k fd tid key o url calls t peer_id port cid (hello action id cid trailer)
        (head ++ (address_bytes xs ++ rest)) (action == 0 && id == tid) (map peer_at xs) came short
        (read_connect-hello tid action id cid trailer ha hi hc) came' short'
        (read_announce-address_bytes head xs rest hh hx hr)
