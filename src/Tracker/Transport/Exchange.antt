-- ===== src/Tracker/Transport/Exchange.antt =====
-- The use of the TCP client by GetPeersHTTP in source/tracker/tracker.cpp: one request, one response,
-- and what the HTTP tracker gives over such a client.
use node_link.Base.{
  ℕ, ◌+◌, ◌-◌, ◌≤◌, ◌≡◌, ◌≢◌, refl, ap, ◌∙◌, Bool, true, false, List, [], ◌∷◌, ◌++◌, append_assoc,
  append-nil, length, take, take-append_exact, length-append, drop, replicate, overwrite, All, map,
  Option, some, M, Result, Outcome, outcome_of, ok, throw, undefined, out_of_fuel, then_run, ◌>>◌,
  ℤ_of_int, ◌<◌, ◌^◌, arith,
}
use node_link.Parsing.Buffer.{Buffer}
use node_link.Parsing.Text.{split_text, to_string_ℤ}
use node_link.Parsing.Bnode.{Entries, string, dict, encode}
use node_link.Parsing.Bnode.Valid.{IsValid}
use node_link.Parsing.TorrentFile.{TorrentFile, find_key}
use node_link.Tracker.Url.{Url, protocol_end, http}
use node_link.Tracker.Url.Parse.{port_text, port_or_default, IsPort, path_text, path_or_root}
use node_link.Tracker.Compact.{Address, address_bytes, peer_at}
use node_link.Tracker.Udp.{Answer}
use node_link.Tracker.Http.{crlf, http_request, key_peers, get_peers}
use node_link.Tracker.Http.Response.{get_peers-http}
use node_link.Tracker.Transport.{
  stream, Call, getaddrinfo, freeaddrinfo, socket, connect, close, send, recv, Kernel, Process,
  is_negative, destroy, resize, resolve, create_socket, connect_socket, new_client, tcp_client,
  send_bytes, receive_bytes,
}
use node_link.Tracker.Transport.Life.{destroy_closes}

-- The client is destroyed at the end of its scope, however that is left.
abbrev pub destroy_after : {A : Type 0} → Result Process A → Result Process A
destroy_after (ok a p) = ok a (destroy p)
destroy_after (throw e p) = throw e (destroy p)
destroy_after undefined = undefined
destroy_after out_of_fuel = out_of_fuel

-- The scope of a client that was constructed; there is none if the constructor threw.
abbrev pub in_scope : {A : Type 0} → Result Process (Unit {0}) → M Process A → Result Process A
in_scope (ok u p) m = destroy_after (m p)
in_scope (throw e p) m = throw e p
in_scope undefined m = undefined
in_scope out_of_fuel m = out_of_fuel

-- `TcpClient client(url.host, url.port); client.Send(…); … = client.Receive(8192);`
unfoldable pub exchange : Kernel → List Call → Buffer → ℕ → Buffer → Result Process Buffer
exchange k calls host port request =
    in_scope (tcp_client k host port calls) (send_bytes k request >> receive_bytes k 8192)

-- What the tracker receives over TCP, for `GetPeersHTTP`.
abbrev pub ask_over : Kernel → List Call → Buffer → ℕ → Buffer → Outcome Buffer
ask_over k calls host port request = outcome_of (exchange k calls host port request)

resize-overwrite :
    (n : ℕ) (bytes : Buffer)
    → length bytes ≤ n
    → resize (length bytes) (overwrite (replicate n 0) 0 bytes) ≡ bytes
resize-overwrite n bytes fits =
    let rest : Buffer = drop (0 + length bytes) (replicate n 0) in
    let front : take (length bytes) (bytes ++ rest) ≡ bytes =
      take-append_exact (length bytes) bytes rest refl in
    let none_missing : length bytes - length (bytes ++ rest) ≡ 0 =
      omega (arith, length-append bytes rest) in
    rw (front, none_missing) (append-nil bytes)

-- The buffer that is received is what came, without the rest of the allocation.
receive_bytes_lem :
    (k : Kernel) (n : ℕ) (p : Process) (bytes : Buffer)
    → k.recv_answer p.calls ≡ some bytes
    → length bytes ≤ n
    → receive_bytes k n p ≡ ok bytes (record p { calls = p.calls ++ recv p.client.sock n ∷ [] })
unfolding receive_bytes
receive_bytes_lem k n p bytes came fits = rw (came, resize-overwrite n bytes fits) refl

-- A kernel that serves every call: it gives the descriptor, takes the request, and delivers the response.
pub record IsServing (k : Kernel) (fd : ℕ) (res : Buffer) : Type 0 where
  pub resolves : (cs : List Call) → k.resolves cs ≡ true
  pub gives : (cs : List Call) → k.socket_answer cs ≡ fd
  pub valid : is_negative fd ≡ false
  pub connects : (cs : List Call) → k.connects cs ≡ true
  pub takes : (cs : List Call) → k.takes cs ≡ true
  pub delivers : (cs : List Call) → k.recv_answer cs ≡ some res

-- The calls of such an exchange.
abbrev pub exchange_calls : ℕ → Buffer → ℕ → Buffer → List Call
exchange_calls fd host port request =
    getaddrinfo host (to_string_ℤ (ℤ_of_int port)) true
    ∷ socket stream fd
    ∷ connect fd true
    ∷ freeaddrinfo
    ∷ send fd request
    ∷ recv fd 8192
    ∷ close fd
    ∷ []

-- The process when the client is connected.
abbrev with_client : ℕ → Buffer → ℕ → List Call → Process
with_client fd host port cs = record {
  client = record { sock = fd; host = host; port = port };
  calls = cs;
}

module _ (k : Kernel) (fd : ℕ) (res host : Buffer) (port : ℕ) (s : IsServing k fd res) where
  new_client_lem :
      (calls : List Call)
      → new_client k stream host port calls
        ≡ ok tt (with_client fd host port (calls ++ take 4 (exchange_calls fd host port [])))
  unfolding new_client resolve create_socket connect_socket
  new_client_lem calls =
      rw (s.resolves, s.gives, s.valid, s.connects)
        (ap (λ cs. ok tt (with_client fd host port cs)) (simp append_assoc))

  send_bytes_lem :
      (request : Buffer) (cs : List Call)
      → send_bytes k request (with_client fd host port cs)
        ≡ ok tt (with_client fd host port (cs ++ send fd request ∷ []))
  unfolding send_bytes
  send_bytes_lem request cs = rw s.takes refl

  -- The exchange ends with the response, and with its calls made, the last of which closes the socket.
  pub exchange_lem :
      (calls : List Call) (request : Buffer)
      → length res ≤ 8192
      → exchange k calls host port request
        ≡ ok res (with_client fd host port (calls ++ exchange_calls fd host port request))
  unfolding exchange
  exchange_lem calls request short =
      let first : List Call = calls ++ take 4 (exchange_calls fd host port []) in
      let sent : List Call = first ++ send fd request ∷ [] in
      ap (λ r. in_scope r (send_bytes k request >> receive_bytes k 8192)) (new_client_lem calls)
      ∙ ap (λ r. destroy_after (then_run r λ u. receive_bytes k 8192))
          (send_bytes_lem request first)
      ∙ ap destroy_after
          (receive_bytes_lem k 8192 (with_client fd host port sent) res (s.delivers sent) short)
      ∙ ap (ok res) (destroy_closes _ s.valid)
      ∙ ap (λ cs. ok res (with_client fd host port cs)) (simp append_assoc)

-- Over a kernel that serves every call, a torrent whose announce address is an http address put together
-- from its parts, and whose tracker sends a response of at most 8192 bytes, of which a header ends
-- with the first empty line, and the body encodes a valid map with the compact list of some addresses under
-- "peers", gets these peers in this order. The tracker was sent the request, and the socket was closed
-- at the end.
pub get_peers-over_tcp :
    (k : Kernel) (fd : ℕ) (calls : List Call) (reachable : Url → Bool)
    (connect_answer announce_answer : Url → Buffer → Answer) (transaction_id key : ℕ)
    (t : TorrentFile) (peer_id : Buffer) (port : ℕ) (host : Buffer) (tracker_port : Option ℕ)
    (path : Option Buffer) (res header : Buffer) (es : Entries) (xs : List Address) (rest : Buffer)
    → IsServing k fd res
    → t.announce ≡ http ++ (protocol_end ++ ((host ++ port_text tracker_port) ++ path_text path))
    → All (λ b. b ≢ b':') host
    → All (λ b. b ≢ b'/') host
    → IsPort tracker_port
    → length res ≤ 8192
    → split_text (crlf ++ crlf) res ≡ some (header, encode (dict es))
    → IsValid (dict es)
    → find_key key_peers es ≡ some (string (address_bytes xs ++ rest))
    → length rest < 6
    → All (λ x. x.port < 2 ^ 16) xs
    → let url : Url = record {
      protocol = http;
      host = host;
      port = port_or_default http tracker_port;
      path = path_or_root path;
    } in
      (get_peers
          (ask_over k calls)
          reachable
          connect_answer
          announce_answer
          transaction_id
          key
          t
          peer_id
          port
        ≡ ok (map peer_at xs))
      × (exchange k calls host url.port (http_request url t peer_id port)
          ≡ ok res (record {
            client = record { sock = fd; host = host; port = url.port };
            calls = calls ++ exchange_calls fd host url.port (http_request url t peer_id port);
          }))
get_peers-over_tcp k fd calls reachable ca aa tid key t peer_id port host tracker_port path res
      header es xs rest serving announce colon slash fits short split valid found few ports =
    let url : Url = record {
      protocol = http;
      host = host;
      port = port_or_default http tracker_port;
      path = path_or_root path;
    } in
    let said =
      exchange_lem k fd res host url.port serving calls (http_request url t peer_id port) short in
    (
      get_peers-http (ask_over k calls) reachable ca aa tid key t peer_id port host tracker_port
          path res header es xs rest announce colon slash fits (ap outcome_of said) short split
          valid found few ports,
      said,
    )
