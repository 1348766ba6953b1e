-- ===== src/Tracker/Calls.antt =====
-- GetPeers of source/tracker/tracker.cpp over the kernel's system calls, for both kinds of tracker.
use node_link.Base.{
  ℕ, ◌≡◌, refl, ap, List, bytes_eq, Outcome, outcome_of, throw, ok, undefined, out_of_fuel,
  runtime_error, bind, if◌then◌else◌,
}
use node_link.Parsing.Buffer.{Buffer}
use node_link.Parsing.TorrentFile.{TorrentFile}
use node_link.Tracker.Peer.{Peer}
use node_link.Tracker.Url.{Url, http, udp, parse}
use node_link.Tracker.Udp.{Answer, connect_request}
use node_link.Tracker.Udp.Calls.{call_udp}
use node_link.Tracker.Udp.Calls.Answers.{
  answer_to, asked, descriptor, is_reachable, calls_before, call_udp-get_peers_udp,
}
use node_link.Tracker.Http.{get_peers_http, get_peers_by_protocol, get_peers}
use node_link.Tracker.Transport.{Call, Kernel}
use node_link.Tracker.Transport.Exchange.{ask_over}

module _ (k : Kernel) (transaction_id key : ℕ) (calls : List Call) where
  unfoldable pub call_by_protocol : TorrentFile → Buffer → ℕ → Url → Outcome (List Peer)
  call_by_protocol t peer_id port url =
      if bytes_eq url.protocol http
      then get_peers_http (ask_over k calls) url t peer_id port
      else if bytes_eq url.protocol udp
      then outcome_of (call_udp k transaction_id key url t peer_id port calls)
      else throw runtime_error

  -- `GetPeers`, after the calls that the process has made before.
  unfoldable pub call_tracker : TorrentFile → Buffer → ℕ → Outcome (List Peer)
  call_tracker t peer_id port = bind (parse t.announce) (call_by_protocol t peer_id port)

  -- What the kernel's calls bring to the announce datagram.
  abbrev pub announced : Url → Buffer → Answer
  announced url =
      answer_to k
        (asked (descriptor k url calls) (connect_request transaction_id) (calls_before k url calls))
        (descriptor k url calls)

  abbrev pub connected : Url → Buffer → Answer
  connected url = answer_to k (calls_before k url calls) (descriptor k url calls)

  call_by_protocol_lem :
      (t : TorrentFile) (peer_id : Buffer) (port : ℕ) (url : Url)
      → call_by_protocol t peer_id port url
        ≡ get_peers_by_protocol
            (ask_over k calls)
            (λ u. is_reachable k u calls)
            connected
            announced
            transaction_id
            key
            t
            peer_id
            port
            url
  unfolding call_by_protocol get_peers_by_protocol
  call_by_protocol_lem t peer_id port url =
      ap
        (λ r.
          if bytes_eq url.protocol http
          then get_peers_http (ask_over k calls) url t peer_id port
          else if bytes_eq url.protocol udp
          then r
          else throw runtime_error)
        (call_udp-get_peers_udp k transaction_id key t peer_id port url calls)

  -- Over any kernel, the tracker's answer comes to what `get_peers` reads from the answers that the
  -- kernel's calls bring: over TCP for an http address, and to the two datagrams for a udp address.
  pub call_tracker-get_peers :
      (t : TorrentFile) (peer_id : Buffer) (port : ℕ)
      → call_tracker t peer_id port
        ≡ get_peers
            (ask_over k calls)
            (λ u. is_reachable k u calls)
            connected
            announced
            transaction_id
            key
            t
            peer_id
            port
  unfolding call_tracker get_peers
  call_tracker-get_peers t peer_id port = of_url (parse t.announce)
    where
      of_url :
          (r : Outcome Url)
          → bind r (call_by_protocol t peer_id port)
            ≡ bind r (
                get_peers_by_protocol
                  (ask_over k calls)
                  (λ u. is_reachable k u calls)
                  connected
                  announced
                  transaction_id
                  key
                  t
                  peer_id
                  port)
      of_url (ok url) = call_by_protocol_lem t peer_id port url
      of_url (throw e) = refl
      of_url undefined = refl
      of_url out_of_fuel = refl
