-- ===== src/Tracker/Udp/Exchange.antt =====
-- The exchange with a UDP tracker: what a tracker that follows the protocol gets across, and that no
-- answer makes it fail.
use node_link.Base.{
  ℕ, ◌^◌, ◌≤◌, ◌<◌, ◌≡◌, refl, ap, ◌∙◌, Bool, true, false, List, [], ◌∷◌, ◌++◌, length,
  length-append, take_all, drop-append_exact, map, All, Outcome, ok, throw, undefined, out_of_fuel,
  Returns, Returns-bind, bind, ltb, Bool-cases, inl, inr, arith,
}
use node_link.Parsing.Buffer.{Buffer, be32_bytes}
use node_link.Parsing.TorrentFile.{TorrentFile}
use node_link.Tracker.Peer.{Peer}
use node_link.Tracker.Compact.{Address, address_bytes, peer_at, compact_peers-address_bytes}
use node_link.Tracker.Udp.{
  Answer, refused, timed_out, answered, response, or_empty, write_be64, connect_request, first_word,
  read_connect, announce_request, read_announce, announce, get_peers_udp,
}
use node_link.Tracker.Udp.Packets.{read_connect-valid}

pub read_announce-address_bytes :
    (head : Buffer) (xs : List Address) (rest : Buffer)
    → length head ≡ 20
    → All (λ x. x.port < 2 ^ 16) xs
    → length rest < 6
    → read_announce (head ++ (address_bytes xs ++ rest)) ≡ ok (map peer_at xs)
unfolding read_announce
read_announce-address_bytes head xs rest hh hx hr =
    let long : ltb (length (head ++ (address_bytes xs ++ rest))) 20 ≡ false =
      ground (arith, length-append head (address_bytes xs ++ rest)) in
    rw (long, drop-append_exact 20 head (address_bytes xs ++ rest) hh)
      (ap ok (compact_peers-address_bytes xs rest hx hr))

-- A tracker that can be reached, that answers the connect request with the action 0, the request's
-- transaction id and a connection id, and that answers the announce request made with this connection id
-- with a header of 20 bytes and the compact list of some addresses, both answers of at most 1024 bytes,
-- gives these peers in this order.
pub get_peers_udp-answered :
    (connect_answer announce_answer : Buffer → Answer) (transaction_id key connection_id : ℕ)
    (t : TorrentFile) (peer_id : Buffer) (port : ℕ) (trailer head rest : Buffer) (xs : List Address)
    → transaction_id < 2 ^ 32
    → connection_id < 2 ^ 64
    → let hello =
        be32_bytes 0 ++ (be32_bytes transaction_id ++ (write_be64 [] connection_id ++ trailer)) in
      let peers = head ++ (address_bytes xs ++ rest) in
      connect_answer (connect_request transaction_id) ≡ answered hello
      → length hello ≤ 1024
      → announce_answer (announce_request connection_id transaction_id key t peer_id port)
        ≡ answered peers
      → length peers ≤ 1024
      → length head ≡ 20
      → length rest < 6
      → All (λ x. x.port < 2 ^ 16) xs
      → get_peers_udp true connect_answer announce_answer transaction_id key t peer_id port
        ≡ ok (map peer_at xs)
unfolding get_peers_udp announce
get_peers_udp-answered ca aa tid key cid t peer_id port trailer head rest xs ht hc said short listed
      short' hh hr hx =
    let connected : bind (response (ca (connect_request tid))) (read_connect tid) ≡ ok cid =
      ap (λ a. bind (response a) (read_connect tid)) said
      ∙ ap (read_connect tid) (take_all 1024 _ short)
      ∙ read_connect-valid tid cid trailer ht hc in
    ap (λ r. or_empty (bind r (announce true ca aa tid key t peer_id port))) connected
    ∙ ap (λ a. or_empty (bind (response a) read_announce)) listed
    ∙ ap (λ b. or_empty (read_announce b)) (take_all 1024 _ short')
    ∙ ap or_empty (read_announce-address_bytes head xs rest hh hx hr)

response-Returns : (a : Answer) → Returns (λ b. Unit {0}) (response a)
response-Returns refused = tt
response-Returns timed_out = tt
response-Returns (answered b) = tt

pub read_connect-Returns : (tid : ℕ) (b : Buffer) → Returns (λ c. Unit {0}) (read_connect tid b)
unfolding read_connect first_word
read_connect-Returns tid (a0 ∷ a1 ∷ a2 ∷ a3 ∷ t0 ∷ t1 ∷ t2 ∷ t3 ∷ s) = ground arith
read_connect-Returns tid _ = ground arith

pub read_announce-Returns : (b : Buffer) → Returns (λ c. Unit {0}) (read_announce b)
unfolding read_announce
read_announce-Returns b = elim (Bool-cases (ltb (length b) 20)) [
  | inl short ↦ rw short tt
  | inr long ↦ rw long tt
]

or_empty-Returns :
    (r : Outcome (List Peer)) → Returns (λ ps. Unit {0}) r → (ps : List Peer) × (or_empty r ≡ ok ps)
or_empty-Returns (ok ps) h = (ps, refl)
or_empty-Returns (throw e) h = ([], refl)
or_empty-Returns undefined h = absurd h
or_empty-Returns out_of_fuel h = absurd h

-- Whatever the tracker answers, and whether or not it is reached, the call returns a list of peers: no
-- exception leaves it, and it reads no byte out of range.
pub get_peers_udp-total :
    (reachable : Bool) (connect_answer announce_answer : Buffer → Answer) (transaction_id key : ℕ)
    (t : TorrentFile) (peer_id : Buffer) (port : ℕ)
    → (ps : List Peer) × (get_peers_udp reachable connect_answer announce_answer transaction_id key
          t peer_id port
        ≡ ok ps)
unfolding get_peers_udp announce
get_peers_udp-total false ca aa tid key t peer_id port = ([], refl)
get_peers_udp-total true ca aa tid key t peer_id port = or_empty-Returns _ (
    Returns-bind (λ c. Unit {0}) (λ ps. Unit {0})
      (bind (response (ca (connect_request tid))) (read_connect tid)) _
      (Returns-bind (λ c. Unit {0}) (λ c. Unit {0}) (response (ca (connect_request tid)))
        (read_connect tid) (response-Returns (ca (connect_request tid)))
        (λ b u. read_connect-Returns tid b))
      (λ cid u.
        Returns-bind (λ b. Unit {0}) (λ ps. Unit {0})
          (response (aa (announce_request cid tid key t peer_id port))) read_announce
          (response-Returns (aa (announce_request cid tid key t peer_id port)))
          (λ b v. read_announce-Returns b)))
