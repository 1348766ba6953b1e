-- ===== src/Tracker/Http/Response.antt =====
-- What an HTTP tracker's response is read as, and that no response makes the reading fail.
use node_link.Base.{
  ℕ, Bool, ◌^◌, ◌≤◌, ◌<◌, ◌≡◌, ◌≢◌, refl, ap, ◌∙◌, Option, some, List, [], ◌∷◌, ◌++◌, length, take,
  length-take, take_all, map, All, Outcome, ok, throw, undefined, out_of_fuel, Returns,
  Returns-bind, bind, ◌==◌, Bool-cases, Option-cases, inl, inr, arith,
}
use node_link.Parsing.Buffer.{Buffer}
use node_link.Parsing.Text.{strip_prefix, split_text}
use node_link.Parsing.Bnode.{Entries, string, dict, decode, encode}
use node_link.Parsing.Bnode.Valid.{IsValid}
use node_link.Parsing.Bnode.RoundTrip.{decode-encode}
use node_link.Parsing.Bnode.Sound.{decode-Returns}
use node_link.Parsing.TorrentFile.{TorrentFile, find_key}
use node_link.Tracker.Peer.{Peer}
use node_link.Tracker.Url.{Url, protocol_end, http, parse}
use node_link.Tracker.Url.Parse.{
  port_text, port_or_default, IsPort, path_text, path_or_root, parse-text,
}
use node_link.Tracker.Compact.{Address, address_bytes, peer_at, compact_peers-address_bytes}
use node_link.Tracker.Udp.{Answer}
use node_link.Tracker.Http.{
  crlf, http_request, key_peers, peers_of_node, none_on_error, read_response, get_peers_http,
  get_peers_by_protocol, get_peers,
}

strip_prefix-length : (p s back : Buffer) → strip_prefix p s ≡ some back → length back ≤ length s
unfolding strip_prefix
strip_prefix-length [] s back e = ground arith
strip_prefix-length (x ∷ p) [] back e = absurd (ground arith)
strip_prefix-length (x ∷ p) (b ∷ s) back e = elim (Bool-cases (x == b)) [
  | inl same ↦ let ih = strip_prefix-length p s back (rw same at e) in omega arith
  | inr other ↦ absurd (ground arith)
]

split_text-length :
    (p s front back : Buffer) → split_text p s ≡ some (front, back) → length back ≤ length s
unfolding split_text
split_text-length p [] front back e = elim (Option-cases (strip_prefix p [])) [
  | inl absent ↦ absurd (ground arith)
  | inr (b, present) ↦ let le = strip_prefix-length p [] b present in ground arith
]
split_text-length p (x ∷ s) front back e = elim (Option-cases (strip_prefix p (x ∷ s))) [
  | inr (b, present) ↦ let le = strip_prefix-length p (x ∷ s) b present in ground arith
  | inl absent ↦ elim (Option-cases (split_text p s)) [
    | inl none_left ↦ absurd (ground arith)
    | inr ((f, b), found) ↦ let le = split_text-length p s f b found in ground arith
  ]
]

none_on_error-Returns :
    (r : Outcome (List Peer))
    → Returns (λ ps. Unit {0}) r
    → (ps : List Peer) × (none_on_error r ≡ ok ps)
none_on_error-Returns (ok ps) h = (ps, refl)
none_on_error-Returns (throw e) h = ([], refl)
none_on_error-Returns undefined h = absurd h
none_on_error-Returns out_of_fuel h = absurd h

-- Every response that fits in memory is read as a list of peers.
pub read_response-total :
    (s : Buffer) → length s < 2 ^ 63 → (ps : List Peer) × (read_response s ≡ ok ps)
unfolding read_response
read_response-total s h = elim (Option-cases (split_text (crlf ++ crlf) s)) [
  | inl absent ↦ ([], rw (absent, read_response) refl)
  | inr ((header, body), present) ↦
      let le = split_text-length (crlf ++ crlf) s header body present in
      let (ps, e) = none_on_error-Returns (bind (decode body) λ root. ok (peers_of_node root)) (
        Returns-bind IsValid (λ qs. Unit {0}) (decode body) (λ root. ok (peers_of_node root))
          (decode-Returns body (omega arith)) (λ v k. tt)) in
      (ps, rw (present, read_response) e)
]

peers_of_node-address_bytes :
    (es : Entries) (xs : List Address) (rest : Buffer)
    → find_key key_peers es ≡ some (string (address_bytes xs ++ rest))
    → length rest < 6
    → All (λ x. x.port < 2 ^ 16) xs
    → peers_of_node (dict es) ≡ map peer_at xs
unfolding peers_of_node
peers_of_node-address_bytes es xs rest found few ports =
    rw (found, peers_of_node) (compact_peers-address_bytes xs rest ports few)

read_response-encode :
    (s header : Buffer) (es : Entries) (xs : List Address) (rest : Buffer)
    → split_text (crlf ++ crlf) s ≡ some (header, encode (dict es))
    → IsValid (dict es)
    → find_key key_peers es ≡ some (string (address_bytes xs ++ rest))
    → length rest < 6
    → All (λ x. x.port < 2 ^ 16) xs
    → read_response s ≡ ok (map peer_at xs)
unfolding read_response
read_response-encode s header es xs rest split valid found few ports =
    rw (split, read_response)
      (ap (λ r. none_on_error (bind r λ root. ok (peers_of_node root)))
          (decode-encode (dict es) valid)
        ∙ ap ok (peers_of_node-address_bytes es xs rest found few ports))

-- A torrent whose announce address is an http address put together from its parts, and whose tracker
-- answers the request with at most 8192 bytes, of which a header ends with the first empty line, and the
-- body encodes a valid map with the compact list of some addresses under "peers", gets these peers in
-- this order.
pub get_peers-http :
    (ask : Buffer → ℕ → Buffer → Outcome Buffer) (reachable : Url → Bool)
    (connect_answer announce_answer : Url → Buffer → Answer) (transaction_id key : ℕ)
    (t : TorrentFile) (peer_id : Buffer) (port : ℕ) (host : Buffer) (tracker_port : Option ℕ)
    (path : Option Buffer) (res header : Buffer) (es : Entries) (xs : List Address) (rest : Buffer)
    → t.announce ≡ http ++ (protocol_end ++ ((host ++ port_text tracker_port) ++ path_text path))
    → All (λ b. b ≢ b':') host
    → All (λ b. b ≢ b'/') host
    → IsPort tracker_port
    → let url : Url = record {
      protocol = http;
      host = host;
      port = port_or_default http tracker_port;
      path = path_or_root path;
    } in
      ask url.host url.port (http_request url t peer_id port) ≡ ok res
      → length res ≤ 8192
      → split_text (crlf ++ crlf) res ≡ some (header, encode (dict es))
      → IsValid (dict es)
      → find_key key_peers es ≡ some (string (address_bytes xs ++ rest))
      → length rest < 6
      → All (λ x. x.port < 2 ^ 16) xs
      → get_peers ask reachable connect_answer announce_answer transaction_id key t peer_id port
        ≡ ok (map peer_at xs)
unfolding get_peers get_peers_by_protocol get_peers_http
get_peers-http ask reachable ca aa tid key t peer_id port host tracker_port path res header es xs
      rest announce colon slash fits said short split valid found few ports =
    let url : Url = record {
      protocol = http;
      host = host;
      port = port_or_default http tracker_port;
      path = path_or_root path;
    } in
    let parsed : parse t.announce ≡ ok url =
      ap parse announce
      ∙ parse-text http host tracker_port path
          (omega arith, (omega arith, (omega arith, (omega arith, tt)))) colon slash fits in
    ap (λ r. bind r (get_peers_by_protocol ask reachable ca aa tid key t peer_id port)) parsed
    ∙ ap (λ r. bind r λ b. read_response (take 8192 b)) said
    ∙ ap read_response (take_all 8192 res short)
    ∙ read_response-encode res header es xs rest split valid found few ports

-- Whatever comes back, a response that was received is read as a list of peers: no exception leaves
-- `GetPeersHTTP` then, and the decoder ends.
pub get_peers_http-total :
    (ask : Buffer → ℕ → Buffer → Outcome Buffer) (url : Url) (t : TorrentFile) (peer_id : Buffer)
    (port : ℕ) (res : Buffer)
    → ask url.host url.port (http_request url t peer_id port) ≡ ok res
    → (ps : List Peer) × (get_peers_http ask url t peer_id port ≡ ok ps)
unfolding get_peers_http
get_peers_http-total ask url t peer_id port res said =
    let (ps, e) = read_response-total (take 8192 res) (omega (arith, length-take 8192 res)) in
    (ps, rw (said, get_peers_http) e)
