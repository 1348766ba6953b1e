-- ===== src/Tracker/Http.antt =====
-- source/tracker/tracker.cpp: an HTTP tracker, of which the connection is an argument; and
-- `Tracker::GetPeers`, which chooses by the announce address.
pub mod Encode
pub mod Response
use node_link.Base.{
  ℕ, ◌+◌, ◌*◌, ◌/◌, ◌%◌, Bool, true, false, ◌&&◌, ◌||◌, ℤ_of_int, List, [], ◌∷◌, ◌++◌, take, Option,
  none, some, Outcome, ok, throw, undefined, out_of_fuel, runtime_error, bind, leb, ◌==◌, bytes_eq,
  if◌then◌else◌,
}
use node_link.Parsing.Buffer.{Buffer}
use node_link.Parsing.Text.{ascii, is_digit, split_text, to_string_ℤ}
use node_link.Parsing.Sha1.{hex_digit}
use node_link.Parsing.Bnode.{Bnode, int, string, list, dict, decode}
use node_link.Parsing.TorrentFile.{TorrentFile, find_key}
use node_link.Tracker.Peer.{Peer}
use node_link.Tracker.Url.{Url, http, udp, parse}
use node_link.Tracker.Compact.{compact_peers}
use node_link.Tracker.Udp.{Answer, get_peers_udp}

-- `isalnum(c) || c == '-' || c == '_' || c == '.' || c == '~'`
abbrev pub is_unreserved : ℕ → Bool
is_unreserved c =
    is_digit c
    || (leb b'A' c && leb c b'Z')
    || (leb b'a' c && leb c b'z')
    || c == b'-'
    || c == b'_'
    || c == b'.'
    || c == b'~'

-- `UrlEncode`: the number of a byte has two digits, padded with 0.
unfoldable pub url_encode : Buffer → Buffer
url_encode [] = []
url_encode (c ∷ s) =
    let rest = url_encode s in
    if is_unreserved c then c ∷ rest else b'%' ∷ hex_digit (c / 16) ∷ hex_digit (c % 16) ∷ rest

abbrev pub crlf : Buffer
crlf = 13 ∷ 10 ∷ []

-- 1. Build HTTP GET Request. `port` is an `int`.
unfoldable pub http_request : Url → TorrentFile → Buffer → ℕ → Buffer
unfolding url_encode
http_request url t peer_id port =
    ascii "GET "
    ++ (url.path
        ++ (ascii "?info_hash="
            ++ (url_encode t.info_hash
                ++ (ascii "&peer_id="
                    ++ (peer_id
                        ++ (ascii "&port="
                            ++ (to_string_ℤ (ℤ_of_int port)
                                ++ (ascii "&uploaded=0&downloaded=0&compact=1&left="
                                    ++ (to_string_ℤ t.length
                                        ++ (ascii " HTTP/1.1"
                                            ++ (crlf
                                                ++ (ascii "Host: "
                                                    ++ (url.host
                                                        ++ (crlf
                                                            ++ (ascii "User-Agent: BitTorrent/1.0"
                                                            ++ (crlf
                                                            ++ (ascii "Connection: Close"
                                                            ++ (crlf ++ crlf))))))))))))))))))

abbrev pub key_peers : Buffer
key_peers = ascii "peers"

-- 4. Parse "Compact" Peer List
unfoldable pub peers_of_node : Bnode → List Peer
peers_of_node (dict es) = elim (find_key key_peers es) [
  | none ↦ []
  | some (string bin) ↦ compact_peers bin
  | some (int z) ↦ []
  | some (list xs) ↦ []
  | some (dict fs) ↦ []
]
peers_of_node _ = []

-- `catch (std::exception& e)`
abbrev pub none_on_error : Outcome (List Peer) → Outcome (List Peer)
none_on_error (throw e) = ok []
none_on_error r = r

-- 3. Parse Response
unfoldable pub read_response : Buffer → Outcome (List Peer)
read_response res_str = elim (split_text (crlf ++ crlf) res_str) [
  | none ↦ ok []
  | some (header, body) ↦ none_on_error (bind (decode body) λ root. ok (peers_of_node root))
]

-- `ask host port request` connects, sends and receives: what came first, or the exception of one of the
-- three steps. `Receive` takes 8192 bytes at most.
module _ (ask : Buffer → ℕ → Buffer → Outcome Buffer) where
  unfoldable pub get_peers_http : Url → TorrentFile → Buffer → ℕ → Outcome (List Peer)
  get_peers_http url t peer_id port =
      bind (ask url.host url.port (http_request url t peer_id port))
        λ res. read_response (take 8192 res)

  -- `GetPeers`, with the arguments of the UDP exchange for the tracker at each address.
  module _ (reachable : Url → Bool) (connect_answer announce_answer : Url → Buffer → Answer)
      (transaction_id key : ℕ) where
    unfoldable pub get_peers_by_protocol : TorrentFile → Buffer → ℕ → Url → Outcome (List Peer)
    get_peers_by_protocol t peer_id port url =
        if bytes_eq url.protocol http
        then get_peers_http url t peer_id port
        else if bytes_eq url.protocol udp
        then get_peers_udp (reachable url) (connect_answer url) (announce_answer url) transaction_id
            key t peer_id port
        else throw runtime_error

    unfoldable pub get_peers : TorrentFile → Buffer → ℕ → Outcome (List Peer)
    get_peers t peer_id port = bind (parse t.announce) (get_peers_by_protocol t peer_id port)
