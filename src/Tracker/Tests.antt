-- ===== src/Tracker/Tests.antt =====
-- Runs of the tracker code on small inputs, and instances of its theorems.
use node_link.Base.{
  ℕ, ◌≤◌, ◌≡◌, refl, true, false, pos, List, [], ◌∷◌, ◌++◌, length, take, drop, replicate, map,
  none, some, Outcome, ok, arith,
}
use node_link.Parsing.Buffer.{Buffer, be32_bytes}
use node_link.Parsing.Text.{
  ascii, split_at, split_text, strip_prefix, stoi, skip_space, read_sign, read_digits, digits_value,
  in_bounds, digits, to_string,
}
use node_link.Parsing.Bnode.{string, dict, Entries, end, entry, encode, encode_string}
use node_link.Parsing.TorrentFile.{TorrentFile, find_key}
use node_link.Tracker.Peer.{Peer}
use node_link.Tracker.Url.{Url, protocol_end, http, default_port, split_path, split_port, parse}
use node_link.Tracker.Url.Parse.{parse-text}
use node_link.Tracker.Compact.{Address, address_bytes, peer_at}
use node_link.Tracker.Udp.{
  Answer, timed_out, answered, write_be64, read_connect, first_word, fold_bytes, announce_request,
  get_peers_udp,
}
use node_link.Tracker.Udp.Packets.{read_connect_sound, announce_request_layout}
use node_link.Tracker.Udp.Exchange.{get_peers_udp-answered, get_peers_udp-total}
use node_link.Tracker.Http.{crlf, url_encode, key_peers, get_peers_http, get_peers}
use node_link.Tracker.Http.Encode.{url_decode, url_decode-url_encode}
use node_link.Tracker.Http.Response.{get_peers-http, get_peers_http-total}

-- TestTracker.cpp parses such an address.
parse_debian :
    parse (ascii "http://bttracker.debian.org:6969/announce")
    ≡ ok (record {
      protocol = http;
      host = ascii "bttracker.debian.org";
      port = 6969;
      path = ascii "/announce";
    })
unfolding parse split_text strip_prefix split_path split_port split_at stoi skip_space read_sign
    read_digits digits_value in_bounds
parse_debian = refl

parse-text_example :
    parse (ascii "udp" ++ (protocol_end ++ ((ascii "host" ++ []) ++ [])))
    ≡ ok (record { protocol = ascii "udp"; host = ascii "host"; port = 80; path = ascii "/" })
unfolding default_port
parse-text_example =
    parse-text (ascii "udp") (ascii "host") none none
      (omega arith, (omega arith, (omega arith, tt)))
      (omega arith, (omega arith, (omega arith, (omega arith, tt))))
      (omega arith, (omega arith, (omega arith, (omega arith, tt)))) tt

abbrev pub addresses : List Address
addresses = record { a = 10; b = 0; c = 0; d = 7; port = 6881 } ∷ []

abbrev pub torrent : TorrentFile
torrent = record {
  announce = ascii "http://host";
  name = ascii "f";
  length = pos 6;
  piece_length = pos 4;
  piece_hashes = [];
  info_hash = replicate 20 3;
}

abbrev hello : Buffer
hello = 0 ∷ 0 ∷ 0 ∷ 0 ∷ 0 ∷ 0 ∷ 0 ∷ 9 ∷ 0 ∷ 0 ∷ 0 ∷ 0 ∷ 0 ∷ 0 ∷ 1 ∷ 2 ∷ []

hello_reads : read_connect 9 hello ≡ ok 258
unfolding read_connect first_word
hello_reads = refl

read_connect_sound_example :
    (id : Buffer) × (rest : Buffer) × (length id ≡ 8)
    × (hello ≡ be32_bytes 0 ++ (be32_bytes 9 ++ (id ++ rest)))
    × (258 ≡ fold_bytes 0 id)
read_connect_sound_example = read_connect_sound 9 258 hello (omega arith) hello_reads

announce_request_layout_example :
    let packet = announce_request 258 9 5 torrent (replicate 20 1) 6881 in
    (length packet ≡ 98)
    × (fold_bytes 0 (take 8 packet) ≡ 258)
    × (fold_bytes 0 (take 4 (drop 8 packet)) ≡ 1)
    × (fold_bytes 0 (take 4 (drop 12 packet)) ≡ 9)
    × (take 20 (drop 16 packet) ≡ replicate 20 3)
    × (take 20 (drop 36 packet) ≡ replicate 20 1)
    × (fold_bytes 0 (take 8 (drop 64 packet)) ≡ 6)
    × (fold_bytes 0 (drop 96 packet) ≡ 6881)
announce_request_layout_example =
    announce_request_layout 258 9 5 torrent (replicate 20 1) 6881 refl refl (omega arith)
      (omega arith) (omega arith)

-- A tracker that takes the transaction id 9.
abbrev greeting : Buffer → Answer
greeting request = answered (be32_bytes 0 ++ (be32_bytes 9 ++ (write_be64 [] 258 ++ [])))

abbrev listing : Buffer → Answer
listing request = answered (replicate 20 0 ++ (address_bytes addresses ++ []))

get_peers_udp-answered_example :
    get_peers_udp true greeting listing 9 5 torrent (replicate 20 1) 6881
    ≡ ok (map peer_at addresses)
unfolding write_be64
get_peers_udp-answered_example =
    get_peers_udp-answered greeting listing 9 5 258 torrent (replicate 20 1) 6881 []
      (replicate 20 0) [] addresses (omega arith) (omega arith) refl (omega arith) refl
      (omega arith) refl (omega arith) (omega arith, tt)

get_peers_udp-total_example :
    (ps : List Peer) × (get_peers_udp true greeting
        (λ request. timed_out)
        9
        5
        torrent
        (replicate 20 1)
        6881
      ≡ ok ps)
get_peers_udp-total_example =
    get_peers_udp-total true greeting (λ request. timed_out) 9 5 torrent (replicate 20 1) 6881

url_decode-url_encode_example :
    url_decode (url_encode (0 ∷ b'a' ∷ 255 ∷ [])) ≡ some (0 ∷ b'a' ∷ 255 ∷ [])
url_decode-url_encode_example = url_decode-url_encode (0 ∷ b'a' ∷ 255 ∷ []) (omega arith)

abbrev pub answer_entries : Entries
answer_entries = entry key_peers (string (address_bytes addresses ++ [])) end

abbrev pub answer : Buffer
answer = ascii "HTTP/1.1 200 OK" ++ (crlf ++ (crlf ++ encode (dict answer_entries)))

abbrev asking : Buffer → ℕ → Buffer → Outcome Buffer
asking host port request = ok answer

pub answer_splits :
    split_text (crlf ++ crlf) answer ≡ some (ascii "HTTP/1.1 200 OK", encode (dict answer_entries))
unfolding split_text strip_prefix encode encode_string to_string digits
answer_splits = refl

pub answer_short : length answer ≤ 8192
unfolding encode encode_string to_string digits
answer_short = omega arith

pub answer_peers : find_key key_peers answer_entries ≡ some (string (address_bytes addresses ++ []))
unfolding find_key
answer_peers = refl

get_peers-http_example :
    get_peers asking
      (λ u. false)
      (λ u b. timed_out)
      (λ u b. timed_out)
      9
      5
      torrent
      (replicate 20 1)
      6881
    ≡ ok (map peer_at addresses)
get_peers-http_example =
    get_peers-http asking (λ u. false) (λ u b. timed_out) (λ u b. timed_out) 9 5 torrent
      (replicate 20 1) 6881 (ascii "host") none none answer (ascii "HTTP/1.1 200 OK") answer_entries
      addresses [] refl (omega arith, (omega arith, (omega arith, (omega arith, tt))))
      (omega arith, (omega arith, (omega arith, (omega arith, tt)))) tt refl answer_short
      answer_splits (omega arith, omega arith, tt, tt) answer_peers (omega arith) (omega arith, tt)

abbrev some_url : Url
some_url = record { protocol = http; host = ascii "host"; port = 80; path = ascii "/" }

get_peers_http-total_example :
    (ps : List Peer) × (get_peers_http asking some_url torrent (replicate 20 1) 6881 ≡ ok ps)
get_peers_http-total_example =
    get_peers_http-total asking some_url torrent (replicate 20 1) 6881 answer refl
