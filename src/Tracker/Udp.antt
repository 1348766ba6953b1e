-- ===== src/Tracker/Udp.antt =====
-- source/tracker/tracker.cpp: a UDP tracker. The packets, and the exchange with the tracker, of which
-- the name lookup, the socket and the random numbers are arguments.
pub mod Packets
pub mod Exchange
pub mod Calls
use node_link.Base.{
  ℕ, ◌+◌, ◌*◌, ◌/◌, ◌%◌, ◌^◌, Bool, true, false, ◌||◌, not, List, [], ◌∷◌, ◌++◌, length, take, drop,
  Option, none, some, Outcome, ok, throw, undefined, out_of_fuel, runtime_error, bind, in_range,
  get_elem?, u64_of_ℤ, minus_one, ltb, ◌==◌, if◌then◌else◌,
}
use node_link.Parsing.Buffer.{Buffer, be32, be32_bytes, byte_at}
use node_link.Parsing.TorrentFile.{TorrentFile}
use node_link.Tracker.Peer.{Peer}
use node_link.Tracker.Compact.{compact_peers}

-- `WriteBE64`: the high word, then the low one.
unfoldable pub write_be64 : Buffer → ℕ → Buffer
write_be64 b val = (b ++ be32_bytes (val / 2 ^ 32 % 2 ^ 32)) ++ be32_bytes (val % 2 ^ 32)

-- STEP 1: the connect request.
unfoldable pub connect_request : ℕ → Buffer
unfolding write_be64
connect_request transaction_id =
    (write_be64 [] 0x417_2710_1980 ++ be32_bytes 0) ++ be32_bytes transaction_id

-- `(recv_buf[i] << 24) | …`, for the first four bytes.
unfoldable pub first_word : Buffer → Outcome ℕ
first_word (b0 ∷ b1 ∷ b2 ∷ b3 ∷ s) = ok (be32 b0 b1 b2 b3)
first_word _ = undefined

-- `for (i = 0; i < 8; i++) connection_id = (connection_id << 8) | recv_buf[8 + i];`
abbrev pub fold_bytes : ℕ → Buffer → ℕ
fold_bytes acc [] = acc
fold_bytes acc (b ∷ s) = fold_bytes ((acc * 2 ^ 8 + b) % 2 ^ 64) s

-- The connection id in the response, which must be long enough, and carry the action 0 and the
-- transaction id of the request.
unfoldable pub read_connect : ℕ → Buffer → Outcome ℕ
read_connect transaction_id response =
    if ltb (length response) 16
    then throw runtime_error
    else bind (first_word response) λ recv_action.
      bind (first_word (drop 4 response)) λ recv_trans_id.
        if not (recv_action == 0) || not (recv_trans_id == transaction_id)
        then throw runtime_error
        else ok (fold_bytes 0 (take 8 (drop 8 response)))

-- STEP 2: the announce request. `port` is an `int`.
unfoldable pub announce_request : ℕ → ℕ → ℕ → TorrentFile → Buffer → ℕ → Buffer
unfolding write_be64
announce_request connection_id transaction_id key t peer_id port =
    write_be64 [] connection_id
    ++ (be32_bytes 1
        ++ (be32_bytes transaction_id
            ++ (t.info_hash
                ++ (peer_id
                    ++ (write_be64 [] 0
                        ++ (write_be64 [] (u64_of_ℤ t.length)
                            ++ (write_be64 [] 0
                                ++ (be32_bytes 0
                                    ++ (be32_bytes 0
                                        ++ (be32_bytes key
                                            ++ (be32_bytes minus_one
                                                ++ (port / 2 ^ 8 % 256)
                                                  ∷ (port % 256)
                                                  ∷ [])))))))))))

-- The peers start at offset 20.
unfoldable pub read_announce : Buffer → Outcome (List Peer)
read_announce response =
    if ltb (length response) 20 then throw runtime_error else ok (compact_peers (drop 20 response))

-- What became of a datagram that was sent: the kernel refused it, no answer came in time, or an answer
-- came, of which the receive buffer takes 1024 bytes.
pub data Answer : Type 0 where
  refused timed_out : Answer
  answered : Buffer → Answer

abbrev pub response : Answer → Outcome Buffer
response refused = throw runtime_error
response timed_out = throw runtime_error
response (answered datagram) = ok (take 1024 datagram)

-- `catch (const std::exception& e)`: the result is still empty then.
abbrev pub or_empty : Outcome (List Peer) → Outcome (List Peer)
or_empty (throw e) = ok []
or_empty r = r

-- `reachable` tells whether the name lookup and the socket succeed; `connect_answer` and
-- `announce_answer` give the tracker's answers to the two datagrams; `transaction_id` and `key` are the
-- random numbers.
module _ (reachable : Bool) (connect_answer announce_answer : Buffer → Answer)
    (transaction_id key : ℕ) where
  unfoldable pub announce : TorrentFile → Buffer → ℕ → ℕ → Outcome (List Peer)
  announce t peer_id port connection_id =
      bind
        (response
          (announce_answer (announce_request connection_id transaction_id key t peer_id port)))
        read_announce

  unfoldable pub get_peers_udp : TorrentFile → Buffer → ℕ → Outcome (List Peer)
  get_peers_udp t peer_id port = or_empty (
      if reachable
      then bind
          (bind (response (connect_answer (connect_request transaction_id)))
            (read_connect transaction_id))
          (announce t peer_id port)
      else throw runtime_error)
