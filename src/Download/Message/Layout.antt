-- ===== src/Download/Message/Layout.antt =====
-- The bytes of the built messages: the handshake's layout, and that the readers undo the builders.
use node_link.Base.{
  ℕ, ◌+◌, ◌^◌, ◌<◌, ◌≡◌, refl, ap, ◌∷◌, ◌++◌, ok, arith, length, drop, take, length-append,
  replicate, take-append_exact, drop-append_exact,
}
use node_link.Parsing.Buffer.{Buffer, read_be32}
use node_link.Parsing.Buffer.RoundTrip.{be32-be32_bytes}
use node_link.Parsing.TorrentFile.{TorrentFile}
use node_link.Download.Message.{
  request, proto, build_handshake, build_request, read_message_length, read_message_id,
}

-- A handshake has 68 bytes exactly when the info hash and the peer id have 40 bytes together.
pub length-build_handshake :
    (t : TorrentFile) (peer_id : Buffer)
    → length (build_handshake t peer_id) ≡ 28 + length t.info_hash + length peer_id
unfolding build_handshake
length-build_handshake t peer_id = omega (arith, length-append t.info_hash peer_id)

-- With an info hash of 20 bytes, the handshake holds in this order the byte 19, the protocol's name,
-- eight zero bytes, the info hash in the bytes 28 to 47, and the peer id behind them.
build_handshake_layout :
    (t : TorrentFile) (peer_id : Buffer)
    → length t.info_hash ≡ 20
    → let hs = build_handshake t peer_id in
      (take 28 hs ≡ 19 ∷ (proto ++ replicate 8 0))
      × (take 20 (drop 28 hs) ≡ t.info_hash)
      × (drop 48 hs ≡ peer_id)
unfolding build_handshake
build_handshake_layout t peer_id h =
    (refl, take-append_exact 20 t.info_hash peer_id h, drop-append_exact 20 t.info_hash peer_id h)

-- A request's length prefix is 13 and counts its bytes, its id is 6, and the three numbers are read back
-- at the offsets 0, 4 and 8 of its payload.
pub build_request_fields :
    (index begin len : ℕ)
    → index < 2 ^ 32
    → begin < 2 ^ 32
    → len < 2 ^ 32
    → let b = build_request index begin len in
      (read_message_length b ≡ 13)
      × (length b ≡ 4 + read_message_length b)
      × (read_message_id b ≡ request)
      × (read_be32 (drop 5 b) 0 ≡ ok index)
      × (read_be32 (drop 5 b) 4 ≡ ok begin)
      × (read_be32 (drop 5 b) 8 ≡ ok len)
unfolding build_request read_message_length read_message_id read_be32
build_request_fields index begin len hi hb hl = (
  refl,
  refl,
  refl,
  ap ok (be32-be32_bytes index hi),
  ap ok (be32-be32_bytes begin hb),
  ap ok (be32-be32_bytes len hl),
)
