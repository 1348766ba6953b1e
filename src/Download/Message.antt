-- ===== src/Download/Message.antt =====
-- include/download/message.h and source/download/message.cpp: the peer wire messages.
pub mod Layout
use node_link.Base.{ℕ, List, [], ◌∷◌, ◌++◌, replicate}
use node_link.Parsing.Buffer.{Buffer, be32, be32_bytes}
use node_link.Parsing.TorrentFile.{TorrentFile}

-- The standard message ids.
abbrev pub choke : ℕ
choke = 0

abbrev pub unchoke : ℕ
unchoke = 1

abbrev pub interested : ℕ
interested = 2

abbrev pub bitfield : ℕ
bitfield = 5

abbrev pub request : ℕ
request = 6

abbrev pub piece : ℕ
piece = 7

unfoldable pub push_int32 : Buffer → ℕ → Buffer
push_int32 b val = b ++ be32_bytes val

-- "BitTorrent protocol"
abbrev pub proto : Buffer
proto =
    b'B' ∷ b'i' ∷ b't' ∷ b'T' ∷ b'o' ∷ b'r' ∷ b'r' ∷ b'e' ∷ b'n' ∷ b't' ∷ b' ' ∷ b'p' ∷ b'r' ∷ b'o'
    ∷ b't' ∷ b'o' ∷ b'c' ∷ b'o' ∷ b'l' ∷ []

unfoldable pub build_handshake : TorrentFile → Buffer → Buffer
build_handshake t peer_id = 19 ∷ (proto ++ (replicate 8 0 ++ (t.info_hash ++ peer_id)))

unfoldable pub build_keep_alive : Buffer
build_keep_alive = 0 ∷ 0 ∷ 0 ∷ 0 ∷ []

unfoldable pub build_choke : Buffer
unfolding push_int32
build_choke = push_int32 [] 1 ++ choke ∷ []

unfoldable pub build_unchoke : Buffer
unfolding push_int32
build_unchoke = push_int32 [] 1 ++ unchoke ∷ []

unfoldable pub build_interested : Buffer
unfolding push_int32
build_interested = push_int32 [] 1 ++ interested ∷ []

unfoldable pub build_request : ℕ → ℕ → ℕ → Buffer
unfolding push_int32
build_request index begin length =
    push_int32 (push_int32 (push_int32 (push_int32 [] 13 ++ request ∷ []) index) begin) length

-- 0 for a buffer of less than four bytes.
unfoldable pub read_message_length : Buffer → ℕ
read_message_length (b0 ∷ b1 ∷ b2 ∷ b3 ∷ rest) = be32 b0 b1 b2 b3
read_message_length _ = 0

unfoldable pub read_message_id : Buffer → ℕ
read_message_id (b0 ∷ b1 ∷ b2 ∷ b3 ∷ b4 ∷ rest) = b4
read_message_id _ = 0
