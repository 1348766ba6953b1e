-- ===== src/Parsing/Tests.antt =====
-- Runs of the parsing code on small inputs, and instances of its theorems.
use node_link.Base.{
  List, ◌≡◌, refl, [], ◌∷◌, ◌++◌, length, ok, Returns, pos, negsuc, All, replicate, some, arith,
}
use node_link.Parsing.Buffer.{Buffer, read_be32}
use node_link.Parsing.Text.{
  split_at, stoll, skip_space, read_sign, read_digits, digits_value, in_bounds, to_string_ℤ,
  to_string, digits,
}
use node_link.Parsing.Bnode.{
  Bnode, int, string, list, dict, nil, cons, end, entry, get_string, assign, decode_int,
  decode_string, decode_element, decode, encode, encode_string,
}
use node_link.Parsing.Bnode.Valid.{IsValid}
use node_link.Parsing.Bnode.RoundTrip.{decode_element-encode}
use node_link.Parsing.Bnode.Sound.{decode-Returns, decode-encode-decode}
use node_link.Parsing.TorrentFile.{load}
use node_link.Parsing.TorrentFile.Typed.{IsTyped, load-Returns}
use node_link.Parsing.TorrentFile.Load.{concat, info_node, torrent_node, load-encode}
use node_link.Parsing.Sha1.{calculate, hex_word}

-- TestBuffer of test/TestParser.cpp
read_258 : read_be32 (0x00 ∷ 0x00 ∷ 0x01 ∷ 0x02 ∷ []) 0 ≡ ok 258
unfolding read_be32
read_258 = refl

abbrev abc : Buffer
abc = b'a' ∷ b'b' ∷ b'c' ∷ []

-- "a9993e364706816aba3e25717850c26c9cd0d89d"
sha1_abc :
    calculate abc
    ≡ hex_word 0xa9993e36
      ++ (hex_word 0x4706816a
          ++ (hex_word 0xba3e2571 ++ (hex_word 0x7850c26c ++ hex_word 0x9cd0d89d)))
unfolding calculate hex_word
sha1_abc = refl

-- TestBencode of test/TestParser.cpp: "d3:key5:valuee"
abbrev key_value : Buffer
key_value =
    b'd' ∷ b'3' ∷ b':' ∷ b'k' ∷ b'e' ∷ b'y' ∷ b'5' ∷ b':' ∷ b'v' ∷ b'a' ∷ b'l' ∷ b'u' ∷ b'e' ∷ b'e'
    ∷ []

abbrev key_value_node : Bnode
key_value_node =
    dict (entry (b'k' ∷ b'e' ∷ b'y' ∷ []) (string (b'v' ∷ b'a' ∷ b'l' ∷ b'u' ∷ b'e' ∷ [])) end)

key_value_decodes : decode key_value ≡ ok key_value_node
unfolding decode decode_element decode_int decode_string split_at stoll skip_space read_sign
    read_digits digits_value in_bounds get_string assign
key_value_decodes = refl

-- A list of a negative number and an empty map.
abbrev nested : Bnode
nested = list (cons (int (negsuc 41)) (cons (dict end) nil))

decode_element-encode_example :
    decode_element 60 (encode nested ++ b'x' ∷ []) ≡ ok (nested, b'x' ∷ [])
unfolding encode to_string_ℤ to_string digits
decode_element-encode_example =
    decode_element-encode nested 60 (b'x' ∷ []) (refl, (tt, tt)) (omega arith)

decode-Returns_example : Returns IsValid (decode key_value)
decode-Returns_example = decode-Returns key_value (omega arith)

decode-encode-decode_example : decode (encode key_value_node) ≡ ok key_value_node
decode-encode-decode_example =
    decode-encode-decode key_value key_value_node (omega arith) key_value_decodes

load-encode_example :
    (hashes : List Buffer) × All (λ hash. length hash ≡ 20) hashes
    × (concat hashes ≡ replicate 40 7)
    × (load
          (λ b. replicate 20 5)
          (some (encode (torrent_node abc (info_node abc (pos 6) (pos 4) (replicate 40 7)))))
        ≡ ok (record {
          announce = abc;
          name = abc;
          length = pos 6;
          piece_length = pos 4;
          piece_hashes = hashes;
          info_hash = replicate 20 5;
        }))
load-encode_example =
    load-encode (λ b. replicate 20 5) abc abc (replicate 40 7) (pos 6) (pos 4) (omega arith)
      (omega arith) (omega arith) refl refl refl

load-Returns_example : Returns IsTyped (
    load
      (λ b. replicate 20 5)
      (some (encode (torrent_node abc (info_node abc (pos 6) (pos 4) (replicate 40 7))))))
unfolding encode encode_string to_string_ℤ to_string digits
load-Returns_example =
    load-Returns (λ b. replicate 20 5)
      (encode (torrent_node abc (info_node abc (pos 6) (pos 4) (replicate 40 7)))) (omega arith)
