-- ===== src/Parsing/TorrentFile.antt =====
-- include/parsing/TorrentFile.h and source/parsing/TorrentFile.cpp: the torrent's metadata, loaded
-- from a file. The bytes of the file, and the SHA1 of OpenSSL, are arguments.
pub mod Load
pub mod Typed
use node_link.Base.{
  ℕ, zero, suc, ◌+◌, ◌/◌, ◌%◌, Bool, true, false, ℤ, List, [], ◌∷◌, take, drop, length, bytes_eq,
  Option, none, some, Outcome, ok, throw, runtime_error, out_of_range, bind, ◌==◌, if◌then◌else◌,
}
use node_link.Parsing.Buffer.{Buffer}
use node_link.Parsing.Bnode.{
  Bnode, Entries, end, entry, get_int, get_string, to_text, get_dict, decode, encode,
}

pub record TorrentFile : Type 0 where
  pub announce : Buffer
  pub name : Buffer
  pub length : ℤ
  pub piece_length : ℤ
  pub piece_hashes : List Buffer
  pub info_hash : Buffer

-- `std::map::at` and `count`
unfoldable pub find_key : Buffer → Entries → Option Bnode
find_key key end = none
find_key key (entry k v es) = if bytes_eq key k then some v else find_key key es

abbrev pub or_throw : {A : Type 0} → Option A → Outcome A
or_throw none = throw out_of_range
or_throw (some a) = ok a

abbrev pub at : Buffer → Entries → Outcome Bnode
at key es = or_throw (find_key key es)

abbrev pub require : {A : Type 0} → Option A → Outcome A
require none = throw runtime_error
require (some a) = ok a

abbrev pub key_announce : Buffer
key_announce = b'a' ∷ b'n' ∷ b'n' ∷ b'o' ∷ b'u' ∷ b'n' ∷ b'c' ∷ b'e' ∷ []

abbrev pub key_info : Buffer
key_info = b'i' ∷ b'n' ∷ b'f' ∷ b'o' ∷ []

abbrev pub key_name : Buffer
key_name = b'n' ∷ b'a' ∷ b'm' ∷ b'e' ∷ []

abbrev pub key_length : Buffer
key_length = b'l' ∷ b'e' ∷ b'n' ∷ b'g' ∷ b't' ∷ b'h' ∷ []

abbrev pub key_piece_length : Buffer
key_piece_length =
    b'p' ∷ b'i' ∷ b'e' ∷ b'c' ∷ b'e' ∷ b' ' ∷ b'l' ∷ b'e' ∷ b'n' ∷ b'g' ∷ b't' ∷ b'h' ∷ []

abbrev pub key_pieces : Buffer
key_pieces = b'p' ∷ b'i' ∷ b'e' ∷ b'c' ∷ b'e' ∷ b's' ∷ []

-- `for (i = 0; i < piecesBlob.size(); i += 20)`, for the chunks that are left.
unfoldable pub chunks : ℕ → Buffer → List Buffer
chunks zero blob = []
chunks (suc n) blob = take 20 blob ∷ chunks n (drop 20 blob)

-- 4. Extract Pieces
unfoldable pub extract_pieces : Buffer → Outcome (List Buffer)
unfolding chunks
extract_pieces blob =
    if length blob % 20 == 0 then ok (chunks (length blob / 20) blob) else throw runtime_error

module _ (sha1 : Buffer → Buffer) where
  -- 3. Process 'info' dictionary, 4. and 5. Calculate Info Hash
  unfoldable pub load_info : Buffer → Bnode → Outcome TorrentFile
  load_info announce info_node = bind (get_dict info_node) λ info_dict.
      bind (bind (at key_name info_dict) to_text) λ name.
        bind (bind (at key_piece_length info_dict) get_int) λ piece_length.
          bind (bind (require (find_key key_length info_dict)) get_int) λ length.
            bind (bind (at key_pieces info_dict) get_string) λ pieces_blob.
              bind (extract_pieces pieces_blob) λ hashes. ok (record {
                announce = announce;
                name = name;
                length = length;
                piece_length = piece_length;
                piece_hashes = hashes;
                info_hash = sha1 (encode info_node);
              })

  unfoldable pub load_root : Bnode → Outcome TorrentFile
  load_root root = bind (get_dict root) λ root_dict.
      bind (bind (at key_announce root_dict) to_text) λ announce.
        bind (require (find_key key_info root_dict)) λ info_node. load_info announce info_node

  -- `Load`, for the bytes of the file; `none` if it cannot be opened.
  unfoldable pub load : Option Buffer → Outcome TorrentFile
  load none = throw runtime_error
  load (some bytes) = bind (decode bytes) load_root
