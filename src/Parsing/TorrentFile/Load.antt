-- ===== src/Parsing/TorrentFile/Load.antt =====
-- What `Load` returns: raw hashes that make up the blob, and the metadata that was encoded.
use node_link.Base.{
  ℕ, zero, suc, ◌*◌, ◌/◌, ◌%◌, ◌≡◌, refl, subst, true, ℤ, fits_int64, List, [], ◌∷◌, ◌++◌, drop,
  length, length-take, length-drop, take-append-drop, All, Option, none, some, ok, bind, Yields,
  Yields-bind, arith, ◌==◌, Bool-cases, inl, inr, ==→eq,
}
use node_link.Parsing.Buffer.{Buffer}
use node_link.Parsing.Text.{bytes_lt}
use node_link.Parsing.Bnode.{
  Bnode, int, string, dict, end, entry, get_int, get_string, get_dict, decode, encode,
}
use node_link.Parsing.Bnode.Valid.{FitsMemory, IsValid}
use node_link.Parsing.Bnode.RoundTrip.{decode-encode}
use node_link.Parsing.TorrentFile.{
  TorrentFile, find_key, at, require, key_announce, key_info, key_name, key_length,
  key_piece_length, key_pieces, chunks, extract_pieces, load_info, load_root, load,
}

-- The raw 20-byte hashes that a torrent file holds.
abbrev pub HasRawHashes : TorrentFile → Type 0
HasRawHashes t = All (λ hash. length hash ≡ 20) t.piece_hashes

abbrev pub concat : List Buffer → Buffer
concat [] = []
concat (b ∷ bs) = b ++ concat bs

pub chunks_lem :
    (n : ℕ) (blob : Buffer)
    → length blob ≡ n * 20
    → All (λ hash. length hash ≡ 20) (chunks n blob) × (concat (chunks n blob) ≡ blob)
unfolding chunks
chunks_lem zero [] h = (tt, refl)
chunks_lem zero (x ∷ blob) h = absurd (omega arith)
chunks_lem (suc n) blob h =
    let (raw, whole) = chunks_lem n (drop 20 blob) (omega (arith, length-drop 20 blob)) in
    ((omega (arith, length-take 20 blob), raw), rw whole (take-append-drop 20 blob))

-- The blob of hashes is cut into its 20-byte pieces, in order and with nothing left; a blob of any
-- other length is refused.
extract_pieces_lem :
    (blob : Buffer) (hashes : List Buffer)
    → extract_pieces blob ≡ ok hashes
    → All (λ hash. length hash ≡ 20) hashes × (concat hashes ≡ blob)
unfolding extract_pieces
extract_pieces_lem blob hashes e = elim (Bool-cases (length blob % 20 == 0)) [
  | inl whole ↦
      let zero_rest = ==→eq (length blob % 20) 0 whole in
      let cut : chunks (length blob / 20) blob ≡ hashes = ground arith in
      subst (λ hs. All (λ hash. length hash ≡ 20) hs × (concat hs ≡ blob)) cut
        (chunks_lem (length blob / 20) blob (omega arith))
  | inr ragged ↦ absurd (ground arith)
]

-- What a loaded torrent is worth: raw hashes, and an info hash taken of the info dictionary.
abbrev IsLoaded : (Buffer → Buffer) → TorrentFile → Type 0
IsLoaded sha1 t = HasRawHashes t × ((info : Bnode) × (t.info_hash ≡ sha1 (encode info)))

module _ (sha1 : Buffer → Buffer) where
  load_info-IsLoaded :
      (announce : Buffer) (info : Bnode) → Yields (IsLoaded sha1) (load_info sha1 announce info)
  unfolding load_info
  load_info-IsLoaded announce info = Yields-bind _ (get_dict info) _ λ es _.
      Yields-bind _ (bind (at key_name es) get_string) _ λ name _.
        Yields-bind _ (bind (at key_piece_length es) get_int) _ λ piece_length _.
          Yields-bind _ (bind (require (find_key key_length es)) get_int) _ λ len _.
            Yields-bind _ (bind (at key_pieces es) get_string) _ λ blob _.
              Yields-bind _ (extract_pieces blob) _
                λ hashes cut. ((extract_pieces_lem blob hashes cut).0, (info, refl))

  load_root-IsLoaded : (root : Bnode) → Yields (IsLoaded sha1) (load_root sha1 root)
  unfolding load_root
  load_root-IsLoaded root = Yields-bind _ (get_dict root) _ λ es _.
      Yields-bind _ (bind (at key_announce es) get_string) _ λ announce _.
        Yields-bind _ (require (find_key key_info es)) _ λ info _. load_info-IsLoaded announce info

  load-IsLoaded : (file : Option Buffer) → Yields (IsLoaded sha1) (load sha1 file)
  unfolding load
  load-IsLoaded none = tt
  load-IsLoaded (some bytes) = Yields-bind _ (decode bytes) _ λ root _. load_root-IsLoaded root

  -- Every torrent that `Load` returns holds raw hashes, of 20 bytes each.
  pub load-HasRawHashes :
      (file : Option Buffer) (t : TorrentFile) → load sha1 file ≡ ok t → HasRawHashes t
  load-HasRawHashes file t e = (subst (Yields (IsLoaded sha1)) e (load-IsLoaded file)).0

-- A single-file torrent as a bencoded value.
abbrev pub info_node : Buffer → ℤ → ℤ → Buffer → Bnode
info_node name length piece_length pieces = dict (
    entry key_length (int length) (
      entry key_name (string name)
        (entry key_piece_length (int piece_length) (entry key_pieces (string pieces) end))))

abbrev pub torrent_node : Buffer → Bnode → Bnode
torrent_node announce info = dict (entry key_announce (string announce) (entry key_info info end))

info_node-IsValid :
    (name : Buffer) (total piece_length : ℤ) (pieces : Buffer)
    → FitsMemory name
    → FitsMemory pieces
    → fits_int64 total ≡ true
    → fits_int64 piece_length ≡ true
    → IsValid (info_node name total piece_length pieces)
unfolding bytes_lt
info_node-IsValid name total piece_length pieces hn hp hl hpl = (
  omega arith,
  hl,
  refl,
  (omega arith, hn, refl, (omega arith, hpl, refl, (omega arith, hp, tt, tt))),
)

torrent_node-IsValid :
    (announce : Buffer) (info : Bnode)
    → FitsMemory announce
    → IsValid info
    → IsValid (torrent_node announce info)
unfolding bytes_lt
torrent_node-IsValid announce info ha hi = (omega arith, ha, refl, (omega arith, hi, tt, tt))

-- Loading a file that holds the encoding of a single-file torrent, with numbers of 64 bits, strings that
-- fit in memory and a blob of whole hashes, gives back each of its fields, the blob cut into its
-- hashes, and the SHA-1 of the encoded info dictionary.
pub load-encode :
    (sha1 : Buffer → Buffer) (announce name pieces : Buffer) (total piece_length : ℤ)
    → FitsMemory announce
    → FitsMemory name
    → FitsMemory pieces
    → fits_int64 total ≡ true
    → fits_int64 piece_length ≡ true
    → length pieces % 20 ≡ 0
    → let info = info_node name total piece_length pieces in
      (hashes : List Buffer) × All (λ hash. length hash ≡ 20) hashes
      × (concat hashes ≡ pieces)
      × (load sha1 (some (encode (torrent_node announce info)))
          ≡ ok (record {
            announce = announce;
            name = name;
            length = total;
            piece_length = piece_length;
            piece_hashes = hashes;
            info_hash = sha1 (encode info);
          }))
unfolding load load_root load_info get_dict get_string get_int find_key extract_pieces
load-encode sha1 announce name pieces total piece_length ha hn hp hl hpl whole =
    let info = info_node name total piece_length pieces in
    let valid =
      torrent_node-IsValid announce info ha
        (info_node-IsValid name total piece_length pieces hn hp hl hpl) in
    let count = length pieces / 20 in
    let (raw, all) = chunks_lem count pieces (omega arith) in
    let cut : (length pieces % 20 == 0) ≡ true = ground arith in
    (chunks count pieces, raw, all, rw (decode-encode (torrent_node announce info) valid, cut) refl)
