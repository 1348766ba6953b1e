-- ===== src/Parsing/TorrentFile/Typed.antt =====
-- What TorrentFile::Load of source/parsing/TorrentFile.cpp ends in, whatever the bytes of the file.
use node_link.Base.{
  ◌^◌, ◌%◌, ◌/◌, ◌<◌, ◌≡◌, true, fits_int64, length, All, some, bind, Returns, Returns-bind,
  Bool-cases, inl, inr, bytes_eq, ◌==◌, ==→eq, arith,
}
use node_link.Parsing.Buffer.{Buffer}
use node_link.Parsing.Bnode.{
  Bnode, Entries, int, string, list, dict, end, entry, get_int, get_string, get_dict, decode,
}
use node_link.Parsing.Bnode.Valid.{FitsMemory, IsValid, ValidEntries}
use node_link.Parsing.Bnode.Sound.{decode-Returns}
use node_link.Parsing.TorrentFile.{
  TorrentFile, find_key, at, require, key_announce, key_info, key_name, key_length,
  key_piece_length, key_pieces, extract_pieces, load_info, load_root, load,
}
use node_link.Parsing.TorrentFile.Load.{HasRawHashes, chunks_lem}

-- A torrent with its fields in the ranges of their types.
pub record IsTyped (t : TorrentFile) : Type 0 where
  pub announce : FitsMemory t.announce
  pub name : FitsMemory t.name
  pub total : fits_int64 t.length ≡ true
  pub width : fits_int64 t.piece_length ≡ true
  pub hashes : HasRawHashes t

get_int-Returns : (v : Bnode) → IsValid v → Returns (λ z. fits_int64 z ≡ true) (get_int v)
unfolding get_int
get_int-Returns (int z) h = h
get_int-Returns (string s) h = tt
get_int-Returns (list xs) h = tt
get_int-Returns (dict es) h = tt

get_string-Returns : (v : Bnode) → IsValid v → Returns FitsMemory (get_string v)
unfolding get_string
get_string-Returns (int z) h = tt
get_string-Returns (string s) h = h
get_string-Returns (list xs) h = tt
get_string-Returns (dict es) h = tt

get_dict-Returns : (v : Bnode) → IsValid v → Returns ValidEntries (get_dict v)
unfolding get_dict
get_dict-Returns (int z) h = tt
get_dict-Returns (string s) h = tt
get_dict-Returns (list xs) h = tt
get_dict-Returns (dict es) h = h

at-Returns : (key : Buffer) (es : Entries) → ValidEntries es → Returns IsValid (at key es)
unfolding find_key
at-Returns key end h = tt
at-Returns key (entry k v es) h = elim (Bool-cases (bytes_eq key k)) [
  | inl here ↦ rw here h.1
  | inr other ↦ rw other (at-Returns key es h.3)
]

require-Returns :
    (key : Buffer) (es : Entries) → ValidEntries es → Returns IsValid (require (find_key key es))
unfolding find_key
require-Returns key end h = tt
require-Returns key (entry k v es) h = elim (Bool-cases (bytes_eq key k)) [
  | inl here ↦ rw here h.1
  | inr other ↦ rw other (require-Returns key es h.3)
]

extract_pieces-Returns :
    (blob : Buffer) → Returns (All λ hash. length hash ≡ 20) (extract_pieces blob)
unfolding extract_pieces
extract_pieces-Returns blob = elim (Bool-cases (length blob % 20 == 0)) [
  | inl whole ↦
      let none_left = ==→eq (length blob % 20) 0 whole in
      rw whole (chunks_lem (length blob / 20) blob (omega arith)).0
  | inr ragged ↦ rw ragged tt
]

-- A string, and a number, under a key.
string_at-Returns :
    (key : Buffer) (es : Entries)
    → ValidEntries es
    → Returns FitsMemory (bind (at key es) get_string)
string_at-Returns key es h =
    Returns-bind IsValid FitsMemory (at key es) get_string (at-Returns key es h) get_string-Returns

module _ (sha1 : Buffer → Buffer) where
  load_info-Returns :
      (announce : Buffer) (info : Bnode)
      → FitsMemory announce
      → IsValid info
      → Returns IsTyped (load_info sha1 announce info)
  unfolding load_info
  load_info-Returns announce info fits valid =
      Returns-bind ValidEntries IsTyped (get_dict info) _ (get_dict-Returns info valid) λ es h.
        Returns-bind FitsMemory IsTyped (bind (at key_name es) get_string) _
          (string_at-Returns key_name es h)
          λ name named.
            Returns-bind (λ z. fits_int64 z ≡ true) IsTyped (bind (at key_piece_length es) get_int)
              _
              (Returns-bind IsValid (λ z. fits_int64 z ≡ true) (at key_piece_length es) get_int
                (at-Returns key_piece_length es h) get_int-Returns)
              λ width wide.
                Returns-bind (λ z. fits_int64 z ≡ true) IsTyped
                  (bind (require (find_key key_length es)) get_int) _
                  (Returns-bind IsValid (λ z. fits_int64 z ≡ true)
                    (require (find_key key_length es)) get_int (require-Returns key_length es h)
                    get_int-Returns)
                  λ total long.
                    Returns-bind FitsMemory IsTyped (bind (at key_pieces es) get_string) _
                      (string_at-Returns key_pieces es h)
                      λ blob some_blob.
                        Returns-bind (All λ hash. length hash ≡ 20) IsTyped (extract_pieces blob) _
                          (extract_pieces-Returns blob)
                          λ hashes raw. record {
                            announce = fits;
                            name = named;
                            total = long;
                            width = wide;
                            hashes = raw;
                          }

  load_root-Returns : (root : Bnode) → IsValid root → Returns IsTyped (load_root sha1 root)
  unfolding load_root
  load_root-Returns root valid =
      Returns-bind ValidEntries IsTyped (get_dict root) _ (get_dict-Returns root valid) λ es h.
        Returns-bind FitsMemory IsTyped (bind (at key_announce es) get_string) _
          (string_at-Returns key_announce es h)
          λ announce fits.
            Returns-bind IsValid IsTyped (require (find_key key_info es)) _
              (require-Returns key_info es h)
              λ info valid_info. load_info-Returns announce info fits valid_info

  -- Loading a file, whatever bytes it holds, if they fit in memory, ends in an exception or in a torrent
  -- of well-typed fields: strings that fit in memory, lengths of 64 bits, and hashes of 20 bytes.
  pub load-Returns :
      (bytes : Buffer) → length bytes < 2 ^ 63 → Returns IsTyped (load sha1 (some bytes))
  unfolding load
  load-Returns bytes fits =
      Returns-bind IsValid IsTyped (decode bytes) (load_root sha1) (decode-Returns bytes fits)
        load_root-Returns
