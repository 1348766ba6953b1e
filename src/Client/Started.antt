-- ===== src/Client/Started.antt =====
-- From the bytes of a torrent file and of a tracker's response to the start of the download.
use node_link.Base.{
  ℕ, ◌%◌, ◌^◌, ◌≤◌, ◌<◌, ◌≡◌, ◌≢◌, refl, ap, ◌∙◌, true, ℤ, fits_int64, List, [], ◌∷◌, ◌++◌, map,
  length, All, Option, some, ok, bind, arith,
}
use node_link.Parsing.Buffer.{Buffer}
use node_link.Parsing.Text.{split_text}
use node_link.Parsing.Bnode.{Entries, string, dict, encode}
use node_link.Parsing.Bnode.Valid.{IsValid, FitsMemory}
use node_link.Parsing.TorrentFile.{TorrentFile, find_key, load}
use node_link.Parsing.TorrentFile.Load.{concat, info_node, torrent_node, load-encode}
use node_link.Tracker.Peer.{Peer}
use node_link.Tracker.Url.{protocol_end, http}
use node_link.Tracker.Url.Parse.{port_text, IsPort, path_text}
use node_link.Tracker.Compact.{Address, address_bytes, peer_at}
use node_link.Tracker.Http.{crlf, key_peers}
use node_link.Tracker.Transport.Exchange.{IsServing, get_peers-over_tcp}
use node_link.Tracker.Udp.Calls.Answers.{is_reachable}
use node_link.Tracker.Calls.{connected, announced, call_tracker-get_peers}
use node_link.Download.Downloader.{new_downloader}
use node_link.Download.Farm.{start_download}
use node_link.Client.{World, my_id, ask_tracker, status_of, download, exit_on_error, client}

-- A response of the tracker that lists the addresses.
pub record Lists (res : Buffer) (xs : List Address) : Type 0 where
  pub header : Buffer
  pub es : Entries
  pub rest : Buffer
  pub short : length res ≤ 8192
  pub splits : split_text (crlf ++ crlf) res ≡ some (header, encode (dict es))
  pub valid : IsValid (dict es)
  pub listed : find_key key_peers es ≡ some (string (address_bytes xs ++ rest))
  pub few : length rest < 6
  pub ports : All (λ x. x.port < 2 ^ 16) xs

download-peers :
    (w : World) (t : TorrentFile) (peers : List Peer)
    → 0 < length peers
    → download w t peers
      ≡ status_of (start_download w.epfd w.accepts w.opens w.waits (new_downloader t my_id peers))
unfolding download
download-peers w t [] some_peers = absurd (omega arith)
download-peers w t (p ∷ peers) some_peers = refl

peers-nonempty : (xs : List Address) → 0 < length xs → 0 < length (map peer_at xs)
peers-nonempty [] h = absurd (omega arith)
peers-nonempty (x ∷ xs) h = omega arith

-- The program, given the path of a file that encodes a single-file torrent with an http announce address
-- put together from its parts, with strings that fit in memory, lengths of 64 bits and a blob of whole
-- hashes, and whose tracker answers over TCP with at most 8192 bytes that list at least one address,
-- downloads: it becomes the start of a new downloader, with the file's fields for a
-- torrent, the blob cut into its hashes, and the listed addresses for peers.
pub client-started :
    (w : World) (program path host name pieces res : Buffer) (args : List Buffer)
    (tracker_port : Option ℕ) (url_path : Option Buffer) (total piece_length : ℤ) (fd : ℕ)
    (xs : List Address)
    → let announce : Buffer =
        http ++ (protocol_end ++ ((host ++ port_text tracker_port) ++ path_text url_path)) in
      let info = info_node name total piece_length pieces in
      FitsMemory announce
      → FitsMemory name
      → FitsMemory pieces
      → fits_int64 total ≡ true
      → fits_int64 piece_length ≡ true
      → length pieces % 20 ≡ 0
      → w.files path ≡ some (encode (torrent_node announce info))
      → All (λ b. b ≢ b':') host
      → All (λ b. b ≢ b'/') host
      → IsPort tracker_port
      → IsServing w.kernel fd res
      → Lists res xs
      → 0 < length xs
      → (hashes : List Buffer) × All (λ hash. length hash ≡ 20) hashes
        × (concat hashes ≡ pieces)
        × (client w (program ∷ path ∷ args)
            ≡ exit_on_error (
                status_of (
                  start_download w.epfd w.accepts w.opens w.waits (
                    new_downloader
                      (record {
                        announce = announce;
                        name = name;
                        length = total;
                        piece_length = piece_length;
                        piece_hashes = hashes;
                        info_hash = w.sha1 (encode info);
                      })
                      my_id
                      (map peer_at xs)))))
unfolding client
client-started w program path host name pieces res args tracker_port url_path total piece_length fd
      xs ha hn hp hl hpl whole file colon slash fits serving lists some_addresses =
    let announce : Buffer =
      http ++ (protocol_end ++ ((host ++ port_text tracker_port) ++ path_text url_path)) in
    let (hashes, sizes, all, loaded) =
      load-encode w.sha1 announce name pieces total piece_length ha hn hp hl hpl whole in
    let t : TorrentFile = record {
      announce = announce;
      name = name;
      length = total;
      piece_length = piece_length;
      piece_hashes = hashes;
      info_hash = w.sha1 (encode (info_node name total piece_length pieces));
    } in
    let peers : ask_tracker w t ≡ ok (map peer_at xs) =
      call_tracker-get_peers w.kernel w.transaction_id w.key [] t my_id 6881
      ∙ (get_peers-over_tcp w.kernel fd [] (λ u. is_reachable w.kernel u [])
          (connected w.kernel w.transaction_id w.key [])
          (announced w.kernel w.transaction_id w.key []) w.transaction_id w.key t my_id 6881 host
          tracker_port url_path res lists.header lists.es xs lists.rest serving refl colon slash
          fits lists.short lists.splits lists.valid lists.listed lists.few lists.ports).0 in
    (
      hashes,
      sizes,
      all,
      ap (λ r. exit_on_error (bind r λ t. bind (ask_tracker w t) (download w t)))
            (ap (load w.sha1) file ∙ loaded)
          ∙ ap (λ r. exit_on_error (bind r (download w t))) peers
          ∙ ap exit_on_error
              (download-peers w t (map peer_at xs) (peers-nonempty xs some_addresses)),
    )
