-- ===== src/Client/Tests.antt =====
-- A run of the whole program, and instances of its theorems.
use node_link.Base.{
  ◌≡◌, refl, true, false, pos, List, [], ◌∷◌, map, length, replicate, get_elem?, All, none, some,
  ok, arith,
}
use node_link.Parsing.Buffer.{Buffer}
use node_link.Parsing.Text.{ascii}
use node_link.Parsing.Bnode.{encode}
use node_link.Parsing.TorrentFile.{TorrentFile, load}
use node_link.Parsing.TorrentFile.Load.{concat, info_node, torrent_node}
use node_link.Tracker.Peer.{Peer}
use node_link.Tracker.Compact.{peer_at}
use node_link.Tracker.Transport.Exchange.{IsServing}
use node_link.Tracker.Tests.{
  addresses, answer, answer_entries, answer_short, answer_splits, answer_peers,
}
use node_link.Download.Downloader.{new_downloader}
use node_link.Download.Connection.Events.{connect}
use node_link.Download.Farm.{
  interrupted, new_farm, run_until, add_connection, add_connections, start_download,
}
use node_link.Client.{World, exited, my_id, ask_tracker, status_of, exit_on_error, client}
use node_link.Client.Exit.{HasNothingToDo, client-exited}
use node_link.Client.Started.{Lists, client-started}

abbrev torrent_path : Buffer
torrent_path = ascii "f.torrent"

abbrev torrent_bytes : Buffer
torrent_bytes =
    encode
      (torrent_node (ascii "http://host") (info_node (ascii "f") (pos 6) (pos 4) (replicate 40 7)))

-- The tracker answers; the one peer that it lists refuses the connection.
abbrev world : World
world = record {
  files = λ path. some torrent_bytes;
  sha1 = λ b. replicate 20 5;
  kernel = record {
    resolves = λ cs. true;
    socket_answer = λ cs. 5;
    connects = λ cs. true;
    takes = λ cs. true;
    recv_answer = λ cs. some answer;
  };
  transaction_id = 9;
  key = 5;
  epfd = 3;
  opens = λ n. (none, false);
  accepts = λ i n. true;
  waits = interrupted ∷ [];
}

world-IsServing : IsServing world.kernel 5 answer
world-IsServing = record {
  resolves = λ cs. refl;
  gives = λ cs. refl;
  valid = refl;
  connects = λ cs. refl;
  takes = λ cs. refl;
  delivers = λ cs. refl;
}

answer-Lists : Lists answer addresses
answer-Lists = record {
  header = ascii "HTTP/1.1 200 OK";
  es = answer_entries;
  rest = [];
  short = answer_short;
  splits = answer_splits;
  valid = (omega arith, omega arith, tt, tt);
  listed = answer_peers;
  few = omega arith;
  ports = (omega arith, tt);
}

abbrev torrent_with : List Buffer → TorrentFile
torrent_with hashes = record {
  announce = ascii "http://host";
  name = ascii "f";
  length = pos 6;
  piece_length = pos 4;
  piece_hashes = hashes;
  info_hash = replicate 20 5;
}

client-started_example :
    (hashes : List Buffer) × All (λ hash. length hash ≡ 20) hashes
    × (concat hashes ≡ replicate 40 7)
    × (client world (ascii "client" ∷ torrent_path ∷ [])
        ≡ exit_on_error (
            status_of (
              start_download world.epfd world.accepts world.opens world.waits
                ((new_downloader (torrent_with hashes) my_id (map peer_at addresses))))))
client-started_example =
    client-started world (ascii "client") torrent_path (ascii "host") (ascii "f") (replicate 40 7)
      answer [] none none (pos 6) (pos 4) 5 addresses (omega arith) (omega arith) (omega arith) refl
      refl refl refl (omega arith, (omega arith, (omega arith, (omega arith, tt))))
      (omega arith, (omega arith, (omega arith, (omega arith, tt)))) tt world-IsServing answer-Lists
      (omega arith)

-- No connection was opened: the program ends without a download, and with the exit code 0.
nothing_fetched : client world (ascii "client" ∷ torrent_path ∷ []) ≡ ok (exited 0)
unfolding start_download new_farm run_until add_connections add_connection connect new_downloader
nothing_fetched = client-started_example.3

client-exited_example :
    (path : Buffer) × (t : TorrentFile) × (peers : List Peer) × (get_elem?
        (ascii "client" ∷ torrent_path ∷ [])
        1
      ≡ some path)
    × (load world.sha1 (world.files path) ≡ ok t)
    × (ask_tracker world t ≡ ok peers)
    × HasNothingToDo world t peers
client-exited_example =
    client-exited world (ascii "client" ∷ torrent_path ∷ []) (tt, tt) nothing_fetched
