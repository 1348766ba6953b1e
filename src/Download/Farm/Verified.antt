-- ===== src/Download/Farm/Verified.antt =====
-- Whatever the peers send, only verified pieces are handed to the writer.
use node_link.Base.{ℕ, ◌≡◌, refl, sym, subst, Bool, Option, List, length, All, ok, Keeps}
use node_link.Parsing.Buffer.{Buffer}
use node_link.Parsing.TorrentFile.{TorrentFile}
use node_link.Tracker.Peer.{Peer}
use node_link.Download.Downloader.{Downloader, new_downloader, get_next_piece_to_request}
use node_link.Download.Downloader.Integrity.{IsVerified, AllVerified, on_block_received-AllVerified}
use node_link.Download.Farm.{Farm, Wait, run, start}
use node_link.Download.Farm.Keeping.{run-Keeps}
use node_link.Download.Farm.Endless.{start-downloader}

next-AllVerified :
    (t : TorrentFile) (d : Downloader)
    → AllVerified t d
    → Keeps (AllVerified t) (get_next_piece_to_request d)
unfolding get_next_piece_to_request
next-AllVerified t d h = h

-- In a download, whatever the peers send in whatever order, every job that is handed to the writer is
-- a piece of the torrent: its bytes have the hash that the torrent lists for an index, and its offset is
-- that index times the piece length.
pub run-AllVerified :
    (epfd : ℕ) (accepts : ℕ → ℕ → Bool) (opens : ℕ → Option ℕ × Bool) (t : TorrentFile)
    (id : Buffer) (peers : List Peer) (waits : List Wait) (f : Farm) (left : Bool)
    → run accepts waits (start epfd opens (new_downloader t id peers)) ≡ ok left f
    → All (IsVerified t) f.downloader.file_writer.q
unfolding new_downloader
run-AllVerified epfd accepts opens t id peers waits f left e =
    let d = new_downloader t id peers in
    let same = start-downloader epfd opens d in
    let n : ℕ = length (start epfd opens d).connections in
    let kept =
      run-Keeps (AllVerified t) (on_block_received-AllVerified t) (next-AllVerified t) n
        (start epfd opens d).epfd accepts waits (start epfd opens d)
        (subst (AllVerified t) (sym same) (refl, tt), refl, refl) in
    (subst
      (Keeps (λ g.
        AllVerified t g.downloader
        × (length g.connections ≡ n)
        × (g.epfd ≡ (start epfd opens d).epfd)))
      e kept).0.1
