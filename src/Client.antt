-- ===== src/Client.antt =====
-- test/main.cpp: the program as a whole, from the torrent's file over the tracker to the download.
pub mod Started
pub mod Exit
mod Tests
use node_link.Base.{
  ℕ, Bool, true, false, List, [], ◌∷◌, Option, Outcome, Result, ok, throw, undefined, out_of_fuel,
  bind,
}
use node_link.Parsing.Buffer.{Buffer}
use node_link.Parsing.Text.{ascii}
use node_link.Parsing.TorrentFile.{TorrentFile, load}
use node_link.Tracker.Peer.{Peer}
use node_link.Tracker.Url.{Url}
use node_link.Tracker.Transport.{Kernel}
use node_link.Tracker.Transport.Exchange.{ask_over}
use node_link.Tracker.Udp.{Answer}
use node_link.Tracker.Calls.{call_tracker}
use node_link.Download.Downloader.{new_downloader}
use node_link.Download.Farm.{Farm, Wait, start_download}

-- What surrounds the program: the files and OpenSSL's SHA1, the kernel and the random numbers for the
-- tracker, and for the download the descriptor of epoll and what becomes of each connection, each send
-- and each wait.
pub record World : Type 0 where
  pub files : Buffer → Option Buffer
  pub sha1 : Buffer → Buffer
  pub kernel : Kernel
  pub transaction_id : ℕ
  pub key : ℕ
  pub epfd : ℕ
  pub opens : ℕ → Option ℕ × Bool
  pub accepts : ℕ → ℕ → Bool
  pub waits : List Wait

-- The program has left `main`, or still waits for its peers when the reports of the kernel end.
pub data Status : Type 0 where
  exited : ℕ → Status
  downloading : Farm → Status

-- 3. Generate Peer ID
abbrev pub my_id : Buffer
my_id = ascii "-CPP-CLIENT-0001-XYZ"

-- 4. Get Peers from Tracker, at the default port.
abbrev pub ask_tracker : World → TorrentFile → Outcome (List Peer)
ask_tracker w t = call_tracker w.kernel w.transaction_id w.key [] t my_id 6881

abbrev pub status_of : Result Farm Bool → Outcome Status
status_of (ok true f) = ok (exited 0)
status_of (ok false f) = ok (downloading f)
status_of (throw e f) = throw e
status_of undefined = undefined
status_of out_of_fuel = out_of_fuel

-- 5. Start Download, unless there are no peers.
unfoldable pub download : World → TorrentFile → List Peer → Outcome Status
download w t [] = ok (exited 1)
download w t (p ∷ peers) =
    status_of (start_download w.epfd w.accepts w.opens w.waits (new_downloader t my_id (p ∷ peers)))

-- `catch (const std::exception& e)`
abbrev pub exit_on_error : Outcome Status → Outcome Status
exit_on_error (throw e) = ok (exited 1)
exit_on_error r = r

-- `main`
unfoldable pub client : World → List Buffer → Outcome Status
client w (program ∷ path ∷ args) =
    exit_on_error (bind (load w.sha1 (w.files path)) λ t. bind (ask_tracker w t) (download w t))
client w args = ok (exited 1)
