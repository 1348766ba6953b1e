-- ===== src/Download/Connection/Messages/Tests.antt =====
-- A connection that fetches a piece of three bytes, an instance of the theorem about the dialogue.
use node_link.Base.{
  ℕ, refl, Bool, true, false, some, List, [], ◌∷◌, replicate, rem_int64, then_run, arith,
}
use node_link.Download.Downloader.{new_downloader, piece_len}
use node_link.Download.Connection.State.{downloading, Env}
use node_link.Download.Connection.Requests.{request_next_block}
use node_link.Download.Connection.Requests.Tiling.{Tiles, IsFetching}
use node_link.Download.Connection.Messages.Answers.{on_pieces, Fetched}
use node_link.Download.Connection.Messages.Fetching.{fetch_piece}
use node_link.Download.Tests.{abc, abc_hash, abc_torrent}

abbrev all_taken : ℕ → Bool
all_taken k = true

abbrev fetcher : Env
fetcher = record {
  link = record {
    peer = record { ip = []; port = 6881; id = [] };
    socket = some 7;
    state = downloading;
    choked = false;
    handshake_done = true;
    current_piece = 0;
    block_offset = 0;
    peer_pieces = true ∷ [];
  };
  downloader = new_downloader abc_torrent (replicate 20 1) [];
  sent = [];
}

fetcher-IsFetching : IsFetching 3 7 fetcher
unfolding piece_len rem_int64 new_downloader
fetcher-IsFetching = record {
  open_socket = refl;
  unchoked = refl;
  assigned = λ e. absurd (omega arith);
  len = refl;
  inside = omega arith;
  bound = omega arith;
}

fetch_piece_example :
    (ts : List (ℕ × ℕ)) × Tiles 3 0 ts
    × Fetched all_taken 0 4 abc abc_hash fetcher.downloader.file_writer fetcher
        (then_run (request_next_block all_taken fetcher) λ u. on_pieces all_taken 0 abc ts)
        ts
unfolding new_downloader
fetch_piece_example =
    fetch_piece all_taken (λ k. refl) fetcher 4 7 abc abc_hash fetcher-IsFetching refl
      (λ e. absurd (omega arith)) (omega arith) refl refl (omega arith)
