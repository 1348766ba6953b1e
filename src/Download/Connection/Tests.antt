-- ===== src/Download/Connection/Tests.antt =====
-- Instances of the theorems on a connection.
use node_link.Base.{
  ℕ, ◌^◌, ◌<◌, ◌≡◌, ◌&&◌, ◌||◌, true, pos, [], ◌∷◌, length, replicate, ok, ltb, arith,
}
use node_link.Download.Downloader.{new_downloader}
use node_link.Download.Connection.State.{Link, Env, Session, new_session, has_piece}
use node_link.Download.Connection.Messages.{on_bitfield, process_buffer}
use node_link.Download.Connection.Ends.{Ends}
use node_link.Download.Connection.Ends.Rounds.{process_buffer-Ends}
use node_link.Download.Connection.Messages.Bitfield.{bit_at, on_bitfield_lem}

abbrev fresh : Env
fresh =
    (new_session (record { ip = []; port = 1; id = [] })
      (new_downloader
        (record {
          announce = [];
          name = [];
          length = pos 6;
          piece_length = pos 4;
          piece_hashes = replicate 20 7 ∷ replicate 20 9 ∷ [];
          info_hash = replicate 20 3;
        })
        (replicate 20 1) [])).env

on_bitfield_lem_example :
    (l : Link) × (on_bitfield (0x40 ∷ []) fresh ≡ ok tt (record fresh { link = l }))
    × (l ≡ record fresh.link { peer_pieces = l.peer_pieces })
    × ((k : ℕ)
        → k < 2 ^ 31
        → has_piece l k
          ≡ ltb k (length fresh.downloader.torrent.piece_hashes)
            && (has_piece fresh.link k || bit_at (0x40 ∷ []) k))
on_bitfield_lem_example = on_bitfield_lem (0x40 ∷ []) fresh

-- Two keep-alives and the beginning of a third one.
abbrev kept_alive : Session
kept_alive = record { env = fresh; recv_buffer = replicate 10 0 }

process_buffer-Ends_example : Ends (process_buffer (λ n. true) kept_alive)
unfolding new_downloader
process_buffer-Ends_example = process_buffer-Ends (λ n. true) kept_alive (omega arith)
