-- ===== src/Download/Downloader/Tests.antt =====
-- The assembly of a piece of three bytes, and blocks of two pieces that alternate: instances of the theorems.
use node_link.Base.{
  ℕ, zero, suc, ◌*◌, ◌<◌, ◌≡◌, refl, if◌then◌else◌, pos, rem_int64, List, [], ◌∷◌, ◌++◌, replicate,
  bytes_eq, inl, inr, ok, undefined, Slice, Covered, arith,
}
use node_link.Parsing.Sha1.{calculate}
use node_link.Download.Downloader.{Downloader, new_downloader, piece_len, copy_block}
use node_link.Download.Downloader.Blocks.{copy_block_lem}
use node_link.Download.Downloader.Progress.{Block, receive_all}
use node_link.Download.Downloader.Interleaved.{receive_all_alternating}
use node_link.Download.Downloader.Assembly.{piece_assembled}
use node_link.Download.Downloader.Assembly.Filling.{blocks_of}
use node_link.Download.Tests.{abc, abc_hash, abc_torrent, torrent}

abbrev abc_client : Downloader
abc_client = new_downloader abc_torrent (replicate 20 1) []

abbrev abc_slices : List Slice
abc_slices = (1, b'b' ∷ b'c' ∷ []) ∷ (0, b'a' ∷ []) ∷ []

abc-Covered : (k : ℕ) → k < 3 → Covered abc_slices k
abc-Covered zero h = inr (inl (omega arith, omega arith))
abc-Covered (suc k) h = inl (omega arith, omega arith)

piece_assembled_example :
    (d' : Downloader) × (receive_all (blocks_of 0 abc_slices) abc_client ≡ ok tt d')
    × (d'.file_writer.q ≡ (
        if bytes_eq (calculate abc) abc_hash
        then abc_client.file_writer.q ++ record { b = abc; offset = pos (0 * 4) } ∷ []
        else abc_client.file_writer.q))
unfolding new_downloader piece_len rem_int64
piece_assembled_example =
    piece_assembled abc_client 0 4 abc abc_hash abc_slices (omega arith) (λ e. absurd (omega arith))
      refl (omega arith) (omega arith) refl refl (omega arith)
      (((omega arith, refl), omega arith), (((omega arith, refl), omega arith), tt)) refl
      abc-Covered

-- The offset -1: the second byte of the block would stand at the front of the buffer.
copy_block_lem_example :
    copy_block 0xffff_ffff (1 ∷ 2 ∷ []) (record abc_client { piece_buffer = replicate 3 0 })
    ≡ undefined
copy_block_lem_example =
    copy_block_lem (record abc_client { piece_buffer = replicate 3 0 }) 0xffff_ffff (1 ∷ 2 ∷ [])
      (omega arith) (omega arith) (omega arith)

abbrev two_piece_client : Downloader
two_piece_client = new_downloader torrent (replicate 20 1) []

-- Two connections, each of which fetches a piece byte by byte.
abbrev alternating : List Block
alternating =
    record { piece_index = 0; offset = 0; bytes = b'a' ∷ [] }
    ∷ record { piece_index = 1; offset = 0; bytes = b'e' ∷ [] }
    ∷ record { piece_index = 0; offset = 1; bytes = b'b' ∷ [] }
    ∷ record { piece_index = 1; offset = 1; bytes = b'f' ∷ [] }
    ∷ []

receive_all_alternating_example :
    (e : Downloader) × (receive_all alternating two_piece_client ≡ ok tt e)
    × (e.file_writer ≡ two_piece_client.file_writer)
unfolding new_downloader piece_len rem_int64
receive_all_alternating_example = receive_all_alternating alternating two_piece_client (
  λ e. absurd (omega arith),
  (4, refl, omega arith, omega arith, omega arith),
  (
    λ e. absurd (omega arith),
    (2, refl, omega arith, omega arith, omega arith),
    (
      λ e. absurd (omega arith),
      (4, refl, omega arith, omega arith, omega arith),
      (λ e. absurd (omega arith), (2, refl, omega arith, omega arith, omega arith), tt),
    ),
  ),
)
