-- ===== src/Download/Downloader/Blocks.antt =====
-- Which blocks the copy in OnBlockReceived of source/download/downloader.cpp takes, drops, or writes
-- outside of the piece buffer.
use node_link.Base.{
  overwrite, ℕ, ◌+◌, ◌%◌, ◌^◌, ◌<◌, ◌≡◌, if◌then◌else◌, length, ok, undefined, ltb, leb, arith,
}
use node_link.Parsing.Buffer.{Buffer}
use node_link.Download.Downloader.{Downloader, copy_block}

-- What becomes of a block, for a piece buffer and a block of less than 2^62 bytes. An `int` offset that
-- is not negative takes a block that fits and drops one that does not. A negative one, -n for the
-- pattern 2^32 - n, drops a block of fewer than n bytes, and one that would end behind the buffer; any
-- other block passes the check and is copied in front of the buffer, which is undefined behaviour.
pub copy_block_lem :
    (d : Downloader) (offset : ℕ) (block : Buffer)
    → offset < 2 ^ 32
    → length block < 2 ^ 62
    → length d.piece_buffer < 2 ^ 62
    → copy_block offset block d ≡ (
        if ltb offset (2 ^ 31)
        then (if leb (offset + length block) (length d.piece_buffer)
            then ok tt (record d {
              piece_buffer = overwrite d.piece_buffer offset block;
              piece_bytes_received = (d.piece_bytes_received + length block) % 2 ^ 32;
            })
            else ok tt d)
        else if ltb (offset + length block) (2 ^ 32)
        then ok tt d
        else if leb (offset + length block) (2 ^ 32 + length d.piece_buffer)
        then undefined
        else ok tt d)
unfolding copy_block
copy_block_lem d offset block word short small = ground arith
