-- ===== src/Parsing.antt =====
-- include/parsing and source/parsing: byte buffers, bencode, SHA-1 and the torrent file.
pub mod Buffer
pub mod Text
pub mod Bnode
pub mod Sha1
pub mod TorrentFile
mod Tests
