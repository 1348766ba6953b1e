-- ===== src/Download.antt =====
-- include/download and source/download: peer messages, connections and the assembly of pieces.
pub mod Message
pub mod Worker
pub mod Downloader
pub mod Connection
pub mod Farm
mod Tests
