-- ===== src/Tracker.antt =====
-- include/tracker and source/tracker: URLs, peers, the trackers and the transports.
pub mod Peer
pub mod Url
pub mod Compact
pub mod Transport
pub mod Udp
pub mod Http
pub mod Calls
pub mod Tests
