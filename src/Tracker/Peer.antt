-- ===== src/Tracker/Peer.antt =====
-- include/tracker/Peer.h: the address of a peer.
use node_link.Base.{ℕ}
use node_link.Parsing.Buffer.{Buffer}

pub record Peer : Type 0 where
  pub ip : Buffer
  pub port : ℕ
  pub id : Buffer
