-- ===== src/Tracker/Url.antt =====
-- include/tracker/Url.h and source/tracker/Url.cpp: a tracker's address, parsed.
pub mod Parse
use node_link.Base.{
  ℕ, [], ◌∷◌, Option, none, some, Outcome, ok, throw, runtime_error, bind, u32_of_ℤ, bytes_eq,
  if◌then◌else◌,
}
use node_link.Parsing.Buffer.{Buffer}
use node_link.Parsing.Text.{split_at, split_text, stoi}

pub record Url : Type 0 where
  pub protocol : Buffer
  pub host : Buffer
  pub port : ℕ
  pub path : Buffer

abbrev pub protocol_end : Buffer
protocol_end = b':' ∷ b'/' ∷ b'/' ∷ []

abbrev pub http : Buffer
http = b'h' ∷ b't' ∷ b't' ∷ b'p' ∷ []

abbrev pub udp : Buffer
udp = b'u' ∷ b'd' ∷ b'p' ∷ []

-- Default ports
unfoldable pub default_port : Buffer → ℕ
default_port protocol =
    if bytes_eq protocol http then 80 else if bytes_eq protocol udp then 80 else 6969

-- 2. Extract Path: what stands before it, and the path.
unfoldable pub split_path : Buffer → Buffer × Buffer
split_path s = elim (split_at b'/' s) [
  | none ↦ (s, b'/' ∷ [])
  | some (front, back) ↦ (front, b'/' ∷ back)
]

-- 3. Extract Port: the host and the port.
unfoldable pub split_port : Buffer → Buffer → Outcome (Buffer × ℕ)
split_port protocol s = elim (split_at b':' s) [
  | none ↦ ok (s, default_port protocol)
  | some (host, digits) ↦ bind (stoi digits) λ port. ok (host, u32_of_ℤ port)
]

-- `Url::Parse`
unfoldable pub parse : Buffer → Outcome Url
parse url_str = elim (split_text protocol_end url_str) [
  | none ↦ throw runtime_error
  | some (protocol, s) ↦
      let (authority, path) = split_path s in
      bind (split_port protocol authority)
        λ (host, port). ok (record { protocol = protocol; host = host; port = port; path = path })
]
