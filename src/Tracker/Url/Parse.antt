-- ===== src/Tracker/Url/Parse.antt =====
-- An address that is put together from its parts parses to them.
use node_link.Base.{
  All-append, ℕ, ◌^◌, ◌<◌, ◌≡◌, refl, ap, ◌≢◌, false, [], ◌∷◌, ◌++◌, append-nil, All, Option, none,
  some, ok, ◌==◌, arith,
}
use node_link.Parsing.Buffer.{Buffer}
use node_link.Parsing.Text.{split_at, strip_prefix, split_text, to_string}
use node_link.Parsing.Text.Decimal.{All-ne, to_string-IsDigit, stoi-to_string, split_at-append}
use node_link.Tracker.Url.{protocol_end, default_port, split_path, split_port, parse}

split_at-none : (c : ℕ) (s : Buffer) → All (λ b. b ≢ c) s → split_at c s ≡ none
unfolding split_at
split_at-none c [] h = refl
split_at-none c (b ∷ s) h =
    let other : (b == c) ≡ false = ground (arith, h.0) in rw (other, split_at-none c s h.1)

split_text-protocol :
    (protocol s : Buffer)
    → All (λ b. b ≢ b':') protocol
    → split_text protocol_end (protocol ++ (protocol_end ++ s)) ≡ some (protocol, s)
unfolding split_text strip_prefix
split_text-protocol [] s h = refl
split_text-protocol (b ∷ p) s h =
    let other : strip_prefix protocol_end (b ∷ (p ++ (protocol_end ++ s))) ≡ none =
      ground (arith, h.0) in
    rw (other, split_text-protocol p s h.1, split_text)

-- The text of a port and of a path, each of which may be left out.
abbrev pub port_text : Option ℕ → Buffer
port_text none = []
port_text (some n) = b':' ∷ to_string n

abbrev pub port_or_default : Buffer → Option ℕ → ℕ
port_or_default protocol none = default_port protocol
port_or_default protocol (some n) = n

abbrev pub IsPort : Option ℕ → Type 0
IsPort none = Unit {0}
IsPort (some n) = n < 2 ^ 31

abbrev pub path_text : Option Buffer → Buffer
path_text none = []
path_text (some tail) = b'/' ∷ tail

abbrev pub path_or_root : Option Buffer → Buffer
path_or_root none = b'/' ∷ []
path_or_root (some tail) = b'/' ∷ tail

split_path-path_text :
    (s : Buffer) (path : Option Buffer)
    → All (λ b. b ≢ b'/') s
    → split_path (s ++ path_text path) ≡ (s, path_or_root path)
unfolding split_path
split_path-path_text s none h =
    rw (append-nil s, split_at-none b'/' s h, split_path) (ap (λ t. (t, b'/' ∷ [])) (append-nil s))
split_path-path_text s (some tail) h = rw (split_at-append b'/' s tail h, split_path)

split_port-port_text :
    (protocol host : Buffer) (port : Option ℕ)
    → All (λ b. b ≢ b':') host
    → IsPort port
    → split_port protocol (host ++ port_text port) ≡ ok (host, port_or_default protocol port)
unfolding split_port
split_port-port_text protocol host none h p =
    rw (append-nil host, split_at-none b':' host h, split_port)
      (ap (λ t. ok (t, default_port protocol)) (append-nil host))
split_port-port_text protocol host (some n) h p =
    rw (split_at-append b':' host (to_string n) h, stoi-to_string n p, split_port) (ground arith)

port_text-ne_slash : (port : Option ℕ) → All (λ b. b ≢ b'/') (port_text port)
port_text-ne_slash none = tt
port_text-ne_slash (some n) =
    (omega arith, All-ne b'/' (to_string n) (λ b h. omega arith) (to_string-IsDigit n))

-- A protocol with no colon, a host with no colon and no slash, a port below 2 ^ 31 or none, and a path
-- or none, put together as `protocol://host:port/path`, parse to these parts: a missing path is the
-- root, and a missing port is 80 for http and udp and 6969 for any other protocol.
pub parse-text :
    (protocol host : Buffer) (port : Option ℕ) (path : Option Buffer)
    → All (λ b. b ≢ b':') protocol
    → All (λ b. b ≢ b':') host
    → All (λ b. b ≢ b'/') host
    → IsPort port
    → parse (protocol ++ (protocol_end ++ ((host ++ port_text port) ++ path_text path)))
      ≡ ok (record {
        protocol = protocol;
        host = host;
        port = port_or_default protocol port;
        path = path_or_root path;
      })
unfolding parse
parse-text protocol host port path no_colon host_colon host_slash fits = rw (
  split_text-protocol protocol ((host ++ port_text port) ++ path_text path) no_colon,
  split_path-path_text (host ++ port_text port) path
      (All-append _ host (port_text port) host_slash (port_text-ne_slash port)),
  split_port-port_text protocol host port host_colon fits,
  parse,
)
