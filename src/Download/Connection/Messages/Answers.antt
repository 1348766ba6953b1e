-- ===== src/Download/Connection/Messages/Answers.antt =====
-- The answers of a peer to the requests for a piece: each PIECE message brings a block to the downloader
-- and the request for the next one.
use node_link.Base.{
  ℕ, ◌+◌, ◌*◌, ◌^◌, ◌≤◌, ◌<◌, ◌≡◌, refl, ap, sym, Bool, if◌then◌else◌, pos, minus_one, List, [],
  ◌∷◌, ◌++◌, length, length-take, length-drop, take, drop, bytes_eq, M, Result, ok, throw,
  undefined, out_of_fuel, then_run, Slice, IsSlice, arith,
}
use node_link.Parsing.Buffer.{Buffer, be32_bytes, read_be32, write_be32}
use node_link.Parsing.Buffer.RoundTrip.{read_be32-write_be32}
use node_link.Parsing.Sha1.{calculate}
use node_link.Download.Worker.{Job, Writer}
use node_link.Download.Downloader.{Downloader, on_block_received}
use node_link.Download.Connection.State.{Env}
use node_link.Download.Connection.Requests.{request_next_block}
use node_link.Download.Connection.Requests.Tiling.{requests}
use node_link.Download.Connection.Messages.{on_piece}

-- The payload with which a peer answers a request.
abbrev pub payload : ℕ → Buffer → ℕ × ℕ → Buffer
payload i p (offset, len) = be32_bytes i ++ (be32_bytes offset ++ take len (drop offset p))

-- The answers to the requests of these blocks arrive, one after the other.
unfoldable pub on_pieces : (ℕ → Bool) → ℕ → Buffer → List (ℕ × ℕ) → M Env (Unit {0})
on_pieces accepts i p [] e = ok tt e
on_pieces accepts i p (t ∷ ts) e =
    then_run (on_piece accepts (payload i p t) e) λ _ e'. on_pieces accepts i p ts e'

pub payload-index :
    (i : ℕ) (p : Buffer) (t : ℕ × ℕ) → i < 2 ^ 32 → read_be32 (payload i p t) 0 ≡ ok i
unfolding write_be32
payload-index i p (offset, len) low =
    read_be32-write_be32 [] (be32_bytes offset ++ take len (drop offset p)) i low (omega arith)

pub payload-offset :
    (i : ℕ) (p : Buffer) (t : ℕ × ℕ) → t.0 < 2 ^ 32 → read_be32 (payload i p t) 4 ≡ ok t.0
unfolding write_be32
payload-offset i p (offset, len) low =
    read_be32-write_be32 (be32_bytes i) (take len (drop offset p)) offset low (omega arith)

-- The block is handed to the downloader, and the next one requested.
pub on_piece_lem :
    (accepts : ℕ → Bool) (i : ℕ) (p : Buffer) (t : ℕ × ℕ) (e : Env) (d : Downloader)
    → i < 2 ^ 32
    → t.0 < 2 ^ 32
    → on_block_received i t.0 (take t.1 (drop t.0 p)) e.downloader ≡ ok tt d
    → on_piece accepts (payload i p t) e ≡ request_next_block accepts (record e { downloader = d })
unfolding on_piece
on_piece_lem accepts i p t e d low offset received =
    rw (payload-index i p t low, payload-offset i p t offset, received) refl

pub then_run-ok : {S : Type 0} (r : Result S (Unit {0})) → then_run r (λ u s. ok u s) ≡ r
then_run-ok (ok u s) = refl
then_run-ok (throw x s) = refl
then_run-ok undefined = refl
then_run-ok out_of_fuel = refl

-- The block of a request, as a part of the piece.
abbrev pub block_of : Buffer → ℕ → ℕ → Slice
block_of p offset len = (offset, take len (drop offset p))

pub block_of-IsSlice :
    (p : Buffer) (offset len : ℕ)
    → offset + len ≤ length p
    → (length (take len (drop offset p)) ≡ len) × IsSlice p (block_of p offset len)
block_of-IsSlice p offset len fits =
    let size : length (take len (drop offset p)) ≡ len =
      omega (arith, length-take len (drop offset p), length-drop offset p) in
    (size, (omega arith, ap (λ n. take n (drop offset p)) (sym size)))

-- The expected hash decides whether the piece is behind what the writer had.
abbrev pub queue_with : ℕ → ℕ → Buffer → Buffer → Writer → List Job
queue_with i m p hash w =
    if bytes_eq (calculate p) hash then w.q ++ record { b = p; offset = pos (i * m) } ∷ [] else w.q

-- The end of the dialogue: the requests for the blocks were sent, the piece was checked, and the
-- connection asks for its next piece.
abbrev pub Fetched :
    (ℕ → Bool)
    → ℕ
    → ℕ
    → Buffer
    → Buffer
    → Writer
    → Env
    → Result Env (Unit {0})
    → List (ℕ × ℕ)
    → Type 0
Fetched accepts i m p hash w e r ts =
    (e' : Env) × (r ≡ request_next_block accepts e')
    × (e'.sent ≡ e.sent ++ requests i ts)
    × (e'.link.current_piece ≡ minus_one)
    × (e'.downloader.file_writer.q ≡ queue_with i m p hash w)
