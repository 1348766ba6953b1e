-- ===== src/Download/Downloader/Whole.antt =====
-- The whole download: Downloader::OnBlockReceived of source/download/downloader.cpp and the writer's thread
-- of source/download/Worker.cpp, from the first block to the file.
pub mod Pieces
mod Tests
use node_link.Base.{
  ℕ, zero, suc, ◌+◌, ◌-◌, ◌*◌, ◌/◌, ◌%◌, ◌^◌, ◌≤◌, ◌<◌, ◌≡◌, ◌≢◌, refl, sym, ap, subst, ◌∙◌, ◌⊎◌,
  inl, inr, true, false, pos, pos_part, minus_one, List, [], ◌∷◌, ◌++◌, map, append_assoc,
  append-nil, length, get_or, take, drop, All, get_elem?, get_elem?-some, Option, none, some, Bool,
  Bool-cases, ok, throw, undefined, out_of_fuel, Result, M, then_run, Slice, Holds, IsSlice,
  Covered, bytes_eq, bytes_eq_refl, if◌then◌else◌, arith,
}
use node_link.Parsing.Buffer.{Buffer}
use node_link.Parsing.Sha1.{calculate}
use node_link.Parsing.TorrentFile.{TorrentFile}
use node_link.Tracker.Peer.{Peer}
use node_link.Download.Worker.{Job, Writer, finished, new_writer}
use node_link.Download.Worker.Steps.{Step, Run}
use node_link.Download.Worker.File.{File, file_of, part_of, IsPart, leaving-agrees}
use node_link.Download.Downloader.{Downloader, new_downloader, on_block_received}
use node_link.Download.Downloader.Progress.{Block, caught, receive_all}
use node_link.Download.Downloader.Assembly.{piece_received}
use node_link.Download.Downloader.Assembly.Filling.{total, blocks_of}
use node_link.Download.Downloader.Whole.Pieces.{
  piece_of, Describes, piece-starts, piece_of-some, piece_of-narrow, piece_of-IsSlice,
  piece_len_lem, piece_at,
}
use native.Mathlib.Nat.{div-mul-le_self, lt-div-mul-add, div-lt_iff_lt-mul}

-- The pieces in the order in which they arrive, each with its blocks.
abbrev pub Order : Type 0
Order = List (ℕ × List Slice)

abbrev pub all_blocks : Order → List Block
all_blocks [] = []
all_blocks ((i, ss) ∷ order) = blocks_of i ss ++ all_blocks order

-- The blocks cut the piece up, without a gap, an overlap or an empty block.
abbrev pub IsCut : Buffer → List Slice → Type 0
IsCut p ss =
    All (λ s. IsSlice p s × (0 < length s.1)) ss
    × (total ss ≡ length p)
    × ((k : ℕ) → k < length p → Covered ss k)

-- Every piece is cut up by its blocks, and none comes directly after itself.
abbrev pub IsDelivery : TorrentFile → Buffer → ℕ → ℕ → Order → Type 0
IsDelivery t c m last [] = Unit
IsDelivery t c m last ((i, ss) ∷ order) =
    (i < length t.piece_hashes) × (i ≢ last) × IsCut (piece_of c m i) ss × IsDelivery t c m i order

abbrev pub Delivers : Order → ℕ → Type 0
Delivers [] i = ⊥
Delivers ((j, ss) ∷ order) i = (i ≡ j) ⊎ Delivers order i

abbrev pub job_of : Buffer → ℕ → ℕ → Job
job_of c m i = record { b = piece_of c m i; offset = pos (i * m) }

abbrev pub is_listed : Option Buffer → Buffer → Bool
is_listed none digest = false
is_listed (some hash) digest = bytes_eq digest hash

-- Whether the digest of a piece of the byte string is the hash that the torrent lists for the piece.
abbrev pub is_verified : TorrentFile → Buffer → ℕ → ℕ → Bool
is_verified t c m i = is_listed (get_elem? t.piece_hashes i) (calculate (piece_of c m i))

-- A job for each piece that arrives and that its hash verifies.
abbrev pub jobs_of : TorrentFile → Buffer → ℕ → Order → List Job
jobs_of t c m [] = []
jobs_of t c m ((i, ss) ∷ order) =
    let rest = jobs_of t c m order in if is_verified t c m i then job_of c m i ∷ rest else rest

-- The byte at `k` stands in a piece that arrives and that its hash verifies.
abbrev pub IsWritten : TorrentFile → Buffer → ℕ → Order → ℕ → Type 0
IsWritten t c m order k =
    (i : ℕ) × Delivers order i × (is_verified t c m i ≡ true) × Holds (i * m, piece_of c m i) k

-- The state that a call leaves.
abbrev pub left_of : Result Downloader (Unit {0}) → Downloader → Downloader
left_of (ok u d) e = d
left_of (throw x d) e = d
left_of undefined e = e
left_of out_of_fuel e = e

-- A new downloader when all blocks of the order have arrived.
abbrev pub downloaded : TorrentFile → Buffer → List Peer → Order → Downloader
downloaded t id peers order =
    let d = new_downloader t id peers in left_of (receive_all (all_blocks order) d) d

-- A call that goes on as `f` and then as `g`.
then_run-then :
    {S : Type 0} (r : Result S (Unit {0})) (f both g : M S (Unit {0}))
    → ((s : S) → both s ≡ then_run (f s) (λ u. g))
    → then_run r (λ u. both) ≡ then_run (then_run r λ u. f) (λ u. g)
then_run-then (ok a s) f both g h = h s
then_run-then (throw e s) f both g h = refl
then_run-then undefined f both g h = refl
then_run-then out_of_fuel f both g h = refl

receive_all-append :
    (bs cs : List Block) (d : Downloader)
    → receive_all (bs ++ cs) d ≡ then_run (receive_all bs d) (λ u. receive_all cs)
unfolding receive_all
receive_all-append [] cs d = refl
receive_all-append (b ∷ bs) cs d =
    then_run-then (caught (on_block_received b.piece_index b.offset b.bytes d)) (receive_all bs)
      (receive_all (bs ++ cs)) (receive_all cs) (receive_all-append bs cs)

module _ (t : TorrentFile) (c : Buffer) (m : ℕ) (h : Describes t c m) where
  -- A piece that arrives is queued if its hash verifies it.
  queued :
      (i : ℕ) (ss : List Slice) (order : Order) (hash : Buffer) (q q₁ q₂ : List Job)
      → get_elem? t.piece_hashes i ≡ some hash
      → q₁ ≡ (if bytes_eq (calculate (piece_of c m i)) hash then q ++ job_of c m i ∷ [] else q)
      → q₂ ≡ q₁ ++ jobs_of t c m order
      → q₂ ≡ q ++ jobs_of t c m ((i, ss) ∷ order)
  queued i ss order hash q q₁ q₂ listed first rest =
      let verdict = ap (λ o. is_listed o (calculate (piece_of c m i))) listed in
      let rests = jobs_of t c m order in
      elim (Bool-cases (bytes_eq (calculate (piece_of c m i)) hash)) [
        | inl same ↦
            let longer : jobs_of t c m ((i, ss) ∷ order) ≡ job_of c m i ∷ jobs_of t c m order =
              ap (λ b. if b then job_of c m i ∷ rests else rests) (verdict ∙ same) in
            rest
            ∙ ap (λ l. l ++ jobs_of t c m order) (first ∙ rw same refl)
            ∙ append_assoc q (job_of c m i ∷ []) (jobs_of t c m order)
            ∙ ap (◌++◌ q) (sym longer)
        | inr other ↦
            let alike : jobs_of t c m ((i, ss) ∷ order) ≡ jobs_of t c m order =
              ap (λ b. if b then job_of c m i ∷ rests else rests) (verdict ∙ other) in
            rest
            ∙ ap (λ l. l ++ jobs_of t c m order) (first ∙ rw other refl)
            ∙ ap (◌++◌ q) (sym alike)
      ]

  delivery_received :
      (order : Order) (d : Downloader)
      → d.torrent ≡ t
      → IsDelivery t c m d.current_piece_index order
      → (d' : Downloader) × (receive_all (all_blocks order) d ≡ ok tt d')
        × (d'.file_writer.q ≡ d.file_writer.q ++ jobs_of t c m order)
  unfolding receive_all
  delivery_received [] d same delivery = (d, refl, sym (append-nil d.file_writer.q))
  delivery_received ((i, ss) ∷ order) d same (known, new, (slices, sum, cover), rest) =
      let place = piece-starts t c m h i known in
      let (hash, listed) = get_elem?-some t.piece_hashes i known in
      let (e, run, kept, here, queue) =
        piece_received d i m (piece_of c m i) hash ss (omega (arith, h.few)) new
          (rw same (piece_len_lem t c m h i known)) (piece_of-some t c m h i known)
          (piece_of-narrow t c m h i known) (rw same listed) (rw same h.width)
          (omega (arith, h.small)) slices sum cover in
      let (d', more, all) =
        delivery_received order e (kept ∙ same)
          (subst (λ l. IsDelivery t c m l order) (sym here) rest) in
      (
        d',
        receive_all-append (blocks_of i ss) (all_blocks order) d
            ∙ ap (λ r. then_run r (λ u. receive_all (all_blocks order))) run
            ∙ more,
        queued i ss order hash d.file_writer.q e.file_writer.q d'.file_writer.q listed queue all,
      )

  jobs_of-IsPart :
      (last : ℕ) (order : Order)
      → IsDelivery t c m last order
      → All (IsPart c) (jobs_of t c m order)
  jobs_of-IsPart last [] delivery = tt
  jobs_of-IsPart last ((i, ss) ∷ order) (known, new, cut, rest) =
      let later = jobs_of-IsPart i order rest in
      elim (Bool-cases (is_verified t c m i)) [
        | inl same ↦ rw same ((refl, piece_of-IsSlice t c m h i known), later)
        | inr other ↦ rw other later
      ]

  jobs_of-Covered :
      (order : Order) (i k : ℕ)
      → Holds (i * m, piece_of c m i) k
      → is_verified t c m i ≡ true
      → Delivers order i
      → Covered (map part_of (jobs_of t c m order)) k
  jobs_of-Covered [] i k held verified there = absurd there
  jobs_of-Covered ((j, ss) ∷ order) i k held verified (inl e) =
      let this : is_verified t c m j ≡ true = subst (λ n. is_verified t c m n ≡ true) e verified in
      rw this (inl (subst (λ n. Holds (n * m, piece_of c m n) k) e held))
  jobs_of-Covered ((j, ss) ∷ order) i k held verified (inr there) =
      let later = jobs_of-Covered order i k held verified there in
      elim (Bool-cases (is_verified t c m j)) [
        | inl same ↦ rw same (inr later)
        | inr other ↦ rw other later
      ]

  -- The queue after the order.
  pub downloaded_lem :
      (id : Buffer) (peers : List Peer) (order : Order)
      → IsDelivery t c m minus_one order
      → (receive_all (all_blocks order) (new_downloader t id peers)
          ≡ ok tt (downloaded t id peers order))
        × ((downloaded t id peers order).file_writer.q ≡ jobs_of t c m order)
  unfolding new_downloader
  downloaded_lem id peers order delivery =
      let d : Downloader = new_downloader t id peers in
      let (d', run, queue) = delivery_received order d refl delivery in
      let same : downloaded t id peers order ≡ d' = ap (λ r. left_of r d) run in
      (run ∙ ap (ok tt) (sym same), ap (λ e. e.file_writer.q) same ∙ queue)

pub all_blocks-file_of :
    {w w' : Writer} {ks : List Job} (t : TorrentFile) (id : Buffer) (peers : List Peer) (c : Buffer)
    (m : ℕ) (order : Order)
    → Describes t c m
    → IsDelivery t c m minus_one order
    → Run new_writer (downloaded t id peers order).file_writer.q w
    → Step w ks w'
    → w.thread ≢ finished
    → w'.thread ≡ finished
    → let d = downloaded t id peers order in
      (receive_all (all_blocks order) (new_downloader t id peers) ≡ ok tt d)
      × (d.file_writer.q ≡ jobs_of t c m order)
      × (file : Buffer) × (file_of w'.out ≡ record { bytes = file; failed = false })
      × (length file ≤ length c)
      × ((k : ℕ) → IsWritten t c m order k → (k < length file) × (get_or file k 0 ≡ get_or c k 0))
all_blocks-file_of t id peers c m order h delivery r s before after =
    let (run, queue) = downloaded_lem t c m h id peers order delivery in
    let (file, written, short, agrees) =
      leaving-agrees c r s before after
        (subst (All (IsPart c)) (sym queue) (jobs_of-IsPart t c m h minus_one order delivery)) in
    (
      run,
      queue,
      file,
      written,
      short,
      λ k (i, there, verified, held). agrees k (
          subst (λ js. Covered (map part_of js) k) (sym queue)
            (jobs_of-Covered t c m h order i k held verified there)),
    )
