-- ===== src/Download/Farm/Endless.antt =====
-- The download as a whole, from `Start` on: it does not end, and it writes nothing.
use node_link.Base.{
  ℕ, ◌<◌, ◌≡◌, refl, sym, subst, ap, ◌∙◌, Bool, true, false, pos, ◌<ℤ◌, List, [], ◌∷◌, take, length,
  All, Option, Result, ok, throw, undefined, out_of_fuel, then_run, Keeps, arith,
}
use node_link.Parsing.Buffer.{Buffer}
use node_link.Parsing.TorrentFile.{TorrentFile, load}
use node_link.Parsing.TorrentFile.Load.{HasRawHashes, load-HasRawHashes}
use node_link.Tracker.Peer.{Peer}
use node_link.Download.Downloader.{
  Downloader, new_downloader, get_next_piece_to_request, is_complete,
}
use node_link.Download.Downloader.Progress.{
  SameCount, SameWriter, on_block_received-SameCount, on_block_received-SameWriter,
}
use node_link.Download.Farm.{
  Farm, Wait, events, interrupted, failed, handle_events, run_until, run, run_always, started,
  start,
}
use node_link.Download.Farm.Keeping.{handle_events-Keeps, run-Keeps, add_connections-downloader}

next-SameCount :
    (d₀ d : Downloader) → SameCount d₀ d → Keeps (SameCount d₀) (get_next_piece_to_request d)
unfolding get_next_piece_to_request
next-SameCount d₀ d h = h

next-SameWriter :
    (d₀ d : Downloader) → SameWriter d₀ d → Keeps (SameWriter d₀) (get_next_piece_to_request d)
unfolding get_next_piece_to_request
next-SameWriter d₀ d h = h

-- `epoll_wait` does not fail.
abbrev pub IsUp : Wait → Type 0
IsUp failed = ⊥
IsUp _ = Unit {0}

pub start-downloader :
    (epfd : ℕ) (opens : ℕ → Option ℕ × Bool) (d : Downloader)
    → (start epfd opens d).downloader ≡ started d
unfolding start
start-downloader epfd opens d =
    add_connections-downloader opens 0 (take 5 d.peers)
      (record { epfd = epfd; downloader = started d; connections = [] })

module _ (accepts : ℕ → ℕ → Bool) (d₀ : Downloader) (n fd : ℕ) where
  abbrev IsLive : Farm → Type 0
  IsLive f = SameCount d₀ f.downloader × (length f.connections ≡ n) × (f.epfd ≡ fd)

  not_complete :
      (d : Downloader)
      → pos 0 <ℤ d₀.torrent.length
      → d₀.downloaded_bytes ≡ pos 0
      → SameCount d₀ d
      → is_complete d ≡ false
  unfolding is_complete
  not_complete d positive zero_bytes h = rw (h.0, h.1, zero_bytes) (ground arith)

  continues :
      (r : Result Farm (Unit {0})) (k : Unit {0} → Farm → Result Farm Bool) (g : Farm) (left : Bool)
      → Keeps IsLive r
      → then_run r k ≡ ok left g
      → ((f : Farm) → IsLive f → k tt f ≡ ok left g → left ≡ false)
      → left ≡ false
  continues (ok u f) k g left h e rest = rest f h e
  continues (throw x f) k g left h e rest = absurd (ground arith)
  continues undefined k g left h e rest = absurd (ground arith)
  continues out_of_fuel k g left h e rest = absurd (ground arith)

  -- A loop whose condition is never met for the downloader's torrent and count goes on.
  loops_on :
      (stop : Downloader → Bool)
      → ((d : Downloader) → SameCount d₀ d → stop d ≡ false)
      → (waits : List Wait) (f g : Farm) (left : Bool) → 0 < n
      → All IsUp waits
      → IsLive f
      → run_until accepts stop waits f ≡ ok left g
      → left ≡ false
  unfolding run_until
  loops_on stop never [] f g left many up h e = ground arith
  loops_on stop never (interrupted ∷ waits) f g left many up h e =
      let going = never f.downloader h.0 in
      let step : run_until accepts stop (interrupted ∷ waits) f ≡ run_until accepts stop waits f =
        ground (arith, going) in
      loops_on stop never waits f g left many up.1 h (sym step ∙ e)
  loops_on stop never (failed ∷ waits) f g left many up h e = absurd up.0
  loops_on stop never (events evs ∷ waits) f g left many up h e =
      let going = never f.downloader h.0 in
      let step : run_until accepts stop (events evs ∷ waits) f
          ≡ then_run (handle_events accepts evs f) (λ u f'. run_until accepts stop waits f') =
        ground (arith, going) in
      continues (handle_events accepts evs f) (λ u f'. run_until accepts stop waits f') g left
        (handle_events-Keeps (SameCount d₀) (on_block_received-SameCount d₀) (next-SameCount d₀) n
          fd accepts evs f h)
        (sym step ∙ e) (λ f' k s. loops_on stop never waits f' g left many up.1 k s)

-- `Run()` is left only by a farm without connections or by a failure of `epoll_wait`.
pub run_always_endless :
    (accepts : ℕ → ℕ → Bool) (waits : List Wait) (f g : Farm)
    → 0 < length f.connections
    → All IsUp waits
    → ¬ (run_always accepts waits f ≡ ok true g)
run_always_endless accepts waits f g many up e =
    let left =
      loops_on accepts f.downloader (length f.connections) f.epfd (λ d. false) (λ d h. refl) waits f
        g true many up ((refl, refl), refl, refl) e in
    absurd (ground arith)

-- A download with bytes to fetch and at least one connection never leaves its event loop, whatever the
-- peers send, as long as `epoll_wait` does not fail: it is never complete.
pub run_endless :
    (epfd : ℕ) (accepts : ℕ → ℕ → Bool) (opens : ℕ → Option ℕ × Bool) (t : TorrentFile)
    (id : Buffer) (peers : List Peer) (waits : List Wait) (f : Farm)
    → pos 0 <ℤ t.length
    → 0 < length (start epfd opens (new_downloader t id peers)).connections
    → All IsUp waits
    → ¬ (run accepts waits (start epfd opens (new_downloader t id peers)) ≡ ok true f)
unfolding new_downloader
run_endless epfd accepts opens t id peers waits f positive many up e =
    let d = new_downloader t id peers in
    let same = start-downloader epfd opens d in
    let left =
      loops_on accepts (started d) (length (start epfd opens d).connections)
        (start epfd opens d).epfd is_complete
        (λ d' h.
          not_complete accepts (started d) (length (start epfd opens d).connections)
            (start epfd opens d).epfd d' positive refl h)
        waits (start epfd opens d) f true many up
        ((ap (λ s. s.torrent) same, ap (λ s. s.downloaded_bytes) same), refl, refl) e in
    absurd (ground arith)

-- For every torrent that `Load` returns, whatever the peers send in whatever order, the download hands
-- nothing to the writer: its queue and its file stay empty.
pub run_never_written :
    (sha1 : Buffer → Buffer) (file : Option Buffer) (epfd : ℕ) (accepts : ℕ → ℕ → Bool)
    (opens : ℕ → Option ℕ × Bool) (t : TorrentFile) (id : Buffer) (peers : List Peer)
    (waits : List Wait) (f : Farm) (left : Bool)
    → load sha1 file ≡ ok t
    → run accepts waits (start epfd opens (new_downloader t id peers)) ≡ ok left f
    → (f.downloader.file_writer.q ≡ []) × (f.downloader.file_writer.out ≡ [])
unfolding new_downloader
run_never_written sha1 file epfd accepts opens t id peers waits f left loaded e =
    let d = new_downloader t id peers in
    let same = start-downloader epfd opens d in
    let raw : HasRawHashes t = load-HasRawHashes sha1 file t loaded in
    let n : ℕ = length (start epfd opens d).connections in
    let kept =
      run-Keeps (SameWriter (started d))
        (λ s i offset b h. on_block_received-SameWriter (started d) s i offset b raw h)
        (next-SameWriter (started d)) n (start epfd opens d).epfd accepts waits (start epfd opens d)
        (
          (
            (ap (λ s. s.torrent) same, ap (λ s. s.downloaded_bytes) same),
            ap (λ s. s.file_writer) same,
          ),
          refl,
          refl,
        ) in
    let unchanged =
      (subst
        (Keeps (λ g.
          SameWriter (started d) g.downloader
          × (length g.connections ≡ n)
          × (g.epfd ≡ (start epfd opens d).epfd)))
        e kept).0.1 in
    (ap (λ w. w.q) unchanged, ap (λ w. w.out) unchanged)
