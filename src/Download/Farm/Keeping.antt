-- ===== src/Download/Farm/Keeping.antt =====
-- Farm.cpp: what the downloader's operations keep, the event loop keeps.
use node_link.Base.{
  ℕ, ◌+◌, ◌≡◌, ◌∙◌, refl, Bool, true, false, List, [], ◌∷◌, length, length-set, get_elem?, Option,
  none, some, M, Result, ok, throw, undefined, out_of_fuel, then_run, map_state, Keeps,
  Keeps-then_run, Option-cases, inl, inr, arith,
}
use node_link.Parsing.Buffer.{Buffer}
use node_link.Tracker.Peer.{Peer}
use node_link.Download.Downloader.{
  Downloader, get_next_piece_to_request, is_complete, on_block_received,
}
use node_link.Download.Connection.State.{Session, new_session}
use node_link.Download.Connection.Events.{on_ready_write, on_ready_read}
use node_link.Download.Connection.Keeping.{on_ready_write-Keeps, on_ready_read-Keeps}
use node_link.Download.Farm.{
  Farm, session_of, member_of, put_back, add_connection, Event, Wait, events, interrupted, failed,
  on_connection, on_writable, on_readable, handle_event, handle_events, run_until, run,
  add_connections,
}

-- Connecting to peers does not touch the downloader.
add_connection-downloader :
    (fd : Option ℕ) (registered : Bool) (s : Session) (f : Farm)
    → (add_connection fd registered s f).downloader ≡ f.downloader
unfolding add_connection
add_connection-downloader fd true s f = ground arith
add_connection-downloader fd false s f = ground arith

add_connection-epfd :
    (fd : Option ℕ) (registered : Bool) (s : Session) (f : Farm)
    → (add_connection fd registered s f).epfd ≡ f.epfd
unfolding add_connection
add_connection-epfd fd true s f = ground arith
add_connection-epfd fd false s f = ground arith

pub add_connections-epfd :
    (opens : ℕ → Option ℕ × Bool) (n : ℕ) (peers : List Peer) (f : Farm)
    → (add_connections opens n peers f).epfd ≡ f.epfd
unfolding add_connections
add_connections-epfd opens n [] f = refl
add_connections-epfd opens n (p ∷ peers) f =
    add_connections-epfd opens (n + 1) peers _
    ∙ add_connection-epfd (opens n).0 (opens n).1 (new_session p f.downloader) f

pub add_connections-downloader :
    (opens : ℕ → Option ℕ × Bool) (n : ℕ) (peers : List Peer) (f : Farm)
    → (add_connections opens n peers f).downloader ≡ f.downloader
unfolding add_connections
add_connections-downloader opens n [] f = refl
add_connections-downloader opens n (p ∷ peers) f =
    add_connections-downloader opens (n + 1) peers _
    ∙ add_connection-downloader (opens n).0 (opens n).1 (new_session p f.downloader) f

module _ (R : Downloader → Type 0)
    (block : (d : Downloader) (i offset : ℕ) (b : Buffer)
      → R d
      → Keeps R (on_block_received i offset b d))
    (next : (d : Downloader) → R d → Keeps R (get_next_piece_to_request d)) (n fd : ℕ) where
  -- The number of connections and the descriptor of epoll are kept too.
  abbrev pub FarmKeeps : Farm → Type 0
  FarmKeeps f = R f.downloader × (length f.connections ≡ n) × (f.epfd ≡ fd)

  put_back-Keeps :
      (i : ℕ) (f : Farm) (r : Result Session (Unit {0}))
      → length f.connections ≡ n
      → f.epfd ≡ fd
      → Keeps (λ s. R s.env.downloader) r
      → Keeps FarmKeeps (map_state (put_back i f) r)
  put_back-Keeps i f (ok a s) l e h = (h, length-set f.connections i (member_of s) ∙ l, e)
  put_back-Keeps i f (throw x s) l e h = (h, length-set f.connections i (member_of s) ∙ l, e)
  put_back-Keeps i f undefined l e h = tt
  put_back-Keeps i f out_of_fuel l e h = tt

  on_connection-Keeps :
      (i : ℕ) (handler : M Session (Unit {0})) (f : Farm)
      → FarmKeeps f
      → ((s : Session) → R s.env.downloader → Keeps (λ t. R t.env.downloader) (handler s))
      → Keeps FarmKeeps (on_connection i handler f)
  unfolding on_connection
  on_connection-Keeps i handler f h k = elim (Option-cases (get_elem? f.connections i)) [
    | inl out ↦ rw (out, on_connection) tt
    | inr (c, here) ↦
        rw (here, on_connection)
          (put_back-Keeps i f (handler (session_of f.downloader c)) h.1 h.2
            (k (session_of f.downloader c) h.0))
  ]

  module _ (accepts : ℕ → ℕ → Bool) where
    on_writable-Keeps :
        (i : ℕ) (writable : Bool) (f : Farm)
        → FarmKeeps f
        → Keeps FarmKeeps (on_writable accepts i writable f)
    unfolding on_writable
    on_writable-Keeps i true f h =
        on_connection-Keeps i (on_ready_write (accepts i)) f h
          (on_ready_write-Keeps R block next (accepts i))
    on_writable-Keeps i false f h = h

    on_readable-Keeps :
        (i : ℕ) (readable : Option (Option Buffer)) (f : Farm)
        → FarmKeeps f
        → Keeps FarmKeeps (on_readable accepts i readable f)
    unfolding on_readable
    on_readable-Keeps i (some chunk) f h =
        on_connection-Keeps i (on_ready_read (accepts i) chunk) f h
          (on_ready_read-Keeps R block next (accepts i) chunk)
    on_readable-Keeps i none f h = h

    pub handle_events-Keeps :
        (evs : List Event) (f : Farm) → FarmKeeps f → Keeps FarmKeeps (handle_events accepts evs f)
    unfolding handle_events handle_event
    handle_events-Keeps [] f h = h
    handle_events-Keeps (ev ∷ evs) f h =
        Keeps-then_run FarmKeeps FarmKeeps (handle_event accepts ev f) _ (λ g x. x)
          (Keeps-then_run FarmKeeps FarmKeeps (on_writable accepts ev.connection ev.writable f) _
            (λ g x. x) (on_writable-Keeps ev.connection ev.writable f h)
            (λ u g k. on_readable-Keeps ev.connection ev.readable g k))
          (λ u g k. handle_events-Keeps evs g k)

    run_until-Keeps :
        (check_complete : Downloader → Bool) (waits : List Wait) (f : Farm)
        → FarmKeeps f
        → Keeps FarmKeeps (run_until accepts check_complete waits f)
    unfolding run_until
    run_until-Keeps check_complete [] f h = h
    run_until-Keeps check_complete (interrupted ∷ waits) f h =
        let rest = run_until-Keeps check_complete waits f h in ground (arith, rest)
    run_until-Keeps check_complete (failed ∷ waits) f h = ground arith
    run_until-Keeps check_complete (events evs ∷ waits) f h =
        let round : Keeps FarmKeeps (
            then_run (handle_events accepts evs f)
              λ u g. run_until accepts check_complete waits g) =
          Keeps-then_run FarmKeeps FarmKeeps (handle_events accepts evs f) _ (λ g x. x)
            (handle_events-Keeps evs f h) (λ u g k. run_until-Keeps check_complete waits g k) in
        ground (arith, round)

    pub run-Keeps :
        (waits : List Wait) (f : Farm) → FarmKeeps f → Keeps FarmKeeps (run accepts waits f)
    run-Keeps = run_until-Keeps is_complete
