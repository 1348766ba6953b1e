-- ===== src/Download/Farm.antt =====
-- include/download/Farm.h, source/download/Farm.cpp and `Downloader::Start`: the connections that share
-- a downloader, and the loop over the events of their sockets. What the kernel reports is an argument.
pub mod Keeping
pub mod Starting
pub mod Endless
pub mod Verified
mod Tests
use node_link.Base.{
  ℕ, ◌+◌, ◌^◌, leb, Bool, true, false, ℤ, pos, leb_ℤ, List, [], ◌∷◌, ◌++◌, set, take, get_elem?,
  Option, none, some, M, Result, ok, throw, runtime_error, undefined, out_of_fuel, then_run,
  map_state, if◌then◌else◌,
}
use node_link.Parsing.Buffer.{Buffer}
use node_link.Tracker.Peer.{Peer}
use node_link.Download.Worker.{waiting}
use node_link.Download.Downloader.{Downloader, is_complete}
use node_link.Download.Connection.State.{Link, Env, Session, new_session}
use node_link.Download.Connection.Events.{get_socket_fd, connect, on_ready_write, on_ready_read}

-- A connection without the downloader that it refers to.
pub record Member : Type 0 where
  pub link : Link
  pub sent : List Buffer
  pub recv_buffer : Buffer

-- `epfd` is of type `int`.
pub record Farm : Type 0 where
  pub epfd : ℕ
  pub downloader : Downloader
  pub connections : List Member

abbrev pub session_of : Downloader → Member → Session
session_of d c = record {
  env = record { link = c.link; downloader = d; sent = c.sent };
  recv_buffer = c.recv_buffer;
}

abbrev pub member_of : Session → Member
member_of s = record { link = s.env.link; sent = s.env.sent; recv_buffer = s.recv_buffer }

abbrev pub put_back : ℕ → Farm → Session → Farm
put_back i f s = record f {
  downloader = s.env.downloader;
  connections = set f.connections i (member_of s);
}

-- `Farm::Farm`, for what `epoll_create1` answers. A farm refers to its downloader through its connections.
unfoldable pub new_farm : ℕ → Downloader → Result Farm (Unit {0})
new_farm epfd d =
    let f : Farm = record { epfd = epfd; downloader = d; connections = [] } in
    if leb (2 ^ 31) epfd then throw runtime_error f else ok tt f

-- `~Farm`: the descriptors that it closes.
unfoldable pub closed_by_farm : Farm → List ℕ
closed_by_farm f = if leb (2 ^ 31) f.epfd then [] else f.epfd ∷ []

-- `AddConnection`. `fd` is the descriptor of the new socket, if the connection is made, and `registered`
-- tells whether `epoll_ctl` takes it.
unfoldable pub add_connection : Option ℕ → Bool → Session → Farm → Farm
unfolding connect get_socket_fd
add_connection fd registered s f =
    let conn = connect fd s in
    if leb_ℤ (pos 0) (get_socket_fd conn.env.link)
    then (if registered then record f { connections = f.connections ++ member_of conn ∷ [] } else f)
    else f

-- What `epoll_wait` reports of a connection: that it may be written, and, if it may be read, what `recv`
-- then returns. Errors and hang-ups alone cause nothing.
pub record Event : Type 0 where
  pub connection : ℕ
  pub writable : Bool
  pub readable : Option (Option Buffer)

pub data Wait : Type 0 where
  events : List Event → Wait
  interrupted failed : Wait

-- The handlers of a connection, called through the pointer in the event.
unfoldable pub on_connection : ℕ → M Session (Unit {0}) → M Farm (Unit {0})
on_connection i handler f = elim (get_elem? f.connections i) [
  | none ↦ undefined
  | some c ↦ map_state (put_back i f) (handler (session_of f.downloader c))
]

-- `accepts i n` tells whether the kernel takes send number `n` of connection `i`.
module _ (accepts : ℕ → ℕ → Bool) where
  unfoldable pub on_writable : ℕ → Bool → M Farm (Unit {0})
  on_writable i true f = on_connection i (on_ready_write (accepts i)) f
  on_writable i false f = ok tt f

  unfoldable pub on_readable : ℕ → Option (Option Buffer) → M Farm (Unit {0})
  on_readable i (some chunk) f = on_connection i (on_ready_read (accepts i) chunk) f
  on_readable i none f = ok tt f

  unfoldable pub handle_event : Event → M Farm (Unit {0})
  handle_event ev f =
      then_run (on_writable ev.connection ev.writable f)
        λ _ f'. on_readable ev.connection ev.readable f'

  unfoldable pub handle_events : List Event → M Farm (Unit {0})
  handle_events [] f = ok tt f
  handle_events (ev ∷ evs) f = then_run (handle_event ev f) λ _ f'. handle_events evs f'

  -- `Run(checkComplete)`, as long as the kernel reports. The result tells whether the loop is left.
  unfoldable pub run_until : (Downloader → Bool) → List Wait → M Farm Bool
  run_until check_complete [] f = ok false f
  run_until check_complete (wait ∷ waits) f = elim f.connections [
    | [] ↦ ok true f
    | _ ∷ _ ↦ if check_complete f.downloader then ok true f else elim wait [
      | interrupted ↦ run_until check_complete waits f
      | failed ↦ ok true f
      | events evs ↦ then_run (handle_events evs f) λ _ f'. run_until check_complete waits f'
    ]
  ]

  -- `farm.Run([this]() { return this->IsComplete(); })`
  abbrev pub run : List Wait → M Farm Bool
  run = run_until is_complete

  -- `Run()`, which never stops by its condition.
  abbrev pub run_always : List Wait → M Farm Bool
  run_always = run_until λ d. false

-- `for (auto& c : conns) farm.AddConnection(c)`, for the peers that are left. `opens n` is what the kernel
-- answers for connection `n`.
unfoldable pub add_connections : (ℕ → Option ℕ × Bool) → ℕ → List Peer → Farm → Farm
unfolding add_connection
add_connections opens n [] f = f
add_connections opens n (p ∷ peers) f =
    add_connections opens (n + 1) peers
      (add_connection (opens n).0 (opens n).1 (new_session p f.downloader) f)

-- The downloader with its writer's thread started.
abbrev pub started : Downloader → Downloader
started d = record d { file_writer = record d.file_writer { thread = waiting } }

-- 2. Create Connections, five at most, and 3. Add to Farm
unfoldable pub start : ℕ → (ℕ → Option ℕ × Bool) → Downloader → Farm
unfolding add_connections
start epfd opens d =
    add_connections opens 0 (take 5 d.peers)
      (record { epfd = epfd; downloader = started d; connections = [] })

-- `Start`: without an epoll instance, the constructor of the farm throws.
unfoldable pub start_download :
    ℕ → (ℕ → ℕ → Bool) → (ℕ → Option ℕ × Bool) → List Wait → Downloader → Result Farm Bool
unfolding new_farm add_connections
start_download epfd accepts opens waits d =
    then_run (new_farm epfd (started d))
      λ _ f. run accepts waits (add_connections opens 0 (take 5 d.peers) f)
