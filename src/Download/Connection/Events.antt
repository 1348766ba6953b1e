-- ===== src/Download/Connection/Events.antt =====
-- `Connect`, `OnReadyWrite` and `OnReadyRead`: the event handlers of a connection. What the kernel
-- answers to `connect` and `recv` is an argument.
pub mod Reassembly
pub mod Overrun
use node_link.Base.{
  ℕ, Bool, true, false, ℤ, pos, negsuc, List, [], ◌∷◌, ◌++◌, Option, none, some, M, Result, ok,
  throw, undefined, out_of_fuel, then_run, map_state,
}
use node_link.Parsing.Buffer.{Buffer}
use node_link.Download.Message.{build_handshake}
use node_link.Download.Connection.State.{
  State, connecting, handshaking, downloading, Link, Env, Session, set_link, close_socket, send,
}
use node_link.Download.Connection.Messages.{process_buffer}

-- `GetSocketFd`
unfoldable pub get_socket_fd : Link → ℤ
get_socket_fd l = elim l.socket [ some fd ↦ pos fd | none ↦ negsuc 0 ]

-- `Connect`, for the descriptor that the constructor of `TcpClient` opens; `none` if it throws.
unfoldable pub connect : Option ℕ → Session → Session
connect (some fd) s = record s {
  env = set_link s.env (record s.env.link { socket = some fd; state = connecting });
}
connect none s = record s { env = close_socket s.env }

-- `catch (...) { socket = nullptr; }`
abbrev pub closing_on_error : Result Session (Unit {0}) → Result Session (Unit {0})
closing_on_error (throw e s) = ok tt (record s { env = close_socket s.env })
closing_on_error r = r

-- `if (!socket) return;`
abbrev pub if_open : Option ℕ → Session → Result Session (Unit {0}) → Result Session (Unit {0})
if_open none s r = ok tt s
if_open (some fd) s r = r

module _ (accepts : ℕ → Bool) where
  -- The handshake, in the state CONNECTING.
  unfoldable pub greet : State → M Session (Unit {0})
  greet connecting s = closing_on_error (
      map_state (λ e. record s { env = e })
        (then_run
          (send accepts (build_handshake s.env.downloader.torrent s.env.downloader.my_id) s.env)
          λ _ e. ok tt (set_link e (record e.link { state = handshaking }))))
  greet handshaking s = ok tt s
  greet downloading s = ok tt s

  unfoldable pub on_ready_write : M Session (Unit {0})
  on_ready_write s = if_open s.env.link.socket s (greet s.env.link.state s)

  -- What `recv` returned: `none` for an error, no bytes at the end of the stream.
  unfoldable pub receive : Option Buffer → M Session (Unit {0})
  receive none s = ok tt (record s { env = close_socket s.env })
  receive (some []) s = ok tt (record s { env = close_socket s.env })
  receive (some (byte ∷ chunk)) s =
      closing_on_error
        (process_buffer accepts (record s { recv_buffer = s.recv_buffer ++ byte ∷ chunk }))

  unfoldable pub on_ready_read : Option Buffer → M Session (Unit {0})
  on_ready_read chunk s = if_open s.env.link.socket s (receive chunk s)
