-- ===== src/Tracker/Transport.antt =====
-- include/tracker/transport.h and source/tracker/transport.cpp: the TCP and the UDP client, as the
-- system calls that they make. What the kernel answers is an argument.
pub mod Accounts
pub mod Life
pub mod Exchange
mod Tests
use node_link.Base.{
  ℕ, ◌^◌, ◌-◌, Bool, true, false, if◌then◌else◌, List, [], ◌∷◌, ◌++◌, length, take, replicate,
  overwrite, Option, none, some, M, Result, ok, throw, undefined, out_of_fuel, runtime_error, pure,
  ◌>>=◌, ◌>>◌, run_on, ℤ_of_int, minus_one, leb, ◌==◌, not,
}
use node_link.Parsing.Buffer.{Buffer}
use node_link.Parsing.Text.{to_string_ℤ}

-- `hints.ai_socktype`
pub data Kind : Type 0 where
  stream datagram : Kind

-- A system call with its arguments. A call that gives a descriptor, or an address list, carries it.
pub data Call : Type 0 where
  getaddrinfo : Buffer → Buffer → Bool → Call
  freeaddrinfo : Call
  socket : Kind → ℕ → Call
  connect : ℕ → Bool → Call
  close : ℕ → Call
  setsockopt : ℕ → ℕ → Call
  send : ℕ → Buffer → Call
  recv : ℕ → ℕ → Call
  sendto : ℕ → Buffer → Call
  recvfrom : ℕ → ℕ → Call

-- What the kernel answers to the next call, after the calls so far: whether the name is resolved, the
-- descriptor of a new socket or a negative number, whether the connection is made, whether the bytes
-- are taken, and the bytes that came, or `none` for an error.
pub record Kernel : Type 0 where
  pub resolves : List Call → Bool
  pub socket_answer : List Call → ℕ
  pub connects : List Call → Bool
  pub takes : List Call → Bool
  pub recv_answer : List Call → Option Buffer

-- The members of class Transport. `sock` and `port` are of type `int`.
pub record Transport : Type 0 where
  pub sock : ℕ
  pub host : Buffer
  pub port : ℕ

-- A client and the calls that the process has made, oldest first.
pub record Process : Type 0 where
  pub client : Transport
  pub calls : List Call

abbrev pub is_negative : ℕ → Bool
is_negative n = leb (2 ^ 31) n

abbrev pub new_transport : Buffer → ℕ → Transport
new_transport host port = record { sock = minus_one; host = host; port = port }

abbrev pub make : Call → M Process (Unit {0})
make c p = ok tt (record p { calls = p.calls ++ c ∷ [] })

-- `~Transport`
unfoldable pub destroy : Process → Process
destroy p =
    if is_negative p.client.sock
    then p
    else record p { calls = p.calls ++ close p.client.sock ∷ [] }

-- An exception that leaves the constructor of a derived class destroys the base object.
abbrev pub destroy_on_throw : {A : Type 0} → Result Process A → Result Process A
destroy_on_throw (ok a p) = ok a p
destroy_on_throw (throw e p) = throw e (destroy p)
destroy_on_throw undefined = undefined
destroy_on_throw out_of_fuel = out_of_fuel

-- `SetTimeout`
unfoldable pub set_timeout : ℕ → M Process (Unit {0})
set_timeout seconds p = make (setsockopt p.client.sock seconds) p

-- `GetSocket`
abbrev pub get_socket : Process → ℕ
get_socket p = p.client.sock

-- `vector::resize` on bytes.
abbrev pub resize : ℕ → Buffer → Buffer
resize n bytes = take n bytes ++ replicate (n - length bytes) 0

-- `recv` has put the bytes at the front of the buffer.
abbrev pub received_in : ℕ → Option Buffer → M Process Buffer
received_in buffer_size none p = throw runtime_error p
received_in buffer_size (some bytes) p =
    ok (resize (length bytes) (overwrite (replicate buffer_size 0) 0 bytes)) p

-- What follows a connection that is not made: the TCP client closes the socket before it throws, the UDP
-- client only throws.
abbrev pub on_refusal : Kind → ℕ → M Process (Unit {0})
on_refusal stream fd = make (close fd) >> throw runtime_error
on_refusal datagram fd = throw runtime_error

module _ (k : Kernel) where
  -- 1. Resolve Hostname
  unfoldable pub resolve : M Process (Unit {0})
  resolve p =
      let found = k.resolves p.calls in
      run_on p do
        make (getaddrinfo p.client.host (to_string_ℤ (ℤ_of_int p.client.port)) found)
        if found then pure tt else throw runtime_error

  -- 2. Create Socket
  unfoldable pub create_socket : Kind → M Process (Unit {0})
  create_socket kind p =
      let fd = k.socket_answer p.calls in
      run_on (record p { client = record p.client { sock = fd } })
        do make (socket kind fd); if is_negative fd then throw runtime_error else pure tt

  -- Step 3: Connect
  unfoldable pub connect_socket : Kind → M Process (Unit {0})
  connect_socket kind p =
      let made = k.connects p.calls in
      run_on p do
        make (connect p.client.sock made)
        if made then pure tt else on_refusal kind p.client.sock

  -- The constructors of both classes.
  unfoldable pub new_client : Kind → Buffer → ℕ → List Call → Result Process (Unit {0})
  new_client kind host port calls = destroy_on_throw (
      run_on (record { client = new_transport host port; calls = calls })
        do resolve; create_socket kind; connect_socket kind; make freeaddrinfo)

  -- `TcpClient::TcpClient`
  abbrev pub tcp_client : Buffer → ℕ → List Call → Result Process (Unit {0})
  tcp_client = new_client stream

  -- `UdpClient::UdpClient`
  abbrev pub udp_client : Buffer → ℕ → List Call → Result Process (Unit {0})
  udp_client = new_client datagram

  -- `Send`, of both clients.
  unfoldable pub send_bytes : Buffer → M Process (Unit {0})
  send_bytes bytes p =
      let taken = k.takes p.calls in
      run_on p do make (send p.client.sock bytes); if taken then pure tt else throw runtime_error

  -- `Receive`, of both clients.
  unfoldable pub receive_bytes : ℕ → M Process Buffer
  receive_bytes buffer_size p =
      let answer = k.recv_answer p.calls in
      run_on p do make (recv p.client.sock buffer_size); received_in buffer_size answer
