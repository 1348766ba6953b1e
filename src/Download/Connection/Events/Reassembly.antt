-- ===== src/Download/Connection/Events/Reassembly.antt =====
-- What a peer sends has the same effect however TCP cuts it into chunks.
use node_link.Base.{
  ℕ, ◌≡◌, ap, sym, ◌∙◌, Bool, ◌∷◌, ◌++◌, append_assoc, Option, none, some, Option-cases, inl, inr,
  Result, ok, throw, undefined, out_of_fuel, arith,
}
use node_link.Parsing.Buffer.{Buffer}
use node_link.Download.Connection.State.{Session}
use node_link.Download.Connection.Messages.{process_buffer}
use node_link.Download.Connection.Messages.Stream.{extend, process_buffer-extend}
use node_link.Download.Connection.Events.{if_open, closing_on_error, receive, on_ready_read}

closing_on_error-open :
    (r : Result Session (Unit {0})) (s : Session) (fd : ℕ)
    → closing_on_error r ≡ ok tt s
    → s.env.link.socket ≡ some fd
    → r ≡ ok tt s
closing_on_error-open (ok tt t) s fd e o = e
closing_on_error-open (throw x t) s fd e o =
    let closed : s.env.link.socket ≡ none = ground arith in absurd (ground arith)
closing_on_error-open undefined s fd e o = absurd (ground arith)
closing_on_error-open out_of_fuel s fd e o = absurd (ground arith)

ok-state : {s t : Session} → ◌≡◌ {A = Result Session (Unit {0})} (ok tt s) (ok tt t) → s ≡ t
ok-state e = cc

module _ (accepts : ℕ → Bool) (s : Session) (chunk : Option Buffer) where
  on_ready_read_open :
      (fd : ℕ)
      → s.env.link.socket ≡ some fd
      → on_ready_read accepts chunk s ≡ receive accepts chunk s
  unfolding on_ready_read
  on_ready_read_open fd o = ap (λ socket. if_open socket s (receive accepts chunk s)) o

  on_ready_read_closed : s.env.link.socket ≡ none → on_ready_read accepts chunk s ≡ ok tt s
  unfolding on_ready_read
  on_ready_read_closed o = ap (λ socket. if_open socket s (receive accepts chunk s)) o

-- If a connection has read a chunk and its socket is still open, then reading a second chunk gives
-- the same as reading both as one: state, requests and errors do not depend on how the stream was cut.
pub on_ready_read_chunks :
    (accepts : ℕ → Bool) (s s' : Session) (fd x y : ℕ) (a b : Buffer)
    → on_ready_read accepts (some (x ∷ a)) s ≡ ok tt s'
    → s'.env.link.socket ≡ some fd
    → on_ready_read accepts (some (y ∷ b)) s' ≡ on_ready_read accepts (some ((x ∷ a) ++ (y ∷ b))) s
unfolding receive
on_ready_read_chunks accepts s s' fd x y a b e o = elim (Option-cases s.env.link.socket) [
  | inl closed ↦
      let same : s ≡ s' =
        ok-state (sym (on_ready_read_closed accepts s (some (x ∷ a)) closed) ∙ e) in
      absurd (ground arith)
  | inr (fd₀, open_socket) ↦
      let done =
        closing_on_error-open (process_buffer accepts (extend (x ∷ a) s)) s' fd
          (sym (on_ready_read_open accepts s (some (x ∷ a)) fd₀ open_socket) ∙ e) o in
      let next = process_buffer-extend accepts (y ∷ b) (extend (x ∷ a) s) s' done in
      let joined = append_assoc s.recv_buffer (x ∷ a) (y ∷ b) in
      on_ready_read_open accepts s' (some (y ∷ b)) fd o
      ∙ ap closing_on_error (sym next)
      ∙ ap (λ r. closing_on_error (process_buffer accepts (record s { recv_buffer = r }))) joined
      ∙ sym (on_ready_read_open accepts s (some ((x ∷ a) ++ (y ∷ b))) fd₀ open_socket)
]
