-- ===== src/Download/Connection/Messages/Stream.antt =====
-- TCP is a stream: how the bytes are cut into chunks does not matter to `ProcessBuffer`.
use node_link.Base.{
  ℕ, zero, suc, ◌+◌, ◌<◌, ◌≡◌, refl, ap, sym, ◌∙◌, ◌⊎◌, Bool, true, false, [], ◌++◌, length, drop,
  length-append, length-drop, drop-append, Result, ok, throw, undefined, out_of_fuel, then_run,
  arith, ltb, if◌then◌else◌, Bool-cases, inl, inr, ltb→le, le→ltb,
}
use node_link.Parsing.Buffer.{Buffer}
use node_link.Download.Connection.State.{
  State, connecting, handshaking, downloading, Env, Session, send,
}
use node_link.Download.Message.{build_interested}
use node_link.Download.Connection.Messages.{
  Frame, incomplete, overrun, keep_alive, message, next_frame, with_rest, go_on, dispatch,
  handle_frame, greeted, handle_handshake, process_round, process_loop, process_buffer,
}
use node_link.Download.Connection.Messages.Frames.{
  next_frame-keep_alive, next_frame-message, next_frame-append_keep_alive,
  next_frame-append_message,
}

-- More bytes behind those in the receive buffer.
abbrev pub extend : Buffer → Session → Session
extend x s = record s { recv_buffer = s.recv_buffer ++ x }

go_on-with_rest :
    (rest x : Buffer) (r : Result Env (Unit {0})) (more : Bool) (s' : Session)
    → go_on (with_rest rest r) ≡ ok more s'
    → (more ≡ true)
      × (s'.recv_buffer ≡ rest)
      × (go_on (with_rest (rest ++ x) r) ≡ ok true (extend x s'))
go_on-with_rest rest x (ok a e) more s' h = ground arith
go_on-with_rest rest x (throw a e) more s' h = absurd (ground arith)
go_on-with_rest rest x undefined more s' h = absurd (ground arith)
go_on-with_rest rest x out_of_fuel more s' h = absurd (ground arith)

-- What a round does that goes on: it takes four bytes at least out of the buffer, and it does the
-- same if more bytes stand behind.
abbrev pub Advances : (ℕ → Bool) → Buffer → State → Session → Session → Type 0
Advances accepts x st s s' =
    (length s'.recv_buffer < length s.recv_buffer)
    × (process_round accepts st (extend x s) ≡ ok true (extend x s'))

module _ (accepts : ℕ → Bool) (x : Buffer) (s s' : Session) where
  handle_handshake-more :
      (more : Bool)
      → handle_handshake accepts s ≡ ok more s'
      → ((more ≡ false) × (s' ≡ s)) ⊎ ((more ≡ true) × Advances accepts x handshaking s s')
  unfolding handle_handshake process_round
  handle_handshake-more more e = elim (Bool-cases (ltb (length s.recv_buffer) 68)) [
    | inl short ↦ inl (ground arith)
    | inr whole ↦
        let long = ltb→le (length s.recv_buffer) 68 whole in
        let (yes_more, rest, ext) =
          go_on-with_rest (drop 68 s.recv_buffer) x (send accepts build_interested (greeted s.env))
            more s' (rw whole at e) in
        inr (
          yes_more,
          (
            rw rest (omega (arith, length-drop 68 s.recv_buffer)),
            rw
                (
                  le→ltb (length (s.recv_buffer ++ x)) 68
                      (omega (arith, length-append s.recv_buffer x)),
                  drop-append 68 s.recv_buffer x long,
                )
                ext,
          ),
        )
  ]

  handle_frame-more :
      (f : Frame) (more : Bool)
      → next_frame s.recv_buffer ≡ f
      → handle_frame accepts f s ≡ ok more s'
      → ((more ≡ false) × (s' ≡ s))
        ⊎ ((more ≡ true)
            × ((length s'.recv_buffer < length s.recv_buffer)
                × (handle_frame accepts (next_frame (s.recv_buffer ++ x)) (extend x s)
                    ≡ ok true (extend x s'))))
  unfolding handle_frame
  handle_frame-more incomplete more f e = inl (ground arith)
  handle_frame-more overrun more f e = absurd (ground arith)
  handle_frame-more (keep_alive rest) more f e =
      let (whole, _, r) = next_frame-keep_alive s.recv_buffer rest f in
      inr (
        ground arith,
        (
          ground (arith, length-drop 4 s.recv_buffer),
          rw (next_frame-append_keep_alive s.recv_buffer x rest f, handle_frame) (ground arith),
        ),
      )
  handle_frame-more (message id p rest) more f e =
      let (positive, whole, _, _, r) = next_frame-message s.recv_buffer id p rest f in
      let (yes_more, kept, ext) = go_on-with_rest rest x (dispatch accepts id p s.env) more s' e in
      inr (
        yes_more,
        (
          rw (kept, r) (omega (arith, length-drop _ s.recv_buffer)),
          rw (next_frame-append_message s.recv_buffer x id p rest f, handle_frame) ext,
        ),
      )

-- A round either stops and changes nothing, or advances.
pub process_round-more :
    (accepts : ℕ → Bool) (x : Buffer) (s s' : Session) (st : State) (more : Bool)
    → process_round accepts st s ≡ ok more s'
    → ((more ≡ false) × (s' ≡ s)) ⊎ ((more ≡ true) × Advances accepts x st s s')
unfolding process_round
process_round-more accepts x s s' handshaking more e = handle_handshake-more accepts x s s' more e
process_round-more accepts x s s' connecting more e =
    handle_frame-more accepts x s s' (next_frame s.recv_buffer) more refl e
process_round-more accepts x s s' downloading more e =
    handle_frame-more accepts x s s' (next_frame s.recv_buffer) more refl e

module _ (accepts : ℕ → Bool) where
  -- Fuel above the length of the buffer is as good as any other.
  process_loop-fuel :
      (f g : ℕ) (s : Session)
      → length s.recv_buffer < f
      → length s.recv_buffer < g
      → process_loop accepts f s ≡ process_loop accepts g s
  unfolding process_loop
  process_loop-fuel zero g s hf hg = absurd (omega arith)
  process_loop-fuel (suc f) zero s hf hg = absurd (omega arith)
  process_loop-fuel (suc f) (suc g) s hf hg =
      go (process_round accepts s.env.link.state s) refl (λ s'. process_loop-fuel f g s')
    where
      go :
          (r : Result Session Bool)
          → process_round accepts s.env.link.state s ≡ r
          → ((s' : Session)
              → length s'.recv_buffer < f
              → length s'.recv_buffer < g
              → process_loop accepts f s' ≡ process_loop accepts g s')
          → (then_run r λ more s'. if more then process_loop accepts f s' else ok tt s')
            ≡ (then_run r λ more s'. if more then process_loop accepts g s' else ok tt s')
      go (throw a t) e ih = refl
      go undefined e ih = refl
      go out_of_fuel e ih = refl
      go (ok false t) e ih = refl
      go (ok true t) e ih = elim (process_round-more accepts [] s t s.env.link.state true e) [
        | inl (stop, _) ↦ absurd (ground arith)
        | inr (_, (shorter, _)) ↦ ih t (omega arith) (omega arith)
      ]

  process_loop-extend :
      (f : ℕ) (x : Buffer) (s s' : Session)
      → length s.recv_buffer < f
      → process_loop accepts f s ≡ ok tt s'
      → process_buffer accepts (extend x s) ≡ process_buffer accepts (extend x s')
  unfolding process_loop process_buffer
  process_loop-extend zero x s s' hf e = absurd (omega arith)
  process_loop-extend (suc f) x s s' hf e =
      go (process_round accepts s.env.link.state s) refl e (λ t. process_loop-extend f x t s')
    where
      go :
          (r : Result Session Bool)
          → process_round accepts s.env.link.state s ≡ r
          → (then_run r λ more t. if more then process_loop accepts f t else ok tt t) ≡ ok tt s'
          → ((t : Session)
              → length t.recv_buffer < f
              → process_loop accepts f t ≡ ok tt s'
              → process_buffer accepts (extend x t) ≡ process_buffer accepts (extend x s'))
          → process_buffer accepts (extend x s) ≡ process_buffer accepts (extend x s')
      go (throw a t) r h ih = absurd (ground arith)
      go undefined r h ih = absurd (ground arith)
      go out_of_fuel r h ih = absurd (ground arith)
      go (ok false t) r h ih = elim (process_round-more accepts x s t s.env.link.state false r) [
        | inl (_, same) ↦
            let last : t ≡ s' = ground arith in
            ap (λ q. process_buffer accepts (extend x q)) (sym same ∙ last)
        | inr (more, _) ↦ absurd (ground arith)
      ]
      go (ok true t) r h ih = elim (process_round-more accepts x s t s.env.link.state true r) [
        | inl (stop, _) ↦ absurd (ground arith)
        | inr (_, (shorter, same)) ↦
            let longer = length-append s.recv_buffer x in
            let longer' = length-append t.recv_buffer x in
            process_loop-fuel _ (suc (length (s.recv_buffer ++ x))) (extend x s) (omega arith)
              (omega arith)
            ∙ rw same (
                process_loop-fuel (length (s.recv_buffer ++ x)) (length (t.recv_buffer ++ x) + 1)
                  (extend x t) (omega arith) (omega arith))
            ∙ ih t (omega arith) h
      ]

-- If the bytes so far are processed with no error, then what arrives behind them is processed as if
-- all of it had arrived at once.
pub process_buffer-extend :
    (accepts : ℕ → Bool) (x : Buffer) (s s' : Session)
    → process_buffer accepts s ≡ ok tt s'
    → process_buffer accepts (extend x s) ≡ process_buffer accepts (extend x s')
unfolding process_buffer
process_buffer-extend accepts x s s' e =
    process_loop-extend accepts (length s.recv_buffer + 1) x s s' (omega arith) e
