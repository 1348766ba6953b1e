-- ===== src/Download/Connection/Sending/Rounds.antt =====
-- The rounds of ProcessBuffer in Connection.cpp, and what a connection sends in them.
use node_link.Base.{
  ℕ, zero, suc, ◌≡◌, refl, sym, ap, subst, ◌∙◌, ◌⊎◌, inl, inr, Bool, List, [], ◌∷◌, ◌++◌, length,
  drop, All, All-append, Option, none, some, M, Result, ok, throw, undefined, out_of_fuel,
  map_state, Keeps, Leaves, Leaves-then_run, Bool-cases, ltb, arith,
}
use node_link.Parsing.Buffer.{Buffer}
use node_link.Download.Message.{build_request, build_interested}
use node_link.Download.Downloader.{Downloader, get_next_piece_to_request, on_block_received}
use node_link.Download.Connection.State.{
  handshaking, downloading, Env, Session, on_downloader, send_on, send,
}
use node_link.Download.Connection.Messages.{
  dispatch, Frame, incomplete, overrun, keep_alive, message, next_frame, with_rest, go_on, greeted,
  handle_frame, handle_handshake, process_round, process_loop,
}
use node_link.Download.Connection.Keeping.Handlers.{dispatch-Keeps}

abbrev pub IsRequest : Buffer → Type 0
IsRequest b = (i : ℕ) × (offset : ℕ) × (n : ℕ) × (b ≡ build_request i offset n)

module _ (hello : Buffer) where
  abbrev pub IsAsking : List Buffer → Type 0
  IsAsking sent =
      (requests : List Buffer) × (sent ≡ hello ∷ build_interested ∷ requests)
      × All IsRequest requests

  -- A beginning of the dialogue.
  abbrev pub IsDialogue : List Buffer → Type 0
  IsDialogue sent = (sent ≡ []) ⊎ ((sent ≡ hello ∷ []) ⊎ IsAsking sent)

  abbrev Asks : Env → Type 0
  Asks e = (e.link.state ≡ downloading) × IsAsking e.sent

  abbrev Greets : Env → Type 0
  Greets e = (e.link.state ≡ handshaking) × (e.sent ≡ hello ∷ [])

  abbrev pub Talks : Env → Type 0
  Talks e = Greets e ⊎ Asks e

  pub Talks-IsDialogue : (e : Env) → Talks e → IsDialogue e.sent
  Talks-IsDialogue e (inl h) = inr (inl h.1)
  Talks-IsDialogue e (inr h) = inr (inr h.1)

  Asks-request :
      (e : Env) (i offset n : ℕ)
      → Asks e
      → Asks (record e { sent = e.sent ++ build_request i offset n ∷ [] })
  Asks-request e i offset n (here, (requests, sent, all)) = (
    here,
    (
      requests ++ build_request i offset n ∷ [],
      ap (λ l. l ++ build_request i offset n ∷ []) sent,
      All-append IsRequest requests (build_request i offset n ∷ []) all ((i, offset, n, refl), tt),
    ),
  )

  on_downloader-Asks :
      {A : Type 0} (m : M Downloader A) (e : Env) → Asks e → Keeps Asks (on_downloader m e)
  on_downloader-Asks m e h = of_result (m e.downloader)
    where
      of_result :
          {A : Type 0} (r : Result Downloader A)
          → Keeps Asks (map_state (λ d. record e { downloader = d }) r)
      of_result (ok a d) = h
      of_result (throw x d) = h
      of_result undefined = tt
      of_result out_of_fuel = tt

  module _ (accepts : ℕ → Bool) where
    dispatch-Asks :
        (id : ℕ) (payload : Buffer) (e : Env) → Asks e → Keeps Asks (dispatch accepts id payload e)
    dispatch-Asks =
        dispatch-Keeps Asks (λ e l same h. (same ∙ h.0, h.1)) Asks-request
          (λ e i offset b h. on_downloader-Asks (on_block_received i offset b) e h)
          (λ e h. on_downloader-Asks get_next_piece_to_request e h) accepts

    -- A round goes on with the dialogue, and an exception leaves a beginning of it.
    abbrev Continues : Result Session Bool → Type 0
    Continues = Leaves (λ more s. Talks s.env) (λ s. IsDialogue s.env.sent)

    after-dispatch :
        (rest : Buffer) (r : Result Env (Unit {0}))
        → Keeps Asks r
        → Continues (go_on (with_rest rest r))
    after-dispatch rest (ok a e) h = inr h
    after-dispatch rest (throw x e) h = inr (inr h.1)
    after-dispatch rest undefined h = tt
    after-dispatch rest out_of_fuel h = tt

    handle_frame-Continues :
        (f : Frame) (s : Session) → Asks s.env → Continues (handle_frame accepts f s)
    unfolding handle_frame
    handle_frame-Continues incomplete s h = inr h
    handle_frame-Continues overrun s h = tt
    handle_frame-Continues (keep_alive rest) s h = inr h
    handle_frame-Continues (message id payload rest) s h =
        after-dispatch rest (dispatch accepts id payload s.env) (dispatch-Asks id payload s.env h)

    handle_handshake-Continues :
        (s : Session) → Greets s.env → Continues (handle_handshake accepts s)
    unfolding handle_handshake send send_on
    handle_handshake-Continues s h = elim (Bool-cases (ltb (length s.recv_buffer) 68)) [
      | inl short ↦ rw short (inl h)
      | inr whole ↦ rw whole (interested s.env.link.socket)
    ]
      where
        interested :
            (socket : Option ℕ)
            → Continues (
                go_on (
                  with_rest
                    (drop 68 s.recv_buffer)
                    (send_on accepts socket build_interested (greeted s.env))))
        interested none = tt
        interested (some fd) = elim (Bool-cases (accepts (length s.env.sent))) [
          | inl taken ↦ rw taken (inr (refl, ([], ap (λ l. l ++ build_interested ∷ []) h.1, tt)))
          | inr refused ↦ rw refused (inr (inl h.1))
        ]

    process_round-Continues :
        (s : Session) → Talks s.env → Continues (process_round accepts s.env.link.state s)
    unfolding process_round
    process_round-Continues s (inl h) =
        subst (λ st. Continues (process_round accepts st s)) (sym h.0)
          (handle_handshake-Continues s h)
    process_round-Continues s (inr h) =
        subst (λ st. Continues (process_round accepts st s)) (sym h.0)
          (handle_frame-Continues (next_frame s.recv_buffer) s h)

    pub process_loop-Continues :
        (fuel : ℕ) (s : Session)
        → Talks s.env
        → Leaves (λ u t. Talks t.env) (λ t. IsDialogue t.env.sent) (process_loop accepts fuel s)
    unfolding process_loop
    process_loop-Continues zero s h = tt
    process_loop-Continues (suc fuel) s h =
        Leaves-then_run (λ more t. Talks t.env) (λ u t. Talks t.env) (λ t. IsDialogue t.env.sent)
          (process_round accepts s.env.link.state s) _ (process_round-Continues s h)
          (λ more t k. let rest = process_loop-Continues fuel t k in ground (arith, rest))
