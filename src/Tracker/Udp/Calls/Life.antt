-- ===== src/Tracker/Udp/Calls/Life.antt =====
-- The descriptor and the address list that GetPeersUDP of source/tracker/tracker.cpp acquires and gives back.
use node_link.Base.{
  ℕ, ◌+◌, ◌≡◌, refl, sym, ap, ◌∙◌, ◌⊎◌, inl, inr, Bool, true, false, if◌then◌else◌, List, [], ◌∷◌,
  ◌++◌, append_assoc, length, M, Result, returns, ok, throw, undefined, out_of_fuel, then_run,
  Bool-cases, Option-cases, Ensures, Ensures-then_run, Ensures-lift_outcome, Ensures-mono,
  minus_one, ℤ_of_int, arith,
}
use node_link.Parsing.Buffer.{Buffer}
use node_link.Parsing.Text.{to_string_ℤ}
use node_link.Parsing.TorrentFile.{TorrentFile}
use node_link.Tracker.Peer.{Peer}
use node_link.Tracker.Url.{Url}
use node_link.Tracker.Udp.{connect_request, read_connect, announce_request, read_announce}
use node_link.Tracker.Udp.Exchange.{read_connect-Returns, read_announce-Returns}
use node_link.Tracker.Transport.{
  Call, getaddrinfo, socket, datagram, freeaddrinfo, close, setsockopt, sendto, recvfrom, Kernel,
  is_negative,
}
use node_link.Tracker.Transport.Accounts.{
  opened_by, closed_by, made_by, freed_by, opens, closes, lists_made, lists_freed, opens-append,
  closes-append, lists_made-append, lists_freed-append,
}
use node_link.Tracker.Udp.Calls.{
  Scope, look_up, open_socket, send_to, receive_from, closed_on_error, connect_step, announce_step,
  talk, try_udp, call_udp,
}

-- The scope has made these calls since `calls`, and its socket is open.
pub record IsOpen (calls : List Call) (fd : ℕ) (s : Scope) : Type 0 where
  pub descriptor : s.sock ≡ fd
  pub own : List Call
  pub since : s.calls ≡ calls ++ own
  pub opened : opens own ≡ fd ∷ []
  pub closed : closes own ≡ []
  pub made : lists_made own ≡ 1
  pub freed : lists_freed own ≡ 0

-- A call that neither opens nor closes a descriptor, nor makes or frees an address list.
abbrev IsNeutral : Call → Type 0
IsNeutral c = (opened_by c ≡ []) × (closed_by c ≡ []) × (made_by c ≡ 0) × (freed_by c ≡ 0)

module _ (calls : List Call) (fd : ℕ) where
  IsOpen-make :
      (c : Call) (s : Scope)
      → IsNeutral c
      → IsOpen calls fd s
      → IsOpen calls fd (record s { calls = s.calls ++ c ∷ [] })
  IsOpen-make c s (opened, closed, made, freed) h = record {
    descriptor = h.descriptor;
    own = h.own ++ c ∷ [];
    since = ap (λ l. l ++ c ∷ []) h.since ∙ append_assoc calls h.own (c ∷ []);
    opened = opens-append h.own (c ∷ []) ∙ rw (h.opened, opened) refl;
    closed = closes-append h.own (c ∷ []) ∙ rw (h.closed, closed) refl;
    made = omega (arith, lists_made-append h.own (c ∷ []), h.made);
    freed = omega (arith, lists_freed-append h.own (c ∷ []), h.freed);
  }

  -- Whatever a step that calls nothing else ends in, the socket is still open.
  abbrev StaysOpen : {A : Type 0} → Result Scope A → Type 0
  StaysOpen = Ensures (λ a. IsOpen calls fd) (IsOpen calls fd)

  send_to-StaysOpen :
      (k : Kernel) (bytes : Buffer) (s : Scope) → IsOpen calls fd s → StaysOpen (send_to k bytes s)
  unfolding send_to
  send_to-StaysOpen k bytes s h =
      let next = IsOpen-make (sendto s.sock bytes) s (refl, refl, refl, refl) h in
      elim (Bool-cases (k.takes s.calls)) [
        | inl taken ↦ rw taken next
        | inr refused ↦ rw refused next
      ]

  receive_from-StaysOpen :
      (k : Kernel) (s : Scope) → IsOpen calls fd s → StaysOpen (receive_from k s)
  unfolding receive_from
  receive_from-StaysOpen k s h =
      let next = IsOpen-make (recvfrom s.sock 1024) s (refl, refl, refl, refl) h in
      elim (Option-cases (k.recv_answer s.calls)) [
        | inl lost ↦ rw lost next
        | inr (bytes, came) ↦ rw came next
      ]

  StaysOpen-then_run :
      {A B : Type 0} (P : B → Scope → Type 0) (r : Result Scope A) (f : A → M Scope B)
      → StaysOpen r
      → ((a : A) (s : Scope) → IsOpen calls fd s → Ensures P (IsOpen calls fd) (f a s))
      → Ensures P (IsOpen calls fd) (then_run r f)
  StaysOpen-then_run P = Ensures-then_run (λ a. IsOpen calls fd) P (IsOpen calls fd)

  module _ (k : Kernel) (tid key : ℕ) where
    connect_step-StaysOpen : (s : Scope) → IsOpen calls fd s → StaysOpen (connect_step k tid key s)
    unfolding connect_step
    connect_step-StaysOpen s h =
        StaysOpen-then_run (λ cid. IsOpen calls fd) _ _
          (send_to-StaysOpen k (connect_request tid) s h)
          λ u s₁ h₁.
            StaysOpen-then_run (λ cid. IsOpen calls fd) _ _ (receive_from-StaysOpen k s₁ h₁)
              λ b s₂ h₂.
                Ensures-lift_outcome (λ cid. Unit {0}) (IsOpen calls fd) (read_connect tid b) s₂
                  (read_connect-Returns tid b) h₂

    announce_step-StaysOpen :
        (t : TorrentFile) (peer_id : Buffer) (port cid : ℕ) (s : Scope)
        → IsOpen calls fd s
        → StaysOpen (announce_step k tid key t peer_id port cid s)
    unfolding announce_step
    announce_step-StaysOpen t peer_id port cid s h =
        StaysOpen-then_run (λ ps. IsOpen calls fd) _ _
          (send_to-StaysOpen k (announce_request cid tid key t peer_id port) s h)
          λ u s₁ h₁.
            StaysOpen-then_run (λ ps. IsOpen calls fd) _ _ (receive_from-StaysOpen k s₁ h₁)
              λ b s₂ h₂.
                Ensures-lift_outcome (λ ps. Unit {0}) (IsOpen calls fd) (read_announce b) s₂
                  (read_announce-Returns b) h₂

-- The accounts of one call of `GetPeersUDP`, which got its peers or not.
pub record IsAccounted (completed : Bool) (own : List Call) : Type 0 where
  pub descriptors : closes own ≡ opens own
  pub lists : lists_made own ≡ lists_freed own + (if completed then 0 else length (opens own))

-- The scope is left with these accounts of the calls since `calls`.
abbrev pub IsLeft : List Call → Bool → Scope → Type 0
IsLeft calls completed s = (own : List Call) × (s.calls ≡ calls ++ own) × IsAccounted completed own

-- The call was given up: with its accounts in order and no socket, or with its socket open.
abbrev IsGivenUp : List Call → Scope → Type 0
IsGivenUp calls s =
    ((is_negative s.sock ≡ true) × IsLeft calls false s)
    ⊎ ((fd : ℕ) × (is_negative fd ≡ false) × IsOpen calls fd s)

IsOpen-leave :
    (calls : List Call) (fd : ℕ) (s : Scope) (completed : Bool) (last : List Call)
    → opens last ≡ []
    → closes last ≡ fd ∷ []
    → lists_made last ≡ 0
    → lists_freed last ≡ (if completed then 1 else 0)
    → IsOpen calls fd s
    → IsLeft calls completed (record s { calls = s.calls ++ last })
IsOpen-leave calls fd s completed last opened closed made freed h =
    let all_opened : opens (h.own ++ last) ≡ fd ∷ [] =
      opens-append h.own last ∙ ap (λ l. l ++ opens last) h.opened ∙ ap (λ l. fd ∷ l) opened in
    let all_closed : closes (h.own ++ last) ≡ fd ∷ [] =
      closes-append h.own last ∙ ap (λ l. l ++ closes last) h.closed ∙ closed in
    (
      h.own ++ last,
      ap (λ l. l ++ last) h.since ∙ append_assoc calls h.own last,
      record {
        descriptors = all_closed ∙ sym all_opened;
        lists = rw all_opened (
            balance completed (lists_made-append h.own last) (lists_freed-append h.own last) freed);
      },
    )
  where
    balance :
        (completed : Bool)
        → lists_made (h.own ++ last) ≡ lists_made h.own + lists_made last
        → lists_freed (h.own ++ last) ≡ lists_freed h.own + lists_freed last
        → lists_freed last ≡ (if completed then 1 else 0)
        → lists_made (h.own ++ last)
          ≡ lists_freed (h.own ++ last) + (if completed then 0 else length (fd ∷ []))
    balance true m f e = omega (arith, m, f, e, made, h.made, h.freed)
    balance false m f e = omega (arith, m, f, e, made, h.made, h.freed)

closed_on_error-IsLeft :
    (calls : List Call) (r : Result Scope (List Peer))
    → Ensures (λ ps. IsLeft calls true) (IsGivenUp calls) r
    → (ps : List Peer) × (s : Scope) × (closed_on_error r ≡ ok ps s) × IsLeft calls (returns r) s
unfolding closed_on_error
closed_on_error-IsLeft calls (ok ps s) h = (ps, s, refl, h)
closed_on_error-IsLeft calls (throw e s) (inl (negative, left)) = ([], s, rw negative refl, left)
closed_on_error-IsLeft calls (throw e s) (inr (fd, valid, open_still)) = (
  [],
  record s { calls = s.calls ++ close s.sock ∷ [] },
  rw (open_still.descriptor, valid) refl,
  IsOpen-leave calls fd s false (close s.sock ∷ []) refl (ap (λ n. n ∷ []) open_still.descriptor)
      refl refl open_still,
)
closed_on_error-IsLeft calls undefined h = absurd h
closed_on_error-IsLeft calls out_of_fuel h = absurd h

module _ (k : Kernel) (tid key : ℕ) (t : TorrentFile) (peer_id : Buffer) (port : ℕ) where
  talk-Ensures :
      (calls : List Call) (fd : ℕ) (s : Scope)
      → is_negative fd ≡ false
      → IsOpen calls fd s
      → Ensures (λ ps. IsLeft calls true) (IsOpen calls fd) (talk k tid key t peer_id port s)
  unfolding talk
  talk-Ensures calls fd s valid h =
      let h₀ = IsOpen-make calls fd (setsockopt s.sock 2) s (refl, refl, refl, refl) h in
      StaysOpen-then_run calls fd (λ ps. IsLeft calls true) _ _
        (connect_step-StaysOpen calls fd k tid key _ h₀)
        λ cid s₁ h₁.
          StaysOpen-then_run calls fd (λ ps. IsLeft calls true) _ _
            (announce_step-StaysOpen calls fd k tid key t peer_id port cid s₁ h₁)
            λ ps s₂ h₂.
              let (own, since, accounts) =
                IsOpen-leave calls fd s₂ true (freeaddrinfo ∷ close s₂.sock ∷ []) refl
                  (ap (λ n. n ∷ []) h₂.descriptor) refl refl h₂ in
              (
                own,
                append_assoc s₂.calls (freeaddrinfo ∷ []) (close s₂.sock ∷ []) ∙ since,
                accounts,
              )

  -- The body of the `try` block.
  try_udp-Ensures :
      (url : Url) (calls : List Call)
      → Ensures
          (λ ps. IsLeft calls true)
          (IsGivenUp calls)
          (try_udp k tid key url t peer_id port (record { sock = minus_one; calls = calls }))
  unfolding try_udp look_up open_socket
  try_udp-Ensures url calls = elim (Bool-cases (k.resolves calls)) [
    | inr unknown ↦
        rw unknown
          (inl (refl, (look false ∷ [], refl, record { descriptors = refl; lists = refl })))
    | inl found ↦ elim (Bool-cases (is_negative fd)) [
      | inl negative ↦
          rw (found, negative)
            (inl (
              negative,
              (
                look true ∷ socket datagram fd ∷ freeaddrinfo ∷ [],
                simp append_assoc,
                record { descriptors = rw negative refl; lists = rw negative refl },
              ),
            ))
      | inr valid ↦
          rw (found, valid)
            (Ensures-mono (λ ps. IsLeft calls true) (IsOpen calls fd) (IsGivenUp calls) _
              (λ s open_still. inr (fd, valid, open_still))
              (talk-Ensures calls fd _ valid (record {
                descriptor = refl;
                own = look true ∷ socket datagram fd ∷ [];
                since = append_assoc calls (look true ∷ []) (socket datagram fd ∷ []);
                opened = rw valid refl;
                closed = refl;
                made = refl;
                freed = refl;
              })))
    ]
  ]
    where
      look : Bool → Call
      look found = getaddrinfo url.host (to_string_ℤ (ℤ_of_int url.port)) found

      fd : ℕ
      fd = k.socket_answer (calls ++ look true ∷ [])

  -- Whatever the kernel and the tracker answer, the call returns a list of peers, and has closed every
  -- descriptor that it opened, once and in order. The address list is freed, too, if the body of the `try`
  -- block is completed, or if no socket was opened; otherwise it is not freed.
  pub call_udp-IsLeft :
      (url : Url) (calls : List Call)
      → let body =
          try_udp k tid key url t peer_id port (record { sock = minus_one; calls = calls }) in
        (ps : List Peer) × (s : Scope) × (call_udp k tid key url t peer_id port calls ≡ ok ps s)
        × IsLeft calls (returns body) s
  unfolding call_udp
  call_udp-IsLeft url calls = closed_on_error-IsLeft calls _ (try_udp-Ensures url calls)
