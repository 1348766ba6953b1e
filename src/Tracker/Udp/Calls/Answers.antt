-- ===== src/Tracker/Udp/Calls/Answers.antt =====
-- GetPeersUDP over the kernel's calls gives what it gives for the answers that these calls bring.
use node_link.Base.{
  ℕ, ◌≡◌, refl, ap, ◌∙◌, inl, inr, Bool, true, not, ◌&&◌, if◌then◌else◌, List, [], ◌∷◌, ◌++◌, take,
  Option, none, some, M, Result, Outcome, outcome_of, ok, throw, undefined, out_of_fuel, bind,
  then_run, ◌>>=◌, lift_outcome, Bool-cases, Option-cases, ℤ_of_int,
}
use node_link.Parsing.Buffer.{Buffer}
use node_link.Parsing.Text.{to_string_ℤ}
use node_link.Parsing.TorrentFile.{TorrentFile}
use node_link.Tracker.Peer.{Peer}
use node_link.Tracker.Url.{Url}
use node_link.Tracker.Udp.{
  Answer, refused, timed_out, answered, response, or_empty, connect_request, read_connect,
  announce_request, read_announce, announce, get_peers_udp,
}
use node_link.Tracker.Transport.{
  datagram, Call, getaddrinfo, socket, setsockopt, sendto, recvfrom, Kernel, is_negative,
}
use node_link.Tracker.Udp.Calls.{
  Scope, look_up, open_socket, send_to, receive_from, closed_on_error, connect_step, announce_step,
  talk, try_udp, call_udp,
}

abbrev answer_of : Option Buffer → Answer
answer_of none = timed_out
answer_of (some bytes) = answered bytes

-- What becomes of a datagram that is sent after the calls `cs`.
abbrev pub answer_to : Kernel → List Call → ℕ → Buffer → Answer
answer_to k cs fd bytes =
    if k.takes cs then answer_of (k.recv_answer (cs ++ sendto fd bytes ∷ [])) else refused

abbrev pub asked : ℕ → Buffer → List Call → List Call
asked fd bytes cs = (cs ++ sendto fd bytes ∷ []) ++ recvfrom fd 1024 ∷ []

abbrev pub looked_up : Url → List Call → List Call
looked_up url calls = calls ++ getaddrinfo url.host (to_string_ℤ (ℤ_of_int url.port)) true ∷ []

abbrev pub descriptor : Kernel → Url → List Call → ℕ
descriptor k url calls = k.socket_answer (looked_up url calls)

abbrev pub is_reachable : Kernel → Url → List Call → Bool
is_reachable k url calls = k.resolves calls && not (is_negative (descriptor k url calls))

-- The calls up to the first datagram.
abbrev pub calls_before : Kernel → Url → List Call → List Call
calls_before k url calls =
    let fd = descriptor k url calls in
    (looked_up url calls ++ socket datagram fd ∷ []) ++ setsockopt fd 2 ∷ []

lift_outcome_then :
    {A B : Type 0} (r : Outcome A) (s : Scope) (after : A → M Scope B) (g : A → Outcome B)
    → ((a : A) → outcome_of (after a s) ≡ g a)
    → outcome_of (then_run (lift_outcome r s) after) ≡ bind r g
lift_outcome_then (ok a) s after g h = h a
lift_outcome_then (throw e) s after g h = refl
lift_outcome_then undefined s after g h = refl
lift_outcome_then out_of_fuel s after g h = refl

-- A datagram, its answer, what is read from it, and what is done then.
ask_lem :
    {A B : Type 0} (k : Kernel) (bytes : Buffer) (f : Buffer → Outcome A) (s : Scope)
    (after : A → M Scope B) (g : A → Outcome B)
    → ((a : A) → outcome_of (after a (record s { calls = asked s.sock bytes s.calls })) ≡ g a)
    → outcome_of (
        then_run
          (then_run (send_to k bytes s) (λ u. receive_from k >>= λ b. lift_outcome (f b)))
          after)
      ≡ bind (bind (response (answer_to k s.calls s.sock bytes)) f) g
unfolding send_to receive_from
ask_lem k bytes f s after g h = elim (Bool-cases (k.takes s.calls)) [
  | inr unsent ↦ rw unsent refl
  | inl taken ↦ elim (Option-cases (k.recv_answer (s.calls ++ sendto s.sock bytes ∷ []))) [
    | inl lost ↦ rw (taken, lost) refl
    | inr (b, came) ↦ rw (taken, came) (lift_outcome_then (f (take 1024 b)) _ after g h)
  ]
]

bind_ok : {A : Type 0} (r : Outcome A) → bind r ok ≡ r
bind_ok (ok a) = refl
bind_ok (throw e) = refl
bind_ok undefined = refl
bind_ok out_of_fuel = refl

closed_on_error-outcome_of :
    (r : Result Scope (List Peer)) → outcome_of (closed_on_error r) ≡ or_empty (outcome_of r)
unfolding closed_on_error
closed_on_error-outcome_of (ok ps s) = refl
closed_on_error-outcome_of (throw e s) = elim (Bool-cases (is_negative s.sock)) [
  | inl negative ↦ rw negative refl
  | inr valid ↦ rw valid refl
]
closed_on_error-outcome_of undefined = refl
closed_on_error-outcome_of out_of_fuel = refl

module _ (k : Kernel) (tid key : ℕ) (t : TorrentFile) (peer_id : Buffer) (port : ℕ) where
  talk_lem :
      (s : Scope)
      → let cs = s.calls ++ setsockopt s.sock 2 ∷ [] in
        outcome_of (talk k tid key t peer_id port s)
        ≡ bind (bind (response (answer_to k cs s.sock (connect_request tid))) (read_connect tid)) (
            announce true
              (answer_to k cs s.sock)
              (answer_to k (asked s.sock (connect_request tid) cs) s.sock)
              tid
              key
              t
              peer_id
              port)
  unfolding talk connect_step announce_step announce
  talk_lem s = ask_lem k (connect_request tid) (read_connect tid) _ _ _ λ cid.
      ask_lem k (announce_request cid tid key t peer_id port) read_announce _ _ ok (λ ps. refl)
      ∙ bind_ok _

  -- Over any kernel, the call gives the peers that `get_peers_udp` gives for the answers that the kernel's
  -- calls bring to its two datagrams, where the tracker is reachable if its name is resolved and a socket is
  -- there.
  pub call_udp-get_peers_udp :
      (url : Url) (calls : List Call)
      → let fd = descriptor k url calls in
        let cs = calls_before k url calls in
        outcome_of (call_udp k tid key url t peer_id port calls)
        ≡ get_peers_udp
            (is_reachable k url calls)
            (answer_to k cs fd)
            (answer_to k (asked fd (connect_request tid) cs) fd)
            tid
            key
            t
            peer_id
            port
  unfolding call_udp try_udp look_up open_socket get_peers_udp
  call_udp-get_peers_udp url calls =
      closed_on_error-outcome_of _
      ∙ ap or_empty (elim (Bool-cases (k.resolves calls)) [
        | inr unknown ↦ rw unknown refl
        | inl found ↦ elim (Bool-cases (is_negative (descriptor k url calls))) [
          | inl negative ↦ rw (found, negative) refl
          | inr valid ↦ rw (found, valid) (talk_lem _)
        ]
      ])
