-- ===== src/Tracker/Transport/Life.antt =====
-- The descriptors and address lists that a client of source/tracker/transport.cpp acquires and gives
-- back, from its constructor to its destructor.
use node_link.Base.{
  ℕ, ◌+◌, ◌≡◌, refl, ap, ◌∙◌, Bool, true, false, if◌then◌else◌, List, [], ◌∷◌, ◌++◌, append_assoc,
  Result, returns, ok, throw, undefined, out_of_fuel, ℤ_of_int, Bool-cases, inl, inr, ◌⊎◌,
}
use node_link.Parsing.Buffer.{Buffer}
use node_link.Parsing.Text.{to_string_ℤ}
use node_link.Tracker.Transport.{
  Kind, stream, datagram, Call, getaddrinfo, freeaddrinfo, socket, connect, close, Kernel, Process,
  is_negative, destroy, resolve, create_socket, connect_socket, new_client,
}
use node_link.Tracker.Transport.Accounts.{opens, closes, lists_made, lists_freed}

abbrev pub was_refused : List Call → Bool
was_refused [] = false
was_refused (connect fd false ∷ cs) = true
was_refused (_ ∷ cs) = was_refused cs

-- All calls until the client is destroyed. One whose constructor throws is gone with it.
abbrev pub calls_of_life : Result Process (Unit {0}) → List Call
calls_of_life (ok a p) = (destroy p).calls
calls_of_life (throw e p) = p.calls
calls_of_life undefined = []
calls_of_life out_of_fuel = []

-- What is closed once too often.
abbrev pub closed_again : Kind → List Call → List ℕ
closed_again kind cs = if was_refused cs then of_kind kind else []
  where
    of_kind : Kind → List ℕ
    of_kind stream = opens cs
    of_kind datagram = []

-- The accounts of a life with these calls.
pub record IsAccounted (kind : Kind) (returned : Bool) (own : List Call) : Type 0 where
  pub descriptors : closes own ≡ opens own ++ closed_again kind own
  pub lists : lists_made own ≡ lists_freed own + (if returned then 0 else lists_made own)

Kind-cases : (kind : Kind) → (kind ≡ stream) ⊎ (kind ≡ datagram)
Kind-cases stream = inl refl
Kind-cases datagram = inr refl

pub destroy_closes :
    (p : Process)
    → is_negative p.client.sock ≡ false
    → destroy p ≡ record p { calls = p.calls ++ close p.client.sock ∷ [] }
unfolding destroy
destroy_closes p valid = rw valid refl

-- A client that is constructed, if it can be, and then destroyed, closes the descriptor that it opened
-- once, except that a TCP client whose connection is refused closes it twice. Each address list that was
-- made is freed if the constructor returns, and none if it throws.
pub client_life :
    (k : Kernel) (kind : Kind) (host : Buffer) (port : ℕ) (calls : List Call)
    → (own : List Call) × (calls_of_life (new_client k kind host port calls) ≡ calls ++ own)
      × IsAccounted kind (returns (new_client k kind host port calls)) own
unfolding new_client resolve create_socket connect_socket destroy
client_life k kind host port calls = elim (Bool-cases (k.resolves calls)) [
  | inr unknown ↦
      (look false ∷ [], rw unknown refl, rw unknown (record { descriptors = refl; lists = refl }))
  | inl found ↦ elim (Bool-cases (is_negative fd)) [
    | inl negative ↦ (
      look true ∷ socket kind fd ∷ [],
      rw (found, negative, negative) (simp append_assoc),
      rw (found, negative) (record { descriptors = rw negative refl; lists = refl }),
    )
    | inr valid ↦
        elim (Bool-cases (k.connects ((calls ++ look true ∷ []) ++ socket kind fd ∷ []))) [
          | inl connected ↦ (
            look true ∷ socket kind fd ∷ connect fd true ∷ freeaddrinfo ∷ close fd ∷ [],
            rw (found, valid, connected)
                (ap (λ q. q.calls) (destroy_closes _ valid) ∙ simp append_assoc),
            rw (found, valid, connected) (record { descriptors = rw valid refl; lists = refl }),
          )
          | inr refused ↦ elim (Kind-cases kind) [
            | inl e ↦ (
              look true ∷ socket kind fd ∷ connect fd false ∷ close fd ∷ close fd ∷ [],
              rw (found, valid, refused, e)
                  (ap (λ q. q.calls) (destroy_closes _ valid) ∙ simp append_assoc),
              rw (found, valid, refused, e) (record { descriptors = rw valid refl; lists = refl }),
            )
            | inr e ↦ (
              look true ∷ socket kind fd ∷ connect fd false ∷ close fd ∷ [],
              rw (found, valid, refused, e)
                  (ap (λ q. q.calls) (destroy_closes _ valid) ∙ simp append_assoc),
              rw (found, valid, refused, e) (record { descriptors = rw valid refl; lists = refl }),
            )
          ]
        ]
  ]
]
  where
    look : Bool → Call
    look found = getaddrinfo host (to_string_ℤ (ℤ_of_int port)) found

    fd : ℕ
    fd = k.socket_answer (calls ++ look true ∷ [])
