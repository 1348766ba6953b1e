-- ===== src/Download/Farm/Starting.antt =====
-- The epoll descriptor of Farm.cpp, from its constructor in `Start` to its destructor.
use node_link.Base.{
  ℕ, ◌^◌, ◌≡◌, refl, sym, subst, ap, ◌∙◌, Bool, true, false, List, [], ◌∷◌, take, length, Option,
  Result, ok, throw, undefined, out_of_fuel, runtime_error, Keeps, Keeps-mono, if◌then◌else◌, leb,
}
use node_link.Download.Downloader.{Downloader}
use node_link.Download.Farm.{
  Farm, Wait, new_farm, closed_by_farm, run, started, start, start_download,
}
use node_link.Download.Farm.Keeping.{run-Keeps, add_connections-epfd}

-- The farm without connections.
abbrev pub empty_farm : ℕ → Downloader → Farm
empty_farm epfd d = record { epfd = epfd; downloader = started d; connections = [] }

pub start_download_lem :
    (epfd : ℕ) (accepts : ℕ → ℕ → Bool) (opens : ℕ → Option ℕ × Bool) (waits : List Wait)
    (d : Downloader)
    → leb (2 ^ 31) epfd ≡ false
    → start_download epfd accepts opens waits d ≡ run accepts waits (start epfd opens d)
unfolding start_download new_farm start
start_download_lem epfd accepts opens waits d valid = rw valid refl

-- Without an epoll instance no connection is attempted.
pub start_download_refused :
    (epfd : ℕ) (accepts : ℕ → ℕ → Bool) (opens : ℕ → Option ℕ × Bool) (waits : List Wait)
    (d : Downloader)
    → leb (2 ^ 31) epfd ≡ true
    → start_download epfd accepts opens waits d ≡ throw runtime_error (empty_farm epfd d)
unfolding start_download new_farm
start_download_refused epfd accepts opens waits d negative = rw negative refl

start-epfd :
    (epfd : ℕ) (opens : ℕ → Option ℕ × Bool) (d : Downloader) → (start epfd opens d).epfd ≡ epfd
unfolding start
start-epfd epfd opens d = add_connections-epfd opens 0 (take 5 d.peers) (empty_farm epfd d)

Keeps-nothing : {S A : Type 0} (r : Result S A) → Keeps (λ s. Unit {0}) r
Keeps-nothing (ok a s) = tt
Keeps-nothing (throw e s) = tt
Keeps-nothing undefined = tt
Keeps-nothing out_of_fuel = tt

closed_by_farm_lem :
    (f : Farm) (epfd : ℕ) → f.epfd ≡ epfd → leb (2 ^ 31) epfd ≡ false → closed_by_farm f ≡ epfd ∷ []
unfolding closed_by_farm
closed_by_farm_lem f epfd same valid =
    ap (λ n. if leb (2 ^ 31) n then [] else n ∷ []) same ∙ rw valid refl

-- With an epoll instance, whatever the peers send and the kernel answers, the farm that the download leaves,
-- by the end of its loop or by an exception, closes the descriptor of that instance and no other.
pub start_download_closes :
    (epfd : ℕ) (accepts : ℕ → ℕ → Bool) (opens : ℕ → Option ℕ × Bool) (waits : List Wait)
    (d : Downloader)
    → leb (2 ^ 31) epfd ≡ false
    → Keeps (λ f. closed_by_farm f ≡ epfd ∷ []) (start_download epfd accepts opens waits d)
start_download_closes epfd accepts opens waits d valid =
    let f = start epfd opens d in
    subst (Keeps (λ g. closed_by_farm g ≡ epfd ∷ []))
      (sym (start_download_lem epfd accepts opens waits d valid))
      (Keeps-mono _ (λ g. closed_by_farm g ≡ epfd ∷ []) (run accepts waits f)
        (λ g h. closed_by_farm_lem g epfd h.2 valid)
        (run-Keeps (λ e. Unit {0}) (λ e i offset b h. Keeps-nothing _) (λ e h. Keeps-nothing _)
          (length f.connections) epfd accepts waits f (tt, refl, start-epfd epfd opens d)))
