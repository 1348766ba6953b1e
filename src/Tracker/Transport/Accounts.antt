-- ===== src/Tracker/Transport/Accounts.antt =====
-- The accounts of a list of system calls of source/tracker: the descriptors that it opens and closes, and the
-- address lists that it makes and frees.
use node_link.Base.{
  ℕ, ◌+◌, ◌≡◌, refl, sym, ap, ◌∙◌, true, if◌then◌else◌, List, [], ◌∷◌, ◌++◌, append_assoc, arith,
}
use node_link.Tracker.Transport.{Call, getaddrinfo, freeaddrinfo, socket, close, is_negative}

abbrev pub opened_by : Call → List ℕ
opened_by (socket kind fd) = if is_negative fd then [] else fd ∷ []
opened_by _ = []

abbrev pub closed_by : Call → List ℕ
closed_by (close fd) = fd ∷ []
closed_by _ = []

abbrev pub made_by : Call → ℕ
made_by (getaddrinfo host service true) = 1
made_by _ = 0

abbrev pub freed_by : Call → ℕ
freed_by freeaddrinfo = 1
freed_by _ = 0

-- The descriptors that the calls give, in order.
abbrev pub opens : List Call → List ℕ
opens [] = []
opens (c ∷ cs) = opened_by c ++ opens cs

-- The descriptors that are given to `close`, in order.
abbrev pub closes : List Call → List ℕ
closes [] = []
closes (c ∷ cs) = closed_by c ++ closes cs

abbrev pub lists_made : List Call → ℕ
lists_made [] = 0
lists_made (c ∷ cs) = made_by c + lists_made cs

abbrev pub lists_freed : List Call → ℕ
lists_freed [] = 0
lists_freed (c ∷ cs) = freed_by c + lists_freed cs

pub opens-append : (cs ds : List Call) → opens (cs ++ ds) ≡ opens cs ++ opens ds
opens-append [] ds = refl
opens-append (c ∷ cs) ds =
    ap (λ l. opened_by c ++ l) (opens-append cs ds)
    ∙ sym (append_assoc (opened_by c) (opens cs) (opens ds))

pub closes-append : (cs ds : List Call) → closes (cs ++ ds) ≡ closes cs ++ closes ds
closes-append [] ds = refl
closes-append (c ∷ cs) ds =
    ap (λ l. closed_by c ++ l) (closes-append cs ds)
    ∙ sym (append_assoc (closed_by c) (closes cs) (closes ds))

pub lists_made-append : (cs ds : List Call) → lists_made (cs ++ ds) ≡ lists_made cs + lists_made ds
lists_made-append [] ds = omega arith
lists_made-append (c ∷ cs) ds = omega (arith, lists_made-append cs ds)

pub lists_freed-append :
    (cs ds : List Call) → lists_freed (cs ++ ds) ≡ lists_freed cs + lists_freed ds
lists_freed-append [] ds = omega arith
lists_freed-append (c ∷ cs) ds = omega (arith, lists_freed-append cs ds)
