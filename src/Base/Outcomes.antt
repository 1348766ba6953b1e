-- ===== src/Base/Outcomes.antt =====
-- What a C++ call ends in: a value, an exception, or undefined behaviour; and the monad of code
-- that also changes a state. An exception keeps the changes that were made before it was thrown.
use mathlib.Core.Path.{◌≡◌, refl}
use mathlib.Core.Bool.{Bool, true, false}
use mathlib.Core.Option.{Option, none, some}

-- The standard exceptions that the code throws or lets through.
pub data Exception : Type 0 where
  runtime_error out_of_range invalid_argument length_error : Exception

-- `undefined` is undefined behaviour. `out_of_fuel` has no counterpart in the program.
pub data Outcome {ℓ} (A : Type ℓ) : Type ℓ where
  ok : A → Outcome A
  throw : Exception → Outcome A
  undefined out_of_fuel : Outcome A

abbrev pub bind {ℓ κ} : {A : Type ℓ} {B : Type κ} → Outcome A → (A → Outcome B) → Outcome B
bind (ok a) f = f a
bind (throw e) f = throw e
bind undefined f = undefined
bind out_of_fuel f = out_of_fuel

pub data Result (S : Type 0) (A : Type 0) : Type 0 where
  ok : A → S → Result S A
  throw : Exception → S → Result S A
  undefined out_of_fuel : Result S A

abbrev pub M : Type 0 → Type 0 → Type 0
M S A = S → Result S A

abbrev pub then_run : {S A B : Type 0} → Result S A → (A → M S B) → Result S B
then_run (ok a s) f = f a s
then_run (throw e s) f = throw e s
then_run undefined f = undefined
then_run out_of_fuel f = out_of_fuel

infixl 5 ◌>>=◌ ◌>>◌
abbrev pub ◌>>=◌ : {S A B : Type 0} → M S A → (A → M S B) → M S B
◌>>=◌ m f s = then_run (m s) f

abbrev pub ◌>>◌ : {S B : Type 0} → M S (Unit {0}) → M S B → M S B
m >> k = m >>= λ _. k

abbrev pub pure : {S A : Type 0} → A → M S A
pure a s = ok a s

-- The code in a `do` block, run on a state.
abbrev pub run_on : {S A : Type 0} → S → M S A → Result S A
run_on s m = m s

-- A call that changes no state.
abbrev pub lift_outcome : {S A : Type 0} → Outcome A → S → Result S A
lift_outcome (ok a) s = ok a s
lift_outcome (throw e) s = throw e s
lift_outcome undefined s = undefined
lift_outcome out_of_fuel s = out_of_fuel

-- A method of a part of the state.
abbrev pub map_state : {S T A : Type 0} → (S → T) → Result S A → Result T A
map_state put (ok a s) = ok a (put s)
map_state put (throw e s) = throw e (put s)
map_state put undefined = undefined
map_state put out_of_fuel = out_of_fuel

-- `undefined` where an access is out of range.
abbrev pub in_range {ℓ} : {A : Type ℓ} → Option A → Outcome A
in_range none = undefined
in_range (some a) = ok a

-- `P` holds of the state that a call ends in, by a value or by an exception.
abbrev pub Keeps : {S A : Type 0} → (S → Type 0) → Result S A → Type 0
Keeps P (ok a s) = P s
Keeps P (throw e s) = P s
Keeps P undefined = Unit
Keeps P out_of_fuel = Unit

pub Keeps-then_run :
    {S A B : Type 0} (P : S → Type 0) (Q : S → Type 0) (r : Result S A) (f : A → M S B)
    → ((s : S) → P s → Q s)
    → Keeps P r
    → ((a : A) (s : S) → P s → Keeps Q (f a s))
    → Keeps Q (then_run r f)
Keeps-then_run P Q (ok a s) f weaken h k = k a s h
Keeps-then_run P Q (throw e s) f weaken h k = weaken s h
Keeps-then_run P Q undefined f weaken h k = tt
Keeps-then_run P Q out_of_fuel f weaken h k = tt

pub Keeps-lift_outcome :
    {S A : Type 0} (P : S → Type 0) (r : Outcome A) (s : S) → P s → Keeps P (lift_outcome r s)
Keeps-lift_outcome P (ok a) s h = h
Keeps-lift_outcome P (throw e) s h = h
Keeps-lift_outcome P undefined s h = tt
Keeps-lift_outcome P out_of_fuel s h = tt

pub Keeps-mono :
    {S A : Type 0} (P : S → Type 0) (Q : S → Type 0) (r : Result S A)
    → ((s : S) → P s → Q s)
    → Keeps P r
    → Keeps Q r
Keeps-mono P Q (ok a s) f h = f s h
Keeps-mono P Q (throw e s) f h = f s h
Keeps-mono P Q undefined f h = tt
Keeps-mono P Q out_of_fuel f h = tt

-- The call ends, in a value of which `P` holds or in an exception.
abbrev pub Returns {ℓ} : {A : Type ℓ} → (A → Type 0) → Outcome A → Type 0
Returns P (ok a) = P a
Returns P (throw e) = Unit
Returns P undefined = ⊥
Returns P out_of_fuel = ⊥

pub Returns-bind {ℓ κ} :
    {A : Type ℓ} {B : Type κ} (P : A → Type 0) (Q : B → Type 0) (r : Outcome A) (f : A → Outcome B)
    → Returns P r
    → ((a : A) → P a → Returns Q (f a))
    → Returns Q (bind r f)
Returns-bind P Q (ok a) f h k = k a h
Returns-bind P Q (throw e) f h k = tt
Returns-bind P Q undefined f h k = h
Returns-bind P Q out_of_fuel f h k = h

pub Returns-mono {ℓ} :
    {A : Type ℓ} (P : A → Type 0) (Q : A → Type 0) (r : Outcome A)
    → Returns P r
    → ((a : A) → P a → Q a)
    → Returns Q r
Returns-mono P Q (ok a) h k = k a h
Returns-mono P Q (throw e) h k = tt
Returns-mono P Q undefined h k = h
Returns-mono P Q out_of_fuel h k = h

-- `P` holds of the value, if the call returns one.
abbrev pub Yields {ℓ} : {A : Type ℓ} → (A → Type 0) → Outcome A → Type 0
Yields P (ok a) = P a
Yields P (throw e) = Unit
Yields P undefined = Unit
Yields P out_of_fuel = Unit

pub Yields-bind {ℓ κ} :
    {A : Type ℓ} {B : Type κ} (Q : B → Type 0) (r : Outcome A) (f : A → Outcome B)
    → ((a : A) → r ≡ ok a → Yields Q (f a))
    → Yields Q (bind r f)
Yields-bind Q (ok a) f k = k a refl
Yields-bind Q (throw e) f k = tt
Yields-bind Q undefined f k = tt
Yields-bind Q out_of_fuel f k = tt

abbrev pub outcome_of : {S A : Type 0} → Result S A → Outcome A
outcome_of (ok a s) = ok a
outcome_of (throw e s) = throw e
outcome_of undefined = undefined
outcome_of out_of_fuel = out_of_fuel

abbrev pub returns : {S A : Type 0} → Result S A → Bool
returns (ok a s) = true
returns r = false

-- The call ends, in a value and a state of which `P` holds, or in an exception that leaves a state of which
-- `Q` holds.
abbrev pub Ensures : {S A : Type 0} → (A → S → Type 0) → (S → Type 0) → Result S A → Type 0
Ensures P Q (ok a s) = P a s
Ensures P Q (throw e s) = Q s
Ensures P Q undefined = ⊥
Ensures P Q out_of_fuel = ⊥

pub Ensures-then_run :
    {S A B : Type 0} (P : A → S → Type 0) (R : B → S → Type 0) (Q : S → Type 0) (r : Result S A)
    (f : A → M S B)
    → Ensures P Q r
    → ((a : A) (s : S) → P a s → Ensures R Q (f a s))
    → Ensures R Q (then_run r f)
Ensures-then_run P R Q (ok a s) f h k = k a s h
Ensures-then_run P R Q (throw e s) f h k = h
Ensures-then_run P R Q undefined f h k = h
Ensures-then_run P R Q out_of_fuel f h k = h

pub Ensures-lift_outcome :
    {S A : Type 0} (P : A → Type 0) (Q : S → Type 0) (r : Outcome A) (s : S)
    → Returns P r
    → Q s
    → Ensures (λ a. Q) Q (lift_outcome r s)
Ensures-lift_outcome P Q (ok a) s h q = q
Ensures-lift_outcome P Q (throw e) s h q = q
Ensures-lift_outcome P Q undefined s h q = h
Ensures-lift_outcome P Q out_of_fuel s h q = h

pub Ensures-mono :
    {S A : Type 0} (P : A → S → Type 0) (Q Q' : S → Type 0) (r : Result S A)
    → ((s : S) → Q s → Q' s)
    → Ensures P Q r
    → Ensures P Q' r
Ensures-mono P Q Q' (ok a s) f h = h
Ensures-mono P Q Q' (throw e s) f h = f s h
Ensures-mono P Q Q' undefined f h = h
Ensures-mono P Q Q' out_of_fuel f h = h

-- `P` holds of the value and the state that a call returns, and `Q` of the state that an exception leaves.
abbrev pub Leaves : {S A : Type 0} → (A → S → Type 0) → (S → Type 0) → Result S A → Type 0
Leaves P Q (ok a s) = P a s
Leaves P Q (throw e s) = Q s
Leaves P Q undefined = Unit
Leaves P Q out_of_fuel = Unit

pub Leaves-then_run :
    {S A B : Type 0} (P : A → S → Type 0) (R : B → S → Type 0) (Q : S → Type 0) (r : Result S A)
    (f : A → M S B)
    → Leaves P Q r
    → ((a : A) (s : S) → P a s → Leaves R Q (f a s))
    → Leaves R Q (then_run r f)
Leaves-then_run P R Q (ok a s) f h k = k a s h
Leaves-then_run P R Q (throw e s) f h k = h
Leaves-then_run P R Q undefined f h k = tt
Leaves-then_run P R Q out_of_fuel f h k = tt
