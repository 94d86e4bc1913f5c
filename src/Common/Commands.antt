-- ===== src/Common/Commands.antt =====
-- Commands over a state that may halt the machine: `died` is a failed `assert` or another call of
-- `die` (util.c), which never returns, `fault` an access or an operation that C does not define, and
-- `blocked` a call that waits for another thread.
use mathlib.Core.Path.{◌≡◌, refl}
use mathlib.Core.Logic.{◌⊎◌, inl, inr}
use mathlib.Core.Bool.{Bool, true, false}

pub data Outcome (S A : Type 0) : Type 0 where
  ok : A → S → Outcome S A
  died : Outcome S A
  fault : Outcome S A
  blocked : Outcome S A

abbrev pub Cmd : Type 0 → Type 0 → Type 0
Cmd S A = S → Outcome S A

abbrev pub pure : {S A : Type 0} → A → Cmd S A
pure a s = ok a s

abbrev pub die : {S A : Type 0} → Cmd S A
die s = died

abbrev pub and_then : {S A B : Type 0} → Outcome S A → (A → Cmd S B) → Outcome S B
and_then (ok a s) k = k a s
and_then died k = died
and_then fault k = fault
and_then blocked k = blocked

infixl 5 ◌>>=◌ ◌>>◌
abbrev pub ◌>>=◌ : {S A B : Type 0} → Cmd S A → (A → Cmd S B) → Cmd S B
◌>>=◌ m k s = and_then (m s) k

abbrev pub ◌>>◌ : {S B : Type 0} → Cmd S (Unit {0}) → Cmd S B → Cmd S B
◌>>◌ m k s = and_then (m s) (λ _. k)

-- The macro `assert` of util.h.
abbrev pub assert : {S : Type 0} → Bool → Cmd S (Unit {0})
assert true s = ok tt s
assert false s = died

abbrev pub when : {S : Type 0} → Bool → Cmd S (Unit {0}) → Cmd S (Unit {0})
when true m s = m s
when false m s = ok tt s

-- A command on a part of a state.
abbrev pub within : {S T A : Type 0} → (S → T) → Outcome S A → Outcome T A
within put (ok a s) = ok a (put s)
within put died = died
within put fault = fault
within put blocked = blocked

-- Total correctness of a run: it returns, and the result and the new state satisfy `P`.
pub data Returns {S A : Type 0} (P : A → S → Type 0) : Outcome S A → Type 0 where
  returns : {a : A} {s : S} → P a s → Returns P (ok a s)

module _ {S A : Type 0} {P : A → S → Type 0} where
  pub Returns-bind :
      {B : Type 0} {Q : B → S → Type 0} {r : Outcome S A} {k : A → Cmd S B}
      → Returns P r
      → ((a : A) (s : S) → P a s → Returns Q (k a s))
      → Returns Q (and_then r k)
  Returns-bind (returns p) next = next _ _ p

  pub Returns-mono :
      {Q : A → S → Type 0} {r : Outcome S A}
      → Returns P r
      → ((a : A) (s : S) → P a s → Q a s)
      → Returns Q r
  Returns-mono (returns p) weaken = returns (weaken _ _ p)

  pub Returns-within :
      {T : Type 0} {Q : A → T → Type 0} {r : Outcome S A} (put : S → T)
      → Returns P r
      → ((a : A) (s : S) → P a s → Q a (put s))
      → Returns Q (within put r)
  Returns-within put (returns p) keep = returns (keep _ _ p)

-- A run that returns so, or halts the machine where `E` allows it. It never ends in a fault.
pub data Ends {S A : Type 0} (E : Type 0) (P : A → S → Type 0) : Outcome S A → Type 0 where
  ends : {a : A} {s : S} → P a s → Ends E P (ok a s)
  dies : E → Ends E P died

module _ {S A E : Type 0} {P : A → S → Type 0} where
  pub Ends-bind :
      {B : Type 0} {Q : B → S → Type 0} {r : Outcome S A} {k : A → Cmd S B}
      → Ends E P r
      → ((a : A) (s : S) → P a s → Ends E Q (k a s))
      → Ends E Q (and_then r k)
  Ends-bind (ends p) next = next _ _ p
  Ends-bind (dies e) next = dies e

  pub Ends-mono :
      {Q : A → S → Type 0} {r : Outcome S A}
      → Ends E P r
      → ((a : A) (s : S) → P a s → Q a s)
      → Ends E Q r
  Ends-mono (ends p) weaken = ends (weaken _ _ p)
  Ends-mono (dies e) weaken = dies e

  pub Ends-within :
      {T : Type 0} {Q : A → T → Type 0} {r : Outcome S A} (put : S → T)
      → Ends E P r
      → ((a : A) (s : S) → P a s → Q a (put s))
      → Ends E Q (within put r)
  Ends-within put (ends p) keep = ends (keep _ _ p)
  Ends-within put (dies e) keep = dies e

-- How a source refuses a request: it halts the machine, or it waits for another thread.
pub data Refusal : Type 0 where
  halts : Refusal
  waits : Refusal

-- A run that draws on a source, whose refusals have the cause `E`: it returns with `P`, or it ends as
-- a refusal of the source does.
pub data Draws {S A : Type 0} (E : Refusal → Type 0) (P : A → S → Type 0)
    : Outcome S A → Type 0 where
  drawn : {a : A} {s : S} → P a s → Draws E P (ok a s)
  halted : E halts → Draws E P died
  waiting : E waits → Draws E P blocked

module _ {S A : Type 0} {E : Refusal → Type 0} {P : A → S → Type 0} where
  pub Draws-bind :
      {B : Type 0} {Q : B → S → Type 0} {r : Outcome S A} {k : A → Cmd S B}
      → Draws E P r
      → ((a : A) (s : S) → P a s → Draws E Q (k a s))
      → Draws E Q (and_then r k)
  Draws-bind (drawn p) next = next _ _ p
  Draws-bind (halted e) next = halted e
  Draws-bind (waiting e) next = waiting e

  pub Draws-mono :
      {Q : A → S → Type 0} {r : Outcome S A}
      → Draws E P r
      → ((a : A) (s : S) → P a s → Q a s)
      → Draws E Q r
  Draws-mono (drawn p) weaken = drawn (weaken _ _ p)
  Draws-mono (halted e) weaken = halted e
  Draws-mono (waiting e) weaken = waiting e

  pub Draws-within :
      {T : Type 0} {Q : A → T → Type 0} {r : Outcome S A} (put : S → T)
      → Draws E P r
      → ((a : A) (s : S) → P a s → Q a (put s))
      → Draws E Q (within put r)
  Draws-within put (drawn p) keep = drawn (keep _ _ p)
  Draws-within put (halted e) keep = halted e
  Draws-within put (waiting e) keep = waiting e

-- What halts the machine is the run itself, or something else that follows.
pub Ends-died :
    {S A E : Type 0} {P : A → S → Type 0} {r : Outcome S A} → Ends E P r → Ends (r ≡ died) P r
Ends-died (ends p) = ends p
Ends-died (dies e) = dies refl

pub Ends-cause :
    {S A E E' : Type 0} {P : A → S → Type 0} {r : Outcome S A} → (E → E') → Ends E P r → Ends E' P r
Ends-cause f (ends p) = ends p
Ends-cause f (dies e) = dies (f e)

pub Ends-cases :
    {S A E : Type 0} {P : A → S → Type 0} {r : Outcome S A}
    → Ends E P r
    → ((r ≡ died) × E) ⊎ ((a : A) × (s : S) × (r ≡ ok a s) × P a s)
Ends-cases (ends p) = inr (_, _, refl, p)
Ends-cases (dies e) = inl (refl, e)

pub Returns-Ends :
    {S A E : Type 0} {P : A → S → Type 0} {r : Outcome S A} → Returns P r → Ends E P r
Returns-Ends (returns p) = ends p

-- What holds of a run if it returns.
abbrev pub IfOk : {S A : Type 0} → (A → S → Type 0) → Outcome S A → Type 0
IfOk P (ok a s) = P a s
IfOk P died = Unit {0}
IfOk P fault = Unit {0}
IfOk P blocked = Unit {0}

pub Returns-IfOk :
    {S A : Type 0} {P Q : A → S → Type 0} {r : Outcome S A}
    → Returns P r
    → IfOk Q r
    → Returns (λ a s. P a s × Q a s) r
Returns-IfOk (returns p) q = returns (p, q)
