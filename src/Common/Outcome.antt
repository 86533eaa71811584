-- ===== src/Common/Outcome.antt =====
-- How a call of a contract ends, and calls as functions on the contract's storage. The storage
-- comes back after an error too: what was written before stays written until the host discards it.
use shard_token.Common.Tests.{if◌then◌else◌}
use mathlib.Core.Path.{◌≡◌, refl, ap}
use mathlib.Core.Bool.{Bool, true, false}
use mathlib.Core.Option.{Option, none, some}

-- `panic` is an abort: an overflow, an index out of range, `unwrap` or `expect` on nothing.
pub data Outcome (E A : Type 0) : Type 0 where
  ok : A → Outcome E A
  err : E → Outcome E A
  panic : Outcome E A

-- The three ways in which a computed outcome can end, with the equation.
pub data Ends {E A : Type 0} (o : Outcome E A) : Type 0 where
  known : (a : A) → o ≡ ok a → Ends o
  failed : (e : E) → o ≡ err e → Ends o
  aborted : o ≡ panic → Ends o

pub Outcome-cases : {E A : Type 0} (o : Outcome E A) → Ends o
Outcome-cases (ok a) = known a refl
Outcome-cases (err e) = failed e refl
Outcome-cases panic = aborted refl

-- An outcome has one value.
pub same_value : {E A : Type 0} {o : Outcome E A} {a b : A} → o ≡ ok a → o ≡ ok b → a ≡ b
same_value e e' = cc (e, e')

abbrev pub Action : Type 0 → Type 0 → Type 0 → Type 0
Action S E A = S → Outcome E A × S

-- `map_err` for the conversion that `?` makes between error types
abbrev pub map_err : {E F A : Type 0} → (E → F) → Outcome E A → Outcome F A
map_err f (ok a) = ok a
map_err f (err e) = err (f e)
map_err f panic = panic

-- `?` outside of any storage
abbrev pub and_then : {E A B : Type 0} → Outcome E A → (A → Outcome E B) → Outcome E B
and_then (ok a) f = f a
and_then (err e) f = err e
and_then panic f = panic

-- an operation of which nothing but a value or an abort comes
abbrev pub or_panic : {E A : Type 0} → Option A → Outcome E A
or_panic none = panic
or_panic (some a) = ok a

module _ {S E : Type 0} where
  module _ {A : Type 0} where
    abbrev pub pure : A → Action S E A
    pure a s = (ok a, s)

    abbrev pub raise : E → Action S E A
    raise e s = (err e, s)

    abbrev pub lift : Outcome E A → Action S E A
    lift r s = (r, s)

    abbrev pub gets : (S → A) → Action S E A
    gets f s = (ok (f s), s)

  abbrev pub modify : (S → S) → Action S E (Unit {0})
  modify f s = (ok tt, f s)

  abbrev pub raise_if : Bool → E → Action S E (Unit {0})
  raise_if c e s = (if c then err e else ok tt, s)

infixl 5 ◌>>=◌ ◌>>◌
abbrev pub ◌>>=◌ : {S E A B : Type 0} → Action S E A → (A → Action S E B) → Action S E B
◌>>=◌ m f s =
    let (r, s') = m s in elim r [ ok a ↦ f a s' | err e ↦ (err e, s') | panic ↦ (panic, s') ]

abbrev pub ◌>>◌ : {S E A B : Type 0} → Action S E A → Action S E B → Action S E B
m >> k = m >>= λ _. k

-- A call that succeeded went on from the value of its first step, where that step leaves the
-- storage alone.
pub with_ok :
    {S E A B P : Type 0} (r : Outcome E A) (f : A → Outcome E B × S) (s : S) {b : B} {s' : S}
    → (elim r [ ok a ↦ f a | err e ↦ (err e, s) | panic ↦ (panic, s) ]) ≡ (ok b, s')
    → ((a : A) → r ≡ ok a → f a ≡ (ok b, s') → P)
    → P
with_ok (ok a) f s h go = go a refl h
with_ok (err e) f s h go = cc (ap (λ p. p.0) h)
with_ok panic f s h go = cc (ap (λ p. p.0) h)

-- The same for a guard.
pub with_guard :
    {S E B P : Type 0} (c : Bool) (e : E) (k : Outcome E B × S) (s : S) {b : B} {s' : S}
    → (raise_if c e >> (λ _. k)) s ≡ (ok b, s')
    → (c ≡ false → k ≡ (ok b, s') → P)
    → P
with_guard true e k s h go = cc (ap (λ p. p.0) h)
with_guard false e k s h go = go refl h

-- The same for a first step that may change the storage.
pub with_first :
    {S E A B P : Type 0} (q : Outcome E A × S) (f : A → S → Outcome E B × S) {b : B} {s' : S}
    → (elim q.0 [ ok a ↦ f a q.1 | err e ↦ (err e, q.1) | panic ↦ (panic, q.1) ]) ≡ (ok b, s')
    → ((a : A) (s : S) → q ≡ (ok a, s) → f a s ≡ (ok b, s') → P)
    → P
with_first (ok a, s) f h go = go a s refl h
with_first (err e, s) f h go = cc (ap (λ p. p.0) h)
with_first (panic, s) f h go = cc (ap (λ p. p.0) h)
