-- ===== src/Common/Checked.antt =====
-- `?` and aborts in code that touches no storage: chains of outcomes.
use shard_token.Common.Outcome.{Outcome, ok, err, panic}
use mathlib.Core.Path.{◌≡◌, refl}

infixl 5 ◌>>=◌
abbrev pub ◌>>=◌ : {E A B : Type 0} → Outcome E A → (A → Outcome E B) → Outcome E B
panic >>= next = panic
err e >>= next = err e
ok a >>= next = next a

-- A chain that succeeded went on from a first value.
pub chain_ok :
    {E A B : Type 0} {last : B} (first : Outcome E A) (next : A → Outcome E B)
    → (first >>= next) ≡ ok last
    → (a : A) × (first ≡ ok a) × (next a ≡ ok last)
chain_ok panic next e = cc
chain_ok (err f) next e = cc
chain_ok (ok a) next e = (a, refl, e)
