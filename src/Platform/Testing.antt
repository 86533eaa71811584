-- ===== src/Platform/Testing.antt =====
-- Unit tests in Rust, as calls on the storage: `unwrap`, `assert_eq!` and the `match` on an error that
-- is expected. A test that fails aborts.
use shard_token.Common.{Bool, true, false, ◌&&◌, ◌==◌, List, [], ◌∷◌, nat_eq, if◌then◌else◌}
use shard_token.Common.Outcome.{ok, err, panic, Action}
use shard_token.Platform.Messages.{Shown, text, number, Attribute}

module _ {S E : Type 0} where
  -- `unwrap` of what a call answers
  abbrev pub unwrap : {A : Type 0} → Action S E A → Action S E A
  unwrap call s =
      let (r, s') = call s in
      elim r [ ok a ↦ (ok a, s') | err _ ↦ (panic, s') | panic ↦ (panic, s') ]

  abbrev pub assert : Bool → Action S E (Unit {0})
  assert c s = (if c then ok tt else panic, s)

  -- `match` with `Err` of one kind, where anything else aborts
  abbrev pub expect_err : {A : Type 0} → (E → Bool) → Action S E A → Action S E (Unit {0})
  expect_err expected call s =
      let (r, s') = call s in
      elim r [
        | ok _ ↦ (panic, s')
        | err e ↦ (if expected e then ok tt else panic, s')
        | panic ↦ (panic, s')
      ]

  -- whether a test gets to its end
  abbrev pub passes : {A : Type 0} → Action S E A → S → Bool
  passes test s = elim (test s).0 [ ok _ ↦ true | err _ ↦ false | panic ↦ false ]

abbrev pub is_nil : {A : Type 0} → List A → Bool
is_nil [] = true
is_nil (_ ∷ _) = false

-- `==` on lists
abbrev pub same_list : {A : Type 0} → (A → A → Bool) → List A → List A → Bool
same_list same [] [] = true
same_list same (x ∷ xs) (y ∷ ys) = same x y && same_list same xs ys
same_list same _ _ = false

abbrev same_shown : Shown → Shown → Bool
same_shown (text a) (text b) = a == b
same_shown (number m) (number n) = nat_eq m n
same_shown _ _ = false

abbrev same_attribute : Attribute → Attribute → Bool
same_attribute a b = a.key == b.key && same_shown a.value b.value

abbrev pub same_attributes : List Attribute → List Attribute → Bool
same_attributes = same_list same_attribute
