-- ===== src/Common/KeyMap.antt =====
-- Maps keyed by public keys (`DashMap`, `AHashMap`, `HashMap`): an association list in the order of
-- iteration, which no statement depends on.
use Prim.Native.Nat.{ℕ}
use mathlib.Core.Path.{◌≡◌, refl}
use mathlib.Core.Bool.{Bool, true, false}
use mathlib.Core.Option.{Option, none, some}
use mathlib.Core.List.{List, [], ◌∷◌}
use native.Mathlib.Omega.{arith}
use tiny_solana.Common.Tests.{◌==◌, if◌then◌else◌}

abbrev pub KeyMap {ℓ} : Type ℓ → Type ℓ
KeyMap V = List (ℕ × V)

module _ {ℓ} {V : Type ℓ} where
  abbrev pub lookup : ℕ → KeyMap V → Option V
  lookup k [] = none
  lookup k ((j, v) ∷ m) = if k == j then some v else lookup k m

  abbrev pub contains_key : ℕ → KeyMap V → Bool
  contains_key k m = elim (lookup k m) [ none ↦ false | some _ ↦ true ]

  abbrev pub insert : ℕ → V → KeyMap V → KeyMap V
  insert k v [] = (k, v) ∷ []
  insert k v (e ∷ m) = if k == e.0 then (k, v) ∷ m else e ∷ insert k v m

  abbrev pub remove : ℕ → KeyMap V → KeyMap V
  remove k [] = []
  remove k (e ∷ m) = let rest = remove k m in if k == e.0 then rest else e ∷ rest

  pub lookup-insert :
      (j k : ℕ) (v : V) (m : KeyMap V)
      → lookup j (insert k v m) ≡ (if j == k then some v else lookup j m)
  lookup-insert j k v [] = refl
  lookup-insert j k v (e ∷ m) = ground (arith, lookup-insert j k v m)

  pub lookup-remove :
      (j k : ℕ) (m : KeyMap V) → lookup j (remove k m) ≡ (if j == k then none else lookup j m)
  lookup-remove j k [] = ground arith
  lookup-remove j k (e ∷ m) = ground (arith, lookup-remove j k m)

  -- No key is listed twice.
  abbrev pub HasUniqueKeys : KeyMap V → Type ℓ
  HasUniqueKeys [] = Unit
  HasUniqueKeys ((k, v) ∷ m) = (lookup k m ≡ none) × HasUniqueKeys m

  pub insert-HasUniqueKeys :
      (k : ℕ) (v : V) (m : KeyMap V) → HasUniqueKeys m → HasUniqueKeys (insert k v m)
  insert-HasUniqueKeys k v [] h = (refl, tt)
  insert-HasUniqueKeys k v (e ∷ m) h =
      ground (arith, insert-HasUniqueKeys k v m h.1, lookup-insert e.0 k v m)
