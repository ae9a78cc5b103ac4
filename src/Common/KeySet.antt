-- ===== src/Common/KeySet.antt =====
-- `BTreeSet<Pubkey>`: a list of keys in ascending order, without repetitions. A key is the number
-- whose big-endian digits are its bytes, so the order of arrays is the order of numbers.
use Prim.Native.Nat.{ℕ, ◌<◌, ◌≤◌}
use mathlib.Core.Path.{◌≡◌, refl}
use mathlib.Core.Bool.{Bool, true, false, ◌||◌}
use mathlib.Core.List.{List, [], ◌∷◌}
use native.Mathlib.Omega.{arith}
use tiny_solana.Common.Tests.{ltb, ◌==◌, if◌then◌else◌}

abbrev pub contains : ℕ → List ℕ → Bool
contains k [] = false
contains k (x ∷ s) = if k == x then true else contains k s

abbrev pub insert : ℕ → List ℕ → List ℕ
insert k [] = k ∷ []
insert k (x ∷ s) = if k == x then x ∷ s else if ltb k x then k ∷ x ∷ s else x ∷ insert k s

-- `set.remove(key)`
abbrev pub remove : ℕ → List ℕ → List ℕ
remove k [] = []
remove k (x ∷ s) = let rest = remove k s in if k == x then rest else x ∷ rest

-- Whether a key of the first list is in the second: `a.iter().any(|key| b.contains(key))`.
abbrev pub meets : List ℕ → List ℕ → Bool
meets [] b = false
meets (x ∷ a) b = contains x b || meets a b

pub contains-insert :
    (j k : ℕ) (s : List ℕ) → contains j (insert k s) ≡ (if j == k then true else contains j s)
contains-insert j k [] = refl
contains-insert j k (x ∷ s) = ground (arith, contains-insert j k s)

-- Above a bound and ascending.
abbrev pub IsAbove : ℕ → List ℕ → Type 0
IsAbove n [] = Unit
IsAbove n (x ∷ s) = (n < x) × IsAbove x s

abbrev pub IsAscending : List ℕ → Type 0
IsAscending [] = Unit
IsAscending (x ∷ s) = IsAbove x s

insert-IsAbove : (n k : ℕ) (s : List ℕ) → n < k → IsAbove n s → IsAbove n (insert k s)
insert-IsAbove n k [] lt h = (lt, tt)
insert-IsAbove n k (x ∷ s) lt h = ground (arith, insert-IsAbove x k s)

pub insert-IsAscending : (k : ℕ) (s : List ℕ) → IsAscending s → IsAscending (insert k s)
insert-IsAscending k [] h = tt
insert-IsAscending k (x ∷ s) h = ground (arith, insert-IsAbove x k s)

pub IsAbove-not_contains : (n k : ℕ) (s : List ℕ) → IsAbove n s → k ≤ n → contains k s ≡ false
IsAbove-not_contains n k [] h le = refl
IsAbove-not_contains n k (x ∷ s) h le = ground (arith, IsAbove-not_contains x k s)

pub contains-remove :
    (j k : ℕ) (s : List ℕ) → contains j (remove k s) ≡ (if j == k then false else contains j s)
contains-remove j k [] = ground arith
contains-remove j k (x ∷ s) = ground (arith, contains-remove j k s)

-- No key is listed twice.
abbrev pub IsNodup : List ℕ → Type 0
IsNodup [] = Unit
IsNodup (x ∷ s) = (contains x s ≡ false) × IsNodup s

IsAbove-IsNodup : (n : ℕ) (s : List ℕ) → IsAbove n s → IsNodup s
IsAbove-IsNodup n [] h = tt
IsAbove-IsNodup n (x ∷ s) h =
    (IsAbove-not_contains x x s h.1 (omega arith), IsAbove-IsNodup x s h.1)

pub IsAscending-IsNodup : (s : List ℕ) → IsAscending s → IsNodup s
IsAscending-IsNodup [] h = tt
IsAscending-IsNodup (x ∷ s) h = (IsAbove-not_contains x x s h (omega arith), IsAbove-IsNodup x s h)

-- A set meets another exactly when they share a key.
pub meets-false :
    (k : ℕ) (a b : List ℕ) → meets a b ≡ false → contains k a ≡ true → contains k b ≡ false
meets-false k [] b h e = cc
meets-false k (x ∷ a) b h e = ground (arith, meets-false k a b)
