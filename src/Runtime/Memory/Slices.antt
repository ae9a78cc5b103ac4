-- ===== src/Runtime/Memory/Slices.antt =====
-- Slices of a memory at a place that is known.
use mathlib.Core.List.{append_assoc}
use tiny_solana.Common.{
  ℕ, ◌+◌, ◌-◌, ◌<◌, ◌≡◌, refl, sym, ap, ◌∙◌, true, false, some, [], ◌∷◌, ◌++◌, arith, length,
  length-append, get_elem?, take, drop, leb, ltb,
}
use tiny_solana.Common.Result.{ok}
use tiny_solana.Common.Word.{u64_mod, wrapping_add}
use tiny_solana.Types.{Bytes}
use tiny_solana.Runtime.{Machine}
use tiny_solana.Runtime.Memory.Read.{checked_slice}

-- The bytes from the offset on.
abbrev pub At : Bytes → ℕ → Bytes → Type 0
At input offset rest = (front : Bytes) × (input ≡ front ++ rest) × (length front ≡ offset)

pub At-advance :
    (input : Bytes) (offset len : ℕ) (xs ys : Bytes)
    → At input offset (xs ++ ys)
    → length xs ≡ len
    → At input (offset + len) ys
At-advance input offset len xs ys (front, e, n) size = (
  front ++ xs,
  e ∙ sym (append_assoc front xs ys),
  omega (arith, n, size, length-append front xs),
)

pub At-length :
    (input : Bytes) (offset : ℕ) (ys : Bytes)
    → At input offset ys
    → offset + length ys ≡ length input
At-length input offset ys (front, e, n) = omega (arith, n, ap length e, length-append front ys)

drop-append : (xs ys : Bytes) → drop (length xs) (xs ++ ys) ≡ ys
drop-append [] ys = refl
drop-append (x ∷ xs) ys = drop-append xs ys

pub take-append : (xs ys : Bytes) → take (length xs) (xs ++ ys) ≡ xs
take-append [] ys = refl
take-append (x ∷ xs) ys = ap (λ l. x ∷ l) (take-append xs ys)

get_elem?-append : (xs : Bytes) (b : ℕ) (ys : Bytes) → get_elem? (xs ++ b ∷ ys) (length xs) ≡ some b
get_elem?-append [] b ys = refl
get_elem?-append (x ∷ xs) b ys = get_elem?-append xs b ys

pub At-get_elem? :
    (input : Bytes) (offset b : ℕ) (ys : Bytes)
    → At input offset (b ∷ ys)
    → get_elem? input offset ≡ some b
At-get_elem? input offset b ys (front, e, n) = rw (e, sym n) (get_elem?-append front b ys)

At-slice :
    (input : Bytes) (offset : ℕ) (xs ys : Bytes)
    → At input offset (xs ++ ys)
    → take (offset + length xs - offset) (drop offset input) ≡ xs
At-slice input offset xs ys (front, e, n) =
    let size : offset + length xs - offset ≡ length xs = omega arith in
    rw (size, e, sym n, drop-append front (xs ++ ys)) (take-append xs ys)

-- A checked slice of bytes that are there gives them, in a memory of a size that a `usize` counts.
pub At-checked_slice :
    (input : Bytes) (offset len : ℕ) (xs ys : Bytes) (m : Machine)
    → At input offset (xs ++ ys)
    → length xs ≡ len
    → length input < u64_mod
    → checked_slice input offset len m ≡ (ok xs, m)
At-checked_slice input offset len xs ys m at n bounded =
    let size = At-length input offset (xs ++ ys) at in
    let sum = length-append xs ys in
    let end : wrapping_add offset len ≡ offset + length xs = omega (arith, n, size, sum, bounded) in
    let fits : ltb (length input) (offset + length xs) ≡ false = ground (arith, size, sum) in
    let from : leb offset (offset + length xs) ≡ true = ground arith in
    let to : leb (offset + length xs) (length input) ≡ true = ground (arith, size, sum) in
    rw (end, fits, from, to, At-slice input offset xs ys at) refl
