-- ===== src/Runtime/Actions.antt =====
-- Inversion of actions that succeed, step by step.
use mathlib.Core.List.{append-nil}
use tiny_solana.Common.{
  ℕ, zero, suc, ◌≤◌, ◌≡◌, refl, inl, inr, Bool, true, false, not, Option, none, some, [], ◌∷◌, ◌++◌,
  arith, drop, length, set, get_elem?, ltb, Option-cases, Bool-cases,
}
use tiny_solana.Common.Result.{Result, ok, err, panic}
use tiny_solana.Types.{Bytes}
use tiny_solana.Accounts.{Account}
use tiny_solana.Transactions.Errors.{ProgramError}
use tiny_solana.Runtime.{
  AccountInfo, Machine, Action, and_then, ◌>>=◌, raise_if, pure, borrowed, or_raise, or_abort,
  borrow_data, copy_front,
}

module _ {A B : Type 0} (c : Action A) (f : A → Action B) where
  -- Both parts of a chain that succeeds succeed.
  pub >>=-ok :
      (m m' : Machine) (b : B)
      → (c >>= f) m ≡ (ok b, m')
      → (a : A) × (m1 : Machine) × (c m ≡ (ok a, m1)) × (f a m1 ≡ (ok b, m'))
  >>=-ok m m' b e = go (c m) refl e
    where
      go :
          (p : Result ProgramError A × Machine)
          → c m ≡ p
          → and_then p.0 f p.1 ≡ (ok b, m')
          → (a : A) × (m1 : Machine) × (c m ≡ (ok a, m1)) × (f a m1 ≡ (ok b, m'))
      go (ok a, m1) q done = (a, m1, q, done)
      go (err x, m1) q done = cc
      go (panic, m1) q done = cc

pub raise_if-ok :
    (b : Bool) (x : ProgramError) (m m' : Machine) (u : Unit {0})
    → raise_if b x m ≡ (ok u, m')
    → (b ≡ false) × (m' ≡ m)
raise_if-ok true x m m' u e = cc
raise_if-ok false x m m' u e = (refl, cc)

pub or_raise-ok :
    {A : Type 0} (o : Option A) (x : ProgramError) (m m' : Machine) (a : A)
    → or_raise o x m ≡ (ok a, m')
    → (o ≡ some a) × (m' ≡ m)
or_raise-ok none x m m' a e = cc
or_raise-ok (some b) x m m' a e = (cc, cc)

pub or_abort-ok :
    {A : Type 0} (o : Option A) (m m' : Machine) (a : A)
    → or_abort o m ≡ (ok a, m')
    → (o ≡ some a) × (m' ≡ m)
or_abort-ok none m m' a e = cc
or_abort-ok (some b) m m' a e = (cc, cc)

pub borrow_data-ok :
    (info : AccountInfo) (m m' : Machine) (b : Bytes)
    → borrow_data info m ≡ (ok b, m')
    → (a : Account) × (get_elem? m.cells info.account ≡ some a) × (a.contents ≡ b) × (m' ≡ m)
borrow_data-ok info m m' b e = elim (Option-cases (get_elem? m.cells info.account)) [
  | inl absent ↦ absurd (ground arith)
  | inr (a, found) ↦ (a, found, ground arith, ground arith)
]

-- The data after bytes were copied to its front.
abbrev pub with_front : Bytes → Account → Account
with_front b a = record a { contents = b ++ drop (length b) a.contents }

pub copy_front-ok :
    (info : AccountInfo) (b : Bytes) (m m' : Machine) (u : Unit {0})
    → copy_front info b m ≡ (ok u, m')
    → (a : Account) × (get_elem? m.cells info.account ≡ some a)
      × (length b ≤ length a.contents)
      × (m' ≡ record m { cells = set m.cells info.account (with_front b a) })
unfolding copy_front
copy_front-ok info b m m' u e = elim (Option-cases (get_elem? m.cells info.account)) [
  | inl absent ↦ absurd (ground arith)
  | inr (a, found) ↦ elim (Bool-cases (ltb (length a.contents) (length b))) [
    | inl short ↦ absurd (ground arith)
    | inr fits ↦ (a, found, ground arith, ground arith)
  ]
]

drop_all : (xs : Bytes) (n : ℕ) → length xs ≤ n → drop n xs ≡ []
drop_all [] zero h = refl
drop_all [] (suc n) h = refl
drop_all (x ∷ xs) zero h = absurd (omega arith)
drop_all (x ∷ xs) (suc n) h = drop_all xs n (omega arith)

-- Bytes of the same length replace the data.
pub with_front_whole :
    (b : Bytes) (a : Account)
    → length a.contents ≤ length b
    → with_front b a ≡ record a { contents = b }
with_front_whole b a h = rw (drop_all a.contents (length b) h, append-nil) refl

pub not-false : (b : Bool) → not b ≡ false → b ≡ true
not-false true h = refl
not-false false h = cc

-- The same for a chain that begins with a step that leaves the machine alone: the rest runs on it.
module _ {B : Type 0} where
  pub raise_if-then :
      (b : Bool) (x : ProgramError) (f : Unit {0} → Action B) (m m' : Machine) (r : B)
      → (raise_if b x >>= f) m ≡ (ok r, m')
      → (b ≡ false) × (f tt m ≡ (ok r, m'))
  raise_if-then true x f m m' r e = cc
  raise_if-then false x f m m' r e = (refl, e)

  pub or_raise-then :
      {A : Type 0} (o : Option A) (x : ProgramError) (f : A → Action B) (m m' : Machine) (r : B)
      → (or_raise o x >>= f) m ≡ (ok r, m')
      → (a : A) × (o ≡ some a) × (f a m ≡ (ok r, m'))
  or_raise-then none x f m m' r e = cc
  or_raise-then (some a) x f m m' r e = (a, refl, e)

  pub or_abort-then :
      {A : Type 0} (o : Option A) (f : A → Action B) (m m' : Machine) (r : B)
      → (or_abort o >>= f) m ≡ (ok r, m')
      → (a : A) × (o ≡ some a) × (f a m ≡ (ok r, m'))
  or_abort-then none f m m' r e = cc
  or_abort-then (some a) f m m' r e = (a, refl, e)

  pub borrow_data-then :
      (info : AccountInfo) (f : Bytes → Action B) (m m' : Machine) (r : B)
      → (borrow_data info >>= f) m ≡ (ok r, m')
      → (a : Account) × (get_elem? m.cells info.account ≡ some a) × (f a.contents m ≡ (ok r, m'))
  borrow_data-then info f m m' r e = go (get_elem? m.cells info.account) refl e
    where
      go :
          (o : Option Account)
          → get_elem? m.cells info.account ≡ o
          → and_then
              (and_then (borrowed o) (λ a. pure a.contents) m).0
              f
              (and_then (borrowed o) (λ a. pure a.contents) m).1
            ≡ (ok r, m')
          → (a : Account) × (get_elem? m.cells info.account ≡ some a)
            × (f a.contents m ≡ (ok r, m'))
      go none q e = cc
      go (some a) q e = (a, q, e)

-- A chain goes on where its first step ends.
pub >>=-eq :
    {A B : Type 0} (c : Action A) (f : A → Action B) (m m1 : Machine) (a : A)
    → c m ≡ (ok a, m1)
    → (c >>= f) m ≡ f a m1
>>=-eq c f m m1 a e = rw (e, ◌>>=◌) refl
