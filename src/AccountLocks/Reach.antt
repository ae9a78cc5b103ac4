-- ===== src/AccountLocks/Reach.antt =====
-- The lock table beside the guards that are alive, over every order of locking and dropping.
pub mod Safety
use tiny_solana.Common.{
  ℕ, suc, ap, ◌+◌, ◌-◌, ◌<◌, ◌≤◌, ◌≡◌, refl, inl, inr, Bool, true, false, ◌||◌, Option, none, some,
  List, [], ◌∷◌, arith, ◌==◌, if◌then◌else◌, Bool-cases, All, length, Removes, here, there,
}
use tiny_solana.Common.Result.{ok, err}
use tiny_solana.Common.Word.{u64_mod}
use tiny_solana.Common.KeySet
use tiny_solana.Common.KeySet.{IsNodup}
use tiny_solana.Common.KeyMap
use tiny_solana.Types.{Pubkey}
use tiny_solana.Transactions.{Transaction}
use tiny_solana.AccountLocks.{
  AccountLockState, LockGuard, LockError, new, keys_to_lock, write_conflict, read_conflict, acquire,
  try_lock_accounts_for_group, release_writes, release_reads, drop_guard, count_or_zero,
}
use tiny_solana.AccountLocks.Keys.{
  reads_of, one_if, one_more, keys_to_lock-IsNodup, contains-acquire_writes, lookup-acquire_reads,
  write_conflict-false, read_conflict-false,
}
use tiny_solana.AccountLocks.Release.{
  one_less, IsCount, contains-release_writes, lookup-release_reads, try_lock_ok, try_lock_err,
  drop_guard_lem,
}

pub record System : Type 0 where
  pub table : AccountLockState
  pub guards : List LockGuard

-- One call on the table. The number of guards that are alive is that of a `usize`.
pub data Step (s t : System) : Type 0 where
  lock :
      (group : List (ℕ × Transaction)) (g : LockGuard) (table : AccountLockState)
      → length s.guards + 1 < u64_mod
      → try_lock_accounts_for_group group s.table ≡ (ok g, table)
      → t ≡ record { table = table; guards = g ∷ s.guards }
      → Step s t
  refuse :
      (group : List (ℕ × Transaction)) (e : LockError) (table : AccountLockState)
      → try_lock_accounts_for_group group s.table ≡ (err e, table)
      → t ≡ record { table = table; guards = s.guards }
      → Step s t
  release :
      (g : LockGuard) (rest : List LockGuard)
      → Removes g s.guards rest
      → t ≡ record { table = drop_guard g s.table; guards = rest }
      → Step s t

abbrev pub start : System
start = record { table = new; guards = [] }

pub data Reach : System → Type 0 where
  initial : Reach start
  next : {s t : System} → Reach s → Step s t → Reach t

-- Some guard holds the key for writing.
abbrev pub writers : Pubkey → List LockGuard → Bool
writers k [] = false
writers k (g ∷ gs) = KeySet.contains k g.write_locks || writers k gs

-- How many guards hold the key for reading.
abbrev pub readers : Pubkey → List LockGuard → ℕ
readers k [] = 0
readers k (g ∷ gs) = one_if k g.read_locks + readers k gs

-- A key that one guard holds for writing, no other guard holds.
abbrev pub IsExclusive : List LockGuard → Type 0
IsExclusive [] = Unit
IsExclusive (g ∷ gs) =
    ((k : Pubkey)
      → (KeySet.contains k g.write_locks ≡ true → (writers k gs ≡ false) × (readers k gs ≡ 0))
        × (KeySet.contains k g.read_locks ≡ true → writers k gs ≡ false))
    × IsExclusive gs

-- The entry that a table keeps for a number of readers.
abbrev pub entry : ℕ → Option ℕ
entry n = if n == 0 then none else some n

-- The table says, for every key, what the living guards hold.
abbrev pub Agrees : AccountLockState → List LockGuard → Type 0
Agrees table gs =
    (k : Pubkey)
    → (KeySet.contains k table.write_locks ≡ writers k gs)
      × (KeyMap.lookup k table.read_locks ≡ entry (readers k gs))

abbrev pub AreNodup : List LockGuard → Type 0
AreNodup gs = All (λ g. IsNodup g.read_locks) gs

pub readers-le : (k : Pubkey) (gs : List LockGuard) → readers k gs ≤ length gs
readers-le k [] = omega arith
readers-le k (g ∷ gs) = ground (arith, readers-le k gs)

pub entry-IsCount : (n : ℕ) → n < u64_mod → IsCount (entry n)
entry-IsCount n h = elim (Bool-cases (n == 0)) [ inl e ↦ rw e tt | inr e ↦ rw e (ground arith) ]

pub readers-Removes :
    (k : Pubkey) {g : LockGuard} {gs rest : List LockGuard}
    → Removes g gs rest
    → (readers k gs ≡ one_if k g.read_locks + readers k rest)
      × (writers k gs ≡ (KeySet.contains k g.write_locks || writers k rest))
readers-Removes k here = (refl, refl)
readers-Removes k (there r) = ground (arith, readers-Removes k r)

pub AreNodup-Removes :
    {g : LockGuard} {gs rest : List LockGuard}
    → Removes g gs rest
    → AreNodup gs
    → IsNodup g.read_locks × AreNodup rest
AreNodup-Removes here h = h
AreNodup-Removes (there r) h = let (a, b) = AreNodup-Removes r h.1 in (a, (h.0, b))

pub IsExclusive-Removes :
    {g : LockGuard} {gs rest : List LockGuard}
    → Removes g gs rest
    → IsExclusive gs
    → IsExclusive rest
      × ((k : Pubkey)
          → KeySet.contains k g.write_locks ≡ true
          → (writers k rest ≡ false) × (readers k rest ≡ 0))
IsExclusive-Removes here h = (h.1, λ k e. (h.0 k).0 e)
IsExclusive-Removes {g} (there r) h =
    let (ex, own) = IsExclusive-Removes r h.1 in
    (
      ((λ k. ground (arith, h.0 k, readers-Removes k r)), ex),
      λ k e. ground (arith, h.0 k, own k e, readers-Removes k r),
    )
