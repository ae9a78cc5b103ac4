-- ===== src/AccountLocks.antt =====
-- src/account_locks.rs: the table of account locks that groups of transactions take and release.
-- The table stands behind one `RwLock`, so each operation is one step; `ReadCount` is a `usize`.
pub mod Keys
pub mod Release
pub mod Free
pub mod Reach
mod Tests
use tiny_solana.Common.{
  ℕ, ◌+◌, ◌-◌, ◌%◌, ◌≡◌, Bool, true, false, ◌&&◌, ◌||◌, Option, none, some, List, [], ◌∷◌, ◌==◌,
  if◌then◌else◌,
}
use tiny_solana.Common.Result.{Result, ok, err}
use tiny_solana.Common.Word.{wrapping_add, wrapping_sub}
use tiny_solana.Common.KeySet
use tiny_solana.Common.KeyMap
use tiny_solana.Common.KeyMap.{KeyMap}
use tiny_solana.Types.{Pubkey}
use tiny_solana.Transactions.{AccountMeta, Instruction, Transaction}

pub data LockError : Type 0 where
  account_in_use : LockError

pub record AccountLockState : Type 0 where
  pub write_locks : List Pubkey
  pub read_locks : KeyMap ℕ

-- The guard's reference to the table is left out: a guard is released on the table it came from.
pub record LockGuard : Type 0 where
  pub write_locks : List Pubkey
  pub read_locks : List Pubkey

-- `AccountLocks::new`
abbrev pub new : AccountLockState
new = record { write_locks = []; read_locks = [] }

-- `write_keys_to_lock` and `read_keys_to_lock`
pub record KeysToLock : Type 0 where
  pub write_keys : List Pubkey
  pub read_keys : List Pubkey

abbrev pub add_meta : KeysToLock → AccountMeta → KeysToLock
add_meta ks m =
    if m.is_writable
    then record ks { write_keys = KeySet.insert m.pubkey ks.write_keys }
    else record ks { read_keys = KeySet.insert m.pubkey ks.read_keys }

abbrev pub add_metas : KeysToLock → List AccountMeta → KeysToLock
add_metas ks [] = ks
add_metas ks (m ∷ ms) = add_metas (add_meta ks m) ms

abbrev pub add_instructions : KeysToLock → List Instruction → KeysToLock
add_instructions ks [] = ks
add_instructions ks (ix ∷ ixs) = add_instructions (add_metas ks ix.accounts) ixs

abbrev pub add_group : KeysToLock → List (ℕ × Transaction) → KeysToLock
add_group ks [] = ks
add_group ks ((_, tx) ∷ g) = add_group (add_instructions ks tx.message.instructions) g

pub keys_to_lock : List (ℕ × Transaction) → KeysToLock
keys_to_lock = add_group (record { write_keys = []; read_keys = [] })

-- The two loops that look for a conflict.
abbrev pub write_conflict : AccountLockState → List Pubkey → Bool
write_conflict s [] = false
write_conflict s (k ∷ ks) =
    (KeySet.contains k s.write_locks || KeyMap.contains_key k s.read_locks) || write_conflict s ks

abbrev pub read_conflict : AccountLockState → List Pubkey → Bool
read_conflict s [] = false
read_conflict s (k ∷ ks) = KeySet.contains k s.write_locks || read_conflict s ks

-- `for key in write_keys_to_lock { state.write_locks.insert(key); … }`
abbrev pub acquire_writes : List Pubkey → List Pubkey → List Pubkey
acquire_writes [] w = w
acquire_writes (k ∷ ks) w = acquire_writes ks (KeySet.insert k w)

-- `entry(key).or_insert(ReadCount(0))`
abbrev pub count_or_zero : Option ℕ → ℕ
count_or_zero none = 0
count_or_zero (some n) = n

abbrev pub acquire_reads : List Pubkey → KeyMap ℕ → KeyMap ℕ
acquire_reads [] r = r
acquire_reads (k ∷ ks) r =
    acquire_reads ks (KeyMap.insert k (wrapping_add (count_or_zero (KeyMap.lookup k r)) 1) r)

abbrev pub acquire : KeysToLock → AccountLockState → AccountLockState
acquire ks s = record {
  write_locks = acquire_writes ks.write_keys s.write_locks;
  read_locks = acquire_reads ks.read_keys s.read_locks;
}

-- `AccountLocks::try_lock_accounts_for_group`
pub try_lock_accounts_for_group :
    List (ℕ × Transaction) → AccountLockState → Result LockError LockGuard × AccountLockState
try_lock_accounts_for_group group s =
    let ks = keys_to_lock group in
    if write_conflict s ks.write_keys || read_conflict s ks.read_keys
    then (err account_in_use, s)
    else (ok (record { write_locks = ks.write_keys; read_locks = ks.read_keys }), acquire ks s)

abbrev pub release_writes : List Pubkey → List Pubkey → List Pubkey
release_writes [] w = w
release_writes (k ∷ ks) w = release_writes ks (KeySet.remove k w)

-- `if let Some(count) = state.read_locks.get_mut(key) { … }`
abbrev pub release_read : Pubkey → KeyMap ℕ → Option ℕ → KeyMap ℕ
release_read k r none = r
release_read k r (some n) =
    if wrapping_sub n 1 == 0 then KeyMap.remove k r else KeyMap.insert k (wrapping_sub n 1) r

abbrev pub release_reads : List Pubkey → KeyMap ℕ → KeyMap ℕ
release_reads [] r = r
release_reads (k ∷ ks) r = release_reads ks (release_read k r (KeyMap.lookup k r))

abbrev pub is_empty : List Pubkey → Bool
is_empty [] = true
is_empty (k ∷ ks) = false

-- `Drop for LockGuard`
pub drop_guard : LockGuard → AccountLockState → AccountLockState
drop_guard g s = if is_empty g.write_locks && is_empty g.read_locks then s else record {
  write_locks = release_writes g.write_locks s.write_locks;
  read_locks = release_reads g.read_locks s.read_locks;
}
