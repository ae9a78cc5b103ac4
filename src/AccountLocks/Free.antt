-- ===== src/AccountLocks/Free.antt =====
-- A table without locks: every group gets its locks.
use tiny_solana.Common.{ℕ, ◌≡◌, refl, false, List, [], ◌∷◌}
use tiny_solana.Common.Result.{ok}
use tiny_solana.Types.{Pubkey}
use tiny_solana.Transactions.{Transaction}
use tiny_solana.AccountLocks.{
  AccountLockState, LockGuard, new, keys_to_lock, write_conflict, read_conflict, acquire,
  try_lock_accounts_for_group,
}

write_conflict-new : (ks : List Pubkey) → write_conflict new ks ≡ false
write_conflict-new [] = refl
write_conflict-new (k ∷ ks) = write_conflict-new ks

read_conflict-new : (ks : List Pubkey) → read_conflict new ks ≡ false
read_conflict-new [] = refl
read_conflict-new (k ∷ ks) = read_conflict-new ks

pub try_lock-new :
    (group : List (ℕ × Transaction))
    → (guard : LockGuard) × (locks : AccountLockState) × (try_lock_accounts_for_group group new
        ≡ (ok guard, locks))
unfolding try_lock_accounts_for_group
try_lock-new group =
    let ks = keys_to_lock group in
    (
      record { write_locks = ks.write_keys; read_locks = ks.read_keys },
      acquire ks new,
      rw (write_conflict-new ks.write_keys, read_conflict-new ks.read_keys) refl,
    )
