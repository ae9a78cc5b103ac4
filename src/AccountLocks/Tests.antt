-- ===== src/AccountLocks/Tests.antt =====
-- The lock table on small groups, and the theorems at them.
use tiny_solana.Common.{◌≡◌, refl, [], ◌∷◌, arith, here, there}
use tiny_solana.Common.Result.{ok, err}
use tiny_solana.Samples.{pay, look, idle}
use tiny_solana.AccountLocks.{
  AccountLockState, LockGuard, account_in_use, new, keys_to_lock, try_lock_accounts_for_group,
  drop_guard,
}
use tiny_solana.AccountLocks.Reach.{System, lock, refuse, release, Reach, initial, next}
use tiny_solana.AccountLocks.Reach.Safety.{IsConsistent, Reach-IsConsistent}

abbrev pay_guard : LockGuard
pay_guard = record { write_locks = 1 ∷ 2 ∷ []; read_locks = [] }

abbrev idle_guard : LockGuard
idle_guard = record { write_locks = []; read_locks = 4 ∷ [] }

abbrev locked : AccountLockState
locked = record { write_locks = 1 ∷ 2 ∷ []; read_locks = [] }

abbrev both : AccountLockState
both = record { write_locks = 1 ∷ 2 ∷ []; read_locks = (4, 1) ∷ [] }

lock_pay : try_lock_accounts_for_group ((0, pay) ∷ []) new ≡ (ok pay_guard, locked)
unfolding try_lock_accounts_for_group keys_to_lock
lock_pay = refl

-- A reader of a locked account is refused.
lock_look : try_lock_accounts_for_group ((1, look) ∷ []) locked ≡ (err account_in_use, locked)
unfolding try_lock_accounts_for_group keys_to_lock
lock_look = refl

lock_idle : try_lock_accounts_for_group ((2, idle) ∷ []) locked ≡ (ok idle_guard, both)
unfolding try_lock_accounts_for_group keys_to_lock
lock_idle = refl

abbrev after : System
after = record { table = drop_guard pay_guard both; guards = idle_guard ∷ [] }

reached : Reach after
reached =
    next
      (next
        (next (next initial (lock ((0, pay) ∷ []) pay_guard locked (omega arith) lock_pay refl))
          (refuse ((1, look) ∷ []) account_in_use locked lock_look refl))
        (lock ((2, idle) ∷ []) idle_guard both (omega arith) lock_idle refl))
      (release pay_guard (idle_guard ∷ []) (there here) refl)

Reach-IsConsistent_example : IsConsistent after
Reach-IsConsistent_example = Reach-IsConsistent reached
