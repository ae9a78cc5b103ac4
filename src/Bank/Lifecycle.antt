-- ===== src/Bank/Lifecycle.antt =====
-- The fields of `Bank`, its creation and its freezing.
use tiny_solana.Common.{
  ℕ, Bool, true, false, Option, none, some, List, [], ◌∷◌, ◌++◌, ltb, length, if◌then◌else◌,
}
use tiny_solana.Common.Result.{Result, ok, err, panic}
use tiny_solana.Common.Word.{wrapping_add, wrapping_sub}
use tiny_solana.Types.{Hash, default_hash}
use tiny_solana.Transactions.Errors.{TransactionError}

abbrev pub max_blockhash_queue_depth : ℕ
max_blockhash_queue_depth = 150

pub record BlockhashInfo : Type 0 where
  pub hash : Hash
  pub created_at_slot : ℕ

-- The reference to the parent is left out: nothing reads it.
pub record Bank : Type 0 where
  pub slot : ℕ
  pub blockhash_queue : List BlockhashInfo
  pub parent_hash : Hash
  pub is_frozen : Bool
  pub freeze_lock_count : ℕ
  pub finalized_hash : Option Hash
  pub processed_transactions : ℕ
  pub failed_transactions : ℕ

-- `Bank::new`
abbrev pub new : Bank
new = record {
  slot = 0;
  blockhash_queue = record { hash = default_hash; created_at_slot = 0 } ∷ [];
  parent_hash = default_hash;
  is_frozen = false;
  freeze_lock_count = 0;
  finalized_hash = none;
  processed_transactions = 0;
  failed_transactions = 0;
}

-- The state in which `freeze` spins: a freeze lock is held.
pub data Waiting : Type 0 where
  waiting : Waiting

-- `if final_hash.is_none() { … }`, with what `get_root_hash` gives; its error panics.
abbrev pub finalize : Option Hash → Option Hash → Result Waiting Hash
finalize root (some h) = ok h
finalize none none = panic
finalize (some h) none = ok h

abbrev pub with_finalized : Bank → Result Waiting Hash → Result Waiting Bank
with_finalized b (ok h) = ok (record b { is_frozen = true; finalized_hash = some h })
with_finalized b (err w) = err w
with_finalized b panic = panic

-- `Bank::freeze`, given the root hash that the account store would compute.
unfoldable pub freeze : Option Hash → Bank → Result Waiting Bank
freeze root b =
    if ltb 0 b.freeze_lock_count
    then err waiting
    else if b.is_frozen
    then ok b
    else with_finalized b (finalize root b.finalized_hash)

-- `Bank::hash`
abbrev pub or_parent_hash : Hash → Option Hash → Hash
or_parent_hash h none = h
or_parent_hash _ (some h) = h

abbrev pub hash : Bank → Hash
hash b = or_parent_hash b.parent_hash b.finalized_hash

-- `queue.pop_front()`
abbrev pub pop_front : List BlockhashInfo → List BlockhashInfo
pop_front [] = []
pop_front (x ∷ q) = q

abbrev pub next_queue : Bank → List BlockhashInfo
next_queue parent =
    let q =
      parent.blockhash_queue ++ record { hash = hash parent; created_at_slot = parent.slot } ∷ [] in
    if ltb max_blockhash_queue_depth (length q) then pop_front q else q

abbrev pub child : Bank → Bank
child parent = record {
  slot = wrapping_add parent.slot 1;
  blockhash_queue = next_queue parent;
  parent_hash = hash parent;
  is_frozen = false;
  freeze_lock_count = 0;
  finalized_hash = none;
  processed_transactions = 0;
  failed_transactions = 0;
}

abbrev pub with_child : Result Waiting Bank → Result Waiting (Bank × Bank)
with_child (ok parent) = ok (parent, child parent)
with_child (err w) = err w
with_child panic = panic

-- `Bank::new_from_parent`: the parent, now frozen, and the new bank.
unfoldable pub new_from_parent : Option Hash → Bank → Result Waiting (Bank × Bank)
new_from_parent root parent = with_child (freeze root parent)

-- `Bank::acquire_freeze_lock`
unfoldable pub acquire_freeze_lock : Bank → Bank
acquire_freeze_lock b = record b { freeze_lock_count = wrapping_add b.freeze_lock_count 1 }

-- `Drop for FreezeLockGuard`
unfoldable pub drop_freeze_lock : Bank → Bank
drop_freeze_lock b = record b { freeze_lock_count = wrapping_sub b.freeze_lock_count 1 }

-- `Bank::record_transaction_metrics`
unfoldable pub record_transaction_metrics : Result TransactionError (Unit {0}) → Bank → Bank
record_transaction_metrics (ok _) b = record b {
  processed_transactions = wrapping_add b.processed_transactions 1;
}
record_transaction_metrics _ b = record b {
  failed_transactions = wrapping_add b.failed_transactions 1;
}
