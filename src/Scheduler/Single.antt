-- ===== src/Scheduler/Single.antt =====
-- The schedule of one transaction.
use tiny_solana.Common.{ℕ, ◌≡◌, refl, false, some, List, [], ◌∷◌}
use tiny_solana.Common.KeySet
use tiny_solana.Types.{Pubkey}
use tiny_solana.Transactions.{Transaction}
use tiny_solana.Scheduler.{TransactionSets, extract_sets, conflicts, retain, rounds, schedule}

meets-empty : (ks : List Pubkey) → KeySet.meets ks [] ≡ false
meets-empty [] = refl
meets-empty (k ∷ ks) = meets-empty ks

conflicts-empty : (sets : TransactionSets) → conflicts sets [] ≡ false
conflicts-empty sets = rw (meets-empty sets.read_set, meets-empty sets.write_set) refl

-- One transaction is a group.
pub schedule_one : (tx : ℕ × Transaction) → schedule (tx ∷ []) ≡ some ((tx ∷ []) ∷ [])
unfolding schedule rounds retain
schedule_one tx = rw (conflicts-empty (extract_sets tx)) refl
