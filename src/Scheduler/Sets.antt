-- ===== src/Scheduler/Sets.antt =====
-- The sets of `extract_sets` against the metas of the transaction.
use tiny_solana.Common.{ℕ, ◌≡◌, refl, true, false, ◌||◌, List, [], ◌∷◌, arith}
use tiny_solana.Common.KeySet
use tiny_solana.Types.{Pubkey}
use tiny_solana.Transactions.{AccountMeta, Instruction, Transaction}
use tiny_solana.Transactions.Metas.{names, some_names, writes, reads}
use tiny_solana.Scheduler.{
  TransactionSets, add_meta, add_metas, add_instructions, extract_sets, insert_all,
}

write_set-add_metas :
    (k : Pubkey) (sets : TransactionSets) (ms : List AccountMeta)
    → KeySet.contains k (add_metas sets ms).write_set
      ≡ (KeySet.contains k sets.write_set || names true k ms)
write_set-add_metas k sets [] = ground arith
write_set-add_metas k sets (m ∷ ms) = ground (
  arith,
  write_set-add_metas k (add_meta sets m) ms,
  KeySet.contains-insert k m.pubkey sets.write_set,
)

read_set-add_metas :
    (k : Pubkey) (sets : TransactionSets) (ms : List AccountMeta)
    → KeySet.contains k (add_metas sets ms).read_set
      ≡ (KeySet.contains k sets.read_set || names false k ms)
read_set-add_metas k sets [] = ground arith
read_set-add_metas k sets (m ∷ ms) = ground (
  arith,
  read_set-add_metas k (add_meta sets m) ms,
  KeySet.contains-insert k m.pubkey sets.read_set,
)

write_set-add_instructions :
    (k : Pubkey) (sets : TransactionSets) (ixs : List Instruction)
    → KeySet.contains k (add_instructions sets ixs).write_set
      ≡ (KeySet.contains k sets.write_set || some_names true k ixs)
write_set-add_instructions k sets [] = ground arith
write_set-add_instructions k sets (ix ∷ ixs) = ground (
  arith,
  write_set-add_instructions k (add_metas sets ix.accounts) ixs,
  write_set-add_metas k sets ix.accounts,
)

read_set-add_instructions :
    (k : Pubkey) (sets : TransactionSets) (ixs : List Instruction)
    → KeySet.contains k (add_instructions sets ixs).read_set
      ≡ (KeySet.contains k sets.read_set || some_names false k ixs)
read_set-add_instructions k sets [] = ground arith
read_set-add_instructions k sets (ix ∷ ixs) = ground (
  arith,
  read_set-add_instructions k (add_metas sets ix.accounts) ixs,
  read_set-add_metas k sets ix.accounts,
)

-- The write set of a transaction holds the keys that some instruction marks writable, and its read
-- set those that some instruction names without marking them writable; a key can be in both.
pub extract_sets-names :
    (tx : ℕ × Transaction) (k : Pubkey)
    → (KeySet.contains k (extract_sets tx).write_set ≡ writes tx.1 k)
      × (KeySet.contains k (extract_sets tx).read_set ≡ reads tx.1 k)
unfolding extract_sets
extract_sets-names tx k = (
  write_set-add_instructions k _ tx.1.message.instructions,
  read_set-add_instructions k _ tx.1.message.instructions,
)

pub contains-insert_all :
    (k : Pubkey) (ks w : List Pubkey)
    → KeySet.contains k (insert_all ks w) ≡ (KeySet.contains k ks || KeySet.contains k w)
contains-insert_all k [] w = refl
contains-insert_all k (x ∷ ks) w =
    ground (arith, contains-insert_all k ks (KeySet.insert x w), KeySet.contains-insert k x w)
