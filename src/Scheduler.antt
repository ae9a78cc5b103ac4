-- ===== src/Scheduler.antt =====
-- src/scheduler.rs: grouping of transactions that may run in parallel.
pub mod Sets
pub mod Groups
pub mod Complete
pub mod Single
mod Tests
use mathlib.Core.Option
use tiny_solana.Common.{
  ℕ, zero, suc, ◌≡◌, Bool, true, false, ◌||◌, Option, none, some, List, [], ◌∷◌, map, length,
  get_elem?, if◌then◌else◌,
}
use tiny_solana.Common.KeySet
use tiny_solana.Types.{Pubkey}
use tiny_solana.Transactions.{AccountMeta, Instruction, Message, Transaction}

pub record TransactionSets : Type 0 where
  pub read_set : List Pubkey
  pub write_set : List Pubkey

abbrev pub no_sets : TransactionSets
no_sets = record { read_set = []; write_set = [] }

-- The body of the inner loop of `extract_sets`.
abbrev pub add_meta : TransactionSets → AccountMeta → TransactionSets
add_meta sets m =
    if m.is_writable
    then record sets { write_set = KeySet.insert m.pubkey sets.write_set }
    else record sets { read_set = KeySet.insert m.pubkey sets.read_set }

abbrev pub add_metas : TransactionSets → List AccountMeta → TransactionSets
add_metas sets [] = sets
add_metas sets (m ∷ ms) = add_metas (add_meta sets m) ms

abbrev pub add_instructions : TransactionSets → List Instruction → TransactionSets
add_instructions sets [] = sets
add_instructions sets (ix ∷ ixs) = add_instructions (add_metas sets ix.accounts) ixs

pub extract_sets : ℕ × Transaction → TransactionSets
extract_sets tx = add_instructions no_sets tx.1.message.instructions

-- `for key in &sets.write_set { current_group_write_set.insert(*key); }`
abbrev pub insert_all : List Pubkey → List Pubkey → List Pubkey
insert_all [] w = w
insert_all (k ∷ ks) w = insert_all ks (KeySet.insert k w)

-- `read_conflict || write_conflict`
abbrev pub conflicts : TransactionSets → List Pubkey → Bool
conflicts sets w = KeySet.meets sets.read_set w || KeySet.meets sets.write_set w

-- An index of `0..txs.len()` is in range for `txs` and `tx_sets`; `index` is a read there.
abbrev pub index {ℓ} : {A : Type ℓ} → List A → A → ℕ → A
index xs d i = elim (get_elem? xs i) [ none ↦ d | some x ↦ x ]

module _ (tx_sets : ℕ → TransactionSets) where
  -- `remaining_tx_indices.retain(…)` in ascending order: the indices that are pushed to the group,
  -- and those that remain. The write set of the group is carried along.
  pub retain : List ℕ → List Pubkey → List ℕ × List ℕ
  retain [] w = ([], [])
  retain (i ∷ rest) w =
      let clash = conflicts (tx_sets i) w in
      let (group, kept) = retain rest (if clash then w else insert_all (tx_sets i).write_set w) in
      if clash then (group, i ∷ kept) else (i ∷ group, kept)

  -- `if !current_group_indices.is_empty() { scheduled_groups.push(group); }`
  abbrev pub push_group : List ℕ → List (List ℕ) → List (List ℕ)
  push_group [] groups = groups
  push_group (i ∷ g) groups = (i ∷ g) ∷ groups

  -- The `while` loop, on fuel; `none` means that the fuel ran out.
  pub rounds : ℕ → List ℕ → Option (List (List ℕ))
  rounds fuel [] = some []
  rounds zero (i ∷ rest) = none
  rounds (suc fuel) (i ∷ rest) =
      let (group, kept) = retain (i ∷ rest) [] in Option.map (push_group group) (rounds fuel kept)

-- `(0..n).collect()`
abbrev pub indices_from : ℕ → ℕ → List ℕ
indices_from start zero = []
indices_from start (suc n) = start ∷ indices_from (suc start) n

abbrev pub no_transaction : ℕ × Transaction
no_transaction = (
  0,
  record {
    signatures = [];
    message = record { account_keys = []; recent_blockhash = 0; instructions = [] };
  },
)

abbrev pub sets_of : List (ℕ × Transaction) → ℕ → TransactionSets
sets_of txs = index (map extract_sets txs) no_sets

-- `TransactionScheduler::schedule`, with as many rounds as there are transactions.
pub schedule : List (ℕ × Transaction) → Option (List (List (ℕ × Transaction)))
schedule [] = some []
schedule txs =
    Option.map (map (map (index txs no_transaction)))
      (rounds (sets_of txs) (length txs) (indices_from 0 (length txs)))
