-- ===== src/CostModel/Costs.antt =====
-- What `calculate_cost` computes.
use tiny_solana.Common.{◌<◌, ◌≡◌, true, ◌||◌, List, [], ◌∷◌, arith, if◌then◌else◌}
use tiny_solana.Common.Word.{u64_mod}
use tiny_solana.Common.KeySet
use tiny_solana.Common.KeySet.{IsAscending, IsNodup}
use tiny_solana.Types.{Pubkey}
use tiny_solana.Transactions.{AccountMeta, Instruction, Transaction}
use tiny_solana.Transactions.Metas.{names, some_names, writes}
use tiny_solana.CostModel.{
  CostModel, TransactionCost, Totals, add_writable, add_instruction, add_instructions, no_totals,
  calculate_cost, sum,
}

contains-add_writable :
    (k : Pubkey) (w : List Pubkey) (ms : List AccountMeta)
    → KeySet.contains k (add_writable w ms) ≡ (KeySet.contains k w || names true k ms)
contains-add_writable k w [] = ground arith
contains-add_writable k w (m ∷ ms) = ground (
  arith,
  contains-add_writable k (if m.is_writable then KeySet.insert m.pubkey w else w) ms,
  KeySet.contains-insert k m.pubkey w,
)

contains-add_instructions :
    (model : CostModel) (k : Pubkey) (t : Totals) (ixs : List Instruction)
    → KeySet.contains k (add_instructions model t ixs).write_set
      ≡ (KeySet.contains k t.write_set || some_names true k ixs)
contains-add_instructions model k t [] = ground arith
contains-add_instructions model k t (ix ∷ ixs) = ground (
  arith,
  contains-add_instructions model k (add_instruction model t ix) ixs,
  contains-add_writable k t.write_set ix.accounts,
)

add_writable-IsAscending :
    (w : List Pubkey) (ms : List AccountMeta) → IsAscending w → IsAscending (add_writable w ms)
add_writable-IsAscending w [] h = h
add_writable-IsAscending w (m ∷ ms) h =
    add_writable-IsAscending (if m.is_writable then KeySet.insert m.pubkey w else w) ms
      (ground (arith, KeySet.insert-IsAscending m.pubkey w h))

add_instructions-IsAscending :
    (model : CostModel) (t : Totals) (ixs : List Instruction)
    → IsAscending t.write_set
    → IsAscending (add_instructions model t ixs).write_set
add_instructions-IsAscending model t [] h = h
add_instructions-IsAscending model t (ix ∷ ixs) h =
    add_instructions-IsAscending model (add_instruction model t ix) ixs
      (add_writable-IsAscending t.write_set ix.accounts h)

-- A transaction is charged for exactly the keys that it marks writable, each once.
pub calculate_cost-writes :
    (model : CostModel) (tx : Transaction)
    → ((k : Pubkey) → KeySet.contains k (calculate_cost model tx).writable_accounts ≡ writes tx k)
      × IsNodup (calculate_cost model tx).writable_accounts
unfolding calculate_cost
calculate_cost-writes model tx = (
  λ k. contains-add_instructions model k no_totals tx.message.instructions,
  KeySet.IsAscending-IsNodup _
      (add_instructions-IsAscending model no_totals tx.message.instructions tt),
)

-- The sum does not overflow a `u64`.
pub sum-lt : (c : TransactionCost) → sum c < u64_mod
unfolding sum
sum-lt c = ground arith
