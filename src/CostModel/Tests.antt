-- ===== src/CostModel/Tests.antt =====
-- The cost tracker on small costs, and the theorems at them.
use tiny_solana.Common.{ℕ, ◌<◌, ◌≡◌, refl, [], ◌∷◌, arith, here}
use tiny_solana.Common.Result.{ok, err}
use tiny_solana.Samples.{pay}
use tiny_solana.CostModel.{
  TransactionCost, CostTracker, would_exceed_account_max_limit, new_model, new_tracker,
  max_block_units, max_writable_account_units, calculate_cost, sum, would_fit, add_cost,
  subtract_cost,
}
use tiny_solana.CostModel.Ledger.{charged}
use tiny_solana.CostModel.Limits.{Block, admit, refund, Reach, initial, next, IsAccounted}
use tiny_solana.CostModel.Limits.Accounted.{Reach-IsAccounted, would_fit_above_limit}

-- 720 for the signature, 600 for two write locks, 4 for a byte and 300 for a builtin program.
sum-pay : sum (calculate_cost new_model pay) ≡ 1624
unfolding sum calculate_cost
sum-pay = refl

abbrev cost : ℕ → TransactionCost
cost units = record {
  signature_cost = 0;
  write_lock_cost = 0;
  data_cost = 0;
  execution_cost = units;
  writable_accounts = 9 ∷ [];
}

abbrev tracker : CostTracker
tracker = new_tracker max_block_units max_writable_account_units

first_fits : would_fit tracker (cost 20_000_000) ≡ ok tt
unfolding would_fit sum
first_fits = refl

-- The second cost would take account 9 above its limit.
second_does_not :
    would_fit (add_cost tracker (cost 20_000_000)) (cost 5_000_000)
    ≡ err would_exceed_account_max_limit
unfolding would_fit add_cost sum
second_does_not = refl

abbrev emptied : Block
emptied = record {
  tracker = subtract_cost (add_cost tracker (cost 20_000_000)) (cost 20_000_000);
  admitted = [];
}

reached : Reach max_block_units max_writable_account_units emptied
reached =
    next (next initial (admit (cost 20_000_000) (refl, tt) first_fits refl))
      (refund (cost 20_000_000) [] here refl)

Reach-IsAccounted_example : IsAccounted max_block_units max_writable_account_units emptied
Reach-IsAccounted_example =
    Reach-IsAccounted max_block_units max_writable_account_units (omega arith) reached

-- 30 million units on one account, whose limit is 24 million.
would_fit_above_limit_example :
    (would_fit tracker (cost 30_000_000) ≡ ok tt)
    × (max_writable_account_units
        < charged 9 (add_cost tracker (cost 30_000_000)).cost_by_writable_accounts)
unfolding sum
would_fit_above_limit_example =
    would_fit_above_limit tracker (cost 30_000_000) 9 refl refl (omega arith) (omega arith)
      (omega arith)
