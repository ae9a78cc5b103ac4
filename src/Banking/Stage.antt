-- ===== src/Banking/Stage.antt =====
-- `BankingStage` of src/banking_stage.rs: a batch of transactions from verification to commit.
--
-- The transactions of a group are run one after another; the only state that their runs share is the
-- executor's program cache. A channel is not read while a batch is processed.
pub mod Batch
pub mod Loops
pub mod Released
pub mod Single
pub mod Outcome
pub mod Results
pub mod Groups
pub mod Invalid
mod Tests
use tiny_solana.Common.{
  ℕ, suc, ◌≡◌, refl, Bool, true, false, Option, none, some, List, [], ◌∷◌, map, set, length,
  replicate, if◌then◌else◌,
}
use tiny_solana.Common.Result.{Result, ok, err, panic}
use tiny_solana.Common.KeyMap.{KeyMap}
use tiny_solana.Types.{Bytes, Hash, Digest}
use tiny_solana.Accounts.Store.{AccountStore}
use tiny_solana.Accounts.Overlay.{OverlayStore}
use tiny_solana.Transactions.{Transaction}
use tiny_solana.Transactions.Errors.{
  TransactionError, account_in_use, would_exceed_max_block_cost_limit, is_retryable,
}
use tiny_solana.Scheduler.{schedule}
use tiny_solana.AccountLocks.{
  AccountLockState, LockError, LockGuard, try_lock_accounts_for_group, drop_guard,
}
use tiny_solana.CostModel.{
  CostModel, TransactionCost, CostTracker, calculate_cost, sum, would_fit, add_cost, subtract_cost,
  reset,
}
use tiny_solana.Bank.Lifecycle.{
  Bank, acquire_freeze_lock, drop_freeze_lock, record_transaction_metrics,
}
use tiny_solana.Bank.Processing.{process_single_transaction}
use tiny_solana.Banking.Recorder.{RecorderError, Channel, send, record_transactions}
use tiny_solana.Banking.Committer.{commit_overlays}

-- The errors that end a batch: the task that verifies panicked, or recording failed.
pub data StageError : Type 0 where
  join_error : StageError
  recorder : RecorderError → StageError

-- The stage, the bank and what they share, and `final_results` of the batch.
pub record Stage (S : Type 0) : Type 0 where
  pub locks : AccountLockState
  pub tracker : CostTracker
  pub tx_sender : Channel Transaction
  pub poh_record_sender : Channel Hash
  pub bank : Bank
  pub accounts : S
  pub program_cache : KeyMap Bytes
  pub final_results : List (Option TransactionError)

-- An element of `group_to_process_with_cost`.
pub record Admitted : Type 0 where
  pub original_index : ℕ
  pub tx : Transaction
  pub cost : TransactionCost

abbrev pub pair_of : Admitted → ℕ × Transaction
pair_of a = (a.original_index, a.tx)

module _ {S : Type 0} where
  -- `final_results[i] = Some(e)`; the indices are those of the batch.
  abbrev pub set_result : ℕ → TransactionError → Stage S → Stage S
  set_result i e st = record st { final_results = set st.final_results i (some e) }

  -- `requeue_transaction`; a failing send is only logged.
  abbrev pub requeue_transaction : Transaction → Stage S → Stage S
  requeue_transaction tx st = record st { tx_sender = send tx st.tx_sender }

  abbrev pub requeue_if : Bool → Transaction → Stage S → Stage S
  requeue_if b tx st = if b then requeue_transaction tx st else st

  -- The loop that admits the transactions of a group to the block.
  unfoldable pub admit : CostModel → List (ℕ × Transaction) → Stage S → List Admitted × Stage S
  admit model [] st = ([], st)
  admit model ((i, tx) ∷ group) st =
      let c = calculate_cost model tx in
      elim (would_fit st.tracker c) [
        | ok _ ↦
            let (rest, st') = admit model group (record st { tracker = add_cost st.tracker c }) in
            (record { original_index = i; tx = tx; cost = c } ∷ rest, st')
        | err _ ↦ admit model group (set_result i would_exceed_max_block_cost_limit st)
        | panic ↦ admit model group (set_result i would_exceed_max_block_cost_limit st)
      ]

  -- The loop for a group whose accounts are in use. The transaction that the code looks up by its
  -- index is the admitted one, since indices are those of the batch.
  unfoldable pub roll_back : List Admitted → Stage S → Stage S
  roll_back [] st = st
  roll_back (a ∷ group) st = roll_back group (
      requeue_transaction a.tx (
        set_result a.original_index account_in_use
          (record st { tracker = subtract_cost st.tracker a.cost })))

  -- `metrics_result`
  abbrev pub outcome : Result TransactionError (OverlayStore S) → Result TransactionError (Unit {0})
  outcome (ok o) = ok tt
  outcome (err e) = err e
  outcome panic = panic

  abbrev pub count_metrics : Result TransactionError (OverlayStore S) → Stage S → Stage S
  count_metrics r st = record st { bank = record_transaction_metrics (outcome r) st.bank }

  -- `self.cost_tracker.subtract_cost(&result.cost)`
  abbrev pub refund : Admitted → Result TransactionError (OverlayStore S) → Stage S → Stage S
  refund a r st = record (count_metrics r st) { tracker = subtract_cost st.tracker a.cost }

  -- The loop over `group_results`: the overlays that succeeded, and the state after it.
  unfoldable pub settle :
      List (Admitted × Result TransactionError (OverlayStore S))
      → Stage S
      → List (OverlayStore S) × Stage S
  settle [] st = ([], st)
  settle ((a, ok o) ∷ rest) st =
      let (overlays, st') = settle rest (count_metrics (ok o) st) in (o ∷ overlays, st')
  settle ((a, err e) ∷ rest) st =
      settle rest
        (set_result a.original_index e (requeue_if (is_retryable e) a.tx (refund a (err e) st)))
  settle ((a, panic) ∷ rest) st = settle rest st

  abbrev pub panicked : List (Admitted × Result TransactionError (OverlayStore S)) → Bool
  panicked [] = false
  panicked ((a, ok o) ∷ rest) = panicked rest
  panicked ((a, err e) ∷ rest) = panicked rest
  panicked ((a, panic) ∷ rest) = true

  -- The guards are dropped at the end of the loop's body, at a `?` and when a panic unwinds.
  abbrev pub release : LockGuard → Stage S → Stage S
  release guard st = record st {
    locks = drop_guard guard st.locks;
    bank = drop_freeze_lock st.bank;
  }

  abbrev pub take_locks : AccountLockState → Stage S → Stage S
  take_locks locks st = record st { locks = locks; bank = acquire_freeze_lock st.bank }
