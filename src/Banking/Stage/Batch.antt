-- ===== src/Banking/Stage/Batch.antt =====
-- `BankingStage::process_batch` of src/banking_stage.rs, group by group.
use tiny_solana.Common.{
  ℕ, suc, true, false, Option, none, some, List, [], ◌∷◌, map, length, replicate,
}
use tiny_solana.Common.Result.{Result, ok, err, panic}
use tiny_solana.Common.KeyMap.{KeyMap}
use tiny_solana.Types.{Bytes, Hash, Digest}
use tiny_solana.Accounts.Store.{AccountStore}
use tiny_solana.Accounts.Overlay.{OverlayStore}
use tiny_solana.Transactions.{Transaction}
use tiny_solana.Transactions.Errors.{TransactionError}
use tiny_solana.Scheduler.{schedule}
use tiny_solana.AccountLocks.{AccountLockState, LockError, LockGuard, try_lock_accounts_for_group}
use tiny_solana.CostModel.{CostModel, sum, reset}
use tiny_solana.Bank.Lifecycle.{Bank}
use tiny_solana.Runtime.{Executor}
use tiny_solana.Bank.Processing.{process_single_transaction}
use tiny_solana.Banking.Recorder.{RecorderError, Channel, record_transactions}
use tiny_solana.Banking.Committer.{commit_overlays, commit_partly}
use tiny_solana.Banking.Stage.{
  StageError, join_error, recorder, Stage, Admitted, pair_of, set_result, admit, roll_back, settle,
  panicked, release, take_locks,
}

module _ (execute : Executor) (sha256 : Digest) {S : Type 0} (ops : AccountStore S) where
  -- The parallel map over the group.
  unfoldable pub run_group :
      Bank
      → S
      → List Admitted
      → KeyMap Bytes
      → List (Admitted × Result TransactionError (OverlayStore S)) × KeyMap Bytes
  run_group bank accounts [] cache = ([], cache)
  run_group bank accounts (a ∷ group) cache =
      let (r, cache') =
        process_single_transaction execute ops bank a.tx (sum a.cost) cache accounts in
      let (rest, cache'') = run_group bank accounts group cache' in ((a, r) ∷ rest, cache'')

  abbrev pub commit : List (OverlayStore S) × Stage S → Result StageError (Unit {0}) × Stage S
  commit (overlays, st) = elim (commit_overlays ops overlays st.accounts) [
    | none ↦ (panic, record st { accounts = commit_partly ops overlays st.accounts })
    | some accounts ↦ (ok tt, record st { accounts = accounts })
  ]

  -- What follows the record of a group.
  abbrev pub after_record :
      List (Admitted × Result TransactionError (OverlayStore S))
      → Result RecorderError (Unit {0}) × Channel Hash
      → Stage S
      → Result StageError (Unit {0}) × Stage S
  after_record results (ok _, c) st = commit (settle results (record st { poh_record_sender = c }))
  after_record results (err e, c) st = (err (recorder e), record st { poh_record_sender = c })
  after_record results (panic, c) st = (panic, record st { poh_record_sender = c })

  -- A group that holds its locks.
  unfoldable pub process_locked : List Admitted → Stage S → Result StageError (Unit {0}) × Stage S
  process_locked group st =
      let (results, cache) = run_group st.bank st.accounts group st.program_cache in
      let ran : Stage S = record st { program_cache = cache } in
      elim (panicked results) [
        | true ↦ (panic, ran)
        | false ↦
            after_record results
              (record_transactions sha256 (map pair_of group) st.poh_record_sender) ran
      ]

  abbrev pub with_locks :
      List Admitted
      → Stage S
      → Result LockError LockGuard × AccountLockState
      → Result StageError (Unit {0}) × Stage S
  with_locks group st (ok guard, locks) =
      let (r, st') = process_locked group (take_locks locks st) in (r, release guard st')
  with_locks group st (err e, locks) = (ok tt, roll_back group st)
  with_locks group st (panic, locks) = (panic, st)

  abbrev pub process_admitted : List Admitted × Stage S → Result StageError (Unit {0}) × Stage S
  process_admitted ([], st) = (ok tt, st)
  process_admitted (a ∷ group, st) =
      with_locks (a ∷ group) st (try_lock_accounts_for_group (map pair_of (a ∷ group)) st.locks)

  -- The body of the loop over the groups.
  unfoldable pub process_group :
      CostModel → List (ℕ × Transaction) → Stage S → Result StageError (Unit {0}) × Stage S
  process_group model group st = process_admitted (admit model group st)

  unfoldable pub process_groups :
      CostModel → List (List (ℕ × Transaction)) → Stage S → Result StageError (Unit {0}) × Stage S
  process_groups model [] st = (ok tt, st)
  process_groups model (group ∷ groups) st =
      let (r, st') = process_group model group st in
      elim r [
        | ok _ ↦ process_groups model groups st'
        | err e ↦ (err e, st')
        | panic ↦ (panic, st')
      ]

  module _ (verify : Transaction → Result TransactionError (Unit {0})) where
    -- `verification_results`, `none` where a check panics.
    unfoldable pub verify_all :
        List Transaction → Option (List (Result TransactionError (Unit {0})))
    verify_all [] = some []
    verify_all (tx ∷ txs) =
        let rest = verify_all txs in
        elim (verify tx) [
          | ok u ↦ elim rest [ none ↦ none | some rs ↦ some (ok u ∷ rs) ]
          | err e ↦ elim rest [ none ↦ none | some rs ↦ some (err e ∷ rs) ]
          | panic ↦ none
        ]

    -- `txs_to_schedule`, from the index on, and the results of those that are dropped.
    unfoldable pub keep_verified :
        ℕ
        → List Transaction
        → List (Result TransactionError (Unit {0}))
        → Stage S
        → List (ℕ × Transaction) × Stage S
    keep_verified i (tx ∷ txs) (err e ∷ rs) st = keep_verified (suc i) txs rs (set_result i e st)
    keep_verified i (tx ∷ txs) (_ ∷ rs) st =
        let (kept, st') = keep_verified (suc i) txs rs st in ((i, tx) ∷ kept, st')
    keep_verified i _ _ st = ([], st)

    -- `schedule` always gives its groups.
    abbrev pub groups_of : Option (List (List (ℕ × Transaction))) → List (List (ℕ × Transaction))
    groups_of none = []
    groups_of (some groups) = groups

    abbrev pub end_batch :
        Result StageError (Unit {0}) × Stage S
        → Result StageError (List (Option TransactionError)) × Stage S
    end_batch (ok _, st) = (ok st.final_results, record st { tracker = reset st.tracker })
    end_batch (err e, st) = (err e, st)
    end_batch (panic, st) = (panic, st)

    abbrev pub process_verified :
        CostModel
        → List Transaction
        → Stage S
        → Option (List (Result TransactionError (Unit {0})))
        → Result StageError (List (Option TransactionError)) × Stage S
    process_verified model txs st none = (err join_error, st)
    process_verified model txs st (some results) =
        let (kept, st') = keep_verified 0 txs results st in
        end_batch (process_groups model (groups_of (schedule kept)) st')

    -- `BankingStage::process_batch`
    unfoldable pub process_batch :
        CostModel
        → List Transaction
        → Stage S
        → Result StageError (List (Option TransactionError)) × Stage S
    process_batch model txs st =
        process_verified model txs (record st { final_results = replicate (length txs) none })
          (verify_all txs)
