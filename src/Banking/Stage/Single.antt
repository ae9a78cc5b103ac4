-- ===== src/Banking/Stage/Single.antt =====
-- A batch of one transaction, from the check of its signatures to the commit.
use mathlib.Core.List.{append-nil}
use tiny_solana.Common.{
  Option, ℕ, ◌≡◌, refl, ◌∙◌, ap, true, false, none, some, List, [], ◌∷◌, map, arith,
}
use tiny_solana.Common.Result.{Result, ok, err, panic}
use tiny_solana.Common.Digits.{be_bytes}
use tiny_solana.Common.KeyMap.{KeyMap}
use tiny_solana.Types.{Bytes, Digest, Hash, Signature}
use tiny_solana.Accounts.Store.{AccountStore}
use tiny_solana.Accounts.Overlay.{OverlayStore, write_back}
use tiny_solana.Transactions.{Transaction}
use tiny_solana.Transactions.Errors.{TransactionError}
use tiny_solana.Scheduler.Single.{schedule_one}
use tiny_solana.AccountLocks.{AccountLockState, LockGuard, try_lock_accounts_for_group}
use tiny_solana.CostModel.{CostModel, calculate_cost, would_fit, add_cost, sum, reset}
use tiny_solana.Runtime.{Executor}
use tiny_solana.Bank.Lifecycle.{Bank, acquire_freeze_lock}
use tiny_solana.Bank.Processing.{process_single_transaction}
use tiny_solana.Banking.Recorder.{Channel, send, record_transactions, signature_bytes}
use tiny_solana.Banking.Committer.{commit_overlays, commit_partly}
use tiny_solana.Banking.Stage.{
  Stage, StageError, Admitted, pair_of, admit, settle, panicked, release, take_locks,
}
use tiny_solana.Banking.Stage.Batch.{
  run_group, commit, after_record, process_locked, with_locks, process_admitted, process_group,
  process_groups, verify_all, keep_verified, process_verified, groups_of, end_batch, process_batch,
}

abbrev pub recorded : Digest → Signature → Channel Hash → Channel Hash
recorded sha256 s c = send (sha256 (be_bytes 64 s)) c

-- The state in which the results of the transaction are settled.
abbrev pub ran : {S : Type 0} → Digest → Stage S → KeyMap Bytes → Signature → Stage S
ran sha256 st cache s = record st {
  program_cache = cache;
  poh_record_sender = recorded sha256 s st.poh_record_sender;
}

-- The admitted transaction.
abbrev pub only : CostModel → Transaction → Admitted
only model tx = record { original_index = 0; tx = tx; cost = calculate_cost model tx }

abbrev pub admitted_to : {S : Type 0} → CostModel → Transaction → Stage S → Stage S
admitted_to model tx st = record st { tracker = add_cost st.tracker (calculate_cost model tx) }

-- The stage in which the results of a batch are set.
abbrev pub begun : {S : Type 0} → Stage S → Stage S
begun st = record st { final_results = none ∷ [] }

module _ (execute : Executor) (sha256 : Digest) {S : Type 0} (ops : AccountStore S) where
  record_one :
      (i : ℕ) (tx : Transaction) (s : Signature) (rest : List Signature) (c : Channel Hash)
      → tx.signatures ≡ s ∷ rest
      → c.connected ≡ true
      → record_transactions sha256 ((i, tx) ∷ []) c ≡ (ok tt, recorded sha256 s c)
  unfolding record_transactions signature_bytes
  record_one i tx s rest c e open_ = rw (e, append-nil, open_) refl

  run_group_one :
      (a : Admitted) (bank : Bank) (accounts : S) (r : Result TransactionError (OverlayStore S))
      (cache cache' : KeyMap Bytes)
      → process_single_transaction execute ops bank a.tx (sum a.cost) cache accounts ≡ (r, cache')
      → run_group execute sha256 ops bank accounts (a ∷ []) cache ≡ ((a, r) ∷ [], cache')
  unfolding run_group
  run_group_one a bank accounts r cache cache' e = ap (λ p. ((a, p.0) ∷ [], p.1)) e

  -- What follows the run of a group.
  abbrev after_run :
      List Admitted
      → Stage S
      → List (Admitted × Result TransactionError (OverlayStore S)) × KeyMap Bytes
      → Result StageError (Unit {0}) × Stage S
  after_run group st p = elim (panicked p.0) as (λ _. Result StageError (Unit {0}) × Stage S) [
    | true ↦ (panic, record st { program_cache = p.1 })
    | false ↦
        after_record execute sha256 ops p.0
          (record_transactions sha256 (map pair_of group) st.poh_record_sender)
          (record st { program_cache = p.1 })
  ]

  process_locked_one :
      (a : Admitted) (st : Stage S) (r : Result TransactionError (OverlayStore S))
      (cache : KeyMap Bytes) (s : Signature) (rest : List Signature)
      → process_single_transaction execute ops st.bank a.tx
          (sum a.cost)
          st.program_cache
          st.accounts
        ≡ (r, cache)
      → panicked ((a, r) ∷ []) ≡ false
      → a.tx.signatures ≡ s ∷ rest
      → st.poh_record_sender.connected ≡ true
      → process_locked execute sha256 ops (a ∷ []) st
        ≡ commit execute sha256 ops (settle ((a, r) ∷ []) (ran sha256 st cache s))
  unfolding process_locked
  process_locked_one a st (ok o) cache s rest run calm signed open_ =
      ap (after_run (a ∷ []) st)
        (run_group_one a st.bank st.accounts (ok o) st.program_cache cache run)
      ∙ rw (record_one a.original_index a.tx s rest st.poh_record_sender signed open_) refl
  process_locked_one a st (err e) cache s rest run calm signed open_ =
      ap (after_run (a ∷ []) st)
        (run_group_one a st.bank st.accounts (err e) st.program_cache cache run)
      ∙ rw (record_one a.original_index a.tx s rest st.poh_record_sender signed open_) refl
  process_locked_one a st panic cache s rest run calm signed open_ = absurd (ground arith)

  process_group_one :
      (model : CostModel) (tx : Transaction) (st st' : Stage S) (guard : LockGuard)
      (locks : AccountLockState) (r : Result StageError (Unit {0}))
      → would_fit st.tracker (calculate_cost model tx) ≡ ok tt
      → try_lock_accounts_for_group ((0, tx) ∷ []) st.locks ≡ (ok guard, locks)
      → process_locked execute sha256 ops
          (only model tx ∷ [])
          (take_locks locks (admitted_to model tx st))
        ≡ (r, st')
      → process_group execute sha256 ops model ((0, tx) ∷ []) st ≡ (r, release guard st')
  unfolding process_group admit
  process_group_one model tx st st' guard locks r fits locked run =
      let admission : admit model ((0, tx) ∷ []) st
          ≡ (only model tx ∷ [], admitted_to model tx st) =
        rw (admit, fits) refl in
      ap (process_admitted execute sha256 ops) admission
      ∙ ap (with_locks execute sha256 ops (only model tx ∷ []) (admitted_to model tx st)) locked
      ∙ ap (λ p. (p.0, release guard p.1)) run

  process_groups_one :
      (model : CostModel) (group : List (ℕ × Transaction)) (st st' : Stage S)
      → process_group execute sha256 ops model group st ≡ (ok tt, st')
      → process_groups execute sha256 ops model (group ∷ []) st ≡ (ok tt, st')
  unfolding process_groups
  process_groups_one model group st st' run =
      ap
        (λ (p : Result StageError (Unit {0}) × Stage S).
          elim p.0 as (λ _. Result StageError (Unit {0}) × Stage S) [
            | ok _ ↦ (ok tt, p.1)
            | err e ↦ (err e, p.1)
            | panic ↦ (panic, p.1)
          ])
        run

  pub commit_one :
      (o : OverlayStore S) (t : Stage S) (s : S)
      → write_back ops o.dirty t.accounts ≡ some s
      → commit execute sha256 ops (o ∷ [], t) ≡ (ok tt, record t { accounts = s })
  unfolding commit_overlays
  commit_one o t s written =
      let done : commit_overlays ops (o ∷ []) t.accounts ≡ some s =
        rw (commit_overlays, written) refl in
      ap
        (λ (x : Option S). elim x as (λ _. Result StageError (Unit {0}) × Stage S) [
          | none ↦ (panic, record t { accounts = commit_partly ops (o ∷ []) t.accounts })
          | some accounts ↦ (ok tt, record t { accounts = accounts })
        ])
        done

  module _ (verify : Transaction → Result TransactionError (Unit {0})) where
    process_batch_one :
        (model : CostModel) (tx : Transaction) (st st' : Stage S)
        → verify tx ≡ ok tt
        → process_group execute sha256 ops model ((0, tx) ∷ []) (begun st) ≡ (ok tt, st')
        → process_batch execute sha256 ops verify model (tx ∷ []) st
          ≡ (ok st'.final_results, record st' { tracker = reset st'.tracker })
    unfolding process_batch verify_all keep_verified process_groups
    process_batch_one model tx st st' valid run =
        let checked : verify_all execute sha256 ops verify (tx ∷ []) ≡ some (ok tt ∷ []) =
          rw (verify_all, valid) refl in
        ap (process_verified execute sha256 ops verify model (tx ∷ []) (begun st)) checked
        ∙ ap
            (λ o. end_batch execute sha256 ops verify (
              process_groups execute sha256 ops model (groups_of execute sha256 ops verify o)
                (begun st)))
            (schedule_one (0, tx))
        ∙ ap (end_batch execute sha256 ops verify)
            (process_groups_one model ((0, tx) ∷ []) (begun st) st' run)

    module _ (model : CostModel) (tx : Transaction) (st : Stage S) (cache : KeyMap Bytes)
        (s : Signature) (rest : List Signature) where
      -- The batch ends in the stage to which its only transaction brings its group.
      pub process_batch_settled :
          (r : Result TransactionError (OverlayStore S)) (locks : AccountLockState)
          (guard : LockGuard) (st' : Stage S)
          → verify tx ≡ ok tt
          → would_fit st.tracker (calculate_cost model tx) ≡ ok tt
          → try_lock_accounts_for_group ((0, tx) ∷ []) st.locks ≡ (ok guard, locks)
          → tx.signatures ≡ s ∷ rest
          → st.poh_record_sender.connected ≡ true
          → process_single_transaction execute ops
              (acquire_freeze_lock st.bank)
              tx
              (sum (calculate_cost model tx))
              st.program_cache
              st.accounts
            ≡ (r, cache)
          → panicked ((only model tx, r) ∷ []) ≡ false
          → commit execute sha256 ops (
              settle
                ((only model tx, r) ∷ [])
                (ran sha256 (take_locks locks (admitted_to model tx (begun st))) cache s))
            ≡ (ok tt, st')
          → process_batch execute sha256 ops verify model (tx ∷ []) st
            ≡ (ok st'.final_results, record (release guard st') { tracker = reset st'.tracker })
      process_batch_settled r locks guard st' valid fits locked signed open_ run calm settled =
          process_batch_one model tx st (release guard st') valid (
            process_group_one model tx (begun st) st' guard locks (ok tt) fits locked (
              process_locked_one (only model tx)
                (take_locks locks (admitted_to model tx (begun st))) r cache s rest run calm signed
                open_
              ∙ settled))
