-- ===== src/Banking/Stage/Outcome.antt =====
-- How a batch of one transaction ends.
use tiny_solana.Common.{◌≡◌, refl, true, none, some, List, [], ◌∷◌}
use tiny_solana.Common.Result.{Result, ok, err}
use tiny_solana.Common.KeyMap.{KeyMap}
use tiny_solana.Types.{Bytes, Digest, Signature}
use tiny_solana.Accounts.Store.{AccountStore}
use tiny_solana.Accounts.Overlay.{OverlayStore, write_back}
use tiny_solana.Transactions.{Transaction}
use tiny_solana.Transactions.Errors.{TransactionError}
use tiny_solana.AccountLocks.{new}
use tiny_solana.AccountLocks.Free.{try_lock-new}
use tiny_solana.CostModel.{CostModel, calculate_cost, would_fit, sum}
use tiny_solana.Runtime.{Executor}
use tiny_solana.Bank.Lifecycle.{acquire_freeze_lock}
use tiny_solana.Bank.Processing.{process_single_transaction}
use tiny_solana.Bank.Final.{process_single_transaction-is_retryable}
use tiny_solana.Banking.Committer.{commit_overlays}
use tiny_solana.Banking.Stage.{Stage, settle, take_locks, count_metrics}
use tiny_solana.Banking.Stage.Batch.{process_batch}
use tiny_solana.Banking.Stage.Single.{
  recorded, ran, only, admitted_to, begun, commit_one, process_batch_settled,
}

module _ (execute : Executor) (sha256 : Digest) {S : Type 0} (ops : AccountStore S)
    (verify : Transaction → Result TransactionError (Unit {0})) where
  module _ (model : CostModel) (tx : Transaction) (st : Stage S) (cache : KeyMap Bytes)
      (s : Signature) (rest : List Signature) where
    -- A batch of one transaction that is valid, fits into the block, finds no locks taken and is
    -- processed to an overlay: no error is reported, the store is written, the hash of the first
    -- signature is sent to the proof of history, and nothing is queued again.
    pub process_batch_single :
        (o : OverlayStore S) (s' : S)
        → verify tx ≡ ok tt
        → would_fit st.tracker (calculate_cost model tx) ≡ ok tt
        → st.locks ≡ new
        → tx.signatures ≡ s ∷ rest
        → st.poh_record_sender.connected ≡ true
        → process_single_transaction execute ops
            (acquire_freeze_lock st.bank)
            tx
            (sum (calculate_cost model tx))
            st.program_cache
            st.accounts
          ≡ (ok o, cache)
        → write_back ops o.dirty st.accounts ≡ some s'
        → let r = process_batch execute sha256 ops verify model (tx ∷ []) st in
          (r.0 ≡ ok (none ∷ []))
          × (r.1.accounts ≡ s')
          × (r.1.poh_record_sender ≡ recorded sha256 s st.poh_record_sender)
          × (r.1.tx_sender ≡ st.tx_sender)
    unfolding settle
    process_batch_single o s' valid fits free signed open_ run written =
        let (guard, locks, e) = try_lock-new ((0, tx) ∷ []) in
        let t =
          count_metrics (ok o)
            (ran sha256 (take_locks locks (admitted_to model tx (begun st))) cache s) in
        let whole =
          process_batch_settled execute sha256 ops verify model tx st cache s rest (ok o) locks
            guard (record t { accounts = s' }) valid fits (rw free e) signed open_ run refl
            (commit_one execute sha256 ops o t s' written) in
        rw whole (refl, refl, refl, refl)

    -- A batch of one transaction whose signatures are valid, which has at least one, whose cost fits
    -- into the block, and which finds no locks taken and the proof of history connected, when its
    -- processing ends with an error: the batch succeeds with that error as the transaction's result;
    -- no account changes; the hash of its first signature is sent to the proof of history all the
    -- same; and it is not queued again, since no error of the processing is retryable.
    pub process_batch_fails :
        (x : TransactionError)
        → verify tx ≡ ok tt
        → would_fit st.tracker (calculate_cost model tx) ≡ ok tt
        → st.locks ≡ new
        → tx.signatures ≡ s ∷ rest
        → st.poh_record_sender.connected ≡ true
        → process_single_transaction execute ops
            (acquire_freeze_lock st.bank)
            tx
            (sum (calculate_cost model tx))
            st.program_cache
            st.accounts
          ≡ (err x, cache)
        → let r = process_batch execute sha256 ops verify model (tx ∷ []) st in
          (r.0 ≡ ok (some x ∷ []))
          × (r.1.accounts ≡ st.accounts)
          × (r.1.poh_record_sender ≡ recorded sha256 s st.poh_record_sender)
          × (r.1.tx_sender ≡ st.tx_sender)
    unfolding settle commit_overlays
    process_batch_fails x valid fits free signed open_ run =
        let (guard, locks, e) = try_lock-new ((0, tx) ∷ []) in
        let t = ran sha256 (take_locks locks (admitted_to model tx (begun st))) cache s in
        let whole =
          process_batch_settled execute sha256 ops verify model tx st cache s rest (err x) locks
            guard (settle ((only model tx, err x) ∷ []) t).1 valid fits (rw free e) signed open_ run
            refl refl in
        let final =
          process_single_transaction-is_retryable execute ops (acquire_freeze_lock st.bank) tx
            (sum (calculate_cost model tx)) st.program_cache cache st.accounts x run in
        rw whole (rw final (refl, refl, refl, refl))
