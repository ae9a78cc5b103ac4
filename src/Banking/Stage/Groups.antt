-- ===== src/Banking/Stage/Groups.antt =====
-- Which results the groups of a batch write.
use mathlib.Core.List.{flatten}
use tiny_solana.Common.{
  ℕ, ◌≡◌, refl, ap, ◌∙◌, inl, inr, false, List, [], ◌∷◌, map, Bool-cases, Option-cases,
}
use tiny_solana.Common.Result.{Result, ok, err, panic}
use tiny_solana.Common.KeyMap.{KeyMap}
use tiny_solana.Types.{Bytes, Digest, Hash}
use tiny_solana.Accounts.Store.{AccountStore}
use tiny_solana.Accounts.Overlay.{OverlayStore}
use tiny_solana.Transactions.{Transaction}
use tiny_solana.Transactions.Errors.{TransactionError}
use tiny_solana.AccountLocks.{AccountLockState, LockError, LockGuard}
use tiny_solana.CostModel.{CostModel}
use tiny_solana.Runtime.{Executor}
use tiny_solana.Bank.Lifecycle.{Bank}
use tiny_solana.Banking.Recorder.{RecorderError, Channel, record_transactions}
use tiny_solana.Banking.Committer.{commit_overlays}
use tiny_solana.Banking.Stage.{
  Stage, StageError, Admitted, pair_of, admit, settle, panicked, take_locks,
}
use tiny_solana.Banking.Stage.Batch.{
  run_group, commit, after_record, process_locked, with_locks, process_admitted, process_group,
  process_groups,
}
use tiny_solana.Banking.Stage.Results.{
  is_listed-append, is_listed, is_admitted, SameResult, admit-SameResult, roll_back-SameResult,
  settle-SameResult,
}

module _ (execute : Executor) (sha256 : Digest) {S : Type 0} (ops : AccountStore S) (i : ℕ) where
  run_group-admitted :
      (bank : Bank) (accounts : S) (group : List Admitted) (cache : KeyMap Bytes)
      → map (λ p. p.0) (run_group execute sha256 ops bank accounts group cache).0 ≡ group
  unfolding run_group
  run_group-admitted bank accounts [] cache = refl
  run_group-admitted bank accounts (a ∷ group) cache =
      ap (λ l. a ∷ l) (run_group-admitted bank accounts group _)

  commit-SameResult :
      (overlays : List (OverlayStore S)) (st : Stage S)
      → SameResult i st (commit execute sha256 ops (overlays, st)).1
  commit-SameResult overlays st = elim (Option-cases (commit_overlays ops overlays st.accounts)) [
    | inl e ↦ rw (e, commit) refl
    | inr (s, e) ↦ rw (e, commit) refl
  ]

  after_record-SameResult :
      (results : List (Admitted × Result TransactionError (OverlayStore S)))
      → (r : Result RecorderError (Unit {0}) × Channel Hash) → (st : Stage S)
      → is_admitted i (map (λ p. p.0) results) ≡ false
      → SameResult i st (after_record execute sha256 ops results r st).1
  after_record-SameResult results (ok u, c) st h =
      let sent : Stage S = record st { poh_record_sender = c } in
      let (overlays, settled) = settle results sent in
      commit-SameResult overlays settled ∙ settle-SameResult i results sent h
  after_record-SameResult results (err e, c) st h = refl
  after_record-SameResult results (panic, c) st h = refl

  process_locked-SameResult :
      (group : List Admitted) (st : Stage S)
      → is_admitted i group ≡ false
      → SameResult i st (process_locked execute sha256 ops group st).1
  unfolding process_locked
  process_locked-SameResult group st h =
      let (results, cache) =
        run_group execute sha256 ops st.bank st.accounts group st.program_cache in
      let ran : Stage S = record st { program_cache = cache } in
      let same =
        ap (is_admitted i) (run_group-admitted st.bank st.accounts group st.program_cache) ∙ h in
      elim (Bool-cases (panicked results)) [
        | inl e ↦ rw (e, process_locked) refl
        | inr e ↦
            rw (e, process_locked)
              (after_record-SameResult results
                (record_transactions sha256 (map pair_of group) st.poh_record_sender) ran same)
      ]

  with_locks-SameResult :
      (group : List Admitted) (st : Stage S) (r : Result LockError LockGuard × AccountLockState)
      → is_admitted i group ≡ false
      → SameResult i st (with_locks execute sha256 ops group st r).1
  with_locks-SameResult group st (ok guard, locks) h =
      process_locked-SameResult group (take_locks locks st) h
  with_locks-SameResult group st (err x, locks) h = roll_back-SameResult i group st h
  with_locks-SameResult group st (panic, locks) h = refl

  process_admitted-SameResult :
      (group : List Admitted) (st : Stage S)
      → is_admitted i group ≡ false
      → SameResult i st (process_admitted execute sha256 ops (group, st)).1
  process_admitted-SameResult [] st h = refl
  process_admitted-SameResult (a ∷ group) st h = with_locks-SameResult (a ∷ group) st _ h

  process_group-SameResult :
      (model : CostModel) (group : List (ℕ × Transaction)) (st : Stage S)
      → is_listed i group ≡ false
      → SameResult i st (process_group execute sha256 ops model group st).1
  unfolding process_group
  process_group-SameResult model group st h =
      let (unlisted, same) = admit-SameResult i model group st h in
      process_admitted-SameResult (admit model group st).0 (admit model group st).1 unlisted ∙ same

  pub process_groups-SameResult :
      (model : CostModel) (groups : List (List (ℕ × Transaction))) (st : Stage S)
      → is_listed i (flatten groups) ≡ false
      → SameResult i st (process_groups execute sha256 ops model groups st).1
  unfolding process_groups flatten
  process_groups-SameResult model [] st h = refl
  process_groups-SameResult model (group ∷ groups) st h =
      let (here, later) = is_listed-append i group (flatten groups) h in
      let (r, st') = process_group execute sha256 ops model group st in
      let same = process_group-SameResult model group st here in
      go r refl same (process_groups-SameResult model groups st' later ∙ same)
    where
      go :
          (r : Result StageError (Unit {0}))
          → (process_group execute sha256 ops model group st).0 ≡ r
          → SameResult i st (process_group execute sha256 ops model group st).1
          → SameResult i st
              (process_groups execute sha256 ops model groups
                (process_group execute sha256 ops model group st).1).1
          → SameResult i st (process_groups execute sha256 ops model (group ∷ groups) st).1
      go (ok u) e here there = rw (e, process_groups) there
      go (err x) e here there = rw (e, process_groups) here
      go panic e here there = rw (e, process_groups) here
