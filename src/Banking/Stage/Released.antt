-- ===== src/Banking/Stage/Released.antt =====
-- The guards of a batch: every lock that a group takes is given back.
use tiny_solana.Common.{
  ℕ, suc, ◌≡◌, refl, ◌∙◌, inl, inr, Option, none, some, List, [], ◌∷◌, map, arith, replicate,
  length, Bool-cases, Option-cases,
}
use tiny_solana.Common.Result.{Result, ok, err, panic}
use tiny_solana.Types.{Digest, Hash}
use tiny_solana.Accounts.Store.{AccountStore}
use tiny_solana.Accounts.Overlay.{OverlayStore}
use tiny_solana.Transactions.{Transaction}
use tiny_solana.Transactions.Errors.{TransactionError}
use tiny_solana.Scheduler.{schedule}
use tiny_solana.AccountLocks.{AccountLockState, LockGuard, try_lock_accounts_for_group, LockError}
use tiny_solana.AccountLocks.Release.{drop_guard-try_lock}
use tiny_solana.CostModel.{CostModel}
use tiny_solana.Runtime.{Executor}
use tiny_solana.Bank.Lifecycle.{acquire_freeze_lock, drop_freeze_lock}
use tiny_solana.Banking.Recorder.{RecorderError, Channel, record_transactions}
use tiny_solana.Banking.Committer.{commit_overlays}
use tiny_solana.Banking.Stage.{
  Stage, StageError, Admitted, pair_of, admit, roll_back, settle, panicked, take_locks, set_result,
}
use tiny_solana.Banking.Stage.Batch.{
  run_group, commit, after_record, process_locked, with_locks, process_admitted, process_group,
  process_groups, verify_all, keep_verified, process_verified, end_batch, groups_of, process_batch,
}
use tiny_solana.Banking.Stage.Loops.{
  Untouched, HoldSame, HasRoom, Untouched-HoldSame, HoldSame-trans, HoldSame-HasRoom,
  admit-Untouched, roll_back-Untouched, settle-Untouched,
}

module _ (execute : Executor) (sha256 : Digest) {S : Type 0} (ops : AccountStore S) where
  commit-Untouched :
      (overlays : List (OverlayStore S)) (st : Stage S)
      → Untouched st (commit execute sha256 ops (overlays, st)).1
  commit-Untouched overlays st = elim (Option-cases (commit_overlays ops overlays st.accounts)) [
    | inl e ↦ rw (e, commit) (refl, refl)
    | inr (s, e) ↦ rw (e, commit) (refl, refl)
  ]

  after_record-Untouched :
      (results : List (Admitted × Result TransactionError (OverlayStore S)))
      → (r : Result RecorderError (Unit {0}) × Channel Hash) → (st : Stage S)
      → Untouched st (after_record execute sha256 ops results r st).1
  after_record-Untouched results (ok u, c) st =
      let sent : Stage S = record st { poh_record_sender = c } in
      let (overlays, settled) = settle results sent in
      let (l, f) = commit-Untouched overlays settled in
      let (l', f') = settle-Untouched results sent in (l ∙ l', f ∙ f')
  after_record-Untouched results (err e, c) st = (refl, refl)
  after_record-Untouched results (panic, c) st = (refl, refl)

  process_locked-Untouched :
      (group : List Admitted) (st : Stage S)
      → Untouched st (process_locked execute sha256 ops group st).1
  unfolding process_locked
  process_locked-Untouched group st =
      let (results, cache) =
        run_group execute sha256 ops st.bank st.accounts group st.program_cache in
      let ran : Stage S = record st { program_cache = cache } in
      elim (Bool-cases (panicked results)) [
        | inl e ↦ rw (e, process_locked) (refl, refl)
        | inr e ↦
            rw (e, process_locked)
              (after_record-Untouched results
                (record_transactions sha256 (map pair_of group) st.poh_record_sender) ran)
      ]

  with_locks-HoldSame :
      (group : List Admitted) (st : Stage S) (r : Result LockError LockGuard × AccountLockState)
      → try_lock_accounts_for_group (map pair_of group) st.locks ≡ r
      → HasRoom st
      → HoldSame st (with_locks execute sha256 ops group st r).1
  unfolding acquire_freeze_lock drop_freeze_lock
  with_locks-HoldSame group st (ok guard, locks) e room =
      let taken = take_locks locks st in
      let (l, f) = process_locked-Untouched group taken in
      let back =
        drop_guard-try_lock (map pair_of group) st.locks locks guard room.counted room.readers e in
      ((λ k. rw l (back k)), omega (arith, f, room.freezers))
  with_locks-HoldSame group st (err x, locks) e room =
      Untouched-HoldSame st (roll_back group st) (roll_back-Untouched group st)
  with_locks-HoldSame group st (panic, locks) e room = ((λ k. (refl, refl)), refl)

  process_admitted-HoldSame :
      (group : List Admitted) (st : Stage S)
      → HasRoom st
      → HoldSame st (process_admitted execute sha256 ops (group, st)).1
  process_admitted-HoldSame [] st room = ((λ k. (refl, refl)), refl)
  process_admitted-HoldSame (a ∷ group) st room = with_locks-HoldSame (a ∷ group) st _ refl room

  process_group-HoldSame :
      (model : CostModel) (group : List (ℕ × Transaction)) (st : Stage S)
      → HasRoom st
      → HoldSame st (process_group execute sha256 ops model group st).1
  unfolding process_group
  process_group-HoldSame model group st room =
      let (admitted, st') = admit model group st in
      let same = Untouched-HoldSame st st' (admit-Untouched model group st) in
      HoldSame-trans st st' (process_admitted execute sha256 ops (admitted, st')).1 same
        (process_admitted-HoldSame admitted st' (HoldSame-HasRoom st st' same room))

  process_groups-HoldSame :
      (model : CostModel) (groups : List (List (ℕ × Transaction))) (st : Stage S)
      → HasRoom st
      → HoldSame st (process_groups execute sha256 ops model groups st).1
  unfolding process_groups
  process_groups-HoldSame model [] st room = ((λ k. (refl, refl)), refl)
  process_groups-HoldSame model (group ∷ groups) st room =
      let (r, st') = process_group execute sha256 ops model group st in
      let same = process_group-HoldSame model group st room in
      let rest = process_groups-HoldSame model groups st' (HoldSame-HasRoom st st' same room) in
      go r refl same
        (HoldSame-trans st st' (process_groups execute sha256 ops model groups st').1 same rest)
    where
      go :
          (r : Result StageError (Unit {0}))
          → (process_group execute sha256 ops model group st).0 ≡ r
          → HoldSame st (process_group execute sha256 ops model group st).1
          → HoldSame st
              (process_groups execute sha256 ops model groups
                (process_group execute sha256 ops model group st).1).1
          → HoldSame st (process_groups execute sha256 ops model (group ∷ groups) st).1
      go (ok u) e here there = rw (e, process_groups) there
      go (err x) e here there = rw (e, process_groups) here
      go panic e here there = rw (e, process_groups) here

  module _ (verify : Transaction → Result TransactionError (Unit {0})) where
    keep_verified-Untouched :
        (i : ℕ) (txs : List Transaction) (rs : List (Result TransactionError (Unit {0})))
        (st : Stage S)
        → Untouched st (keep_verified execute sha256 ops verify i txs rs st).1
    unfolding keep_verified
    keep_verified-Untouched i [] rs st = (refl, refl)
    keep_verified-Untouched i (tx ∷ txs) [] st = (refl, refl)
    keep_verified-Untouched i (tx ∷ txs) (ok u ∷ rs) st = keep_verified-Untouched (suc i) txs rs st
    keep_verified-Untouched i (tx ∷ txs) (err e ∷ rs) st =
        keep_verified-Untouched (suc i) txs rs (set_result i e st)
    keep_verified-Untouched i (tx ∷ txs) (panic ∷ rs) st = keep_verified-Untouched (suc i) txs rs st

    end_batch-locks :
        (r : Result StageError (Unit {0})) (st : Stage S)
        → Untouched st (end_batch execute sha256 ops verify (r, st)).1
    end_batch-locks (ok u) st = (refl, refl)
    end_batch-locks (err e) st = (refl, refl)
    end_batch-locks panic st = (refl, refl)

    process_verified-HoldSame :
        (model : CostModel) (txs : List Transaction) (st : Stage S)
        (o : Option (List (Result TransactionError (Unit {0}))))
        → HasRoom st
        → HoldSame st (process_verified execute sha256 ops verify model txs st o).1
    process_verified-HoldSame model txs st none room = ((λ k. (refl, refl)), refl)
    process_verified-HoldSame model txs st (some results) room =
        let (kept, st1) = keep_verified execute sha256 ops verify 0 txs results st in
        let groups = groups_of execute sha256 ops verify (schedule kept) in
        let (r, st2) = process_groups execute sha256 ops model groups st1 in
        let st3 = (end_batch execute sha256 ops verify (r, st2)).1 in
        let first = Untouched-HoldSame st st1 (keep_verified-Untouched 0 txs results st) in
        let second =
          process_groups-HoldSame model groups st1 (HoldSame-HasRoom st st1 first room) in
        let third = Untouched-HoldSame st2 st3 (end_batch-locks r st2) in
        HoldSame-trans st st1 st3 first (HoldSame-trans st1 st2 st3 second third)

    -- However a batch ends, with its results, an error or a panic, afterwards the same account locks
    -- are held, key by key, and as many freeze locks as before: every guard that the batch took was
    -- dropped. Read counts are positive before, and the counters have room for one more.
    pub process_batch-HoldSame :
        (model : CostModel) (txs : List Transaction) (st : Stage S)
        → HasRoom st
        → HoldSame st (process_batch execute sha256 ops verify model txs st).1
    unfolding process_batch
    process_batch-HoldSame model txs st room =
        process_verified-HoldSame model txs
          (record st { final_results = replicate (length txs) none })
          (verify_all execute sha256 ops verify txs)
          (record { counted = room.counted; readers = room.readers; freezers = room.freezers })
