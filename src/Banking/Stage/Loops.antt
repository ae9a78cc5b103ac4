-- ===== src/Banking/Stage/Loops.antt =====
-- What the loops of a batch leave alone.
use tiny_solana.Common.{ℕ, ◌+◌, ◌<◌, ◌≡◌, refl, ◌∙◌, Bool, true, false, List, [], ◌∷◌}
use tiny_solana.Common.Result.{Result, ok, err, panic}
use tiny_solana.Common.Word.{u64_mod}
use tiny_solana.Common.KeyMap
use tiny_solana.Types.{Pubkey}
use tiny_solana.Accounts.Overlay.{OverlayStore}
use tiny_solana.Transactions.{Transaction}
use tiny_solana.Transactions.Errors.{TransactionError, is_retryable}
use tiny_solana.AccountLocks.Keys.{reads_of}
use tiny_solana.AccountLocks.Release.{IsCount, SameLocks}
use tiny_solana.CostModel.{CostModel, CostModelError, calculate_cost, would_fit}
use tiny_solana.Bank.Lifecycle.{Bank, record_transaction_metrics}
use tiny_solana.Banking.Stage.{
  Stage, Admitted, admit, roll_back, settle, count_metrics, set_result, requeue_if, refund,
}

-- The lock table and the freeze locks are untouched.
abbrev pub Untouched : {S : Type 0} → Stage S → Stage S → Type 0
Untouched st t = (t.locks ≡ st.locks) × (t.bank.freeze_lock_count ≡ st.bank.freeze_lock_count)

-- The same locks are held, key by key, and as many freeze locks.
abbrev pub HoldSame : {S : Type 0} → Stage S → Stage S → Type 0
HoldSame st t = SameLocks t.locks st.locks × (t.bank.freeze_lock_count ≡ st.bank.freeze_lock_count)

-- Read counts are positive, and each counter has room for one more.
pub record HasRoom {S : Type 0} (st : Stage S) : Type 0 where
  pub counted : (k : Pubkey) → IsCount (KeyMap.lookup k st.locks.read_locks)
  pub readers : (k : Pubkey) → reads_of k st.locks.read_locks + 1 < u64_mod
  pub freezers : st.bank.freeze_lock_count + 1 < u64_mod

record_transaction_metrics-freeze_lock_count :
    (r : Result TransactionError (Unit {0})) (b : Bank)
    → (record_transaction_metrics r b).freeze_lock_count ≡ b.freeze_lock_count
unfolding record_transaction_metrics
record_transaction_metrics-freeze_lock_count (ok _) b = refl
record_transaction_metrics-freeze_lock_count (err e) b = refl
record_transaction_metrics-freeze_lock_count panic b = refl

module _ {S : Type 0} where
  pub Untouched-HoldSame : (st t : Stage S) → Untouched st t → HoldSame st t
  Untouched-HoldSame st t u = ((λ k. rw u.0 (refl, refl)), u.1)

  pub HoldSame-trans : (r s t : Stage S) → HoldSame r s → HoldSame s t → HoldSame r t
  HoldSame-trans r s t a b = ((λ k. ((b.0 k).0 ∙ (a.0 k).0, (b.0 k).1 ∙ (a.0 k).1)), b.1 ∙ a.1)

  pub HoldSame-HasRoom : (st t : Stage S) → HoldSame st t → HasRoom st → HasRoom t
  HoldSame-HasRoom st t same room = record {
    counted = λ k. rw (same.0 k).1 (room.counted k);
    readers = λ k. rw (same.0 k).1 (room.readers k);
    freezers = rw same.1 room.freezers;
  }

  pub admit-Untouched :
      (model : CostModel) (group : List (ℕ × Transaction)) (st : Stage S)
      → Untouched st (admit model group st).1
  unfolding admit
  admit-Untouched model [] st = (refl, refl)
  admit-Untouched model ((i, tx) ∷ group) st =
      go (would_fit st.tracker (calculate_cost model tx)) refl (admit-Untouched model group)
    where
      go :
          (r : Result CostModelError (Unit {0}))
          → would_fit st.tracker (calculate_cost model tx) ≡ r
          → ((t : Stage S) → Untouched t (admit model group t).1)
          → Untouched st (admit model ((i, tx) ∷ group) st).1
      go (ok u) e rest = rw (e, admit) (rest _)
      go (err x) e rest = rw (e, admit) (rest _)
      go panic e rest = rw (e, admit) (rest _)

  pub roll_back-Untouched :
      (group : List Admitted) (st : Stage S) → Untouched st (roll_back group st)
  unfolding roll_back
  roll_back-Untouched [] st = (refl, refl)
  roll_back-Untouched (a ∷ group) st = roll_back-Untouched group _

  requeue_if-Untouched :
      (b : Bool) (tx : Transaction) (st : Stage S) → Untouched st (requeue_if b tx st)
  requeue_if-Untouched true tx st = (refl, refl)
  requeue_if-Untouched false tx st = (refl, refl)

  pub settle-Untouched :
      (results : List (Admitted × Result TransactionError (OverlayStore S))) (st : Stage S)
      → Untouched st (settle results st).1
  unfolding settle
  settle-Untouched [] st = (refl, refl)
  settle-Untouched ((a, ok o) ∷ rest) st =
      let (l, f) = settle-Untouched rest (count_metrics (ok o) st) in
      (l, f ∙ record_transaction_metrics-freeze_lock_count (ok tt) st.bank)
  settle-Untouched ((a, err e) ∷ rest) st =
      let refunded = refund a (err e) st in
      let back = requeue_if (is_retryable e) a.tx refunded in
      let (l, f) = settle-Untouched rest (set_result a.original_index e back) in
      let (l', f') = requeue_if-Untouched (is_retryable e) a.tx refunded in
      (l ∙ l', f ∙ f' ∙ record_transaction_metrics-freeze_lock_count (err e) st.bank)
  settle-Untouched ((a, panic) ∷ rest) st = settle-Untouched rest st
