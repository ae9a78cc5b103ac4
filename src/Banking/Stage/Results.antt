-- ===== src/Banking/Stage/Results.antt =====
-- Which results the loops of a batch write.
use tiny_solana.Common.{
  ℕ, ◌≡◌, refl, ◌∙◌, Bool, true, false, ◌||◌, some, List, [], ◌∷◌, map, ◌++◌, arith, ◌==◌,
  get_elem?, get_elem?-set_ne,
}
use tiny_solana.Common.Result.{Result, ok, err, panic}
use tiny_solana.Accounts.Overlay.{OverlayStore}
use tiny_solana.Transactions.{Transaction}
use tiny_solana.Transactions.Errors.{TransactionError, is_retryable}
use tiny_solana.CostModel.{CostModel, CostModelError, calculate_cost, would_fit}
use tiny_solana.Banking.Stage.{
  Stage, Admitted, admit, roll_back, settle, set_result, requeue_if, refund, count_metrics,
}

-- Some transaction of the group has the index.
abbrev pub is_listed : ℕ → List (ℕ × Transaction) → Bool
is_listed i [] = false
is_listed i ((j, tx) ∷ group) = j == i || is_listed i group

abbrev pub is_admitted : ℕ → List Admitted → Bool
is_admitted i [] = false
is_admitted i (a ∷ group) = a.original_index == i || is_admitted i group

pub is_listed-append :
    (i : ℕ) (xs ys : List (ℕ × Transaction))
    → is_listed i (xs ++ ys) ≡ false
    → (is_listed i xs ≡ false) × (is_listed i ys ≡ false)
is_listed-append i [] ys h = (refl, h)
is_listed-append i (x ∷ xs) ys h = ground (arith, is_listed-append i xs ys)

-- The result at the index is as before.
abbrev pub SameResult : {S : Type 0} → ℕ → Stage S → Stage S → Type 0
SameResult i st t = get_elem? t.final_results i ≡ get_elem? st.final_results i

module _ {S : Type 0} (i : ℕ) where
  pub set_result-SameResult :
      (j : ℕ) (e : TransactionError) (st : Stage S)
      → (j == i) ≡ false
      → SameResult i st (set_result j e st)
  set_result-SameResult j e st ne = get_elem?-set_ne st.final_results j i (some e) (ground arith)

  pub admit-SameResult :
      (model : CostModel) (group : List (ℕ × Transaction)) (st : Stage S)
      → is_listed i group ≡ false
      → (is_admitted i (admit model group st).0 ≡ false) × SameResult i st (admit model group st).1
  unfolding admit
  admit-SameResult model [] st h = (refl, refl)
  admit-SameResult model ((j, tx) ∷ group) st h =
      let ne : (j == i) ≡ false = ground arith in
      let rest_ne : is_listed i group ≡ false = ground arith in
      go ne (would_fit st.tracker (calculate_cost model tx)) refl
        (λ t. admit-SameResult model group t rest_ne)
    where
      go :
          (j == i) ≡ false
          → (r : Result CostModelError (Unit {0}))
          → would_fit st.tracker (calculate_cost model tx) ≡ r
          → ((t : Stage S)
              → (is_admitted i (admit model group t).0 ≡ false)
                × SameResult i t (admit model group t).1)
          → (is_admitted i (admit model ((j, tx) ∷ group) st).0 ≡ false)
            × SameResult i st (admit model ((j, tx) ∷ group) st).1
      go ne (ok u) e rest = rw (e, admit, ne) (rest _)
      go ne (err x) e rest =
          rw (e, admit) ((rest _).0, (rest _).1 ∙ set_result-SameResult j _ st ne)
      go ne panic e rest = rw (e, admit) ((rest _).0, (rest _).1 ∙ set_result-SameResult j _ st ne)

  pub roll_back-SameResult :
      (group : List Admitted) (st : Stage S)
      → is_admitted i group ≡ false
      → SameResult i st (roll_back group st)
  unfolding roll_back
  roll_back-SameResult [] st h = refl
  roll_back-SameResult (a ∷ group) st h =
      roll_back-SameResult group _ (ground arith)
      ∙ set_result-SameResult a.original_index _ st (ground arith)

  requeue_if-SameResult :
      (b : Bool) (tx : Transaction) (st : Stage S) → SameResult i st (requeue_if b tx st)
  requeue_if-SameResult true tx st = refl
  requeue_if-SameResult false tx st = refl

  pub settle-SameResult :
      (results : List (Admitted × Result TransactionError (OverlayStore S))) (st : Stage S)
      → is_admitted i (map (λ p. p.0) results) ≡ false
      → SameResult i st (settle results st).1
  unfolding settle
  settle-SameResult [] st h = refl
  settle-SameResult ((a, ok o) ∷ rest) st h =
      settle-SameResult rest (count_metrics (ok o) st) (ground arith)
  settle-SameResult ((a, err e) ∷ rest) st h =
      let refunded = refund a (err e) st in
      let back = requeue_if (is_retryable e) a.tx refunded in
      settle-SameResult rest (set_result a.original_index e back) (ground arith)
      ∙ set_result-SameResult a.original_index e back (ground arith)
      ∙ requeue_if-SameResult (is_retryable e) a.tx refunded
  settle-SameResult ((a, panic) ∷ rest) st h = settle-SameResult rest st (ground arith)
