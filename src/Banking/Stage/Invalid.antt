-- ===== src/Banking/Stage/Invalid.antt =====
-- A transaction that fails the check of its signatures, in any batch.
use mathlib.Core.List.{flatten, Perm, foldr}
use mathlib.Core.List.Perm
use tiny_solana.Common.{
  ℕ, zero, suc, ◌+◌, ◌<◌, ◌≡◌, refl, ap, sym, ◌∙◌, ◌⊎◌, inl, inr, Bool, true, false, ◌||◌, Option,
  none, some, List, [], ◌∷◌, arith, ◌==◌, get_elem?, length, length-set, replicate,
  get_elem?-set_self, get_elem?-lt,
}
use tiny_solana.Common.Result.{Result, ok, err, panic}
use tiny_solana.Types.{Digest}
use tiny_solana.Accounts.Store.{AccountStore}
use tiny_solana.Transactions.{Transaction}
use tiny_solana.Transactions.Errors.{TransactionError}
use tiny_solana.Scheduler.Complete.{schedule-perm}
use tiny_solana.CostModel.{CostModel}
use tiny_solana.Runtime.{Executor}
use tiny_solana.Banking.Stage.{Stage, StageError, set_result}
use tiny_solana.Banking.Stage.Batch.{
  process_groups, verify_all, keep_verified, end_batch, process_batch,
}
use tiny_solana.Banking.Stage.Results.{is_listed, SameResult, set_result-SameResult}
use tiny_solana.Banking.Stage.Groups.{process_groups-SameResult}

length-replicate : (n : ℕ) → length (replicate {A = Option TransactionError} n none) ≡ n
length-replicate zero = refl
length-replicate (suc n) = ap suc (length-replicate n)

-- The test of one element, as a step of `foldr`.
abbrev or_listed : ℕ → ℕ × Transaction → Bool → Bool
or_listed i p b = p.0 == i || b

is_listed-foldr :
    (i : ℕ) (xs : List (ℕ × Transaction)) → is_listed i xs ≡ foldr (or_listed i) false xs
is_listed-foldr i [] = refl
is_listed-foldr i (x ∷ xs) = ap (λ b. x.0 == i || b) (is_listed-foldr i xs)

or_swap : (a b c : Bool) → (a || (b || c)) ≡ (b || (a || c))
or_swap true true c = refl
or_swap true false c = refl
or_swap false b c = refl

is_listed-Perm :
    (i : ℕ) (xs ys : List (ℕ × Transaction)) → Perm xs ys → is_listed i xs ≡ is_listed i ys
is_listed-Perm i xs ys p =
    is_listed-foldr i xs
    ∙ Perm.foldr-eq {A = ℕ × Transaction} {B = Bool} (hlevel) (or_listed i)
        (λ a b c. or_swap (a.0 == i) (b.0 == i) c) p false
    ∙ sym (is_listed-foldr i ys)

module _ (execute : Executor) (sha256 : Digest) {S : Type 0} (ops : AccountStore S)
    (verify : Transaction → Result TransactionError (Unit {0})) where
  verify_all-cons :
      (t : Transaction) (txs : List Transaction) (rs : List (Result TransactionError (Unit {0})))
      → verify_all execute sha256 ops verify (t ∷ txs) ≡ some rs
      → (qs : List (Result TransactionError (Unit {0}))) × (verify_all execute sha256 ops verify txs
          ≡ some qs)
        × (rs ≡ verify t ∷ qs)
  unfolding verify_all
  verify_all-cons t txs rs e = go (verify t) refl (verify_all execute sha256 ops verify txs) refl
    where
      go :
          (r : Result TransactionError (Unit {0}))
          → verify t ≡ r
          → (o : Option (List (Result TransactionError (Unit {0}))))
          → verify_all execute sha256 ops verify txs ≡ o
          → (qs : List (Result TransactionError (Unit {0}))) × (verify_all execute sha256 ops verify
                txs
              ≡ some qs)
            × (rs ≡ verify t ∷ qs)
      go panic ev o eo = absurd (ground arith)
      go (ok u) ev none eo = absurd (ground arith)
      go (err x) ev none eo = absurd (ground arith)
      go (ok u) ev (some qs) eo = (qs, eo, ground arith)
      go (err x) ev (some qs) eo = (qs, eo, ground arith)

  -- The result of each check, where none panics.
  verify_all-get_elem? :
      (txs : List Transaction) (rs : List (Result TransactionError (Unit {0}))) (i : ℕ)
      (tx : Transaction)
      → verify_all execute sha256 ops verify txs ≡ some rs
      → get_elem? txs i ≡ some tx
      → get_elem? rs i ≡ some (verify tx)
  verify_all-get_elem? [] rs i tx e found = absurd (ground (arith, found))
  verify_all-get_elem? (t ∷ txs) rs zero tx e found =
      let (qs, rest, same) = verify_all-cons t txs rs e in rw same (ground (arith, found))
  verify_all-get_elem? (t ∷ txs) rs (suc i) tx e found =
      let (qs, rest, same) = verify_all-cons t txs rs e in
      rw same (verify_all-get_elem? txs qs i tx rest found)

  verify_all-length :
      (txs : List Transaction) (rs : List (Result TransactionError (Unit {0})))
      → verify_all execute sha256 ops verify txs ≡ some rs
      → length txs ≡ length rs
  unfolding verify_all
  verify_all-length [] [] e = refl
  verify_all-length [] (r ∷ rs) e = absurd (ground (arith, e))
  verify_all-length (t ∷ txs) rs e =
      let (qs, rest, same) = verify_all-cons t txs rs e in
      rw same (ap suc (verify_all-length txs qs rest))

  -- The indices that are kept are those from the start on.
  keep_verified-below :
      (start i : ℕ) (txs : List Transaction) (rs : List (Result TransactionError (Unit {0})))
      (st : Stage S)
      → i < start
      → (is_listed i (keep_verified execute sha256 ops verify start txs rs st).0 ≡ false)
        × SameResult i st (keep_verified execute sha256 ops verify start txs rs st).1
  unfolding keep_verified
  keep_verified-below start i [] rs st h = (refl, refl)
  keep_verified-below start i (tx ∷ txs) [] st h = (refl, refl)
  keep_verified-below start i (tx ∷ txs) (ok u ∷ rs) st h =
      let (unlisted, same) = keep_verified-below (suc start) i txs rs st (omega arith) in
      (ground (arith, unlisted), same)
  keep_verified-below start i (tx ∷ txs) (err e ∷ rs) st h =
      let (unlisted, same) =
        keep_verified-below (suc start) i txs rs (set_result start e st) (omega arith) in
      (unlisted, same ∙ set_result-SameResult i start e st (ground arith))
  keep_verified-below start i (tx ∷ txs) (panic ∷ rs) st h =
      let (unlisted, same) = keep_verified-below (suc start) i txs rs st (omega arith) in
      (ground (arith, unlisted), same)

  -- A transaction whose check failed is not kept, and its error is its result.
  keep_verified-err :
      (start i k : ℕ) (txs : List Transaction) (rs : List (Result TransactionError (Unit {0})))
      (st : Stage S) (e : TransactionError)
      → length txs ≡ length rs
      → get_elem? rs i ≡ some (err e)
      → k ≡ start + i
      → k < length st.final_results
      → (is_listed k (keep_verified execute sha256 ops verify start txs rs st).0 ≡ false)
        × (get_elem? (keep_verified execute sha256 ops verify start txs rs st).1.final_results k
            ≡ some (some e))
  unfolding keep_verified
  keep_verified-err start i k txs [] st e len found at_ room = absurd (ground arith)
  keep_verified-err start i k [] (r ∷ rs) st e len found at_ room = absurd (omega (arith, len))
  keep_verified-err start zero k (tx ∷ txs) (ok u ∷ rs) st e len found at_ room =
      absurd (ground (arith, found))
  keep_verified-err start zero k (tx ∷ txs) (panic ∷ rs) st e len found at_ room =
      absurd (ground (arith, found))
  keep_verified-err start zero k (tx ∷ txs) (err x ∷ rs) st e len found at_ room =
      let (unlisted, same) =
        keep_verified-below (suc start) k txs rs (set_result start x st) (omega arith) in
      let here : k ≡ start = omega arith in
      let reported : x ≡ e = ground (arith, found) in
      (
        unlisted,
        same
            ∙ rw here (get_elem?-set_self st.final_results start (some x) (omega arith))
            ∙ ap (λ y. some (some y)) reported,
      )
  keep_verified-err start (suc i) k (tx ∷ txs) (err x ∷ rs) st e len found at_ room =
      keep_verified-err (suc start) i k txs rs (set_result start x st) e (omega (arith, len)) found
        (omega arith) (omega (arith, length-set st.final_results start (some x)))
  keep_verified-err start (suc i) k (tx ∷ txs) (ok u ∷ rs) st e len found at_ room =
      let (unlisted, here) =
        keep_verified-err (suc start) i k txs rs st e (omega (arith, len)) found (omega arith)
          room in
      (ground (arith, unlisted), here)
  keep_verified-err start (suc i) k (tx ∷ txs) (panic ∷ rs) st e len found at_ room =
      let (unlisted, here) =
        keep_verified-err (suc start) i k txs rs st e (omega (arith, len)) found (omega arith)
          room in
      (ground (arith, unlisted), here)

  end_batch-reported :
      (i : ℕ) (e : TransactionError) (q : Result StageError (Unit {0}) × Stage S)
      → get_elem? q.1.final_results i ≡ some (some e)
      → let r = end_batch execute sha256 ops verify q in
        (get_elem? r.1.final_results i ≡ some (some e))
        × ((r.0 ≡ ok r.1.final_results) ⊎ (((x : StageError) × (r.0 ≡ err x)) ⊎ (r.0 ≡ panic)))
  end_batch-reported i e (ok u, st) h = (h, inl refl)
  end_batch-reported i e (err x, st) h = (h, inr (inl (x, refl)))
  end_batch-reported i e (panic, st) h = (h, inr (inr refl))

  -- Where no check of signatures panics, the error of a transaction that fails its check is the
  -- final result at its index, whatever the other transactions of the batch, their groups, costs and
  -- locks; and the batch returns the final results, unless it returns an error of the stage or panics.
  pub process_batch-invalid :
      (model : CostModel) (txs : List Transaction) (st : Stage S) (i : ℕ) (tx : Transaction)
      (e : TransactionError) (rs : List (Result TransactionError (Unit {0})))
      → verify_all execute sha256 ops verify txs ≡ some rs
      → get_elem? txs i ≡ some tx
      → verify tx ≡ err e
      → let r = process_batch execute sha256 ops verify model txs st in
        (get_elem? r.1.final_results i ≡ some (some e))
        × ((r.0 ≡ ok r.1.final_results) ⊎ (((x : StageError) × (r.0 ≡ err x)) ⊎ (r.0 ≡ panic)))
  unfolding process_batch
  process_batch-invalid model txs st i tx e rs checked found invalid =
      let begun : Stage S = record st { final_results = replicate (length txs) none } in
      let room : i < length begun.final_results =
        rw (length-replicate (length txs)) (get_elem?-lt txs i found) in
      let (kept, st') = keep_verified execute sha256 ops verify 0 txs rs begun in
      let (unlisted, here) =
        keep_verified-err 0 i i txs rs begun e (verify_all-length txs rs checked)
          (verify_all-get_elem? txs rs i tx checked found ∙ ap some invalid) (omega arith) room in
      let (groups, scheduled, p) = schedule-perm kept in
      let same =
        process_groups-SameResult execute sha256 ops i model groups st'
          (is_listed-Perm i (flatten groups) kept p ∙ unlisted) in
      rw (process_batch, checked, scheduled)
        (end_batch-reported i e (process_groups execute sha256 ops model groups st') (same ∙ here))
