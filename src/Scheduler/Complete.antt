-- ===== src/Scheduler/Complete.antt =====
-- `schedule` ends, and it schedules every transaction once.
use mathlib.Core.List.{flatten, Perm, perm_middle, map-append}
use mathlib.Core.List.Perm
use mathlib.Core.Option
use tiny_solana.Common.{
  ℕ, zero, suc, ◌≤◌, ◌≡◌, refl, sym, ap, ◌∙◌, inl, inr, false, some, List, [], ◌∷◌, ◌++◌, map,
  arith, length, Bool-cases,
}
use tiny_solana.Common.KeySet
use tiny_solana.Types.{Pubkey}
use tiny_solana.Transactions.{Transaction}
use tiny_solana.Scheduler.{
  TransactionSets, insert_all, conflicts, index, retain, push_group, rounds, indices_from,
  no_transaction, sets_of, schedule,
}

-- Nothing conflicts with a group that has written nothing.
meets-nil : (a : List Pubkey) → KeySet.meets a [] ≡ false
meets-nil [] = refl
meets-nil (x ∷ a) = meets-nil a

conflicts-nil : (sets : TransactionSets) → conflicts sets [] ≡ false
conflicts-nil sets = rw (meets-nil sets.read_set) (meets-nil sets.write_set)

length-indices_from : (start n : ℕ) → length (indices_from start n) ≡ n
length-indices_from start zero = refl
length-indices_from start (suc n) = ap suc (length-indices_from (suc start) n)

module _ (tx_sets : ℕ → TransactionSets) where
  -- A pass over the remaining indices splits them.
  retain-perm :
      (rest : List ℕ) (w : List Pubkey)
      → Perm ((retain tx_sets rest w).0 ++ (retain tx_sets rest w).1) rest
  unfolding retain
  retain-perm [] w = Perm.rfl
  retain-perm (i ∷ rest) w = elim (Bool-cases (conflicts (tx_sets i) w)) [
    | inl clash ↦
        rw clash
          (Perm.trans (perm_middle (retain tx_sets rest w).0 _) (Perm.cons i (retain-perm rest w)))
    | inr free ↦ rw free (Perm.cons i (retain-perm rest (insert_all (tx_sets i).write_set w)))
  ]

  length-retain : (rest : List ℕ) (w : List Pubkey) → length (retain tx_sets rest w).1 ≤ length rest
  unfolding retain
  length-retain [] w = omega arith
  length-retain (i ∷ rest) w = elim (Bool-cases (conflicts (tx_sets i) w)) [
    | inl clash ↦ rw clash (omega (arith, length-retain rest w))
    | inr free ↦ rw free (omega (arith, length-retain rest (insert_all (tx_sets i).write_set w)))
  ]

  -- The first of the remaining indices is always taken, so the loop makes progress.
  length-retain_first :
      (i : ℕ) (rest : List ℕ) → length (retain tx_sets (i ∷ rest) []).1 ≤ length rest
  unfolding retain
  length-retain_first i rest =
      rw (conflicts-nil (tx_sets i)) (length-retain rest (insert_all (tx_sets i).write_set []))

  flatten-push_group :
      (g : List ℕ) (gs : List (List ℕ)) → flatten (push_group tx_sets g gs) ≡ g ++ flatten gs
  unfolding flatten
  flatten-push_group [] gs = refl
  flatten-push_group (i ∷ g) gs = refl

  -- With as much fuel as there are indices, the loop ends with groups that hold each of them once.
  rounds_total :
      (fuel : ℕ) (rest : List ℕ)
      → length rest ≤ fuel
      → (gs : List (List ℕ)) × (rounds tx_sets fuel rest ≡ some gs) × Perm (flatten gs) rest
  unfolding rounds flatten
  rounds_total fuel [] h = ([], refl, Perm.rfl)
  rounds_total zero (i ∷ rest) h = absurd (omega arith)
  rounds_total (suc fuel) (i ∷ rest) h =
      let (group, kept) = retain tx_sets (i ∷ rest) [] in
      let (gs, e, p) = rounds_total fuel kept (omega (arith, length-retain_first i rest)) in
      (
        push_group tx_sets group gs,
        ap (Option.map (push_group tx_sets group)) e,
        rw (flatten-push_group group gs)
            (Perm.trans (Perm.append_left group p) (retain-perm (i ∷ rest) [])),
      )

flatten-map-map {ℓ κ} :
    {A : Type ℓ} {B : Type κ} (f : A → B) (gs : List (List A))
    → flatten (map (map f) gs) ≡ map f (flatten gs)
unfolding flatten
flatten-map-map f [] = refl
flatten-map-map f (g ∷ gs) = rw (flatten-map-map f gs) (sym (map-append f g (flatten gs)))

map-indices_from-suc {ℓ} :
    {A : Type ℓ} (f : ℕ → A) (start n : ℕ)
    → map f (indices_from (suc start) n) ≡ map (λ i. f (suc i)) (indices_from start n)
map-indices_from-suc f start zero = refl
map-indices_from-suc f start (suc n) =
    ap (λ l. f (suc start) ∷ l) (map-indices_from-suc f (suc start) n)

-- Reading a list at all of its indices gives the list.
map-index {ℓ} :
    {A : Type ℓ} (d : A) (xs : List A) → map (index xs d) (indices_from 0 (length xs)) ≡ xs
map-index d [] = refl
map-index d (x ∷ xs) =
    ap (λ l. x ∷ l) (map-indices_from-suc (index (x ∷ xs) d) 0 (length xs) ∙ map-index d xs)

-- `schedule` ends, and the groups together hold the given transactions, each as often as given.
pub schedule-perm :
    (txs : List (ℕ × Transaction))
    → (groups : List (List (ℕ × Transaction))) × (schedule txs ≡ some groups)
      × Perm (flatten groups) txs
unfolding schedule flatten
schedule-perm [] = ([], refl, Perm.rfl)
schedule-perm (tx ∷ txs) =
    let all = tx ∷ txs in
    let (gs, e, p) =
      rounds_total (sets_of all) (length all) (indices_from 0 (length all))
        (omega (arith, length-indices_from 0 (length all))) in
    (
      map (map (index all no_transaction)) gs,
      ap (Option.map (map (map (index all no_transaction)))) e,
      rw (flatten-map-map (index all no_transaction) gs)
          (rw (map-index no_transaction all) at (Perm.map (index all no_transaction) p)),
    )
