-- ===== src/Scheduler/Groups.antt =====
-- What a group of `schedule` holds: transactions that may run beside each other.
use mathlib.Core.Option
use mathlib.Core.Path.{subst}
use tiny_solana.Common.{
  ℕ, zero, suc, ◌≡◌, refl, sym, ◌∙◌, inl, inr, true, false, Option, none, some, List, [], ◌∷◌, map,
  arith, All, Bool-cases,
}
use tiny_solana.Common.KeySet
use tiny_solana.Types.{Pubkey}
use tiny_solana.Transactions.{Transaction}
use tiny_solana.Transactions.Metas.{writes, reads}
use tiny_solana.Scheduler.{
  TransactionSets, extract_sets, insert_all, conflicts, index, retain, push_group, rounds,
  no_transaction, sets_of, schedule,
}
use tiny_solana.Scheduler.Sets.{extract_sets-names, contains-insert_all}

-- The second transaction neither reads nor writes a key that the first one writes.
abbrev pub Avoids : Transaction → Transaction → Type 0
Avoids a b = (k : Pubkey) → writes a k ≡ true → (reads b k ≡ false) × (writes b k ≡ false)

-- Every transaction of a group avoids those before it.
abbrev pub IsParallel : List (ℕ × Transaction) → Type 0
IsParallel [] = Unit
IsParallel (a ∷ g) = All (λ b. Avoids a.1 b.1) g × IsParallel g

abbrev Misses : TransactionSets → Pubkey → Type 0
Misses sets k =
    (KeySet.contains k sets.read_set ≡ false) × (KeySet.contains k sets.write_set ≡ false)

conflicts-Misses :
    (sets : TransactionSets) (k : Pubkey) (w : List Pubkey)
    → conflicts sets w ≡ false
    → KeySet.contains k w ≡ true
    → Misses sets k
conflicts-Misses sets k w h e =
    ground (arith, KeySet.meets-false k sets.read_set w, KeySet.meets-false k sets.write_set w)

All-of_forall {ℓ κ μ} :
    {A : Type ℓ} {K : Type κ} {P : K → Type μ} (Q : K → A → Type 0) (xs : List A)
    → ((k : K) → P k → All (Q k) xs)
    → All (λ x. (k : K) → P k → Q k x) xs
All-of_forall Q [] h = tt
All-of_forall Q (x ∷ xs) h = (λ k p. (h k p).0, All-of_forall Q xs (λ k p. (h k p).1))

abbrev pub OnSome {ℓ κ} : {A : Type ℓ} → (A → Type κ) → Option A → Type κ
OnSome P none = Unit
OnSome P (some a) = P a

All-map {ℓ κ} :
    {A : Type ℓ} {B : Type κ} (P : A → Type 0) (Q : B → Type 0) (f : A → B)
    → ((x : A) → P x → Q (f x))
    → (xs : List A) → All P xs
    → All Q (map f xs)
All-map P Q f h [] p = tt
All-map P Q f h (x ∷ xs) p = (h x p.0, All-map P Q f h xs p.1)

module _ (tx_sets : ℕ → TransactionSets) where
  -- What the group has written so far is missed by all that `retain` adds to it.
  retain-Misses :
      (rest : List ℕ) (w : List Pubkey) (k : Pubkey)
      → KeySet.contains k w ≡ true
      → All (λ i. Misses (tx_sets i) k) (retain tx_sets rest w).0
  unfolding retain
  retain-Misses [] w k h = tt
  retain-Misses (i ∷ rest) w k h = elim (Bool-cases (conflicts (tx_sets i) w)) [
    | inl clash ↦ rw clash (retain-Misses rest w k h)
    | inr free ↦ rw free (
      conflicts-Misses (tx_sets i) k w free h,
      retain-Misses rest (insert_all (tx_sets i).write_set w) k
          (ground (arith, contains-insert_all k (tx_sets i).write_set w)),
    )
  ]

  abbrev AreParallel : List ℕ → Type 0
  AreParallel [] = Unit
  AreParallel (i ∷ g) =
      All
        (λ j. (k : Pubkey) → KeySet.contains k (tx_sets i).write_set ≡ true → Misses (tx_sets j) k)
        g
      × AreParallel g

  retain-AreParallel : (rest : List ℕ) (w : List Pubkey) → AreParallel (retain tx_sets rest w).0
  unfolding retain
  retain-AreParallel [] w = tt
  retain-AreParallel (i ∷ rest) w = elim (Bool-cases (conflicts (tx_sets i) w)) [
    | inl clash ↦ rw clash (retain-AreParallel rest w)
    | inr free ↦
        let w' = insert_all (tx_sets i).write_set w in
        rw free (
          All-of_forall (λ k j. Misses (tx_sets j) k) (retain tx_sets rest w').0
              λ k h.
                retain-Misses rest w' k
                  (ground (arith, contains-insert_all k (tx_sets i).write_set w)),
          retain-AreParallel rest w',
        )
  ]

  push_group-All :
      (P : List ℕ → Type 0) (g : List ℕ) (gs : List (List ℕ))
      → P g
      → All P gs
      → All P (push_group tx_sets g gs)
  push_group-All P [] gs p ps = ps
  push_group-All P (i ∷ g) gs p ps = (p, ps)

  OnSome-push_group :
      (P : List ℕ → Type 0) (g : List ℕ) (o : Option (List (List ℕ)))
      → P g
      → OnSome (All P) o
      → OnSome (All P) (Option.map (push_group tx_sets g) o)
  OnSome-push_group P g none p h = tt
  OnSome-push_group P g (some gs) p h = push_group-All P g gs p h

  pub rounds-AreParallel :
      (fuel : ℕ) (rest : List ℕ) → OnSome (All AreParallel) (rounds tx_sets fuel rest)
  unfolding rounds
  rounds-AreParallel fuel [] = tt
  rounds-AreParallel zero (i ∷ rest) = tt
  rounds-AreParallel (suc fuel) (i ∷ rest) =
      OnSome-push_group AreParallel (retain tx_sets (i ∷ rest) []).0 _
        (retain-AreParallel (i ∷ rest) [])
        (rounds-AreParallel fuel (retain tx_sets (i ∷ rest) []).1)

-- Out of range both sides are the sets of no transaction.
pub sets_of-eq :
    (txs : List (ℕ × Transaction)) (i : ℕ)
    → sets_of txs i ≡ extract_sets (index txs no_transaction i)
unfolding extract_sets
sets_of-eq [] i = refl
sets_of-eq (tx ∷ txs) zero = refl
sets_of-eq (tx ∷ txs) (suc i) = sets_of-eq txs i

module _ (txs : List (ℕ × Transaction)) where
  Misses-Avoids :
      (i j : ℕ)
      → ((k : Pubkey)
          → KeySet.contains k (sets_of txs i).write_set ≡ true
          → Misses (sets_of txs j) k)
      → Avoids (index txs no_transaction i).1 (index txs no_transaction j).1
  Misses-Avoids i j h k e =
      let a = index txs no_transaction i in
      let b = index txs no_transaction j in
      let (read_b, write_b) = h k (rw (sets_of-eq txs i) (rw (extract_sets-names a k).0 e)) in
      (
        sym (extract_sets-names b k).1 ∙ (rw (sets_of-eq txs j) at read_b),
        sym (extract_sets-names b k).0 ∙ (rw (sets_of-eq txs j) at write_b),
      )

  AreParallel-IsParallel :
      (g : List ℕ) → AreParallel (sets_of txs) g → IsParallel (map (index txs no_transaction) g)
  AreParallel-IsParallel [] h = tt
  AreParallel-IsParallel (i ∷ g) h =
      (All-map _ _ _ (Misses-Avoids i) g h.0, AreParallel-IsParallel g h.1)

  pub rounds-IsParallel :
      (o : Option (List (List ℕ)))
      → OnSome (All (AreParallel (sets_of txs))) o
      → OnSome (All IsParallel) (Option.map (map (map (index txs no_transaction))) o)
  rounds-IsParallel none h = tt
  rounds-IsParallel (some gs) h = All-map _ _ _ AreParallel-IsParallel gs h

OnSome-eq {ℓ κ} :
    {A : Type ℓ} (P : A → Type κ) (o : Option A) (a : A) → OnSome P o → o ≡ some a → P a
OnSome-eq P o a h e = subst (OnSome P) e h

-- In every group that is scheduled, a transaction neither reads nor writes a key that an earlier
-- transaction of the group writes.
pub schedule-IsParallel :
    (txs : List (ℕ × Transaction)) (groups : List (List (ℕ × Transaction)))
    → schedule txs ≡ some groups
    → All IsParallel groups
unfolding schedule
schedule-IsParallel [] groups e = OnSome-eq (All IsParallel) (some []) groups tt e
schedule-IsParallel (tx ∷ txs) groups e =
    OnSome-eq (All IsParallel) _ groups
      (rounds-IsParallel (tx ∷ txs) _ (rounds-AreParallel (sets_of (tx ∷ txs)) _ _)) e
