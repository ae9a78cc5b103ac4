-- ===== src/CostModel/Limits.antt =====
-- The tracker over every sequence of admitted, refunded and reset costs.
pub mod Accounted
use tiny_solana.Common.{
  ℕ, ◌+◌, ◌-◌, ◌<◌, ◌≤◌, ◌≡◌, refl, ◌⊎◌, inl, inr, Bool, true, false, Option, none, some, List, [],
  ◌∷◌, arith, ◌==◌, ==_iff, ltb, if◌then◌else◌, Bool-cases, All, Removes, here, there,
}
use tiny_solana.Common.Result.{ok, err}
use tiny_solana.Common.Word.{u64_mod, saturating_add, wrapping_add, wrapping_sub}
use tiny_solana.Common.KeySet
use tiny_solana.Common.KeySet.{IsNodup}
use tiny_solana.Common.KeyMap
use tiny_solana.Types.{Pubkey}
use tiny_solana.CostModel.{
  CostTracker, TransactionCost, new_tracker, sum, some_account_exceeds, account_exceeds, would_fit,
  add_cost, subtract_cost, reset, cost_or_zero,
}
use tiny_solana.CostModel.Costs.{sum-lt}
use tiny_solana.CostModel.Ledger.{charged, lookup-add_accounts, lookup-subtract_accounts}

-- The tracker, and the costs that were added and not subtracted since the last reset.
pub record Block : Type 0 where
  pub tracker : CostTracker
  pub admitted : List TransactionCost

-- What the processing of a batch does with the tracker: it adds a cost that fits, it subtracts one
-- that it has added, and it resets.
pub data Step (s t : Block) : Type 0 where
  admit :
      (c : TransactionCost)
      → IsNodup c.writable_accounts
      → would_fit s.tracker c ≡ ok tt
      → t ≡ record { tracker = add_cost s.tracker c; admitted = c ∷ s.admitted }
      → Step s t
  refund :
      (c : TransactionCost) (rest : List TransactionCost)
      → Removes c s.admitted rest
      → t ≡ record { tracker = subtract_cost s.tracker c; admitted = rest }
      → Step s t
  clear : t ≡ record { tracker = reset s.tracker; admitted = [] } → Step s t

-- From a new tracker with these limits.
pub data Reach (block account : ℕ) : Block → Type 0 where
  initial : Reach block account (record { tracker = new_tracker block account; admitted = [] })
  next : {s t : Block} → Reach block account s → Step s t → Reach block account t

abbrev pub total : List TransactionCost → ℕ
total [] = 0
total (c ∷ cs) = sum c + total cs

abbrev pub total_on : Pubkey → List TransactionCost → ℕ
total_on k [] = 0
total_on k (c ∷ cs) = (if KeySet.contains k c.writable_accounts then sum c else 0) + total_on k cs

-- How many of the costs are charged to the key.
abbrev pub count_on : Pubkey → List TransactionCost → ℕ
count_on k [] = 0
count_on k (c ∷ cs) = (if KeySet.contains k c.writable_accounts then 1 else 0) + count_on k cs

pub total_on-le : (k : Pubkey) (cs : List TransactionCost) → total_on k cs ≤ total cs
total_on-le k [] = omega arith
total_on-le k (c ∷ cs) = ground (arith, total_on-le k cs)

pub total_on-zero : (k : Pubkey) (cs : List TransactionCost) → count_on k cs ≡ 0 → total_on k cs ≡ 0
total_on-zero k [] h = refl
total_on-zero k (c ∷ cs) h = ground (arith, total_on-zero k cs)

pub totals-Removes :
    (k : Pubkey) {c : TransactionCost} {cs rest : List TransactionCost}
    → Removes c cs rest
    → (total cs ≡ sum c + total rest)
      × (total_on k cs
          ≡ (if KeySet.contains k c.writable_accounts then sum c else 0) + total_on k rest)
      × (count_on k cs ≡ (if KeySet.contains k c.writable_accounts then 1 else 0) + count_on k rest)
totals-Removes k here = (refl, refl, refl)
totals-Removes k (there r) = ground (arith, totals-Removes k r)

pub IsNodup-Removes :
    {c : TransactionCost} {cs rest : List TransactionCost}
    → Removes c cs rest
    → All (λ c. IsNodup c.writable_accounts) cs
    → IsNodup c.writable_accounts × All (λ c. IsNodup c.writable_accounts) rest
IsNodup-Removes here h = h
IsNodup-Removes (there r) h = let (a, b) = IsNodup-Removes r h.1 in (a, (h.0, b))

-- A key with no entry has never been charged.
abbrev pub Matches : Option ℕ → Pubkey → List TransactionCost → Type 0
Matches none k cs = count_on k cs ≡ 0
Matches (some n) k cs = n ≡ total_on k cs

pub record IsAccounted (block account : ℕ) (s : Block) : Type 0 where
  pub same_block : s.tracker.block_cost_limit ≡ block
  pub same_account : s.tracker.account_cost_limit ≡ account
  pub block_total : s.tracker.block_cost ≡ total s.admitted
  pub block_within : total s.admitted ≤ block
  pub account_total :
      (k : Pubkey) → Matches (KeyMap.lookup k s.tracker.cost_by_writable_accounts) k s.admitted
  pub account_within :
      (k : Pubkey) → (total_on k s.admitted ≤ account) ⊎ (count_on k s.admitted ≤ 1)
  pub nodup : All (λ c. IsNodup c.writable_accounts) s.admitted

pub would_fit-ok :
    (t : CostTracker) (c : TransactionCost)
    → would_fit t c ≡ ok tt
    → (saturating_add t.block_cost (sum c) ≤ t.block_cost_limit)
      × (some_account_exceeds t (sum c) c.writable_accounts ≡ false)
unfolding would_fit
would_fit-ok t c h = ground arith

pub some_account_exceeds-false :
    (t : CostTracker) (cost : ℕ) (k : Pubkey) (ks : List Pubkey)
    → some_account_exceeds t cost ks ≡ false
    → KeySet.contains k ks ≡ true
    → account_exceeds t cost (KeyMap.lookup k t.cost_by_writable_accounts) ≡ false
some_account_exceeds-false t cost k [] h e = ground arith
some_account_exceeds-false t cost k (x ∷ ks) h e = elim (Bool-cases (k == x)) [
  | inl same ↦ rw ((==_iff k x).0 same) (ground arith)
  | inr other ↦ ground (arith, some_account_exceeds-false t cost k ks)
]
