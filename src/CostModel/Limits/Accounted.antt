-- ===== src/CostModel/Limits/Accounted.antt =====
-- The tracker's figures are those of the costs it has admitted, and they respect the limits.
use tiny_solana.Common.{
  ℕ, ◌+◌, ◌<◌, ◌≤◌, ◌≡◌, refl, ◌⊎◌, inl, inr, true, false, Option, none, some, List, [], ◌∷◌, arith,
  if◌then◌else◌, Bool-cases, Removes,
}
use tiny_solana.Common.Result.{ok}
use tiny_solana.Common.Word.{u64_mod, u64_max, wrapping_add}
use tiny_solana.Common.KeySet
use tiny_solana.Common.KeySet.{IsNodup}
use tiny_solana.Common.KeyMap
use tiny_solana.Types.{Pubkey}
use tiny_solana.CostModel.{
  CostTracker, TransactionCost, sum, account_exceeds, would_fit, add_cost, subtract_cost, reset,
  cost_or_zero,
}
use tiny_solana.CostModel.Costs.{sum-lt}
use tiny_solana.CostModel.Ledger.{
  more, less, charged, lookup-add_accounts, lookup-subtract_accounts,
}
use tiny_solana.CostModel.Limits.{
  Block, Step, admit, refund, clear, Reach, initial, next, total, total_on, count_on, IsAccounted,
  Matches, total_on-le, total_on-zero, totals-Removes, IsNodup-Removes, would_fit-ok,
  some_account_exceeds-false,
}

Matches-charged :
    (o : Option ℕ) (k : Pubkey) (cs : List TransactionCost)
    → Matches o k cs
    → cost_or_zero o ≡ total_on k cs
Matches-charged none k cs h = ground (arith, total_on-zero k cs h)
Matches-charged (some n) k cs h = h

-- Charging a listed key once more.
Matches-more :
    (o : Option ℕ) (k : Pubkey) (c : TransactionCost) (cs : List TransactionCost)
    → Matches o k cs
    → sum c + total cs < u64_mod
    → Matches (if KeySet.contains k c.writable_accounts then more (sum c) o else o) k (c ∷ cs)
Matches-more o k c cs h fits = elim (Bool-cases (KeySet.contains k c.writable_accounts)) [
  | inl e ↦ rw e (ground (arith, Matches-charged o k cs h, total_on-le k cs))
  | inr e ↦ rw e (Matches-same o k c cs e h)
]
  where
    Matches-same :
        (o : Option ℕ) (k : Pubkey) (c : TransactionCost) (cs : List TransactionCost)
        → KeySet.contains k c.writable_accounts ≡ false
        → Matches o k cs
        → Matches o k (c ∷ cs)
    Matches-same none k c cs e h = ground arith
    Matches-same (some n) k c cs e h = ground arith

within-more :
    (o : Option ℕ) (k : Pubkey) (c : TransactionCost) (cs : List TransactionCost) (t : CostTracker)
    → Matches o k cs
    → sum c + total cs < u64_mod
    → account_exceeds t (sum c) o ≡ false
    → KeySet.contains k c.writable_accounts ≡ true
    → (total_on k (c ∷ cs) ≤ t.account_cost_limit) ⊎ (count_on k (c ∷ cs) ≤ 1)
within-more none k c cs t h fits ok_account e = inr (ground arith)
within-more (some n) k c cs t h fits ok_account e = inl (ground (arith, total_on-le k cs))

Matches-less :
    (o : Option ℕ) (k : Pubkey) (c : TransactionCost) (cs rest : List TransactionCost)
    → Removes c cs rest
    → Matches o k cs
    → total cs < u64_mod
    → Matches (if KeySet.contains k c.writable_accounts then less (sum c) o else o) k rest
Matches-less none k c cs rest r h fits = ground (arith, totals-Removes k r)
Matches-less (some n) k c cs rest r h fits =
    ground (arith, totals-Removes k r, total_on-le k cs, sum-lt c)

module _ (block account : ℕ) (bounded : block < u64_max) where
  admit-IsAccounted :
      (s : Block) (c : TransactionCost)
      → IsAccounted block account s
      → IsNodup c.writable_accounts
      → would_fit s.tracker c ≡ ok tt
      → IsAccounted block account
          (record { tracker = add_cost s.tracker c; admitted = c ∷ s.admitted })
  unfolding add_cost
  admit-IsAccounted s c h nodup e =
      let t = s.tracker in
      let (fits, accounts_fit) = would_fit-ok t c e in
      let total_fits : sum c + total s.admitted ≤ block =
        ground (arith, h.same_block, h.block_total, sum-lt c, bounded) in
      record {
        same_block = h.same_block;
        same_account = h.same_account;
        block_total = ground (arith, h.block_total, total_fits, bounded);
        block_within = total_fits;
        account_total = λ k.
            rw (lookup-add_accounts k (sum c) c.writable_accounts t.cost_by_writable_accounts nodup)
              (Matches-more (KeyMap.lookup k t.cost_by_writable_accounts) k c s.admitted
                (h.account_total k) (omega arith));
        account_within = λ k. elim (Bool-cases (KeySet.contains k c.writable_accounts)) [
          | inl listed ↦ rw h.same_account at (
              within-more (KeyMap.lookup k t.cost_by_writable_accounts) k c s.admitted t
                (h.account_total k) (omega arith)
                (some_account_exceeds-false t (sum c) k c.writable_accounts accounts_fit listed)
                listed)
          | inr other ↦ ground (arith, h.account_within k)
        ];
        nodup = (nodup, h.nodup);
      }

  refund-IsAccounted :
      (s : Block) (c : TransactionCost) (rest : List TransactionCost)
      → IsAccounted block account s
      → Removes c s.admitted rest
      → IsAccounted block account (record { tracker = subtract_cost s.tracker c; admitted = rest })
  unfolding subtract_cost
  refund-IsAccounted s c rest h r =
      let t = s.tracker in
      let (nodup, nodup_rest) = IsNodup-Removes r h.nodup in
      let (same, _, _) = totals-Removes 0 r in
      record {
        same_block = h.same_block;
        same_account = h.same_account;
        block_total = ground (arith, h.block_total, h.block_within, same, bounded);
        block_within = omega (arith, h.block_within, same);
        account_total = λ k.
            rw
              (lookup-subtract_accounts k (sum c) c.writable_accounts t.cost_by_writable_accounts
                nodup)
              (Matches-less (KeyMap.lookup k t.cost_by_writable_accounts) k c s.admitted rest r
                (h.account_total k) (omega (arith, h.block_within)));
        account_within = λ k. ground (arith, h.account_within k, totals-Removes k r);
        nodup = nodup_rest;
      }

  Step-IsAccounted :
      (s t : Block) → Step s t → IsAccounted block account s → IsAccounted block account t
  unfolding reset
  Step-IsAccounted s t (admit c nodup e q) h = rw q (admit-IsAccounted s c h nodup e)
  Step-IsAccounted s t (refund c rest r q) h = rw q (refund-IsAccounted s c rest h r)
  Step-IsAccounted s t (clear q) h = rw q (record {
    same_block = h.same_block;
    same_account = h.same_account;
    block_total = refl;
    block_within = omega arith;
    account_total = λ k. refl;
    account_within = λ k. inl (omega arith);
    nodup = tt;
  })

-- For a block limit below the largest `u64`, after any sequence of admissions, refunds of admitted
-- costs and resets: the block's cost is the sum of the costs that stand admitted and within the block's limit; what is
-- charged to a key is the sum of those that write it; and that is within the account limit, unless
-- at most one transaction is charged to the key.
pub Reach-IsAccounted :
    (block account : ℕ) {s : Block}
    → block < u64_max
    → Reach block account s
    → IsAccounted block account s
Reach-IsAccounted block account bounded initial = record {
  same_block = refl;
  same_account = refl;
  block_total = refl;
  block_within = omega arith;
  account_total = λ k. refl;
  account_within = λ k. inl (omega arith);
  nodup = tt;
}
Reach-IsAccounted block account bounded (next {s} {t} r st) =
    Step-IsAccounted block account bounded s t st (Reach-IsAccounted block account bounded r)

-- A cost with one writable account that the tracker has no entry for, and that alone exceeds the
-- account limit, fits whenever the block has room for it; after it is added the account stands above
-- the limit. The block limit is a `u64`.
pub would_fit_above_limit :
    (t : CostTracker) (c : TransactionCost) (k : Pubkey)
    → c.writable_accounts ≡ k ∷ []
    → KeyMap.lookup k t.cost_by_writable_accounts ≡ none
    → t.block_cost + sum c ≤ t.block_cost_limit
    → t.block_cost_limit < u64_mod
    → t.account_cost_limit < sum c
    → (would_fit t c ≡ ok tt)
      × (t.account_cost_limit < charged k (add_cost t c).cost_by_writable_accounts)
unfolding would_fit add_cost
would_fit_above_limit t c k only fresh fits bounded above = rw only (
  ground arith,
  ground (
    arith,
    KeyMap.lookup-insert k k (wrapping_add (charged k t.cost_by_writable_accounts) (sum c))
        t.cost_by_writable_accounts,
  ),
)
