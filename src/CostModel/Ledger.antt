-- ===== src/CostModel/Ledger.antt =====
-- Adding and subtracting the cost of a transaction, account by account.
use tiny_solana.Common.{
  ℕ, ◌<◌, ◌≡◌, refl, Option, none, some, List, [], ◌∷◌, arith, ◌==◌, if◌then◌else◌,
}
use tiny_solana.Common.Word.{u64_mod, wrapping_add, wrapping_sub, wrapping_sub-add}
use tiny_solana.Common.KeySet
use tiny_solana.Common.KeySet.{IsNodup}
use tiny_solana.Common.KeyMap
use tiny_solana.Common.KeyMap.{KeyMap}
use tiny_solana.Types.{Pubkey}
use tiny_solana.CostModel.{
  CostTracker, TransactionCost, sum, cost_or_zero, add_accounts, add_cost, subtract_entry,
  subtract_accounts, subtract_cost,
}
use tiny_solana.CostModel.Costs.{sum-lt}

-- What the tracker has charged to a key.
abbrev pub charged : Pubkey → KeyMap ℕ → ℕ
charged k m = cost_or_zero (KeyMap.lookup k m)

abbrev pub more : ℕ → Option ℕ → Option ℕ
more cost o = some (wrapping_add (cost_or_zero o) cost)

abbrev pub less : ℕ → Option ℕ → Option ℕ
less cost none = none
less cost (some n) = some (wrapping_sub n cost)

pub lookup-add_accounts :
    (k : Pubkey) (cost : ℕ) (ks : List Pubkey) (m : KeyMap ℕ)
    → IsNodup ks
    → KeyMap.lookup k (add_accounts cost ks m)
      ≡ (if KeySet.contains k ks then more cost (KeyMap.lookup k m) else KeyMap.lookup k m)
lookup-add_accounts k cost [] m h = refl
lookup-add_accounts k cost (x ∷ ks) m h =
    let v = wrapping_add (charged x m) cost in
    ground
      (arith, lookup-add_accounts k cost ks (KeyMap.insert x v m) h.1, KeyMap.lookup-insert k x v m)

lookup-subtract_entry :
    (k x : Pubkey) (cost : ℕ) (m : KeyMap ℕ) (o : Option ℕ)
    → KeyMap.lookup x m ≡ o
    → KeyMap.lookup k (subtract_entry cost x m o)
      ≡ (if k == x then less cost o else KeyMap.lookup k m)
lookup-subtract_entry k x cost m none e = ground arith
lookup-subtract_entry k x cost m (some n) e =
    ground (arith, KeyMap.lookup-insert k x (wrapping_sub n cost) m)

pub lookup-subtract_accounts :
    (k : Pubkey) (cost : ℕ) (ks : List Pubkey) (m : KeyMap ℕ)
    → IsNodup ks
    → KeyMap.lookup k (subtract_accounts cost ks m)
      ≡ (if KeySet.contains k ks then less cost (KeyMap.lookup k m) else KeyMap.lookup k m)
lookup-subtract_accounts k cost [] m h = refl
lookup-subtract_accounts k cost (x ∷ ks) m h = ground (
  arith,
  lookup-subtract_accounts k cost ks (subtract_entry cost x m (KeyMap.lookup x m)) h.1,
  lookup-subtract_entry k x cost m (KeyMap.lookup x m) refl,
)

-- Subtracting a cost that was just added restores the block's cost and what is charged to any key,
-- where the cost lists no writable account twice and both numbers are those of a `u64` before.
pub subtract_cost-add_cost :
    (t : CostTracker) (c : TransactionCost) (k : Pubkey)
    → IsNodup c.writable_accounts
    → t.block_cost < u64_mod
    → charged k t.cost_by_writable_accounts < u64_mod
    → ((subtract_cost (add_cost t c) c).block_cost ≡ t.block_cost)
      × (charged k (subtract_cost (add_cost t c) c).cost_by_writable_accounts
          ≡ charged k t.cost_by_writable_accounts)
unfolding add_cost subtract_cost
subtract_cost-add_cost t c k nodup b a =
    let added =
      lookup-add_accounts k (sum c) c.writable_accounts t.cost_by_writable_accounts nodup in
    let taken =
      lookup-subtract_accounts k (sum c) c.writable_accounts
        (add_accounts (sum c) c.writable_accounts t.cost_by_writable_accounts) nodup in
    (
      wrapping_sub-add t.block_cost (sum c) b (sum-lt c),
      ground (arith, wrapping_sub-add (charged k t.cost_by_writable_accounts) (sum c) a (sum-lt c)),
    )
