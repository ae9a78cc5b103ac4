-- ===== src/Accounts/Store.antt =====
-- The trait `AccountStore` of src/accounts.rs as an interface, and the in-memory store.
use tiny_solana.Common.{◌≡◌, Option, some, List, [], ◌∷◌, arith, ◌==◌, if◌then◌else◌}
use tiny_solana.Common.KeyMap
use tiny_solana.Common.KeyMap.{KeyMap}
use tiny_solana.Types.{Pubkey}
use tiny_solana.Accounts.{Account}

-- The operations over the state of a store; a write is `none` where the store reports an error.
pub record AccountStore (S : Type 0) : Type 0 where
  pub load : S → Pubkey → Option Account
  pub store : Pubkey → Account → S → Option S
  pub all_accounts : S → List Account

-- What a client may rely on: a write is read back, and it changes no other key.
pub record IsLawful {S : Type 0} (ops : AccountStore S) : Type 0 where
  pub load-store :
      (s s' : S) (k j : Pubkey) (a : Account)
      → ops.store k a s ≡ some s'
      → ops.load s' j ≡ (if j == k then some a else ops.load s j)

-- No write fails.
abbrev pub AlwaysStores : {S : Type 0} → AccountStore S → Type 0
AlwaysStores {S} ops = (k : Pubkey) (a : Account) (s : S) → (s' : S) × (ops.store k a s ≡ some s')

abbrev pub values : KeyMap Account → List Account
values [] = []
values ((k, a) ∷ m) = a ∷ values m

-- `InMemoryAccountStore`
abbrev pub in_memory : AccountStore (KeyMap Account)
in_memory = record {
  load = λ m k. KeyMap.lookup k m;
  store = λ k a m. some (KeyMap.insert k a m);
  all_accounts = values;
}

pub in_memory-IsLawful : IsLawful in_memory
in_memory-IsLawful = record {
  load-store = λ s s' k j a e. ground (arith, KeyMap.lookup-insert j k a s);
}
