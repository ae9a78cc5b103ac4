-- ===== src/Accounts/Overlay.antt =====
-- `OverlayStore` of src/accounts.rs: a layer of changed accounts over a store.
use tiny_solana.Common.{◌≡◌, refl, inl, inr, Option, none, some, List, [], ◌∷◌, arith, Option-cases}
use tiny_solana.Common.KeyMap
use tiny_solana.Common.KeyMap.{KeyMap, HasUniqueKeys}
use tiny_solana.Types.{Pubkey}
use tiny_solana.Accounts.{Account}
use tiny_solana.Accounts.Store.{
  AccountStore, IsLawful, AlwaysStores, values, in_memory, in_memory-IsLawful,
}

pub record OverlayStore (S : Type 0) : Type 0 where
  pub dirty : KeyMap Account
  pub parent : S

-- `OverlayStore::new`
abbrev pub new : {S : Type 0} → S → OverlayStore S
new parent = record { dirty = []; parent = parent }

module _ {S : Type 0} (ops : AccountStore S) where
  abbrev pub or_parent : S → Pubkey → Option Account → Option Account
  or_parent parent k none = ops.load parent k
  or_parent parent k (some a) = some a

  unfoldable pub load : OverlayStore S → Pubkey → Option Account
  load o k = or_parent o.parent k (KeyMap.lookup k o.dirty)

  pub store : Pubkey → Account → OverlayStore S → Option (OverlayStore S)
  store k a o = some (record o { dirty = KeyMap.insert k a o.dirty })

  abbrev pub insert_accounts : List Account → KeyMap Account → KeyMap Account
  insert_accounts [] all = all
  insert_accounts (a ∷ rest) all = insert_accounts rest (KeyMap.insert a.pubkey a all)

  abbrev pub insert_entries : KeyMap Account → KeyMap Account → KeyMap Account
  insert_entries [] all = all
  insert_entries ((k, a) ∷ rest) all = insert_entries rest (KeyMap.insert k a all)

  pub all_accounts : OverlayStore S → List Account
  all_accounts o = values (insert_entries o.dirty (insert_accounts (ops.all_accounts o.parent) []))

  -- The loop of `flush`; a failing write panics.
  unfoldable pub write_back : KeyMap Account → S → Option S
  write_back [] parent = some parent
  write_back ((k, a) ∷ rest) parent = elim (ops.store k a parent) [
    | none ↦ none
    | some parent' ↦ write_back rest parent'
  ]

  -- The store at the end of the loop, also where a write panics: what was written before it stays.
  unfoldable pub write_partly : KeyMap Account → S → S
  write_partly [] parent = parent
  write_partly ((k, a) ∷ rest) parent = elim (ops.store k a parent) [
    | none ↦ parent
    | some parent' ↦ write_partly rest parent'
  ]

  -- Where no write fails, neither does the loop.
  pub write_back_total :
      AlwaysStores ops
      → (entries : KeyMap Account) (s : S) → (s' : S) × (write_back entries s ≡ some s')
  unfolding write_back
  write_back_total always [] s = (s, refl)
  write_back_total always ((k, a) ∷ rest) s =
      let (t, stored) = always k a s in
      let (s', done) = write_back_total always rest t in (s', rw (write_back, stored) done)

  -- `OverlayStore::flush`; `none` is a panic, which leaves `write_partly` in the parent.
  unfoldable pub flush : OverlayStore S → Option (OverlayStore S)
  flush o = elim (write_back o.dirty o.parent) [
    | none ↦ none
    | some parent ↦ some (record { dirty = []; parent = parent })
  ]

  -- The overlay as a store, so that overlays can be stacked.
  unfoldable pub overlay : AccountStore (OverlayStore S)
  overlay = record { load = load; store = store; all_accounts = all_accounts }

  -- An overlay is a lawful store, whatever its parent is: a write is read back, and every other key
  -- reads as before.
  pub overlay-IsLawful : IsLawful overlay
  unfolding overlay load store
  overlay-IsLawful = record {
    load-store = λ o o' k j a e. ground (arith, KeyMap.lookup-insert j k a o.dirty);
  }

  pub write_back-load :
      (lawful : IsLawful ops) (entries : KeyMap Account) (s s' : S) (k : Pubkey)
      → HasUniqueKeys entries
      → write_back entries s ≡ some s'
      → ops.load s' k ≡ or_parent s k (KeyMap.lookup k entries)
  unfolding write_back
  write_back-load lawful [] s s' k h e = ground arith
  write_back-load lawful ((j, a) ∷ rest) s s' k h e = elim (Option-cases (ops.store j a s)) [
    | inl failed ↦ absurd (ground arith)
    | inr (t, stored) ↦
        let done : write_back rest t ≡ some s' = ground arith in
        ground
          (arith, write_back-load lawful rest t s' k h.1 done, lawful.load-store s t j k a stored)
  ]

  -- If `flush` does not panic, over a lawful store it leaves no changed accounts, and every key reads
  -- in the parent and in the overlay as it read in the overlay before. No key is listed twice among
  -- the changed accounts.
  pub flush-load :
      (lawful : IsLawful ops) (o o' : OverlayStore S) (k : Pubkey)
      → HasUniqueKeys o.dirty
      → flush o ≡ some o'
      → (o'.dirty ≡ []) × (ops.load o'.parent k ≡ load o k) × (load o' k ≡ load o k)
  unfolding flush load
  flush-load lawful o o' k h e = elim (Option-cases (write_back o.dirty o.parent)) [
    | inl failed ↦ absurd (ground arith)
    | inr (s, done) ↦ let read = write_back-load lawful o.dirty o.parent s k h done in ground arith
  ]

write_back-in_memory :
    (entries m : KeyMap Account)
    → (m' : KeyMap Account) × (write_back in_memory entries m ≡ some m')
unfolding write_back
write_back-in_memory [] m = (m, refl)
write_back-in_memory ((k, a) ∷ rest) m = write_back-in_memory rest (KeyMap.insert k a m)

-- Over the in-memory store `flush` does not panic: it leaves no changed accounts, and every key reads
-- in the store as it read in the overlay before. No key is listed twice among the changed accounts.
pub flush-in_memory :
    (o : OverlayStore (KeyMap Account))
    → HasUniqueKeys o.dirty
    → (o' : OverlayStore (KeyMap Account)) × (flush in_memory o ≡ some o')
      × (o'.dirty ≡ [])
      × ((k : Pubkey) → KeyMap.lookup k o'.parent ≡ load in_memory o k)
unfolding flush
flush-in_memory o h =
    let (m, e) = write_back-in_memory o.dirty o.parent in
    (
      record { dirty = []; parent = m },
      rw (e, flush) refl,
      refl,
      λ k.
          (flush-load in_memory in_memory-IsLawful o (record { dirty = []; parent = m }) k h
            (rw (e, flush) refl)).1,
    )
