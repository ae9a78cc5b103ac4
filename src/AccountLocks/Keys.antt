-- ===== src/AccountLocks/Keys.antt =====
-- The keys that a group locks, and what acquiring them does to the table, key by key.
use tiny_solana.Common.{
  ℕ, ◌+◌, ◌<◌, ◌≡◌, refl, true, false, ◌||◌, none, some, List, [], ◌∷◌, arith, if◌then◌else◌,
  Option, inl, inr, ◌==◌, Bool-cases,
}
use tiny_solana.Common.Word.{u64_mod, wrapping_add}
use tiny_solana.Common.KeySet
use tiny_solana.Common.KeySet.{IsAscending, IsNodup}
use tiny_solana.Common.KeyMap
use tiny_solana.Common.KeyMap.{KeyMap}
use tiny_solana.Types.{Pubkey}
use tiny_solana.Transactions.{AccountMeta, Instruction, Transaction}
use tiny_solana.AccountLocks.{
  AccountLockState, KeysToLock, add_meta, add_metas, add_instructions, add_group, keys_to_lock,
  write_conflict, read_conflict, acquire_writes, acquire_reads, count_or_zero,
}

-- Both key lists are ascending, as those of a `BTreeSet`.
abbrev AreAscending : KeysToLock → Type 0
AreAscending ks = IsAscending ks.write_keys × IsAscending ks.read_keys

add_metas-AreAscending :
    (ks : KeysToLock) (ms : List AccountMeta) → AreAscending ks → AreAscending (add_metas ks ms)
add_metas-AreAscending ks [] h = h
add_metas-AreAscending ks (m ∷ ms) h = add_metas-AreAscending (add_meta ks m) ms (
    ground (
      arith,
      KeySet.insert-IsAscending m.pubkey ks.write_keys,
      KeySet.insert-IsAscending m.pubkey ks.read_keys,
    ))

add_instructions-AreAscending :
    (ks : KeysToLock) (ixs : List Instruction)
    → AreAscending ks
    → AreAscending (add_instructions ks ixs)
add_instructions-AreAscending ks [] h = h
add_instructions-AreAscending ks (ix ∷ ixs) h =
    add_instructions-AreAscending (add_metas ks ix.accounts) ixs
      (add_metas-AreAscending ks ix.accounts h)

add_group-AreAscending :
    (ks : KeysToLock) (g : List (ℕ × Transaction)) → AreAscending ks → AreAscending (add_group ks g)
add_group-AreAscending ks [] h = h
add_group-AreAscending ks ((i, tx) ∷ g) h =
    add_group-AreAscending (add_instructions ks tx.message.instructions) g
      (add_instructions-AreAscending ks tx.message.instructions h)

pub keys_to_lock-IsNodup :
    (group : List (ℕ × Transaction))
    → IsNodup (keys_to_lock group).write_keys × IsNodup (keys_to_lock group).read_keys
unfolding keys_to_lock
keys_to_lock-IsNodup group =
    let h = add_group-AreAscending (record { write_keys = []; read_keys = [] }) group (tt, tt) in
    (KeySet.IsAscending-IsNodup _ h.0, KeySet.IsAscending-IsNodup _ h.1)

-- The number of read locks on a key.
abbrev pub reads_of : Pubkey → KeyMap ℕ → ℕ
reads_of k r = count_or_zero (KeyMap.lookup k r)

-- No key stands in the map with a count of zero, and the counts are those of a `usize`.
abbrev pub IsCounted : KeyMap ℕ → Type 0
IsCounted r = (k : Pubkey) (n : ℕ) → KeyMap.lookup k r ≡ some n → (0 < n) × (n < u64_mod)

pub contains-acquire_writes :
    (k : Pubkey) (ks w : List Pubkey)
    → KeySet.contains k (acquire_writes ks w) ≡ (KeySet.contains k ks || KeySet.contains k w)
contains-acquire_writes k [] w = refl
contains-acquire_writes k (x ∷ ks) w =
    ground (arith, contains-acquire_writes k ks (KeySet.insert x w), KeySet.contains-insert k x w)

-- How often a key is counted by a list without repetitions.
abbrev pub one_if : Pubkey → List Pubkey → ℕ
one_if k ks = if KeySet.contains k ks then 1 else 0

-- What a lookup gives after the reads are taken: one more for a listed key.
abbrev pub one_more : Option ℕ → Option ℕ
one_more o = some (count_or_zero o + 1)

pub lookup-acquire_reads :
    (k : Pubkey) (ks : List Pubkey) (r : KeyMap ℕ)
    → IsNodup ks
    → (KeySet.contains k ks ≡ true → reads_of k r + 1 < u64_mod)
    → KeyMap.lookup k (acquire_reads ks r)
      ≡ (if KeySet.contains k ks then one_more (KeyMap.lookup k r) else KeyMap.lookup k r)
lookup-acquire_reads k [] r h room = refl
lookup-acquire_reads k (x ∷ ks) r h room =
    let v = wrapping_add (reads_of x r) 1 in
    let stored = KeyMap.lookup-insert k x v r in
    elim (Bool-cases (k == x)) [
      | inl same ↦
          let e : k ≡ x = ground arith in
          let rest =
            lookup-acquire_reads k ks (KeyMap.insert x v r) h.1 (λ c. absurd (ground arith)) in
          ground (arith, room (ground arith))
      | inr other ↦
          let rest =
            lookup-acquire_reads k ks (KeyMap.insert x v r) h.1
              (λ c. ground (arith, room (ground arith))) in
          ground arith
    ]

-- A group is refused exactly when one of its keys is in use.
pub write_conflict-false :
    (k : Pubkey) (s : AccountLockState) (ks : List Pubkey)
    → write_conflict s ks ≡ false
    → KeySet.contains k ks ≡ true
    → (KeySet.contains k s.write_locks ≡ false) × (KeyMap.lookup k s.read_locks ≡ none)
write_conflict-false k s [] h e = ground arith
write_conflict-false k s (x ∷ ks) h e = ground (arith, write_conflict-false k s ks)

pub read_conflict-false :
    (k : Pubkey) (s : AccountLockState) (ks : List Pubkey)
    → read_conflict s ks ≡ false
    → KeySet.contains k ks ≡ true
    → KeySet.contains k s.write_locks ≡ false
read_conflict-false k s [] h e = ground arith
read_conflict-false k s (x ∷ ks) h e = ground (arith, read_conflict-false k s ks)
