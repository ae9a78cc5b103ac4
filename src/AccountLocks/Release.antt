-- ===== src/AccountLocks/Release.antt =====
-- Dropping a guard against taking it.
use tiny_solana.Common.{
  ℕ, ◌+◌, ◌-◌, ◌<◌, ◌≡◌, refl, inl, inr, Bool, true, false, ◌&&◌, Option, none, some, List, [], ◌∷◌,
  arith, ◌==◌, if◌then◌else◌, Bool-cases, ==_iff,
}
use tiny_solana.Common.Result.{ok, err}
use tiny_solana.Common.Word.{u64_mod, wrapping_sub}
use tiny_solana.Common.KeySet
use tiny_solana.Common.KeySet.{IsNodup}
use tiny_solana.Common.KeyMap
use tiny_solana.Common.KeyMap.{KeyMap}
use tiny_solana.Types.{Pubkey}
use tiny_solana.Transactions.{Transaction}
use tiny_solana.AccountLocks.{
  AccountLockState, LockGuard, keys_to_lock, write_conflict, read_conflict, acquire,
  try_lock_accounts_for_group, release_writes, release_read, release_reads, drop_guard,
  count_or_zero, LockError, is_empty,
}
use tiny_solana.AccountLocks.Keys.{
  reads_of, one_more, keys_to_lock-IsNodup, contains-acquire_writes, lookup-acquire_reads,
  write_conflict-false,
}

pub contains-release_writes :
    (k : Pubkey) (ks w : List Pubkey)
    → KeySet.contains k (release_writes ks w)
      ≡ (if KeySet.contains k ks then false else KeySet.contains k w)
contains-release_writes k [] w = refl
contains-release_writes k (x ∷ ks) w =
    ground (arith, contains-release_writes k ks (KeySet.remove x w), KeySet.contains-remove k x w)

-- One read lock less; the last one takes the entry away.
abbrev pub one_less : Option ℕ → Option ℕ
one_less none = none
one_less (some n) = if n - 1 == 0 then none else some (n - 1)

-- The count at one key is positive and that of a `usize`.
abbrev pub IsCount : Option ℕ → Type 0
IsCount none = Unit
IsCount (some n) = (0 < n) × (n < u64_mod)

lookup-release_read_self :
    (k : Pubkey) (r : KeyMap ℕ) (o : Option ℕ)
    → KeyMap.lookup k r ≡ o
    → IsCount o
    → KeyMap.lookup k (release_read k r o) ≡ one_less o
lookup-release_read_self k r none e h = e
lookup-release_read_self k r (some n) e h =
    ground (arith, KeyMap.lookup-remove k k r, KeyMap.lookup-insert k k (wrapping_sub n 1) r)

lookup-release_read_ne :
    (k x : Pubkey) (r : KeyMap ℕ) (o : Option ℕ)
    → (k == x) ≡ false
    → KeyMap.lookup k (release_read x r o) ≡ KeyMap.lookup k r
lookup-release_read_ne k x r none e = refl
lookup-release_read_ne k x r (some n) e =
    ground (arith, KeyMap.lookup-remove k x r, KeyMap.lookup-insert k x (wrapping_sub n 1) r)

one_less-IsCount : (o : Option ℕ) → IsCount o → IsCount (one_less o)
one_less-IsCount none h = tt
one_less-IsCount (some n) h = elim (Bool-cases (n - 1 == 0)) [
  | inl last ↦ rw last tt
  | inr more ↦ rw more (ground arith)
]

pub lookup-release_reads :
    (k : Pubkey) (ks : List Pubkey) (r : KeyMap ℕ)
    → IsNodup ks
    → IsCount (KeyMap.lookup k r)
    → KeyMap.lookup k (release_reads ks r)
      ≡ (if KeySet.contains k ks then one_less (KeyMap.lookup k r) else KeyMap.lookup k r)
lookup-release_reads k [] r h c = refl
lookup-release_reads k (x ∷ ks) r h c =
    let r' = release_read x r (KeyMap.lookup x r) in
    elim (Bool-cases (k == x)) [
      | inl same ↦
          let e : k ≡ x = (==_iff k x).0 same in
          let now : KeyMap.lookup k r' ≡ one_less (KeyMap.lookup k r) =
            rw (← e) (lookup-release_read_self k r (KeyMap.lookup k r) refl c) in
          let rest =
            lookup-release_reads k ks r' h.1 (rw now (one_less-IsCount (KeyMap.lookup k r) c)) in
          ground arith
      | inr other ↦
          let now = lookup-release_read_ne k x r (KeyMap.lookup x r) other in
          let rest = lookup-release_reads k ks r' h.1 (rw now c) in ground arith
    ]

-- Two tables hold the same locks.
abbrev pub SameLocks : AccountLockState → AccountLockState → Type 0
SameLocks s t =
    (k : Pubkey)
    → (KeySet.contains k s.write_locks ≡ KeySet.contains k t.write_locks)
      × (KeyMap.lookup k s.read_locks ≡ KeyMap.lookup k t.read_locks)

-- What a guard holds after the table has granted it.
pub try_lock_ok :
    (group : List (ℕ × Transaction)) (s s' : AccountLockState) (g : LockGuard)
    → try_lock_accounts_for_group group s ≡ (ok g, s')
    → (g.write_locks ≡ (keys_to_lock group).write_keys)
      × (g.read_locks ≡ (keys_to_lock group).read_keys)
      × (s' ≡ acquire (keys_to_lock group) s)
      × (write_conflict s (keys_to_lock group).write_keys ≡ false)
      × (read_conflict s (keys_to_lock group).read_keys ≡ false)
unfolding try_lock_accounts_for_group
try_lock_ok group s s' g e = ground arith

pub try_lock_err :
    (group : List (ℕ × Transaction)) (s s' : AccountLockState) (e : LockError)
    → try_lock_accounts_for_group group s ≡ (err e, s')
    → s' ≡ s
unfolding try_lock_accounts_for_group
try_lock_err group s s' e h = ground arith

one_less-one_more : (o : Option ℕ) → IsCount o → one_less (one_more o) ≡ o
one_less-one_more none h = ground arith
one_less-one_more (some n) h = ground arith

release_early :
    (k : Pubkey) (ws rs : List Pubkey) (s : AccountLockState)
    → (is_empty ws && is_empty rs) ≡ true
    → (ws ≡ []) × (rs ≡ [])
release_early k [] [] s e = (refl, refl)
release_early k [] (r ∷ rs) s e = cc
release_early k (w ∷ ws) rs s e = cc

-- The early return of `drop` agrees with what follows it.
pub drop_guard_lem :
    (g : LockGuard) (s : AccountLockState)
    → drop_guard g s ≡ record {
      write_locks = release_writes g.write_locks s.write_locks;
      read_locks = release_reads g.read_locks s.read_locks;
    }
unfolding drop_guard
drop_guard_lem g s = elim (Bool-cases (is_empty g.write_locks && is_empty g.read_locks)) [
  | inl early ↦
      let (no_w, no_r) = release_early 0 g.write_locks g.read_locks s early in
      rw (early, no_w, no_r) refl
  | inr late ↦ rw late refl
]

one_more-IsCount : (o : Option ℕ) → count_or_zero o + 1 < u64_mod → IsCount (one_more o)
one_more-IsCount none h = ground arith
one_more-IsCount (some n) h = ground arith

IsCount-if :
    (b : Bool) (o : Option ℕ)
    → IsCount o
    → IsCount (one_more o)
    → IsCount (if b then one_more o else o)
IsCount-if true o h h' = h'
IsCount-if false o h h' = h

-- Dropping a guard at once restores the table that granted it, key by key: write locks, and the
-- count of read locks with the entries that no reader is left for taken away. The counts in the
-- table are positive and leave room for one more reader in a `usize`.
pub drop_guard-try_lock :
    (group : List (ℕ × Transaction)) (s s' : AccountLockState) (g : LockGuard)
    → ((k : Pubkey) → IsCount (KeyMap.lookup k s.read_locks))
    → ((k : Pubkey) → reads_of k s.read_locks + 1 < u64_mod)
    → try_lock_accounts_for_group group s ≡ (ok g, s')
    → SameLocks (drop_guard g s') s
drop_guard-try_lock group s s' g counted room e k =
    let (eq_w, eq_r, eq_s, no_writes, no_reads) = try_lock_ok group s s' g e in
    let ks = keys_to_lock group in
    let (_, nodup) = keys_to_lock-IsNodup group in
    let taken = lookup-acquire_reads k ks.read_keys s.read_locks nodup (λ _. room k) in
    let old = counted k in
    let more = one_more-IsCount (KeyMap.lookup k s.read_locks) (room k) in
    let count : IsCount (KeyMap.lookup k (acquire ks s).read_locks) =
      rw taken
        (IsCount-if (KeySet.contains k ks.read_keys) (KeyMap.lookup k s.read_locks) old more) in
    let given = lookup-release_reads k ks.read_keys (acquire ks s).read_locks nodup count in
    rw (drop_guard_lem g s', eq_w, eq_r, eq_s)
      (
        ground (
          arith,
          contains-release_writes k ks.write_keys (acquire ks s).write_locks,
          contains-acquire_writes k ks.write_keys s.write_locks,
          write_conflict-false k s ks.write_keys no_writes,
        ),
        ground (arith, one_less-one_more (KeyMap.lookup k s.read_locks) old),
      )
