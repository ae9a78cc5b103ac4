-- ===== src/AccountLocks/Reach/Safety.antt =====
-- What holds of the lock table and its guards after any sequence of calls.
use tiny_solana.Common.{ℕ, ◌+◌, ◌<◌, ◌≡◌, refl, List, ◌∷◌, arith, length, Removes, length-Removes}
use tiny_solana.Common.Result.{ok}
use tiny_solana.Common.Word.{u64_mod}
use tiny_solana.Common.KeyMap
use tiny_solana.Transactions.{Transaction}
use tiny_solana.AccountLocks.{
  AccountLockState, LockGuard, keys_to_lock, try_lock_accounts_for_group, drop_guard,
}
use tiny_solana.AccountLocks.Keys.{
  keys_to_lock-IsNodup, contains-acquire_writes, lookup-acquire_reads, write_conflict-false,
  read_conflict-false,
}
use tiny_solana.AccountLocks.Release.{
  IsCount, contains-release_writes, lookup-release_reads, try_lock_ok, try_lock_err, drop_guard_lem,
}
use tiny_solana.AccountLocks.Reach.{
  System, Step, lock, refuse, release, Reach, initial, next, readers, IsExclusive, Agrees, AreNodup,
  readers-Removes, readers-le, entry-IsCount, AreNodup-Removes, IsExclusive-Removes,
}

pub record IsConsistent (s : System) : Type 0 where
  pub agrees : Agrees s.table s.guards
  pub exclusive : IsExclusive s.guards
  pub nodup : AreNodup s.guards
  pub room : length s.guards < u64_mod

lock-IsConsistent :
    (s : System) (group : List (ℕ × Transaction)) (g : LockGuard) (table : AccountLockState)
    → IsConsistent s
    → length s.guards + 1 < u64_mod
    → try_lock_accounts_for_group group s.table ≡ (ok g, table)
    → IsConsistent (record { table = table; guards = g ∷ s.guards })
lock-IsConsistent s group g table c room e =
    let (eq_w, eq_r, eq_t, no_writes, no_reads) = try_lock_ok group s.table table g e in
    let ks = keys_to_lock group in
    let (_, nodup) = keys_to_lock-IsNodup group in
    record {
      agrees = λ k.
          let taken =
            lookup-acquire_reads k ks.read_keys s.table.read_locks nodup
              (λ _. ground (arith, c.agrees k, readers-le k s.guards)) in
          rw (eq_t, eq_w, eq_r)
            (
              ground
                  (arith, contains-acquire_writes k ks.write_keys s.table.write_locks, c.agrees k),
              ground (arith, c.agrees k),
            );
      exclusive = (
        (λ k.
            rw (eq_w, eq_r)
              (
                (λ h.
                    ground (
                      arith,
                      write_conflict-false k s.table ks.write_keys no_writes h,
                      c.agrees k,
                    )),
                λ h.
                    ground
                      (arith, read_conflict-false k s.table ks.read_keys no_reads h, c.agrees k),
              )),
        c.exclusive,
      );
      nodup = (rw eq_r nodup, c.nodup);
      room = omega arith;
    }

release-IsConsistent :
    (s : System) (g : LockGuard) (rest : List LockGuard)
    → IsConsistent s
    → Removes g s.guards rest
    → IsConsistent (record { table = drop_guard g s.table; guards = rest })
release-IsConsistent s g rest c r =
    let (exclusive, own) = IsExclusive-Removes r c.exclusive in
    let (nodup_g, nodup) = AreNodup-Removes r c.nodup in
    record {
      agrees = λ k.
          let (n, w) = readers-Removes k r in
          let count : IsCount (KeyMap.lookup k s.table.read_locks) =
            rw (c.agrees k).1
              (entry-IsCount (readers k s.guards) (omega (arith, readers-le k s.guards, c.room))) in
          let given = lookup-release_reads k g.read_locks s.table.read_locks nodup_g count in
          rw (drop_guard_lem g s.table) (
            ground (
              arith,
              contains-release_writes k g.write_locks s.table.write_locks,
              c.agrees k,
              own k,
            ),
            ground (arith, c.agrees k),
          );
      exclusive = exclusive;
      nodup = nodup;
      room = omega (arith, length-Removes r, c.room);
    }

Step-IsConsistent : (s t : System) → Step s t → IsConsistent s → IsConsistent t
Step-IsConsistent s t (lock group g table room e q) c =
    rw q (lock-IsConsistent s group g table c room e)
Step-IsConsistent s t (refuse group x table e q) c = rw (q, try_lock_err group s.table table x e) c
Step-IsConsistent s t (release g rest r q) c = rw q (release-IsConsistent s g rest c r)

-- After any sequence of calls: the table holds a write lock exactly on the keys that some living
-- guard holds for writing, and counts for each key the living guards that hold it for reading, with
-- no entry where there is none; and a key that one living guard holds for writing is held by no
-- other living guard.
pub Reach-IsConsistent : {t : System} → Reach t → IsConsistent t
Reach-IsConsistent initial = record {
  agrees = λ k. (refl, refl);
  exclusive = tt;
  nodup = tt;
  room = omega arith;
}
Reach-IsConsistent (next {s} {t} r st) = Step-IsConsistent s t st (Reach-IsConsistent r)
