-- ===== src/Poh/Replay.antt =====
-- A verifier that replays the entries of a recorder, against the recorder.
use tiny_solana.Common.{
  ℕ, ◌+◌, ◌-◌, ◌<◌, ◌≤◌, ◌≡◌, refl, true, ◌&&◌, Option, none, some, List, [], ◌∷◌, ◌++◌, arith,
  ◌==◌, ltb, sym, ap, ==_iff, if◌then◌else◌,
}
use tiny_solana.Common.Result.{ok}
use tiny_solana.Common.Word.{u64_mod, wrapping_add}
use tiny_solana.Types.{Hash, Digest, hash_bytes}
use tiny_solana.Poh.{PohEntry, PohRecorder, new, hash, tick, record_hash, recorded, entry_of}
use tiny_solana.Poh.Hashing.{chain, chain-add, current_hash-hash, num_hashes-hash}

module _ (sha256 : Digest) where
  -- The hash that an entry must have after so many hashes: those since the last entry but one, and
  -- then the digest of the chain's hash and the transactions' hash.
  abbrev pub expected : Hash → ℕ → PohEntry → Hash
  expected h n e =
      sha256 (hash_bytes (chain sha256 (e.num_hashes - n - 1) h) ++ hash_bytes e.transactions_hash)

  -- The hash and the count of the last entry, if all entries check; the newest entry stands first.
  pub replay : Hash → List PohEntry → Option (Hash × ℕ)
  replay h [] = some (h, 0)
  replay h (e ∷ es) = elim (replay h es) [
    | none ↦ none
    | some (last, n) ↦
        if ltb n e.num_hashes && e.hash == expected last n e
        then some (e.hash, e.num_hashes)
        else none
  ]

-- One call on the recorder with the entries so far. The count of hashes stays that of a `u64`.
pub data Logged (sha256 : Digest) (h : Hash) (ticks_per_slot hashes_per_tick : ℕ)
    : PohRecorder → List PohEntry → Type 0 where
  initial : Logged sha256 h ticks_per_slot hashes_per_tick (new h ticks_per_slot hashes_per_tick) []
  hashed :
      {r : PohRecorder} {es : List PohEntry} (n : ℕ) {s : PohRecorder}
      → Logged sha256 h ticks_per_slot hashes_per_tick r es
      → r.num_hashes + n < u64_mod
      → s ≡ hash sha256 n r
      → Logged sha256 h ticks_per_slot hashes_per_tick s es
  tick_done :
      {r s : PohRecorder} {es : List PohEntry}
      → Logged sha256 h ticks_per_slot hashes_per_tick r es
      → r.num_hashes + r.hashes_per_tick < u64_mod
      → tick sha256 r ≡ ok s
      → Logged sha256 h ticks_per_slot hashes_per_tick s es
  record_done :
      {r s : PohRecorder} {es : List PohEntry} (t : Hash) (e : PohEntry)
      → Logged sha256 h ticks_per_slot hashes_per_tick r es
      → r.num_hashes + 1 < u64_mod
      → record_hash sha256 t r ≡ (ok e, s)
      → Logged sha256 h ticks_per_slot hashes_per_tick s (e ∷ es)

module _ (sha256 : Digest) where
  -- The recorder stands so many hashes behind a point of the chain.
  pub record IsAt (r : PohRecorder) (p : Hash × ℕ) : Type 0 where
    pub behind : p.1 ≤ r.num_hashes
    pub current : r.current_hash ≡ chain sha256 (r.num_hashes - p.1) p.0

  hash-IsAt :
      (n : ℕ) (r : PohRecorder) (p : Hash × ℕ)
      → r.num_hashes + n < u64_mod
      → IsAt r p
      → IsAt (hash sha256 n r) p
  hash-IsAt n r p room a =
      let count = num_hashes-hash sha256 n r room in
      let split : r.num_hashes + n - p.1 ≡ (r.num_hashes - p.1) + n = omega (arith, a.behind) in
      record {
        behind = omega (arith, a.behind, count);
        current =
            rw (current_hash-hash sha256 n r, count, split, a.current)
              (sym (chain-add sha256 (r.num_hashes - p.1) n p.0));
      }

  tick-hash :
      (r s : PohRecorder)
      → tick sha256 r ≡ ok s
      → let h = hash sha256 (r.hashes_per_tick - r.hashes_since_last_tick) r in
        (s.current_hash ≡ h.current_hash) × (s.num_hashes ≡ h.num_hashes)
  unfolding tick
  tick-hash r s e = ground arith

  tick-IsAt :
      (r s : PohRecorder) (p : Hash × ℕ)
      → r.num_hashes + r.hashes_per_tick < u64_mod
      → tick sha256 r ≡ ok s
      → IsAt r p
      → IsAt s p
  tick-IsAt r s p room e a =
      let (current, count) = tick-hash r s e in
      let h = hash-IsAt (r.hashes_per_tick - r.hashes_since_last_tick) r p (omega arith) a in
      record { behind = rw count h.behind; current = rw (current, count) h.current }

  record_hash-ok :
      (t : Hash) (r s : PohRecorder) (e : PohEntry)
      → record_hash sha256 t r ≡ (ok e, s)
      → (e ≡ entry_of t (recorded sha256 t r)) × (s ≡ recorded sha256 t r)
  unfolding record_hash
  record_hash-ok t r s e q = ground arith

  -- An entry checks where it was recorded.
  record_hash-expected :
      (t : Hash) (r s : PohRecorder) (e : PohEntry) (p : Hash × ℕ)
      → record_hash sha256 t r ≡ (ok e, s)
      → r.num_hashes + 1 < u64_mod
      → IsAt r p
      → (p.1 < e.num_hashes)
        × (e.hash ≡ expected sha256 p.0 p.1 e)
        × (s.current_hash ≡ e.hash)
        × (s.num_hashes ≡ e.num_hashes)
  record_hash-expected t r s e p q room a =
      let (same_e, same_s) = record_hash-ok t r s e q in
      let count : wrapping_add r.num_hashes 1 ≡ r.num_hashes + 1 = omega arith in
      let gap : r.num_hashes + 1 - p.1 - 1 ≡ r.num_hashes - p.1 = omega (arith, a.behind) in
      rw (same_e, same_s)
        (
          rw count (omega (arith, a.behind)),
          rw (count, gap) (ap (λ x. sha256 (hash_bytes x ++ hash_bytes t)) a.current),
          refl,
          refl,
        )

  initial-IsAt : (h : Hash) (tps hpt : ℕ) → IsAt (new h tps hpt) (h, 0)
  unfolding chain
  initial-IsAt h tps hpt = record { behind = omega arith; current = refl }

  replay-cons :
      (h : Hash) (es : List PohEntry) (e : PohEntry) (p : Hash × ℕ)
      → replay sha256 h es ≡ some p
      → p.1 < e.num_hashes
      → e.hash ≡ expected sha256 p.0 p.1 e
      → replay sha256 h (e ∷ es) ≡ some (e.hash, e.num_hashes)
  unfolding replay
  replay-cons h es e p found later match =
      let a : ltb p.1 e.num_hashes ≡ true = ground arith in
      let b : (e.hash == expected sha256 p.0 p.1 e) ≡ true = (==_iff _ _).1 match in
      rw (found, a, b) refl

  entry-IsAt :
      (s : PohRecorder) (e : PohEntry)
      → s.current_hash ≡ e.hash
      → s.num_hashes ≡ e.num_hashes
      → IsAt s (e.hash, e.num_hashes)
  unfolding chain
  entry-IsAt s e q n =
      let gap : e.num_hashes - e.num_hashes ≡ 0 = omega arith in
      record { behind = omega arith; current = rw (n, gap) q }

  -- After any sequence of hashing, ticks and records in which the count of hashes stays that of a
  -- `u64`, the entries check against the initial hash, and the recorder's hash is that of the last
  -- entry hashed on as often as the recorder has counted since.
  pub replay-Logged :
      (h : Hash) (ticks_per_slot hashes_per_tick : ℕ) {r : PohRecorder} {es : List PohEntry}
      → Logged sha256 h ticks_per_slot hashes_per_tick r es
      → (p : Hash × ℕ) × (replay sha256 h es ≡ some p) × IsAt r p
  unfolding replay
  replay-Logged h tps hpt initial = ((h, 0), refl, initial-IsAt h tps hpt)
  replay-Logged h tps hpt (hashed {r} n {s} l room e) =
      let (p, q, a) = replay-Logged h tps hpt l in (p, q, rw e (hash-IsAt n r p room a))
  replay-Logged h tps hpt (tick_done {r} {s} l room e) =
      let (p, q, a) = replay-Logged h tps hpt l in (p, q, tick-IsAt r s p room e a)
  replay-Logged h tps hpt (record_done {r} {s} {es} t e l room q) =
      let (p, found, a) = replay-Logged h tps hpt l in
      let (later, match, current, count) = record_hash-expected t r s e p q room a in
      ((e.hash, e.num_hashes), replay-cons h es e p found later match, entry-IsAt s e current count)
