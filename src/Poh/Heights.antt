-- ===== src/Poh/Heights.antt =====
-- Slots and tick heights over every sequence of hashing, ticks and records.
use tiny_solana.Common.{
  ℕ, ◌+◌, ◌*◌, ◌%◌, ◌<◌, ◌≤◌, ◌≡◌, refl, inl, inr, ◌==◌, Bool-cases, arith, false, leb, ◌≢◌, ◌⊎◌,
  ◌-◌,
}
use native.Mathlib.Nat.{add_assoc}
use tiny_solana.Common.Result.{Result, ok}
use tiny_solana.Common.Word.{u64_mod, wrapping_add}
use tiny_solana.Types.{Hash, Digest}
use tiny_solana.Poh.{
  PohEntry, PohRecorder, PohError, new, hash, tick, next_slot, record_hash, recorded, entry_of,
}
use tiny_solana.Poh.Hashing.{SameHeights, hash-SameHeights}

-- The ticks of the current slot so far are fewer than the slot's.
pub record IsTimed (r : PohRecorder) : Type 0 where
  pub ticks : ℕ
  pub within : ticks < r.ticks_per_slot
  pub count : r.tick_count ≡ r.slot * r.ticks_per_slot + ticks
  pub height : r.max_tick_height ≡ r.slot * r.ticks_per_slot + r.ticks_per_slot

slot_mod : (s m q : ℕ) → q < m → (s * m + q) % m ≡ q
slot_mod s m q h = grind arith

slot_mod_full : (s m q : ℕ) → 0 < m → q + 1 ≡ m → (s * m + q + 1) % m ≡ 0
slot_mod_full s m q h e = grind arith

module _ (sha256 : Digest) where
  -- What a tick does to the heights, apart from the hashing.
  abbrev ticked : PohRecorder → PohRecorder
  ticked r = record r { hashes_since_last_tick = 0; tick_count = wrapping_add r.tick_count 1 }

  next_slot-IsTimed :
      (r : PohRecorder) (t : IsTimed r)
      → r.tick_count + r.ticks_per_slot + 1 < u64_mod
      → t.ticks + 1 ≡ r.ticks_per_slot
      → IsTimed (next_slot (ticked r))
  next_slot-IsTimed r t room e =
      let slots : (r.slot + 1) * r.ticks_per_slot ≡ r.tick_count + 1 = grind (arith, t.count) in
      let few : r.slot ≤ r.slot * r.ticks_per_slot = grind (arith, t.within) in
      let slot : wrapping_add r.slot 1 ≡ r.slot + 1 = omega (arith, t.count) in
      let next : wrapping_add (r.slot + 1) 1 ≡ r.slot + 2 = omega (arith, t.count) in
      let two : (r.slot + 2) * r.ticks_per_slot ≡ r.tick_count + 1 + r.ticks_per_slot =
        grind (arith, t.count) in
      record {
        ticks = 0;
        within = omega (arith, t.within);
        count = rw slot (omega (arith, t.count, slots));
        height = rw (slot, next, two) (omega (arith, slots));
      }

  same_slot-IsTimed :
      (r : PohRecorder) (t : IsTimed r)
      → r.tick_count + r.ticks_per_slot + 1 < u64_mod
      → t.ticks + 1 ≢ r.ticks_per_slot
      → IsTimed (ticked r)
  same_slot-IsTimed r t room e = record {
    ticks = t.ticks + 1;
    within = omega (arith, t.within);
    count = omega (arith, t.count);
    height = t.height;
  }

  pub SameHeights-IsTimed : (s r : PohRecorder) → SameHeights sha256 s r → IsTimed r → IsTimed s
  SameHeights-IsTimed s r (tps, _, max, count, slot) t = record {
    ticks = t.ticks;
    within = rw tps t.within;
    count = rw (count, slot, tps) t.count;
    height = rw (max, slot, tps) t.height;
  }

  pub hash-IsTimed : (n : ℕ) (r : PohRecorder) → IsTimed r → IsTimed (hash sha256 n r)
  hash-IsTimed n r = SameHeights-IsTimed (hash sha256 n r) r (hash-SameHeights sha256 n r)

  pub hash-room :
      (n : ℕ) (r : PohRecorder)
      → r.tick_count + r.ticks_per_slot + 1 < u64_mod
      → let h = hash sha256 n r in h.tick_count + h.ticks_per_slot + 1 < u64_mod
  hash-room n r room =
      let (tps, _, _, count, _) = hash-SameHeights sha256 n r in rw (tps, count) room

  -- Whether the tick count is a multiple of the slot's ticks.
  boundary_iff :
      (r : PohRecorder) (t : IsTimed r)
      → r.tick_count + r.ticks_per_slot + 1 < u64_mod
      → (t.ticks + 1 ≡ r.ticks_per_slot) × (wrapping_add r.tick_count 1 % r.ticks_per_slot ≡ 0)
        ⊎ (t.ticks + 1 ≢ r.ticks_per_slot)
          × (wrapping_add r.tick_count 1 % r.ticks_per_slot ≡ t.ticks + 1)
  boundary_iff r t room =
      let now : wrapping_add r.tick_count 1 ≡ r.slot * r.ticks_per_slot + t.ticks + 1 =
        omega (arith, t.count) in
      let pos : 0 < r.ticks_per_slot = omega (arith, t.within) in
      elim (Bool-cases (t.ticks + 1 == r.ticks_per_slot)) [
        | inl e ↦
            let full : t.ticks + 1 ≡ r.ticks_per_slot = ground arith in
            inl (full, rw now (slot_mod_full r.slot r.ticks_per_slot t.ticks pos full))
        | inr e ↦
            let few : t.ticks + 1 ≢ r.ticks_per_slot = ground arith in
            inr (
              few,
              rw now (
                  rw (add_assoc (r.slot * r.ticks_per_slot) t.ticks 1)
                    (slot_mod r.slot r.ticks_per_slot (t.ticks + 1) (omega (arith, t.within)))),
            )
      ]

  pub tick-IsTimed :
      (r : PohRecorder)
      → IsTimed r
      → r.tick_count + r.ticks_per_slot + 1 < u64_mod
      → (s : PohRecorder) × (tick sha256 r ≡ ok s) × IsTimed s
  unfolding tick
  tick-IsTimed r t room =
      let n = r.hashes_per_tick - r.hashes_since_last_tick in
      let h = hash sha256 n r in
      let th : IsTimed h = hash-IsTimed n r t in
      let room_h = hash-room n r room in
      let pos : (h.ticks_per_slot == 0) ≡ false = ground (arith, th.within) in
      elim (boundary_iff h th room_h) [
        | inl (full, e) ↦
            (next_slot (ticked h), rw (pos, e) refl, next_slot-IsTimed h th room_h full)
        | inr (few, e) ↦
            let other : (th.ticks + 1 == 0) ≡ false = ground arith in
            (ticked h, rw (pos, e, other) refl, same_slot-IsTimed h th room_h few)
      ]

  -- A record is accepted whenever the heights are in order.
  pub record_hash-IsTimed :
      (h : Hash) (r : PohRecorder)
      → IsTimed r
      → record_hash sha256 h r ≡ (ok (entry_of h (recorded sha256 h r)), recorded sha256 h r)
  unfolding record_hash
  record_hash-IsTimed h r t =
      let early : leb r.max_tick_height r.tick_count ≡ false =
        ground (arith, t.within, t.count, t.height) in
      rw early

-- One call on the recorder; a tick leaves the tick count below 2 ^ 64 by a slot and one.
pub data Step (sha256 : Digest) (r s : PohRecorder) : Type 0 where
  hashed : (n : ℕ) → s ≡ hash sha256 n r → Step sha256 r s
  tick_done : r.tick_count + r.ticks_per_slot + 1 < u64_mod → tick sha256 r ≡ ok s → Step sha256 r s
  record_done :
      (h : Hash) (e : Result PohError PohEntry) → record_hash sha256 h r ≡ (e, s) → Step sha256 r s

pub data Reach (sha256 : Digest) (ticks_per_slot hashes_per_tick : ℕ) : PohRecorder → Type 0 where
  initial :
      (h : Hash)
      → Reach sha256 ticks_per_slot hashes_per_tick (new h ticks_per_slot hashes_per_tick)
  next :
      {r s : PohRecorder}
      → Reach sha256 ticks_per_slot hashes_per_tick r
      → Step sha256 r s
      → Reach sha256 ticks_per_slot hashes_per_tick s

module _ (sha256 : Digest) where
  Step-IsTimed : (r s : PohRecorder) → Step sha256 r s → IsTimed r → IsTimed s
  Step-IsTimed r s (hashed n e) t = rw e (hash-IsTimed sha256 n r t)
  Step-IsTimed r s (tick_done room e) t =
      let (s', e', t') = tick-IsTimed sha256 r t room in let same : s ≡ s' = cc in rw same t'
  Step-IsTimed r s (record_done h e q) t =
      let same : s ≡ recorded sha256 h r = ground (arith, record_hash-IsTimed sha256 h r t) in
      rw same (SameHeights-IsTimed sha256 (recorded sha256 h r) r (refl, refl, refl, refl, refl) t)

  Reach-IsTimed :
      (ticks_per_slot hashes_per_tick : ℕ) {r : PohRecorder}
      → 0 < ticks_per_slot
      → Reach sha256 ticks_per_slot hashes_per_tick r
      → IsTimed r
  Reach-IsTimed tps hpt pos (initial h) = record {
    ticks = 0;
    within = pos;
    count = omega arith;
    height = omega arith;
  }
  Reach-IsTimed tps hpt pos (next {r} {s} reach st) =
      Step-IsTimed r s st (Reach-IsTimed tps hpt pos reach)

  -- With at least one tick to a slot, after any sequence of hashing, records and ticks, where a tick
  -- happens only while the tick count and one slot more stay below 2 ^ 64: the slot is the number of
  -- full slots in the tick count, the maximal height is the end of the slot, and a record is
  -- accepted, so the error for a full slot is never returned.
  pub Reach-record_hash :
      (ticks_per_slot hashes_per_tick : ℕ) (h : Hash) {r : PohRecorder}
      → 0 < ticks_per_slot
      → Reach sha256 ticks_per_slot hashes_per_tick r
      → IsTimed r
        × (record_hash sha256 h r ≡ (ok (entry_of h (recorded sha256 h r)), recorded sha256 h r))
  Reach-record_hash tps hpt h {r} pos reach =
      let t = Reach-IsTimed tps hpt pos reach in (t, record_hash-IsTimed sha256 h r t)
