-- ===== src/Poh/Hashing.antt =====
-- What the loop of `hash` does.
use tiny_solana.Common.{ℕ, zero, suc, ◌+◌, ◌<◌, ◌≡◌, refl, arith}
use tiny_solana.Common.Word.{u64_mod}
use tiny_solana.Types.{Hash, Digest, hash_bytes}
use tiny_solana.Poh.{PohRecorder, hash_once, hash}

module _ (sha256 : Digest) where
  -- The hash chain: so many applications of the digest.
  unfoldable pub chain : ℕ → Hash → Hash
  chain zero h = h
  chain (suc n) h = chain n (sha256 (hash_bytes h))

  pub chain-add : (m n : ℕ) (h : Hash) → chain (m + n) h ≡ chain n (chain m h)
  unfolding chain
  chain-add zero n h = let e : 0 + n ≡ n = omega arith in rw e
  chain-add (suc m) n h =
      let e : suc m + n ≡ suc (m + n) = omega arith in rw e (chain-add m n (sha256 (hash_bytes h)))

  -- What `hash` leaves as it was.
  abbrev pub SameHeights : PohRecorder → PohRecorder → Type 0
  SameHeights r s =
      (r.ticks_per_slot ≡ s.ticks_per_slot)
      × (r.hashes_per_tick ≡ s.hashes_per_tick)
      × (r.max_tick_height ≡ s.max_tick_height)
      × (r.tick_count ≡ s.tick_count)
      × (r.slot ≡ s.slot)

  pub hash-SameHeights : (n : ℕ) (r : PohRecorder) → SameHeights (hash sha256 n r) r
  unfolding hash
  hash-SameHeights zero r = (refl, refl, refl, refl, refl)
  hash-SameHeights (suc n) r = hash-SameHeights n (hash_once sha256 r)

  pub current_hash-hash :
      (n : ℕ) (r : PohRecorder) → (hash sha256 n r).current_hash ≡ chain n r.current_hash
  unfolding hash chain
  current_hash-hash zero r = refl
  current_hash-hash (suc n) r = current_hash-hash n (hash_once sha256 r)

  pub num_hashes-hash :
      (n : ℕ) (r : PohRecorder)
      → r.num_hashes + n < u64_mod
      → (hash sha256 n r).num_hashes ≡ r.num_hashes + n
  unfolding hash
  num_hashes-hash zero r h = omega arith
  num_hashes-hash (suc n) r h = ground (arith, num_hashes-hash n (hash_once sha256 r) (omega arith))

  pub hashes_since_last_tick-hash :
      (n : ℕ) (r : PohRecorder)
      → r.hashes_since_last_tick + n < u64_mod
      → (hash sha256 n r).hashes_since_last_tick ≡ r.hashes_since_last_tick + n
  unfolding hash
  hashes_since_last_tick-hash zero r h = omega arith
  hashes_since_last_tick-hash (suc n) r h =
      ground (arith, hashes_since_last_tick-hash n (hash_once sha256 r) (omega arith))
