-- ===== src/Poh.antt =====
-- src/poh.rs: the recorder of the proof of history, and one round of its service. Counters are those
-- of a `u64`.
pub mod Hashing
pub mod Heights
pub mod Replay
pub mod Service
pub mod Paced
pub mod Running
mod Tests
use tiny_solana.Common.{
  ℕ, zero, suc, ◌+◌, ◌*◌, ◌%◌, ◌≡◌, Bool, true, false, Option, none, some, List, [], ◌∷◌, ◌++◌,
  ◌==◌, leb, ltb, if◌then◌else◌,
}
use tiny_solana.Common.Result.{Result, ok, err, panic}
use tiny_solana.Common.Word.{u64_mod, wrapping_add, saturating_sub}
use tiny_solana.Types.{Hash, Digest, hash_bytes}

pub record PohEntry : Type 0 where
  pub hash : Hash
  pub num_hashes : ℕ
  pub transactions_hash : Hash

pub data PohError : Type 0 where
  max_height_reached : PohError

pub record PohRecorder : Type 0 where
  pub current_hash : Hash
  pub num_hashes : ℕ
  pub ticks_per_slot : ℕ
  pub hashes_per_tick : ℕ
  pub max_tick_height : ℕ
  pub hashes_since_last_tick : ℕ
  pub tick_count : ℕ
  pub slot : ℕ

-- `PohRecorder::new`
abbrev pub new : Hash → ℕ → ℕ → PohRecorder
new initial_hash ticks_per_slot hashes_per_tick = record {
  current_hash = initial_hash;
  num_hashes = 0;
  ticks_per_slot = ticks_per_slot;
  hashes_per_tick = hashes_per_tick;
  max_tick_height = ticks_per_slot;
  hashes_since_last_tick = 0;
  tick_count = 0;
  slot = 0;
}

-- What `try_recv` finds on the channel.
pub data Received : Type 0 where
  batch : Hash → Received
  empty disconnected : Received

-- `PohRecorder::should_tick`
abbrev pub should_tick : PohRecorder → Bool
should_tick r = leb r.hashes_per_tick r.hashes_since_last_tick

-- The slot boundary in `tick`.
abbrev pub next_slot : PohRecorder → PohRecorder
next_slot r =
    let slot : ℕ = wrapping_add r.slot 1 in
    record r { slot = slot; max_tick_height = (wrapping_add slot 1 * r.ticks_per_slot) % u64_mod }

abbrev pub entry_of : Hash → PohRecorder → PohEntry
entry_of transactions_hash r = record {
  hash = r.current_hash;
  num_hashes = r.num_hashes;
  transactions_hash = transactions_hash;
}

abbrev pub hashes_per_batch : ℕ
hashes_per_batch = 128

module _ (sha256 : Digest) where
  abbrev pub hash_once : PohRecorder → PohRecorder
  hash_once r = record r {
    current_hash = sha256 (hash_bytes r.current_hash);
    num_hashes = wrapping_add r.num_hashes 1;
    hashes_since_last_tick = wrapping_add r.hashes_since_last_tick 1;
  }

  -- `PohRecorder::hash`
  pub hash : ℕ → PohRecorder → PohRecorder
  hash zero r = r
  hash (suc n) r = hash n (hash_once r)

  -- `PohRecorder::tick`; a remainder by zero panics.
  pub tick : PohRecorder → Result PohError PohRecorder
  tick r =
      let hashed = hash (saturating_sub r.hashes_per_tick r.hashes_since_last_tick) r in
      let ticked = record hashed {
        hashes_since_last_tick = 0;
        tick_count = wrapping_add hashed.tick_count 1;
      } in
      if ticked.ticks_per_slot == 0
      then panic
      else ok (if ticked.tick_count % ticked.ticks_per_slot == 0 then next_slot ticked else ticked)

  abbrev pub recorded : Hash → PohRecorder → PohRecorder
  recorded transactions_hash r = record r {
    current_hash = sha256 (hash_bytes r.current_hash ++ hash_bytes transactions_hash);
    num_hashes = wrapping_add r.num_hashes 1;
    hashes_since_last_tick = wrapping_add r.hashes_since_last_tick 1;
  }

  -- `PohRecorder::record`
  pub record_hash : Hash → PohRecorder → Result PohError PohEntry × PohRecorder
  record_hash transactions_hash r =
      if leb r.max_tick_height r.tick_count
      then (err max_height_reached, r)
      else let after = recorded transactions_hash r in
        (ok (entry_of transactions_hash after), after)

  -- `if poh_recorder.should_tick() { poh_recorder.tick(); }`
  abbrev pub tick_if_due : PohRecorder → Result PohError PohRecorder
  tick_if_due r = if should_tick r then tick r else ok r

  -- One round of the loop in `PohService::new`, up to its timing; `none` leaves the loop. A refused
  -- record is only logged.
  pub service_round : Received → PohRecorder → Option (Result PohError PohRecorder)
  service_round (batch h) r = some (ok (record_hash h r).1)
  service_round empty r = some (tick_if_due (hash hashes_per_batch r))
  service_round disconnected r = none
