-- ===== src/Poh/Tests.antt =====
-- A recorder that hashes, records and ticks, and the theorems at it.
use tiny_solana.Common.{true, false, List, ℕ, ◌≡◌, refl, some, [], ◌∷◌, arith}
use tiny_solana.Common.Result.{ok}
use tiny_solana.Types.{Hash}
use tiny_solana.Samples.{toy_digest}
use tiny_solana.Poh.{batch, empty, PohRecorder, new, hash, tick, record_hash, recorded, entry_of}
use tiny_solana.Poh.Heights.{
  Reach, initial, next, hashed as hashed_step, tick_done, record_done, IsTimed, Reach-record_hash,
}
use tiny_solana.Poh.Service.{Round, PohService, run}
use tiny_solana.Poh.Paced.{TicksEach, run_idle}
use tiny_solana.Poh.Running.{run_total}
use tiny_solana.Poh.Replay.{Logged, replay, IsAt, replay-Logged}

-- Two ticks to a slot and three hashes to a tick.
abbrev begin : PohRecorder
begin = new 1 2 3

abbrev hashed : PohRecorder
hashed = hash toy_digest 2 begin

abbrev logged : PohRecorder
logged = recorded toy_digest 5 hashed

record_hash-hashed : record_hash toy_digest 5 hashed ≡ (ok (entry_of 5 logged), logged)
unfolding record_hash hash
record_hash-hashed = refl

abbrev after_tick : PohRecorder
after_tick = record logged { hashes_since_last_tick = 0; tick_count = 1 }

tick-logged : tick toy_digest logged ≡ ok after_tick
unfolding tick hash
tick-logged = refl

reached : Reach toy_digest 2 3 after_tick
unfolding hash
reached =
    next
      (next (next (initial 1) (hashed_step 2 refl))
        (record_done 5 (ok (entry_of 5 logged)) record_hash-hashed))
      (tick_done (omega arith) tick-logged)

Reach-record_hash_example :
    IsTimed after_tick
    × (record_hash toy_digest 6 after_tick
        ≡ (ok (entry_of 6 (recorded toy_digest 6 after_tick)), recorded toy_digest 6 after_tick))
Reach-record_hash_example = Reach-record_hash toy_digest 2 3 6 (omega arith) reached

log : Logged toy_digest 1 2 3 after_tick (entry_of 5 logged ∷ [])
unfolding hash
log =
    Logged.tick_done
      (Logged.record_done 5 (entry_of 5 logged) (Logged.hashed 2 Logged.initial (omega arith) refl)
        (omega arith) record_hash-hashed)
      (omega arith) tick-logged

replay-Logged_example :
    (p : Hash × ℕ) × (replay toy_digest 1 (entry_of 5 logged ∷ []) ≡ some p)
    × IsAt toy_digest after_tick p
replay-Logged_example = replay-Logged toy_digest 1 2 3 log

abbrev service : PohService
service = record { recorder = begin; pauses = []; is_running = true }

abbrev quiet : Round
quiet = record { exit = false; received = empty; elapsed_ns = 20 }

run_idle_example :
    (t : PohService) × (run toy_digest 50 (quiet ∷ quiet ∷ []) service ≡ ok t)
    × (t.is_running ≡ true)
    × TicksEach toy_digest 2 begin t.recorder
run_idle_example =
    run_idle toy_digest 50 (quiet ∷ quiet ∷ []) service ((refl, refl), ((refl, refl), tt)) refl
      (refl, omega arith, (λ e. ground arith)) (omega arith) (omega arith)

begin-IsTimed : IsTimed begin
begin-IsTimed = record {
  ticks = 0;
  within = omega arith;
  count = omega arith;
  height = omega arith;
}

abbrev busy : List Round
busy = quiet ∷ record quiet { received = batch 9 } ∷ record quiet { exit = true } ∷ []

run_total_example : (u : PohService) × (run toy_digest 50 busy service ≡ ok u) × IsTimed u.recorder
run_total_example = run_total toy_digest 50 busy service begin-IsTimed (omega arith)
