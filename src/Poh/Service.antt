-- ===== src/Poh/Service.antt =====
-- The loop of `PohService` in src/poh.rs, round by round: what each round finds is given.
use tiny_solana.Common.{
  ℕ, ◌*◌, ◌-◌, ◌%◌, ◌/◌, Bool, false, Option, none, some, List, [], ◌∷◌, ◌++◌, ltb, ◌==◌,
  if◌then◌else◌,
}
use tiny_solana.Common.Result.{Result, ok, err, panic, ◌>>=◌}
use tiny_solana.Common.Word.{u64_mod}
use tiny_solana.Types.{Digest}
use tiny_solana.Poh.{
  PohRecorder, PohError, Received, batch, empty, disconnected, hashes_per_batch, service_round,
}

-- `(tick_rate_ns * hashes_per_batch) / config.hashes_per_tick`; a division by zero panics.
unfoldable pub ideal_ns_per_batch : ℕ → ℕ → Result PohError ℕ
ideal_ns_per_batch tick_rate_ns hashes_per_tick =
    if hashes_per_tick == 0
    then panic
    else ok ((tick_rate_ns * hashes_per_batch) % u64_mod / hashes_per_tick)

-- What a round does with the time that is left.
pub data Pause : Type 0 where
  at_once : Pause
  sleeps lags : ℕ → Pause

unfoldable pub pause : ℕ → ℕ → Pause
pause ideal elapsed =
    if ltb elapsed ideal
    then (if ltb 1000 (ideal - elapsed) then sleeps (ideal - elapsed) else at_once)
    else if ltb ideal elapsed
    then lags (elapsed - ideal)
    else at_once

-- What a round finds: the exit flag, the channel, and the time it took.
pub record Round : Type 0 where
  pub exit : Bool
  pub received : Received
  pub elapsed_ns : ℕ

pub record PohService : Type 0 where
  pub recorder : PohRecorder
  pub pauses : List Pause
  pub is_running : Bool

-- A record is followed by `continue`.
abbrev pub pauses_of : ℕ → Round → Received → List Pause
pauses_of ideal round (batch h) = []
pauses_of ideal round empty = pause ideal round.elapsed_ns ∷ []
pauses_of ideal round disconnected = []

abbrev pub stop : PohService → PohService
stop s = record s { is_running = false }

module _ (sha256 : Digest) (ideal : ℕ) where
  abbrev pub after_round :
      Round → PohService → Option (Result PohError PohRecorder) → Result PohError PohService
  after_round round s none = ok (stop s)
  after_round round s (some (ok r)) =
      ok (record s { recorder = r; pauses = s.pauses ++ pauses_of ideal round round.received })
  after_round round s (some (err e)) = err e
  after_round round s (some panic) = panic

  -- The body of the loop with its condition
  unfoldable pub step : Round → PohService → Result PohError PohService
  step round s =
      if round.exit
      then ok (stop s)
      else after_round round s (service_round sha256 round.received s.recorder)

  -- The thread, for as long as rounds are given.
  unfoldable pub run : List Round → PohService → Result PohError PohService
  run [] s = ok s
  run (round ∷ rounds) s = if s.is_running then step round s >>= run rounds else ok s
