-- ===== src/Scheduler/Tests.antt =====
-- `schedule` on three transactions, and the theorems at them.
use mathlib.Core.List.{flatten, Perm}
use tiny_solana.Common.{ℕ, ◌≡◌, refl, some, List, [], ◌∷◌, All}
use tiny_solana.Transactions.{Transaction}
use tiny_solana.Samples.{pay, look, idle, numbered}
use tiny_solana.Scheduler.{retain, rounds, extract_sets, schedule}
use tiny_solana.Scheduler.Groups.{IsParallel, schedule-IsParallel}
use tiny_solana.Scheduler.Complete.{schedule-perm}

abbrev groups : List (List (ℕ × Transaction))
groups = ((0, pay) ∷ (2, idle) ∷ []) ∷ ((1, look) ∷ []) ∷ []

schedule-numbered : schedule numbered ≡ some groups
unfolding schedule rounds retain extract_sets
schedule-numbered = refl

schedule-IsParallel_example : All IsParallel groups
schedule-IsParallel_example = schedule-IsParallel numbered groups schedule-numbered

schedule-perm_example :
    (gs : List (List (ℕ × Transaction))) × (schedule numbered ≡ some gs)
    × Perm (flatten gs) numbered
schedule-perm_example = schedule-perm numbered
