-- ===== src/Common/Word.antt =====
-- Machine words. A `u64` is a number below 2 ^ 64; what wraps or saturates is written out.
use tiny_solana.Common.Tests.{ltb, if◌then◌else◌}
use Prim.Native.Nat.{ℕ, ◌+◌, ◌-◌, ◌%◌, ◌^◌, ◌<◌}
use mathlib.Core.Path.{◌≡◌}
use native.Mathlib.Omega.{arith}

abbrev pub u64_mod : ℕ
u64_mod = 2 ^ 64

abbrev pub u64_max : ℕ
u64_max = u64_mod - 1

-- `u64::saturating_add`
abbrev pub saturating_add : ℕ → ℕ → ℕ
saturating_add a b = if ltb (a + b) u64_mod then a + b else u64_max

-- `u64::saturating_sub`, which is the truncated subtraction of ℕ
abbrev pub saturating_sub : ℕ → ℕ → ℕ
saturating_sub a b = a - b

-- `AtomicU64::fetch_add` and the `+` of a release build
abbrev pub wrapping_add : ℕ → ℕ → ℕ
wrapping_add a b = (a + b) % u64_mod

-- `AtomicU64::fetch_sub` and the `-` of a release build
abbrev pub wrapping_sub : ℕ → ℕ → ℕ
wrapping_sub a b = (a + u64_mod - b) % u64_mod

pub wrapping_sub-add : (a b : ℕ) → a < u64_mod → b < u64_mod → wrapping_sub (wrapping_add a b) b ≡ a
wrapping_sub-add a b h k = omega arith
