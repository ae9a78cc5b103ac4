-- ===== src/Codec.antt =====
-- Serialization by bincode, which is not under the repository: a parameter of the code that uses it.
use tiny_solana.Common.{ℕ, ◌≡◌, Option, some, length}
use tiny_solana.Types.{Bytes}

-- A type that is written and read; `none` is bincode's error.
pub record Codec (A : Type 0) : Type 0 where
  pub encode : A → Option Bytes
  pub decode : Bytes → Option A

-- Fixed-width integers, and no trailing bytes: what was written is read back, and the bytes of every
-- value are as many as `size`.
pub record IsExact {A : Type 0} (codec : Codec A) (size : ℕ) : Type 0 where
  pub decode-encode : (a : A) (b : Bytes) → codec.encode a ≡ some b → codec.decode b ≡ some a
  pub length-encode : (a : A) (b : Bytes) → codec.encode a ≡ some b → length b ≡ size
  pub length-decode : (a : A) (b : Bytes) → codec.decode b ≡ some a → length b ≡ size
