-- ===== src/Types.antt =====
-- The value types of src/types.rs. A fixed-size byte array is only compared, ordered and copied to
-- and from byte strings, so it is the number whose big-endian digits are its bytes: equality and
-- the derived order of arrays are those of the numbers.
pub mod Text
pub mod Keys
use tiny_solana.Common.{ℕ, List}
use tiny_solana.Common.Digits.{be_bytes}

-- `Pubkey([u8; 32])`
abbrev pub Pubkey : Type 0
Pubkey = ℕ

-- `Hash([u8; 32])`
abbrev pub Hash : Type 0
Hash = ℕ

-- `Signature([u8; 64])`
abbrev pub Signature : Type 0
Signature = ℕ

-- `Vec<u8>` and `[u8]`
abbrev pub Bytes : Type 0
Bytes = List ℕ

abbrev pub default_hash : Hash
default_hash = 0

-- The bytes of a hash.
abbrev pub hash_bytes : Hash → Bytes
hash_bytes h = be_bytes 32 h

-- SHA-256 is a function of the bytes that were fed to it; it is not under the repository.
abbrev pub Digest : Type 0
Digest = Bytes → Hash
