-- ===== src/Types/Text.antt =====
-- `FromStr` and `Display` of keys and hashes in src/types.rs. The base-58 code is a parameter.
use Prim.Native.String.{String}
use tiny_solana.Common.{ℕ, ◌<◌, ◌^◌, ◌≡◌, ap, not, Option, some, length, ◌==◌}
use tiny_solana.Common.Result.{Result, ok, ◌>>=◌, ◌>>◌, err_if, ok_or}
use tiny_solana.Common.Digits.{be_bytes, be_value, length-be_bytes, be_value-be_bytes}
use tiny_solana.Types.{Pubkey, Signature, Bytes}

pub data ParsePubkeyError : Type 0 where
  invalid_base58 : ParsePubkeyError
  invalid_length : ℕ → ParsePubkeyError

-- `bs58::encode` and `bs58::decode`
pub record Base58 : Type 0 where
  pub encode : Bytes → String
  pub decode : String → Option Bytes

-- Decoding gives back the bytes that were encoded.
pub record IsInverse (base58 : Base58) : Type 0 where
  pub decode-encode : (b : Bytes) → base58.decode (base58.encode b) ≡ some b

module _ (base58 : Base58) where
  -- `Pubkey::from_str`
  unfoldable pub from_str : String → Result ParsePubkeyError Pubkey
  from_str s = do
    bytes ← ok_or (base58.decode s) invalid_base58
    err_if (not (length bytes == 32)) (invalid_length (length bytes))
    ok (be_value bytes)

  -- `Display for Pubkey`, and for `Hash`
  unfoldable pub to_string : Pubkey → String
  to_string k = base58.encode (be_bytes 32 k)

  -- `Display for Signature`
  unfoldable pub signature_text : Signature → String
  signature_text s = base58.encode (be_bytes 64 s)

  -- A key is read back from its text.
  pub from_str-to_string :
      IsInverse base58 → (k : Pubkey) → k < 256 ^ 32 → from_str (to_string k) ≡ ok k
  unfolding from_str to_string
  from_str-to_string inverse k h =
      rw (inverse.decode-encode (be_bytes 32 k), length-be_bytes 32 k)
        (ap ok (be_value-be_bytes 32 k h))
