-- ===== src/Types/Keys.antt =====
-- `Keypair` and `verify_signature` of src/types.rs. The keys and signatures of ed25519_dalek, and the
-- reading of a file as JSON, are parameters.
use Prim.Native.String.{String}
use text.Mathlib.Text as Text
use tiny_solana.Common.{
  refl, ◌≡◌, Bool, true, false, Option, none, some, length, ◌==◌, if◌then◌else◌,
}
use tiny_solana.Types.{Pubkey, Signature, Bytes}

-- `from_seed` and `to_seed` are the 32 bytes of a signing key, and `verifying_from` reads the bytes of
-- a verifying key.
pub record Ed25519 (SigningKey VerifyingKey : Type 0) : Type 0 where
  pub from_seed : Bytes → SigningKey
  pub to_seed : SigningKey → Bytes
  pub verifying_key : SigningKey → VerifyingKey
  pub key_bytes : VerifyingKey → Pubkey
  pub verifying_from : Pubkey → Option VerifyingKey
  pub sign : SigningKey → Bytes → Signature
  pub verify : VerifyingKey → Bytes → Signature → Bool
  pub verify_strict : VerifyingKey → Bytes → Signature → Bool

-- A verifying key is read back, and both checks accept what its signing key signed.
pub record IsSound {SigningKey VerifyingKey : Type 0} (dalek : Ed25519 SigningKey VerifyingKey)
    : Type 0 where
  pub reads : (v : VerifyingKey) → dalek.verifying_from (dalek.key_bytes v) ≡ some v
  pub accepts :
      (s : SigningKey) (b : Bytes)
      → (dalek.verify (dalek.verifying_key s) b (dalek.sign s b) ≡ true)
        × (dalek.verify_strict (dalek.verifying_key s) b (dalek.sign s b) ≡ true)

pub record Keypair (SigningKey : Type 0) : Type 0 where
  pub signing_key : SigningKey

module _ {SigningKey VerifyingKey : Type 0} (dalek : Ed25519 SigningKey VerifyingKey) where
  -- `Keypair::from_bytes`; `none` is the error for another length.
  abbrev pub from_bytes : Bytes → Option (Keypair SigningKey)
  from_bytes b = if length b == 32 then some (record { signing_key = dalek.from_seed b }) else none

  -- `Keypair::to_bytes`
  abbrev pub to_bytes : Keypair SigningKey → Bytes
  to_bytes keypair = dalek.to_seed keypair.signing_key

  -- `Keypair::pubkey`
  abbrev pub pubkey : Keypair SigningKey → Pubkey
  pubkey keypair = dalek.key_bytes (dalek.verifying_key keypair.signing_key)

  -- `Keypair::sign_message`
  abbrev pub sign_message : Keypair SigningKey → Bytes → Signature
  sign_message keypair message = dalek.sign keypair.signing_key message

  abbrev pub is_signature : Option VerifyingKey → Bytes → Signature → Bool
  is_signature none message signature = false
  is_signature (some key) message signature = dalek.verify key message signature

  -- `verify_signature`
  unfoldable pub verify_signature : Signature → Bytes → Pubkey → Bool
  verify_signature signature message k = is_signature (dalek.verifying_from k) message signature

  -- `load_keypair`, with the reading of the file and of its JSON.
  unfoldable pub load_keypair :
      (String → Option String) → (String → Option Bytes) → String → Option (Keypair SigningKey)
  load_keypair read_to_string parse path = elim (read_to_string path) [
    | none ↦ none
    | some json ↦ elim (parse json) [ none ↦ none | some bytes ↦ from_bytes bytes ]
  ]

  -- What a key pair signs verifies under its public key.
  pub verify_signature-sign_message :
      IsSound dalek
      → (keypair : Keypair SigningKey) (message : Bytes)
      → verify_signature (sign_message keypair message) message (pubkey keypair) ≡ true
  unfolding verify_signature
  verify_signature-sign_message sound keypair message =
      rw (sound.reads (dalek.verifying_key keypair.signing_key))
        (sound.accepts keypair.signing_key message).0

-- A signing key is read back from its 32 bytes.
pub record HasSeeds {SigningKey VerifyingKey : Type 0} (dalek : Ed25519 SigningKey VerifyingKey)
    : Type 0 where
  pub from_seed-to_seed : (s : SigningKey) → dalek.from_seed (dalek.to_seed s) ≡ s
  pub length-to_seed : (s : SigningKey) → length (dalek.to_seed s) ≡ 32

-- The files, by their names.
abbrev pub Files : Type 0
Files = String → Option String

module _ {SigningKey VerifyingKey : Type 0} (dalek : Ed25519 SigningKey VerifyingKey)
    (to_json : Bytes → String) where
  -- `fs::write`
  abbrev pub write_file : String → String → Files → Files
  write_file path content files other = if Text.◌==◌ other path then some content else files other

  -- `main` of src/bin/keygen.rs, for the key pair that the generator gave
  unfoldable pub keygen : SigningKey → Files → Files
  keygen generated =
      write_file "faucet.json" (to_json (to_bytes dalek (record { signing_key = generated })))

  -- The key pair that the validator and the client load from the file is the one that the key
  -- generator wrote there. JSON reads back the bytes that it wrote, and ed25519 the key.
  pub load_keypair-keygen :
      (from_json : String → Option Bytes)
      → HasSeeds dalek
      → ((b : Bytes) → from_json (to_json b) ≡ some b)
      → (s : SigningKey) (files : Files)
      → load_keypair dalek (keygen s files) from_json "faucet.json"
        ≡ some (record { signing_key = s })
  unfolding load_keypair keygen
  load_keypair-keygen from_json seeds json s files =
      rw (json (dalek.to_seed s), seeds.length-to_seed s, seeds.from_seed-to_seed s) refl
