-- ===== src/Transactions/Verify.antt =====
-- `Transaction::verify_signatures_sync` of src/transactions.rs. The bytes that are signed come from
-- bincode, and keys and signatures are checked by ed25519_dalek; both are parameters.
use tiny_solana.Common.{
  ℕ, ◌≤◌, ◌≡◌, refl, inl, inr, Bool, true, false, ◌&&◌, Option, none, some, List, [], ◌∷◌, arith,
  ltb, length, take, if◌then◌else◌, Bool-cases, Option-cases,
}
use tiny_solana.Common.Result.{Result, ok, err, panic, ◌>>=◌, ok_or}
use tiny_solana.Types.{Pubkey, Signature, Bytes}
use tiny_solana.Transactions.{Message, Transaction}
use tiny_solana.Transactions.Errors.{TransactionError, invalid_signature}

-- `&self.message.account_keys[..n]`
abbrev pub first_keys : ℕ → List Pubkey → Result TransactionError (List Pubkey)
first_keys n keys = if ltb (length keys) n then panic else ok (take n keys)

module _ {VerifyingKey : Type 0} (serialize : Message → Option Bytes)
    (from_bytes : Pubkey → Option VerifyingKey)
    (verify_strict : VerifyingKey → Bytes → Signature → Bool) where
  abbrev pub is_valid_with : Option VerifyingKey → Bytes → Signature → Bool
  is_valid_with none bytes s = false
  is_valid_with (some key) bytes s = verify_strict key bytes s

  abbrev pub is_valid : Bytes → Signature → Pubkey → Bool
  is_valid bytes s k = is_valid_with (from_bytes k) bytes s

  -- `signatures.iter().zip(signer_pubkeys.iter()).all(…)`
  abbrev pub all_valid : Bytes → List Signature → List Pubkey → Bool
  all_valid bytes [] keys = true
  all_valid bytes (s ∷ signatures) [] = true
  all_valid bytes (s ∷ signatures) (k ∷ keys) =
      is_valid bytes s k && all_valid bytes signatures keys

  unfoldable pub verify_signatures_sync : Transaction → Result TransactionError (Unit {0})
  verify_signatures_sync tx = do
    message_bytes ← ok_or (serialize tx.message) invalid_signature
    signer_pubkeys ← first_keys (length tx.signatures) tx.message.account_keys
    if all_valid message_bytes tx.signatures signer_pubkeys then ok tt else err invalid_signature

  -- Every signature is one of the key at its place.
  abbrev pub AreSigned : Bytes → List Signature → List Pubkey → Type 0
  AreSigned bytes [] keys = Unit
  AreSigned bytes (s ∷ signatures) [] = ⊥
  AreSigned bytes (s ∷ signatures) (k ∷ keys) =
      (is_valid bytes s k ≡ true) × AreSigned bytes signatures keys

  all_valid-AreSigned :
      (bytes : Bytes) (signatures : List Signature) (keys : List Pubkey)
      → length signatures ≤ length keys
      → all_valid bytes signatures (take (length signatures) keys) ≡ true
      → AreSigned bytes signatures keys
  all_valid-AreSigned bytes [] keys le e = tt
  all_valid-AreSigned bytes (s ∷ signatures) [] le e = absurd (omega arith)
  all_valid-AreSigned bytes (s ∷ signatures) (k ∷ keys) le e =
      elim (Bool-cases (is_valid bytes s k)) [
        | inl valid ↦
            (valid, all_valid-AreSigned bytes signatures keys (omega arith) (ground arith))
        | inr other ↦ absurd (ground arith)
      ]

  AreSigned-all_valid :
      (bytes : Bytes) (signatures : List Signature) (keys : List Pubkey)
      → AreSigned bytes signatures keys
      → (length signatures ≤ length keys)
        × (all_valid bytes signatures (take (length signatures) keys) ≡ true)
  AreSigned-all_valid bytes [] keys h = (omega arith, refl)
  AreSigned-all_valid bytes (s ∷ signatures) [] h = elim h [ ]
  AreSigned-all_valid bytes (s ∷ signatures) (k ∷ keys) h =
      let (le, e) = AreSigned-all_valid bytes signatures keys h.1 in
      (omega (arith, le), rw (h.0, e) refl)

  -- A transaction passes the check exactly if its message can be serialized and every signature is a
  -- signature of these bytes by the account key at its place; more signatures than keys do not pass.
  pub verify_signatures_sync-AreSigned :
      (tx : Transaction)
      → (verify_signatures_sync tx ≡ ok tt
          → (bytes : Bytes) × (serialize tx.message ≡ some bytes)
            × AreSigned bytes tx.signatures tx.message.account_keys)
        × ((bytes : Bytes)
            → serialize tx.message ≡ some bytes
            → AreSigned bytes tx.signatures tx.message.account_keys
            → verify_signatures_sync tx ≡ ok tt)
  unfolding verify_signatures_sync
  verify_signatures_sync-AreSigned tx = (
    (λ e. elim (Option-cases (serialize tx.message)) [
      | inl failed ↦ absurd (ground arith)
      | inr (bytes, q) ↦ (
        bytes,
        q,
        all_valid-AreSigned bytes tx.signatures tx.message.account_keys (ground arith)
            (ground arith),
      )
    ]),
    λ bytes q h.
        let (le, e) = AreSigned-all_valid bytes tx.signatures tx.message.account_keys h in
        ground arith,
  )
