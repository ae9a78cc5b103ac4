-- ===== src/Client/Signed.antt =====
-- The client's transaction passes the validator's check of signatures.
use tiny_solana.Common.{ℕ, ◌≡◌, sym, ap, ◌∙◌, inl, inr, Option, some, [], ◌∷◌, arith, Option-cases}
use tiny_solana.Common.Result.{ok}
use tiny_solana.Types.{Pubkey, Hash, Bytes}
use tiny_solana.Types.Keys.{Ed25519, IsSound, Keypair, pubkey, sign_message}
use tiny_solana.Transactions.{Message, Transaction}
use tiny_solana.Transactions.Verify.{verify_signatures_sync, verify_signatures_sync-AreSigned}
use tiny_solana.Programs.System.{SystemInstruction, transfer}
use tiny_solana.Client.{
  create_transfer_transaction, transfer_message, sign_transaction, with_payload,
}

module _ {SigningKey VerifyingKey : Type 0} (dalek : Ed25519 SigningKey VerifyingKey)
    (encode_system : SystemInstruction → Option Bytes) (serialize : Message → Option Bytes) where
  -- What a transfer transaction is made of.
  pub record Built (from : Keypair SigningKey) (to : Pubkey) (lamports : ℕ)
      (recent_blockhash : Hash) (tx : Transaction) : Type 0 where
    pub payload : Bytes
    pub encoded : encode_system (transfer lamports) ≡ some payload
    pub bytes : Bytes
    pub serialized :
        serialize (transfer_message (pubkey dalek from) to recent_blockhash payload) ≡ some bytes
    pub built : tx ≡ record {
      signatures = sign_message dalek from bytes ∷ [];
      message = transfer_message (pubkey dalek from) to recent_blockhash payload;
    }

  pub create_transfer_transaction_ok :
      (from : Keypair SigningKey) (to : Pubkey) (lamports : ℕ) (recent_blockhash : Hash)
      (tx : Transaction)
      → create_transfer_transaction dalek encode_system serialize from to lamports recent_blockhash
        ≡ some tx
      → Built from to lamports recent_blockhash tx
  unfolding create_transfer_transaction
  create_transfer_transaction_ok from to lamports recent_blockhash tx e =
      elim (Option-cases (encode_system (transfer lamports))) [
        | inl failed ↦ absurd (ground arith)
        | inr (payload, encoded) ↦
            let message = transfer_message (pubkey dalek from) to recent_blockhash payload in
            let e1 : sign_transaction dalek encode_system serialize from message (serialize message)
                ≡ some tx =
              ap (with_payload dalek encode_system serialize from to recent_blockhash) (sym encoded)
              ∙ e in
            elim (Option-cases (serialize message)) [
              | inl failed ↦ absurd (ground arith)
              | inr (bytes, serialized) ↦ record {
                payload = payload;
                encoded = encoded;
                bytes = bytes;
                serialized = serialized;
                built = ground arith;
              }
            ]
      ]

  pub Built-message :
      (from : Keypair SigningKey) (to : Pubkey) (lamports : ℕ) (recent_blockhash : Hash)
      (tx : Transaction) (b : Built from to lamports recent_blockhash tx)
      → tx.message ≡ transfer_message (pubkey dalek from) to tx.message.recent_blockhash b.payload
  Built-message from to lamports recent_blockhash tx b =
      let e = ap (λ x. x.message) b.built in
      e ∙ ap (λ m. transfer_message (pubkey dalek from) to m.recent_blockhash b.payload) (sym e)

  pub Built-verify_signatures_sync :
      IsSound dalek
      → (from : Keypair SigningKey) (to : Pubkey) (lamports : ℕ) (recent_blockhash : Hash)
        (tx : Transaction)
      → Built from to lamports recent_blockhash tx
      → verify_signatures_sync serialize dalek.verifying_from dalek.verify_strict tx ≡ ok tt
  Built-verify_signatures_sync sound from to lamports recent_blockhash tx b = rw b.built (
      (verify_signatures_sync-AreSigned serialize dalek.verifying_from dalek.verify_strict _).1
        b.bytes b.serialized
        (
          rw (sound.reads (dalek.verifying_key from.signing_key))
              (sound.accepts from.signing_key b.bytes).1,
          tt,
        ))
