-- ===== src/Client.antt =====
-- src/bin/client.rs: the transaction that the client builds, and what it asks of the server.
pub mod Requests
pub mod Answered
pub mod Signed
pub mod Executed
pub mod Paid
pub mod Delivered
pub mod Samples
mod Tests
use tiny_solana.Common.{ℕ, Bool, true, false, Option, none, some, List, [], ◌∷◌}
use tiny_solana.Types.{Pubkey, Hash, Bytes}
use tiny_solana.Types.Keys.{Ed25519, Keypair, pubkey, sign_message}
use tiny_solana.Transactions.{AccountMeta, Instruction, Message, Transaction}
use tiny_solana.Programs.Ids.{system_program_id}
use tiny_solana.Programs.System.{SystemInstruction, transfer}

abbrev pub writable_meta : Pubkey → Bool → AccountMeta
writable_meta k is_signer = record { pubkey = k; is_signer = is_signer; is_writable = true }

abbrev pub transfer_message : Pubkey → Pubkey → Hash → Bytes → Message
transfer_message from to recent_blockhash payload = record {
  account_keys = from ∷ to ∷ system_program_id ∷ [];
  recent_blockhash = recent_blockhash;
  instructions =
      record {
        program_id = system_program_id;
        accounts = writable_meta from true ∷ writable_meta to false ∷ [];
        payload = payload;
      }
      ∷ [];
}

module _ {SigningKey VerifyingKey : Type 0} (dalek : Ed25519 SigningKey VerifyingKey)
    (encode_system : SystemInstruction → Option Bytes) (serialize : Message → Option Bytes) where
  abbrev pub sign_transaction : Keypair SigningKey → Message → Option Bytes → Option Transaction
  sign_transaction from message none = none
  sign_transaction from message (some bytes) =
      some (record { signatures = sign_message dalek from bytes ∷ []; message = message })

  abbrev pub with_payload : Keypair SigningKey → Pubkey → Hash → Option Bytes → Option Transaction
  with_payload from to recent_blockhash none = none
  with_payload from to recent_blockhash (some payload) =
      let message = transfer_message (pubkey dalek from) to recent_blockhash payload in
      sign_transaction from message (serialize message)

  -- `create_transfer_transaction`; `none` is an error of bincode.
  unfoldable pub create_transfer_transaction :
      Keypair SigningKey → Pubkey → ℕ → Hash → Option Transaction
  create_transfer_transaction from to lamports recent_blockhash =
      with_payload from to recent_blockhash (encode_system (transfer lamports))
