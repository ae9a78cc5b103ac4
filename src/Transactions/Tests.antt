-- ===== src/Transactions/Tests.antt =====
-- A run of the check of signatures.
use tiny_solana.Common.{◌≡◌, refl, Bool, Option, some, [], ◌∷◌, ◌==◌, ◌+◌}
use tiny_solana.Common.Result.{ok}
use tiny_solana.Types.{Bytes, Pubkey, Signature}
use tiny_solana.Transactions.{Message}
use tiny_solana.Transactions.Verify.{
  verify_signatures_sync, AreSigned, verify_signatures_sync-AreSigned,
}
use tiny_solana.Samples.{pay}

-- The signature of a key is the key and 76, whatever the bytes are.
abbrev one_byte : Message → Option Bytes
one_byte message = some (message.recent_blockhash ∷ [])

abbrev any_key : Pubkey → Option Pubkey
any_key k = some k

abbrev adds_up : Pubkey → Bytes → Signature → Bool
adds_up k bytes s = k + 76 == s

verify-pay : verify_signatures_sync one_byte any_key adds_up pay ≡ ok tt
unfolding verify_signatures_sync
verify-pay = refl

verify_signatures_sync-AreSigned_example :
    (verify_signatures_sync one_byte any_key adds_up pay ≡ ok tt
      → (bytes : Bytes) × (one_byte pay.message ≡ some bytes)
        × AreSigned one_byte any_key adds_up bytes pay.signatures pay.message.account_keys)
    × ((bytes : Bytes)
        → one_byte pay.message ≡ some bytes
        → AreSigned one_byte any_key adds_up bytes pay.signatures pay.message.account_keys
        → verify_signatures_sync one_byte any_key adds_up pay ≡ ok tt)
verify_signatures_sync-AreSigned_example =
    verify_signatures_sync-AreSigned one_byte any_key adds_up pay
