-- ===== src/Accounts/Tests.antt =====
-- Runs of the account stores.
use mathlib.Core.List.Perm
use tiny_solana.Common.{◌≡◌, refl, Option, some, [], ◌∷◌}
use tiny_solana.Common.KeyMap.{KeyMap}
use tiny_solana.Types.{Bytes}
use tiny_solana.Accounts.Merkle.{hash_accounts, hash_accounts-perm}
use tiny_solana.Accounts.{Account}
use tiny_solana.Accounts.Store.{in_memory}
use tiny_solana.Accounts.Overlay
use tiny_solana.Accounts.Overlay.{
  OverlayStore, overlay-IsLawful, flush-load, flush-in_memory, overlay,
}
use tiny_solana.Samples.{account, toy_digest}

-- Account 2 was changed over a store that holds accounts 1 and 2.
abbrev changed : OverlayStore (KeyMap Account)
changed = record {
  dirty = (2, account 2 60) ∷ [];
  parent = (1, account 1 10) ∷ (2, account 2 20) ∷ [];
}

abbrev flushed : OverlayStore (KeyMap Account)
flushed = record { dirty = []; parent = (1, account 1 10) ∷ (2, account 2 60) ∷ [] }

flush_writes : Overlay.flush in_memory changed ≡ some flushed
unfolding Overlay.flush Overlay.write_back
flush_writes = refl

-- The bytes of an account are its key and its lamports.
abbrev key_and_lamports : Account → Option Bytes
key_and_lamports a = some (a.pubkey ∷ a.lamports ∷ [])

hash_accounts-perm_example :
    hash_accounts toy_digest key_and_lamports (account 1 10 ∷ account 2 20 ∷ account 3 30 ∷ [])
    ≡ hash_accounts toy_digest key_and_lamports (account 2 20 ∷ account 1 10 ∷ account 3 30 ∷ [])
hash_accounts-perm_example =
    hash_accounts-perm toy_digest key_and_lamports (account 1 10 ∷ account 2 20 ∷ account 3 30 ∷ [])
      (account 2 20 ∷ account 1 10 ∷ account 3 30 ∷ []) (Perm.swap _ _ _)
