-- ===== src/Banking/Tests.antt =====
-- Runs of the recorder and the committer.
use tiny_solana.Common.{◌≡◌, refl, true, some, List, [], ◌∷◌}
use tiny_solana.Common.Result.{panic}
use tiny_solana.Common.KeyMap.{KeyMap}
use tiny_solana.Types.{Hash}
use tiny_solana.Accounts.{Account}
use tiny_solana.Accounts.Store.{in_memory, in_memory-IsLawful}
use tiny_solana.Accounts.Overlay.{OverlayStore, write_back}
use tiny_solana.Banking.Recorder.{Channel, record_transactions, signature_bytes}
use tiny_solana.Banking.Committer.{commit_overlays, committed, commit_overlays-load}
use tiny_solana.Samples.{account, pay, toy_digest}

abbrev open_channel : Channel Hash
open_channel = record { connected = true; sent = [] }

-- A transaction without signatures is a panic of the recorder.
record_unsigned :
    (record_transactions toy_digest ((0, record pay { signatures = [] }) ∷ []) open_channel).0
    ≡ panic
unfolding record_transactions signature_bytes
record_unsigned = refl

abbrev over : KeyMap Account → OverlayStore (KeyMap Account)
over dirty = record { dirty = dirty; parent = [] }

abbrev overlays : List (OverlayStore (KeyMap Account))
overlays = over ((1, account 1 5) ∷ []) ∷ over ((2, account 2 6) ∷ (1, account 1 7) ∷ []) ∷ []

abbrev after : KeyMap Account
after = (1, account 1 7) ∷ (3, account 3 9) ∷ (2, account 2 6) ∷ []

overlays_committed :
    commit_overlays in_memory overlays ((1, account 1 1) ∷ (3, account 3 9) ∷ []) ≡ some after
unfolding commit_overlays write_back
overlays_committed = refl

commit_overlays-load_example :
    some (account 1 7) ≡ committed in_memory overlays 1 (some (account 1 1))
commit_overlays-load_example =
    commit_overlays-load in_memory overlays ((1, account 1 1) ∷ (3, account 3 9) ∷ []) after 1
      in_memory-IsLawful ((refl, tt), ((refl, (refl, tt)), tt)) overlays_committed
