-- ===== src/Banking/Committer.antt =====
-- src/committer.rs: the overlays of a group are flushed to the store under them.
use tiny_solana.Common.{◌≡◌, inl, inr, Option, none, some, List, [], ◌∷◌, arith, Option-cases}
use tiny_solana.Common.KeyMap
use tiny_solana.Common.KeyMap.{KeyMap, HasUniqueKeys}
use tiny_solana.Types.{Pubkey}
use tiny_solana.Accounts.{Account}
use tiny_solana.Accounts.Store.{AccountStore, IsLawful}
use tiny_solana.Accounts.Overlay.{OverlayStore, write_back, write_partly, write_back-load}

module _ {S : Type 0} (ops : AccountStore S) where
  -- `Committer::commit_overlays`. The overlays share one parent; `none` is the panic of a flush.
  unfoldable pub commit_overlays : List (OverlayStore S) → S → Option S
  commit_overlays [] s = some s
  commit_overlays (o ∷ overlays) s = elim (write_back ops o.dirty s) [
    | none ↦ none
    | some t ↦ commit_overlays overlays t
  ]

  -- The store that it leaves, also where a flush panics.
  unfoldable pub commit_partly : List (OverlayStore S) → S → S
  commit_partly [] s = s
  commit_partly (o ∷ overlays) s = elim (write_back ops o.dirty s) [
    | none ↦ write_partly ops o.dirty s
    | some t ↦ commit_partly overlays t
  ]

  -- What a key reads when the overlays were written one after another.
  abbrev pub committed : List (OverlayStore S) → Pubkey → Option Account → Option Account
  committed [] k old = old
  committed (o ∷ overlays) k old =
      committed overlays k (elim (KeyMap.lookup k o.dirty) [ none ↦ old | some a ↦ some a ])

  abbrev pub AllHaveUniqueKeys : List (OverlayStore S) → Type 0
  AllHaveUniqueKeys [] = Unit
  AllHaveUniqueKeys (o ∷ overlays) = HasUniqueKeys o.dirty × AllHaveUniqueKeys overlays

  -- If the overlays are committed over a lawful store without a panic, a key reads the account of the
  -- last overlay that changed it, and as before where none did. No overlay lists a key twice.
  pub commit_overlays-load :
      (overlays : List (OverlayStore S)) (s t : S) (k : Pubkey)
      → IsLawful ops
      → AllHaveUniqueKeys overlays
      → commit_overlays overlays s ≡ some t
      → ops.load t k ≡ committed overlays k (ops.load s k)
  unfolding commit_overlays
  commit_overlays-load [] s t k lawful h e = ground arith
  commit_overlays-load (o ∷ overlays) s t k lawful h e =
      elim (Option-cases (write_back ops o.dirty s)) [
        | inl failed ↦ absurd (ground arith)
        | inr (u, done) ↦
            let first = write_back-load ops lawful o.dirty s u k h.0 done in
            let rest = commit_overlays-load overlays u t k lawful h.1 (ground arith) in
            elim (Option-cases (KeyMap.lookup k o.dirty)) [
              | inl absent ↦ ground arith
              | inr (a, found) ↦ ground arith
            ]
      ]
