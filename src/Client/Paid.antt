-- ===== src/Client/Paid.antt =====
-- The bank runs the client's transaction: the lamports it moves.
use tiny_solana.Common.{
  if◌then◌else◌, Option, ℕ, suc, ◌≤◌, ◌≡◌, ◌≢◌, refl, ap, ◌∙◌, inl, inr, false, some, [], ◌∷◌,
  arith, ◌==◌, Option-cases,
}
use tiny_solana.Common.Result.{ok}
use tiny_solana.Common.KeyMap.{KeyMap, HasUniqueKeys}
use tiny_solana.Types.{Pubkey, Bytes}
use tiny_solana.Accounts.{Account}
use tiny_solana.Accounts.Store.{AccountStore, IsLawful}
use tiny_solana.Accounts.Overlay.{OverlayStore, write_back, write_back-load}
use tiny_solana.Accounts.Overlay
use tiny_solana.Transactions.{Transaction}
use tiny_solana.Programs.Ids.{system_program_id}
use tiny_solana.Programs.System.{transfer}
use tiny_solana.Executors.{ExecutorDeps, executor}
use tiny_solana.Bank.Lifecycle.{Bank}
use tiny_solana.Bank.Processing.{
  check_preflight_rules, or_new, load_and_verify_accounts, store_all, process_single_transaction,
  simulate_transaction,
}
use tiny_solana.Client.Executed.{transfer_instruction, less, more, execute_transfer}
use tiny_solana.Client.{transfer_message}

-- The overlay's changed accounts when the three cells have different keys.
store_all_three :
    {S : Type 0} (s : S) (a b c : Account)
    → (b.pubkey == a.pubkey) ≡ false
    → (c.pubkey == a.pubkey) ≡ false
    → (c.pubkey == b.pubkey) ≡ false
    → store_all (a ∷ b ∷ c ∷ []) (Overlay.new s)
      ≡ record { dirty = (a.pubkey, a) ∷ (b.pubkey, b) ∷ (c.pubkey, c) ∷ []; parent = s }
store_all_three s a b c h1 h2 h3 = rw h1 (rw (h2, h3) refl)

module _ {S : Type 0} (ops : AccountStore S) where
  -- The account of a key as a transaction finds it.
  abbrev pub found : S → Pubkey → Account
  found s k = or_new k (ops.load s k)

  -- The changed accounts of a transfer.
  abbrev pub transferred : S → Pubkey → Pubkey → ℕ → KeyMap Account
  transferred s from to n =
      (from, less n (found s from))
      ∷ (to, more n (found s to))
      ∷ (system_program_id, found s system_program_id)
      ∷ []

  -- The store holds every account under its own key.
  abbrev pub IsKeyed : S → Type 0
  IsKeyed s = (k : Pubkey) (a : Account) → ops.load s k ≡ some a → a.pubkey ≡ k

  found-pubkey : (s : S) → IsKeyed s → (k : Pubkey) → (found s k).pubkey ≡ k
  found-pubkey s keyed k = elim (Option-cases (ops.load s k)) [
    | inl e ↦ rw e refl
    | inr (a, e) ↦ rw e (keyed k a e)
  ]

  store_transferred :
      (s : S) (from to : Pubkey) (n : ℕ)
      → IsKeyed s
      → from ≢ to
      → from ≢ system_program_id
      → to ≢ system_program_id
      → store_all
          (less n (found s from) ∷ more n (found s to) ∷ found s system_program_id ∷ [])
          (Overlay.new s)
        ≡ record { dirty = transferred s from to n; parent = s }
  store_transferred s from to n keyed d1 d2 d3 =
      let k1 = found-pubkey s keyed from in
      let k2 = found-pubkey s keyed to in
      let k3 = found-pubkey s keyed system_program_id in
      store_all_three s (less n (found s from)) (more n (found s to)) (found s system_program_id)
        (rw (k1, k2) (ground arith)) (rw (k1, k3) (ground arith)) (rw (k2, k3) (ground arith))
      ∙ rw (k1, k2, k3) refl

  transferred-HasUniqueKeys :
      (s : S) (from to : Pubkey) (n : ℕ)
      → from ≢ to
      → from ≢ system_program_id
      → to ≢ system_program_id
      → HasUniqueKeys (transferred s from to n)
  transferred-HasUniqueKeys s from to n d1 d2 d3 = (ground arith, (ground arith, (refl, tt)))

  -- What a key holds after a transfer.
  abbrev pub after_transfer : S → Pubkey → Pubkey → ℕ → Pubkey → Option Account
  after_transfer s from to n k =
      if k == from
      then some (less n (found s from))
      else if k == to
      then some (more n (found s to))
      else if k == system_program_id
      then some (found s system_program_id)
      else ops.load s k

  pub after_transfer-to :
      (s : S) (from to : Pubkey) (n : ℕ)
      → from ≢ to
      → after_transfer s from to n to ≡ some (more n (found s to))
  after_transfer-to s from to n d = ground arith

  pub transferred-load :
      IsLawful ops
      → (s s' : S) (from to : Pubkey) (n : ℕ) (k : Pubkey) → from ≢ to
      → from ≢ system_program_id
      → to ≢ system_program_id
      → write_back ops (transferred s from to n) s ≡ some s'
      → ops.load s' k ≡ after_transfer s from to n k
  transferred-load lawful s s' from to n k d1 d2 d3 written =
      write_back-load ops lawful (transferred s from to n) s s' k
        (transferred-HasUniqueKeys s from to n d1 d2 d3) written
      ∙ ground arith

module _ {Rent Executable : Type 0} (deps : ExecutorDeps Rent Executable) {S : Type 0}
    (ops : AccountStore S) where
  pub process_transfer_message :
      (depth budget n : ℕ) (b : Bank) (s : S) (cache : KeyMap Bytes) (from to : Pubkey)
      (tx : Transaction) (payload : Bytes)
      → check_preflight_rules b tx ≡ ok tt
      → tx.message ≡ transfer_message from to tx.message.recent_blockhash payload
      → deps.decode_system payload ≡ some (transfer n)
      → IsKeyed ops s
      → from ≢ to
      → from ≢ system_program_id
      → to ≢ system_program_id
      → n ≤ (found ops s from).lamports
      → process_single_transaction (executor deps (suc depth)) ops b tx budget cache s
        ≡ (ok (record { dirty = transferred ops s from to n; parent = s }), cache)
  unfolding process_single_transaction load_and_verify_accounts Overlay.load
  process_transfer_message depth budget n b s cache from to tx payload pre m d keyed d1 d2 d3 h =
      let keys : tx.message.account_keys ≡ from ∷ to ∷ system_program_id ∷ [] =
        ap (λ x. x.account_keys) m in
      let ixs : tx.message.instructions ≡ transfer_instruction from to payload ∷ [] =
        ap (λ x. x.instructions) m in
      rw (process_single_transaction, pre, load_and_verify_accounts, keys, ixs)
        (rw
          (execute_transfer deps depth budget n from to (found ops s from) (found ops s to)
            (found ops s system_program_id) payload cache d (ground arith) h)
          (ap (λ o. (ok o, cache)) (store_transferred ops s from to n keyed d1 d2 d3)))

  pub simulate_transfer_message :
      (depth n : ℕ) (s : S) (cache : KeyMap Bytes) (from to : Pubkey) (tx : Transaction)
      (payload : Bytes)
      → tx.message ≡ transfer_message from to tx.message.recent_blockhash payload
      → deps.decode_system payload ≡ some (transfer n)
      → from ≢ to
      → n ≤ (found ops s from).lamports
      → simulate_transaction (executor deps (suc depth)) ops tx cache s ≡ (ok tt, cache)
  unfolding simulate_transaction load_and_verify_accounts Overlay.load
  simulate_transfer_message depth n s cache from to tx payload m d d1 h =
      let keys : tx.message.account_keys ≡ from ∷ to ∷ system_program_id ∷ [] =
        ap (λ x. x.account_keys) m in
      let ixs : tx.message.instructions ≡ transfer_instruction from to payload ∷ [] =
        ap (λ x. x.instructions) m in
      rw (simulate_transaction, load_and_verify_accounts, keys, ixs)
        (rw
          (execute_transfer deps depth 200_000 n from to (found ops s from) (found ops s to)
            (found ops s system_program_id) payload cache d (ground arith) h)
          refl)
