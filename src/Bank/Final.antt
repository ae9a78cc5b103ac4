-- ===== src/Bank/Final.antt =====
-- The errors of `Bank::process_single_transaction`.
use mathlib.Core.Path.{subst}
use tiny_solana.Common.{
  ℕ, ◌≡◌, refl, true, false, Option, none, some, List, [], ◌∷◌, ltb, ◌&&◌, if◌then◌else◌, get_elem?,
  Bool, Bool-cases, inl, inr,
}
use tiny_solana.Common.Result.{Result, ok, err, panic, ◌>>=◌, err_if}
use tiny_solana.Common.Word.{saturating_add}
use tiny_solana.Common.KeySet
use tiny_solana.Common.KeyMap.{KeyMap}
use tiny_solana.Types.{Pubkey, Bytes}
use tiny_solana.Accounts.{Account}
use tiny_solana.Accounts.Store.{AccountStore}
use tiny_solana.Accounts.Overlay.{OverlayStore}
use tiny_solana.Transactions.{AccountMeta, Instruction, Transaction}
use tiny_solana.Transactions.Errors.{TransactionError, ProgramError, is_retryable}
use tiny_solana.Runtime.{AccountInfo, Machine, Executor}
use tiny_solana.Bank.Lifecycle.{Bank, BlockhashInfo, max_blockhash_queue_depth}
use tiny_solana.Bank.Processing.{
  find, check_age, check_preflight_rules, position, unwrap_cell, find_key, borrow_twice,
  prepare_metas, prepare_account_infos, lift, finish, run_with, execute_instructions,
  process_single_transaction,
}

-- An error, if it is one, that is not retryable.
abbrev IsFinal : {A : Type 0} → Result TransactionError A → Type 0
IsFinal (ok a) = Unit {0}
IsFinal (err e) = is_retryable e ≡ false
IsFinal panic = Unit {0}

>>=-IsFinal :
    {A B : Type 0} (r : Result TransactionError A) (f : A → Result TransactionError B)
    → IsFinal r
    → ((a : A) → IsFinal (f a))
    → IsFinal (r >>= f)
>>=-IsFinal (ok a) f first later = later a
>>=-IsFinal (err e) f first later = first
>>=-IsFinal panic f first later = tt

check_age-IsFinal : (slot : ℕ) (o : Option BlockhashInfo) → IsFinal (check_age slot o)
unfolding is_retryable
check_age-IsFinal slot none = refl
check_age-IsFinal slot (some info) =
    elim (Bool-cases (ltb (saturating_add info.created_at_slot max_blockhash_queue_depth) slot)) [
      | inl e ↦ rw e refl
      | inr e ↦ rw e tt
    ]

check_preflight_rules-IsFinal : (b : Bank) (tx : Transaction) → IsFinal (check_preflight_rules b tx)
unfolding check_preflight_rules is_retryable
check_preflight_rules-IsFinal b tx = elim (Bool-cases b.is_frozen) [
  | inl e ↦ rw e refl
  | inr e ↦ rw e (check_age-IsFinal b.slot (find tx.message.recent_blockhash b.blockhash_queue))
]

module _ (keys : List Pubkey) (cells : List Account) where
  prepare_metas-IsFinal :
      (metas : List AccountMeta) (taken : List ℕ) → IsFinal (prepare_metas keys cells metas taken)
  unfolding prepare_metas is_retryable
  prepare_metas-IsFinal [] taken = tt
  prepare_metas-IsFinal (meta ∷ metas) taken =
      >>=-IsFinal (find_key (position meta.pubkey keys)) _ (key_found (position meta.pubkey keys))
        (λ index.
          >>=-IsFinal (err_if (meta.is_writable && KeySet.contains index taken) borrow_twice) _
            (taken_once (meta.is_writable && KeySet.contains index taken))
            (λ _.
              >>=-IsFinal (unwrap_cell (get_elem? cells index)) _
                (unwrapped (get_elem? cells index))
                (λ account.
                  >>=-IsFinal
                    (prepare_metas keys cells metas
                      (if meta.is_writable then KeySet.insert index taken else taken))
                    _
                    (prepare_metas-IsFinal metas
                      (if meta.is_writable then KeySet.insert index taken else taken))
                    (λ infos. tt))))
    where
      key_found : (o : Option ℕ) → IsFinal (find_key o)
      key_found none = refl
      key_found (some i) = tt

      taken_once : (b : Bool) → IsFinal (err_if b borrow_twice)
      taken_once true = refl
      taken_once false = tt

      unwrapped : (o : Option Account) → IsFinal (unwrap_cell o)
      unwrapped none = tt
      unwrapped (some a) = tt

lift-IsFinal : (r : Result ProgramError (Unit {0})) → IsFinal (lift r)
unfolding is_retryable
lift-IsFinal (ok u) = tt
lift-IsFinal (err e) = refl
lift-IsFinal panic = tt

module _ (execute : Executor) where
  run_with-IsFinal :
      (ix : Instruction) (budget : ℕ) (m : Machine) (r : Result TransactionError (List AccountInfo))
      → IsFinal r
      → IsFinal (run_with execute ix budget m r).0
  run_with-IsFinal ix budget m (ok infos) h = lift-IsFinal _
  run_with-IsFinal ix budget m (err e) h = h
  run_with-IsFinal ix budget m panic h = tt

  execute_instructions-IsFinal :
      (keys : List Pubkey) (ixs : List Instruction) (budget : ℕ) (m : Machine)
      → IsFinal (execute_instructions execute keys ixs budget m).0
  unfolding execute_instructions prepare_account_infos
  execute_instructions-IsFinal keys [] budget m = tt
  execute_instructions-IsFinal keys (ix ∷ ixs) budget m =
      let (r, m') = run_with execute ix budget m (prepare_account_infos keys m.cells ix) in
      go r
        (run_with-IsFinal ix budget m (prepare_account_infos keys m.cells ix)
          (prepare_metas-IsFinal keys m.cells ix.accounts []))
        m' (execute_instructions-IsFinal keys ixs budget m')
    where
      go :
          (r : Result TransactionError (Unit {0}))
          → IsFinal r
          → (m' : Machine) → IsFinal (execute_instructions execute keys ixs budget m').0
          → IsFinal
              (let q : Result TransactionError (Unit {0}) × Machine = elim r [
                | ok _ ↦ execute_instructions execute keys ixs budget m'
                | err e ↦ (err e, m')
                | panic ↦ (panic, m')
              ] in
                q).0
      go (ok u) here m' later = later
      go (err e) here m' later = here
      go panic here m' later = tt

  module _ {S : Type 0} (ops : AccountStore S) where
    finish-IsFinal :
        (o : OverlayStore S) (p : Result TransactionError (Unit {0}) × Machine)
        → IsFinal p.0
        → IsFinal (finish o p).0
    finish-IsFinal o (ok u, m) h = tt
    finish-IsFinal o (err e, m) h = h
    finish-IsFinal o (panic, m) h = tt

    process_single_transaction-IsFinal :
        (b : Bank) (tx : Transaction) (budget : ℕ) (cache : KeyMap Bytes) (accounts : S)
        → IsFinal (process_single_transaction execute ops b tx budget cache accounts).0
    unfolding process_single_transaction
    process_single_transaction-IsFinal b tx budget cache accounts =
        go (check_preflight_rules b tx) refl (check_preflight_rules-IsFinal b tx)
      where
        go :
            (r : Result TransactionError (Unit {0}))
            → check_preflight_rules b tx ≡ r
            → IsFinal r
            → IsFinal (process_single_transaction execute ops b tx budget cache accounts).0
        go (ok u) e h =
            rw (process_single_transaction, e)
              (finish-IsFinal _ _ (execute_instructions-IsFinal _ _ _ _))
        go (err x) e h = rw (process_single_transaction, e) h
        go panic e h = rw (process_single_transaction, e) tt

    -- No error of a transaction that is processed is retryable.
    pub process_single_transaction-is_retryable :
        (b : Bank) (tx : Transaction) (budget : ℕ) (cache cache' : KeyMap Bytes) (accounts : S)
        (x : TransactionError)
        → process_single_transaction execute ops b tx budget cache accounts ≡ (err x, cache')
        → is_retryable x ≡ false
    process_single_transaction-is_retryable b tx budget cache cache' accounts x e =
        subst (λ (p : Result TransactionError (OverlayStore S) × KeyMap Bytes). IsFinal p.0) e
          (process_single_transaction-IsFinal b tx budget cache accounts)
