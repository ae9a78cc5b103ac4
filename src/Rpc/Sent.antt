-- ===== src/Rpc/Sent.antt =====
-- What a request may change: only the queue of the banking stage, by a transaction.
use text.Mathlib.Text as Text
use tiny_solana.Common.{
  ◌≡◌, ◌≢◌, refl, ap, inl, inr, ◌⊎◌, true, false, [], ◌∷◌, ◌++◌, arith, Bool-cases,
}
use tiny_solana.Common.Result.{Result, ok, err, panic}
use tiny_solana.Common.KeyMap.{KeyMap}
use tiny_solana.Types.{Bytes}
use tiny_solana.Accounts.Store.{AccountStore}
use tiny_solana.Transactions.{Transaction}
use tiny_solana.Transactions.Errors.{TransactionError}
use tiny_solana.Runtime.{Executor}
use tiny_solana.Bank.Processing.{simulate_transaction}
use tiny_solana.Rpc.Json.{Json}
use tiny_solana.Rpc.Handlers.{
  RpcError, RpcDeps, RpcState, RpcSendTransactionConfig, JsonRpcRequest, read_transaction,
  signature_or_default,
}
use tiny_solana.Rpc.Server.{
  enqueue, check_and_enqueue, after_simulation, with_transaction, handle_send_transaction, dispatch,
}

module _ {V : Type 0} (json : Json V) (deps : RpcDeps) (execute : Executor) {S : Type 0}
    (ops : AccountStore S) where
  dispatch_idle :
      (request : JsonRpcRequest V) (state : RpcState S)
      → Text.◌==◌ request.method "sendTransaction" ≡ false
      → (dispatch json deps execute ops request state).1 ≡ state
  unfolding dispatch
  dispatch_idle request state e = ground arith

  -- A transaction was queued: it is the one that the parameters hold, it was simulated unless its
  -- config skips that, and its signature is the answer.
  abbrev pub Queued : V → RpcState S → Result RpcError V × RpcState S → Type 0
  Queued params state (r, state') =
      (config : RpcSendTransactionConfig) × (tx : Transaction) × (read_transaction json deps params
        ≡ ok (config, tx))
      × ((config.skip_preflight ≡ true)
          ⊎ ((simulate_transaction execute ops tx state.program_cache state.accounts).0 ≡ ok tt))
      × (r ≡ ok (json.string (signature_or_default json deps tx.signatures)))
      × (state'.tx_sender.sent ≡ state.tx_sender.sent ++ tx ∷ [])

  -- Nothing was queued, and the answer is no success.
  abbrev pub Refused : RpcState S → Result RpcError V × RpcState S → Type 0
  Refused state (r, state') = ((v : V) → r ≢ ok v) × (state'.tx_sender ≡ state.tx_sender)

  enqueue_lem :
      (tx : Transaction) (state : RpcState S)
      → (((enqueue json deps execute ops tx state).0
            ≡ ok (json.string (signature_or_default json deps tx.signatures)))
          × ((enqueue json deps execute ops tx state).1 ≡ record state {
            tx_sender = record state.tx_sender { sent = state.tx_sender.sent ++ tx ∷ [] };
          }))
        ⊎ (((v : V) → (enqueue json deps execute ops tx state).0 ≢ ok v)
            × ((enqueue json deps execute ops tx state).1 ≡ state))
  unfolding enqueue
  enqueue_lem tx state = elim (Bool-cases state.tx_sender.connected) [
    | inl e ↦ rw (enqueue, e) (inl (refl, refl))
    | inr e ↦ rw (enqueue, e) (inr ((λ v q. cc), refl))
  ]

  abbrev pub Outcome : V → RpcState S → Result RpcError V × RpcState S → Type 0
  Outcome params state p =
      (p.1.bank ≡ state.bank)
      × (p.1.accounts ≡ state.accounts)
      × (Queued params state p ⊎ Refused state p)

  -- The end of the handler, from a state with the same queue, bank and store.
  enqueue-Outcome :
      (params : V) (config : RpcSendTransactionConfig) (tx : Transaction) (state : RpcState S)
      (cache : KeyMap Bytes)
      → read_transaction json deps params ≡ ok (config, tx)
      → (config.skip_preflight ≡ true)
        ⊎ ((simulate_transaction execute ops tx state.program_cache state.accounts).0 ≡ ok tt)
      → Outcome params state
          (enqueue json deps execute ops tx (record state { program_cache = cache }))
  enqueue-Outcome params config tx state cache read checked =
      elim (enqueue_lem tx (record state { program_cache = cache })) [
        | inl (r, s) ↦ (
          ap (λ x. x.bank) s,
          ap (λ x. x.accounts) s,
          inl (config, tx, read, checked, r, ap (λ x. x.tx_sender.sent) s),
        )
        | inr (r, s) ↦
            (ap (λ x. x.bank) s, ap (λ x. x.accounts) s, inr (r, ap (λ x. x.tx_sender) s))
      ]

  after_simulation-Outcome :
      (params : V) (config : RpcSendTransactionConfig) (tx : Transaction) (state : RpcState S)
      (r : Result TransactionError (Unit {0})) (cache : KeyMap Bytes)
      → read_transaction json deps params ≡ ok (config, tx)
      → (simulate_transaction execute ops tx state.program_cache state.accounts).0 ≡ r
      → Outcome params state
          (after_simulation json deps execute ops tx r (record state { program_cache = cache }))
  after_simulation-Outcome params config tx state (ok u) cache read sim =
      enqueue-Outcome params config tx state cache read (inr sim)
  after_simulation-Outcome params config tx state (err e) cache read sim =
      (refl, refl, inr ((λ v q. cc), refl))
  after_simulation-Outcome params config tx state panic cache read sim =
      (refl, refl, inr ((λ v q. cc), refl))

  check_and_enqueue-Outcome :
      (params : V) (config : RpcSendTransactionConfig) (tx : Transaction) (state : RpcState S)
      → read_transaction json deps params ≡ ok (config, tx)
      → Outcome params state (check_and_enqueue json deps execute ops config tx state)
  unfolding check_and_enqueue
  check_and_enqueue-Outcome params config tx state read = elim (Bool-cases config.skip_preflight) [
    | inl skip ↦
        rw (check_and_enqueue, skip)
          (enqueue-Outcome params config tx state state.program_cache read (inl skip))
    | inr check ↦
        let p = simulate_transaction execute ops tx state.program_cache state.accounts in
        rw (check_and_enqueue, check)
          (after_simulation-Outcome params config tx state p.0 p.1 read refl)
  ]

  with_transaction-Outcome :
      (params : V) (r : Result RpcError (RpcSendTransactionConfig × Transaction))
      (state : RpcState S)
      → read_transaction json deps params ≡ r
      → Outcome params state (with_transaction json deps execute ops r state)
  with_transaction-Outcome params (ok (config, tx)) state read =
      check_and_enqueue-Outcome params config tx state read
  with_transaction-Outcome params (err e) state read = (refl, refl, inr ((λ v q. cc), refl))
  with_transaction-Outcome params panic state read = (refl, refl, inr ((λ v q. cc), refl))

  -- Every request leaves the bank and the store as they were. Only `sendTransaction` changes anything
  -- else, and then one of two things holds: one transaction was added at the end of the queue, which
  -- is the one that the parameters hold, which passed the simulation or whose config skips it, and
  -- whose signature is the answer; or nothing was queued and the answer is an error or none.
  pub dispatch-Outcome :
      (request : JsonRpcRequest V) (state : RpcState S)
      → ((Text.◌==◌ request.method "sendTransaction" ≡ true)
          × Outcome request.params state (dispatch json deps execute ops request state))
        ⊎ ((dispatch json deps execute ops request state).1 ≡ state)
  unfolding dispatch handle_send_transaction
  dispatch-Outcome request state = elim (Bool-cases (Text.◌==◌ request.method "sendTransaction")) [
    | inl e ↦ inl (e, rw (dispatch, e) (with_transaction-Outcome request.params _ state refl))
    | inr e ↦ inr (dispatch_idle request state e)
  ]
