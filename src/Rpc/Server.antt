-- ===== src/Rpc/Server.antt =====
-- src/rpc/handlers.rs: `sendTransaction`, which changes the state, and the dispatch on the method.
use Prim.Native.String.{String, ◌++◌}
use text.Mathlib.Text as Text
use tiny_solana.Common.{Bool, Option, none, some, [], ◌∷◌, if◌then◌else◌}
use tiny_solana.Common.Result.{Result, ok, err, panic}
use tiny_solana.Types.Text.{to_string}
use tiny_solana.Accounts.Store.{AccountStore}
use tiny_solana.Transactions.{Transaction}
use tiny_solana.Transactions.Errors.{TransactionError, error_text}
use tiny_solana.Runtime.{Executor}
use tiny_solana.Bank.Processing.{simulate_transaction}
use tiny_solana.Banking.Recorder.{send}
use tiny_solana.Rpc.Json.{Json}
use tiny_solana.Rpc.Handlers.{
  RpcError, internal_error, send_transaction_preflight_failure, rpc_error_text, RpcDeps, RpcState,
  RpcSendTransactionConfig, JsonRpcRequest, JsonRpcResponse, read_transaction, signature_or_default,
  handle_get_balance, handle_get_account_info, handle_get_latest_blockhash,
}

module _ {V : Type 0} (json : Json V) (deps : RpcDeps) (execute : Executor) {S : Type 0}
    (ops : AccountStore S) where
  -- The end of `handle_send_transaction`: the transaction is queued.
  unfoldable pub enqueue : Transaction → RpcState S → Result RpcError V × RpcState S
  enqueue tx state =
      if state.tx_sender.connected
      then (
        ok (json.string (signature_or_default json deps tx.signatures)),
        record state { tx_sender = send tx state.tx_sender },
      )
      else (
        err (internal_error ("failed to send to banking stage: " ++ deps.send_error_text)),
        state,
      )

  abbrev pub after_simulation :
      Transaction → Result TransactionError (Unit {0}) → RpcState S → Result RpcError V × RpcState S
  after_simulation tx (ok _) state = enqueue tx state
  after_simulation tx (err e) state = (
    err (
        send_transaction_preflight_failure
          (error_text deps.account_error_text deps.program_error_text e)),
    state,
  )
  after_simulation tx panic state = (panic, state)

  -- The preflight check, unless the config skips it.
  unfoldable pub check_and_enqueue :
      RpcSendTransactionConfig → Transaction → RpcState S → Result RpcError V × RpcState S
  check_and_enqueue config tx state =
      if config.skip_preflight
      then enqueue tx state
      else (let (r, cache) =
            simulate_transaction execute ops tx state.program_cache state.accounts in
          after_simulation tx r (record state { program_cache = cache }))

  abbrev pub with_transaction :
      Result RpcError (RpcSendTransactionConfig × Transaction)
      → RpcState S
      → Result RpcError V × RpcState S
  with_transaction (ok (config, tx)) state = check_and_enqueue config tx state
  with_transaction (err e) state = (err e, state)
  with_transaction panic state = (panic, state)

  unfoldable pub handle_send_transaction : V → RpcState S → Result RpcError V × RpcState S
  handle_send_transaction params state = with_transaction (read_transaction json deps params) state

  -- What `getIdentity` answers: the text of `Pubkey::default()`.
  abbrev pub identity : V
  identity = json.string (to_string deps.base58 0)

  -- The methods that only read the state, in the order of the `match`.
  unfoldable pub query : JsonRpcRequest V → RpcState S → Result RpcError V
  query request state =
      let is : String → Bool = λ name. Text.◌==◌ request.method name in
      if is "getSignatureStatuses"
      then ok (json.array [])
      else if is "getBalance"
      then handle_get_balance json deps ops state request.params
      else if is "getAccountInfo"
      then handle_get_account_info json deps ops state request.params
      else if is "getMultipleAccounts"
      then ok (json.array [])
      else if is "getLatestBlockhash"
      then handle_get_latest_blockhash json deps ops state
      else if is "getSlot"
      then ok (json.number state.bank.slot)
      else if is "getBlockHeight"
      then ok (json.number state.bank.slot)
      else if is "getHealth"
      then ok (json.string "ok")
      else if is "getVersion"
      then ok (json.object (("tiny-solana-version", json.string "0.1.0") ∷ []))
      else if is "getIdentity"
      then ok identity
      else if is "getMinimumBalanceForRentExemption"
      then ok (json.number 2_039_280)
      else if is "getEpochInfo"
      then ok (json.object (("epoch", json.number 0) ∷ []))
      else ok (
          json.object
            (("error", json.string ("method '" ++ (request.method ++ "' not found"))) ∷ []))

  -- The `match` on the method
  unfoldable pub dispatch : JsonRpcRequest V → RpcState S → Result RpcError V × RpcState S
  dispatch request state =
      if Text.◌==◌ request.method "sendTransaction"
      then handle_send_transaction request.params state
      else (query request state, state)

  -- `result.unwrap_or_else(…)`
  abbrev pub response_result : RpcError → V
  response_result e = json.object (
      (
        "error",
        json.object
            (("code", json.negative 32602) ∷ ("message", json.string (rpc_error_text e)) ∷ []),
      )
      ∷ [])

  -- The answer to a request; `none` is a panic of the handler.
  abbrev pub respond : V → Result RpcError V → Option (JsonRpcResponse V)
  respond id (ok v) = some (record { jsonrpc = "2.0"; result = v; id = id })
  respond id (err e) = some (record { jsonrpc = "2.0"; result = response_result e; id = id })
  respond id panic = none

  -- `handle_rpc_request`
  unfoldable pub handle_rpc_request :
      JsonRpcRequest V → RpcState S → Option (JsonRpcResponse V) × RpcState S
  handle_rpc_request request state =
      let (r, state') = dispatch request state in (respond request.id r, state')
