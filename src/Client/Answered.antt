-- ===== src/Client/Answered.antt =====
-- The client's requests, answered by the server.
use Prim.Native.String.{String}
use tiny_solana.Common.{◌<◌, ◌^◌, ◌≡◌, refl, ap, ◌∙◌, true, false, Option, none, some, [], ◌∷◌}
use tiny_solana.Common.Result.{Result, ok, err, ◌>>=◌}
use tiny_solana.Common.Word.{u64_mod}
use tiny_solana.Common.KeyMap.{KeyMap}
use tiny_solana.Common.Digits.{be_bytes, length-be_bytes, be_value-be_bytes}
use tiny_solana.Types.{Pubkey, Bytes}
use tiny_solana.Types.Text.{IsInverse, to_string, from_str-to_string}
use tiny_solana.Accounts.Store.{AccountStore}
use tiny_solana.Transactions.{Transaction}
use tiny_solana.Runtime.{Executor}
use tiny_solana.Bank.Lifecycle.{BlockhashInfo}
use tiny_solana.Bank.Processing.{simulate_transaction}
use tiny_solana.Banking.Recorder.{send}
use tiny_solana.Rpc.Json.{Json, IsJson}
use tiny_solana.Rpc.Handlers.{
  RpcDeps, RpcState, JsonRpcRequest, back, read_transaction, read_pubkey, signature_or_default,
  lamports_or_zero, blockhash_value, handle_get_balance, handle_get_latest_blockhash,
}
use tiny_solana.Rpc.Server.{
  with_transaction, after_simulation, enqueue, check_and_enqueue, handle_send_transaction, query,
  dispatch, handle_rpc_request, respond,
}
use tiny_solana.Rpc.Wire.{answer, value_of, read_request, serve, response_value}
use tiny_solana.Client.Requests.{
  ask, body, with_param, read_balance, read_blockhash, read_signature, number_or, text_or,
  send_bytes, result_of, request_failed, get_latest_blockhash, get_balance, send_transaction,
  ClientError,
}

module _ {V : Type 0} (json : Json V) (lawful : IsJson json) where
  read_request-body :
      (method : String) (params : V)
      → read_request json (body json method (("params", params) ∷ []))
        ≡ some (record { jsonrpc = "2.0"; method = method; params = params; id = json.number 1 })
  unfolding read_request
  read_request-body method params = simp (read_request, lawful.field-object, lawful.as_str-string)

  read_request-bare :
      (method : String)
      → read_request json (body json method [])
        ≡ some (record { jsonrpc = "2.0"; method = method; params = json.null; id = json.number 1 })
  unfolding read_request
  read_request-bare method = simp (read_request, lawful.field-object, lawful.as_str-string)

  result_of-response :
      (v id : V)
      → result_of json (response_value json (record { jsonrpc = "2.0"; result = v; id = id })) ≡ v
  result_of-response v id = rw lawful.field-object refl

module _ {V : Type 0} (json : Json V) (lawful : IsJson json) (deps : RpcDeps) (execute : Executor)
    {S : Type 0} (ops : AccountStore S) where
  abbrev requested : String → V → JsonRpcRequest V
  requested method params = record {
    jsonrpc = "2.0";
    method = method;
    params = params;
    id = json.number 1;
  }

  abbrev responded : V → V
  responded v = response_value json (record { jsonrpc = "2.0"; result = v; id = json.number 1 })

  -- What the server answers to a body that is read as a request.
  serve_ok :
      (request_body v : V) (method : String) (params : V) (state state' : RpcState S)
      → read_request json request_body ≡ some (requested method params)
      → dispatch json deps execute ops (requested method params) state ≡ (ok v, state')
      → serve json deps execute ops request_body state ≡ (some (responded v), state')
  unfolding serve handle_rpc_request
  serve_ok request_body v method params state state' e run =
      ap (λ o. answer json deps execute ops o state) e
      ∙ ap (λ p. (value_of json (respond json deps execute ops (json.number 1) p.0), p.1)) run

  -- What the client reads in it.
  ask_ok :
      {A : Type 0} (request_body v : V) (read : V → Result ClientError A) (method : String)
      (params : V) (state state' : RpcState S)
      → read_request json request_body ≡ some (requested method params)
      → dispatch json deps execute ops (requested method params) state ≡ (ok v, state')
      → ask json (serve json deps execute ops) request_body read state ≡ (read v, state')
  ask_ok {A} request_body v read method params state state' e run =
      ap
        (λ (p : Option V × RpcState S). (
          elim p.0 as (λ _. Result ClientError A) [
            | none ↦ err request_failed
            | some x ↦ read (result_of json x)
          ],
          p.1,
        ))
        (serve_ok request_body v method params state state' e run)
      ∙ ap (λ x. (read x, state')) (result_of-response json lawful v (json.number 1))

  read_pubkey_ok :
      IsInverse deps.base58
      → (k : Pubkey) → k < 256 ^ 32
      → read_pubkey json deps (json.array (json.string (to_string deps.base58 k) ∷ [])) ≡ ok k
  unfolding read_pubkey
  read_pubkey_ok inverse k h =
      rw
        (
          read_pubkey,
          lawful.index-array,
          lawful.as_str-string,
          from_str-to_string deps.base58 inverse k h,
        )
        refl

  -- The server answers the client's `getBalance` with the lamports that the store holds for the key,
  -- or zero, and stays as it was. The key has 32 bytes and the lamports are those of a `u64`; JSON
  -- and base58 read back what was written.
  pub get_balance-serve :
      IsInverse deps.base58
      → (k : Pubkey) (state : RpcState S) → k < 256 ^ 32
      → lamports_or_zero json deps (ops.load state.accounts k) < u64_mod
      → get_balance json (serve json deps execute ops) deps.base58 k state
        ≡ (ok (lamports_or_zero json deps (ops.load state.accounts k)), state)
  unfolding get_balance dispatch query handle_get_balance
  get_balance-serve inverse k state h1 h2 =
      let params = json.array (json.string (to_string deps.base58 k) ∷ []) in
      let n = lamports_or_zero json deps (ops.load state.accounts k) in
      let run : dispatch json deps execute ops (requested "getBalance" params) state
          ≡ (ok (json.number n), state) =
        ap
          (λ r. (
            r >>= (λ j. ok (json.number (lamports_or_zero json deps (ops.load state.accounts j)))),
            state,
          ))
          (read_pubkey_ok inverse k h1) in
      ask_ok (with_param json "getBalance" (json.string (to_string deps.base58 k))) (json.number n)
        (read_balance json) "getBalance" params state state
        (read_request-body json lawful "getBalance" params) run
      ∙ ap (λ o. (number_or json "failed to parse balance from rpc response" o, state))
          (lawful.as_u64-number n h2)

  read_blockhash_ok :
      IsInverse deps.base58
      → (info : BlockhashInfo) → info.hash < 256 ^ 32
      → read_blockhash json deps.base58 (blockhash_value json deps (some info)) ≡ ok info.hash
  unfolding to_string
  read_blockhash_ok inverse info h =
      let decode : deps.base58.decode (to_string deps.base58 info.hash)
          ≡ some (be_bytes 32 info.hash) =
        inverse.decode-encode (be_bytes 32 info.hash) in
      rw (lawful.field-object, lawful.as_str-string, decode, length-be_bytes 32 info.hash)
        (ap ok (be_value-be_bytes 32 info.hash h))

  -- The server answers the client's `getLatestBlockhash` with the last hash of the bank's queue, and
  -- stays as it was.
  pub get_latest_blockhash-serve :
      IsInverse deps.base58
      → (info : BlockhashInfo) (state : RpcState S) → back state.bank.blockhash_queue ≡ some info
      → info.hash < 256 ^ 32
      → get_latest_blockhash json (serve json deps execute ops) deps.base58 state
        ≡ (ok info.hash, state)
  unfolding get_latest_blockhash dispatch query handle_get_latest_blockhash
  get_latest_blockhash-serve inverse info state last h =
      let v = blockhash_value json deps (some info) in
      ask_ok (body json "getLatestBlockhash" []) v (read_blockhash json deps.base58)
        "getLatestBlockhash" json.null state state
        (read_request-bare json lawful "getLatestBlockhash")
        (ap (λ o. (ok (blockhash_value json deps o), state)) last)
      ∙ ap (λ r. (r, state)) (read_blockhash_ok inverse info h)

  read_transaction_ok :
      (tx : Transaction) (b : Bytes)
      → deps.base64_decode (deps.base64_encode b) ≡ ok b
      → deps.deserialize b ≡ ok tx
      → read_transaction json deps (json.array (json.string (deps.base64_encode b) ∷ []))
        ≡ ok (record { skip_preflight = false }, tx)
  unfolding read_transaction
  read_transaction_ok tx b e1 e2 =
      rw (read_transaction, lawful.read_array-array, lawful.read_string-string, e1, e2) refl

  -- A transaction that the client sends, and that passes the server's simulation, arrives at the end
  -- of the queue of the banking stage as it was sent, and the client is told its first signature. The
  -- queue is connected, JSON reads back what was written, and so do base64 and bincode at this
  -- transaction.
  pub send_transaction-serve :
      (tx : Transaction) (b : Bytes) (cache : KeyMap Bytes) (state : RpcState S)
      → deps.serialize tx ≡ some b
      → deps.deserialize b ≡ ok tx
      → deps.base64_decode (deps.base64_encode b) ≡ ok b
      → simulate_transaction execute ops tx state.program_cache state.accounts ≡ (ok tt, cache)
      → state.tx_sender.connected ≡ true
      → send_transaction json
          (serve json deps execute ops)
          deps.base64_encode
          deps.serialize
          tx
          state
        ≡ (
          ok (signature_or_default json deps tx.signatures),
          record state { program_cache = cache; tx_sender = send tx state.tx_sender },
        )
  unfolding send_transaction dispatch handle_send_transaction check_and_enqueue enqueue
  send_transaction-serve tx b cache state e1 e2 e3 sim connected =
      let params = json.array (json.string (deps.base64_encode b) ∷ []) in
      let state' : RpcState S = record state {
        program_cache = cache;
        tx_sender = send tx state.tx_sender;
      } in
      let text = signature_or_default json deps tx.signatures in
      let run : dispatch json deps execute ops (requested "sendTransaction" params) state
          ≡ (ok (json.string text), state') =
        ap (λ r. with_transaction json deps execute ops r state) (read_transaction_ok tx b e3 e2)
        ∙ ap
            (λ p.
              after_simulation json deps execute ops tx p.0 (record state { program_cache = p.1 }))
            sim
        ∙ rw (enqueue, connected) refl in
      ap (λ o. send_bytes json (serve json deps execute ops) deps.base64_encode o state) e1
      ∙ ask_ok (with_param json "sendTransaction" (json.string (deps.base64_encode b)))
          (json.string text) (read_signature json) "sendTransaction" params state state'
          (read_request-body json lawful "sendTransaction" params) run
      ∙ ap (λ o. (text_or json "failed to parse signature from rpc response" o, state'))
          (lawful.as_str-string text)
