-- ===== src/Rpc/Wire.antt =====
-- The requests and responses of src/rpc/handlers.rs as JSON: the derived reading of a
-- `JsonRpcRequest`, the derived writing of a `JsonRpcResponse`, and the only route of the server.
use Prim.Native.String.{String}
use tiny_solana.Common.{Option, none, some, [], ◌∷◌}
use tiny_solana.Accounts.Store.{AccountStore}
use tiny_solana.Runtime.{Executor}
use tiny_solana.Rpc.Json.{Json, or_null}
use tiny_solana.Rpc.Handlers.{RpcDeps, RpcState, JsonRpcRequest, JsonRpcResponse}
use tiny_solana.Rpc.Server.{handle_rpc_request}

module _ {V : Type 0} (json : Json V) where
  abbrev pub text_of : Option V → Option String
  text_of none = none
  text_of (some v) = json.as_str v

  abbrev pub request_with : Option String → Option String → V → Option V → Option (JsonRpcRequest V)
  request_with (some jsonrpc) (some method) params (some id) =
      some (record { jsonrpc = jsonrpc; method = method; params = params; id = id })
  request_with _ _ params _ = none

  -- `JsonRpcRequest` from its value; absent parameters are null, any other absent field an error.
  unfoldable pub read_request : V → Option (JsonRpcRequest V)
  read_request v =
      request_with (text_of (json.field v "jsonrpc")) (text_of (json.field v "method"))
        (or_null json (json.field v "params")) (json.field v "id")

  -- `JsonRpcResponse` as its value
  abbrev pub response_value : JsonRpcResponse V → V
  response_value r =
      json.object (("jsonrpc", json.string r.jsonrpc) ∷ ("result", r.result) ∷ ("id", r.id) ∷ [])

  abbrev pub value_of : Option (JsonRpcResponse V) → Option V
  value_of none = none
  value_of (some r) = some (response_value r)

  module _ (deps : RpcDeps) (execute : Executor) {S : Type 0} (ops : AccountStore S) where
    abbrev pub answer : Option (JsonRpcRequest V) → RpcState S → Option V × RpcState S
    answer none state = (none, state)
    answer (some request) state =
        let (r, state') = handle_rpc_request json deps execute ops request state in
        (value_of r, state')

    -- A body that is posted to the server: what comes back, if it is a value, and the state after it.
    unfoldable pub serve : V → RpcState S → Option V × RpcState S
    serve body state = answer (read_request body) state
