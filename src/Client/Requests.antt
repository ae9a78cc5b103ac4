-- ===== src/Client/Requests.antt =====
-- src/bin/client.rs: the requests to the server. `post` is what the HTTP client does with a body,
-- over the state `W` of the server; `none` is any failure to get a value back.
use Prim.Native.String.{String}
use tiny_solana.Common.{ℕ, Option, none, some, List, [], ◌∷◌, length, ◌==◌, if◌then◌else◌}
use tiny_solana.Common.Result.{Result, ok, err, panic}
use tiny_solana.Common.Digits.{be_value}
use tiny_solana.Types.{Pubkey, Hash, Bytes}
use tiny_solana.Types.Text.{Base58, to_string}
use tiny_solana.Transactions.{Transaction}
use tiny_solana.Rpc.Json.{Json, or_null}

pub data ClientError : Type 0 where
  request_failed : ClientError
  context : String → ClientError

module _ {V : Type 0} (json : Json V) where
  -- `json!({ "jsonrpc": "2.0", "id": 1, "method": …, … })`
  abbrev pub body : String → List (String × V) → V
  body method params = json.object (
      ("jsonrpc", json.string "2.0")
      ∷ ("id", json.number 1)
      ∷ ("method", json.string method)
      ∷ params)

  -- `response["result"]`
  abbrev pub result_of : V → V
  result_of response = or_null json (json.field response "result")

  abbrev pub text_or : String → Option String → Result ClientError String
  text_or what none = err (context what)
  text_or what (some s) = ok s

  abbrev pub number_or : String → Option ℕ → Result ClientError ℕ
  number_or what none = err (context what)
  number_or what (some n) = ok n

  -- `copy_from_slice` into 32 bytes, which panics on another length
  abbrev pub hash_of : Option Bytes → Result ClientError Hash
  hash_of none = err (context "invalid base58 blockhash")
  hash_of (some b) = if length b == 32 then ok (be_value b) else panic

  abbrev pub decoded : Base58 → Result ClientError String → Result ClientError Hash
  decoded base58 (ok s) = hash_of (base58.decode s)
  decoded base58 (err e) = err e
  decoded base58 panic = panic

  abbrev pub read_blockhash : Base58 → V → Result ClientError Hash
  read_blockhash base58 result = decoded base58 (
      text_or "failed to parse blockhash from rpc response"
        (json.as_str (or_null json (json.field result "blockhash"))))

  abbrev pub read_balance : V → Result ClientError ℕ
  read_balance result = number_or "failed to parse balance from rpc response" (json.as_u64 result)

  abbrev pub read_signature : V → Result ClientError String
  read_signature result = text_or "failed to parse signature from rpc response" (json.as_str result)

  -- `"params": [param]`
  abbrev pub with_param : String → V → V
  with_param method param = body method (("params", json.array (param ∷ [])) ∷ [])

  module _ {W : Type 0} (post : V → W → Option V × W) where
    -- The answer to a request, read by `read`.
    abbrev pub ask : {A : Type 0} → V → (V → Result ClientError A) → W → Result ClientError A × W
    ask request read w =
        let (response, w') = post request w in
        (elim response [ none ↦ err request_failed | some v ↦ read (result_of v) ], w')

    -- `get_latest_blockhash`
    unfoldable pub get_latest_blockhash : Base58 → W → Result ClientError Hash × W
    get_latest_blockhash base58 = ask (body "getLatestBlockhash" []) (read_blockhash base58)

    -- `get_balance`
    unfoldable pub get_balance : Base58 → Pubkey → W → Result ClientError ℕ × W
    get_balance base58 k =
        ask (with_param "getBalance" (json.string (to_string base58 k))) read_balance

    abbrev pub send_bytes : (Bytes → String) → Option Bytes → W → Result ClientError String × W
    send_bytes base64_encode none w = (err (context "failed to serialize transaction"), w)
    send_bytes base64_encode (some bytes) w =
        ask (with_param "sendTransaction" (json.string (base64_encode bytes))) read_signature w

    -- `send_transaction`, with the encodings of base64 and bincode
    unfoldable pub send_transaction :
        (Bytes → String)
        → (Transaction → Option Bytes)
        → Transaction
        → W
        → Result ClientError String × W
    send_transaction base64_encode serialize tx = send_bytes base64_encode (serialize tx)
