-- ===== src/Validator/Tests.antt =====
-- The loop from its start, and a transfer.
use tiny_solana.Common.{false, take, drop, ◌≡◌, refl, true, [], ◌∷◌, arith}
use tiny_solana.Common.Result.{Result, ok}
use tiny_solana.Common.KeyMap
use tiny_solana.Common.KeyMap.{KeyMap}
use tiny_solana.Accounts.Store.{in_memory, in_memory-IsLawful}
use tiny_solana.Transactions.{Transaction}
use tiny_solana.Transactions.Verify.{verify_signatures_sync}
use tiny_solana.Executors.{executor}
use tiny_solana.Executors.Samples.{deps}
use tiny_solana.AccountLocks.{new}
use tiny_solana.CostModel.{new_model}
use tiny_solana.Client.Requests.{send_transaction, get_balance}
use tiny_solana.Rpc.Wire.{serve}
use tiny_solana.Rpc.Samples.{
  toy_base58-IsInverse, toy_json, toy_json-IsJson, toy_deps, idle_program,
}
use tiny_solana.Samples.{account, pay, toy_digest}
use tiny_solana.Client.Samples.{
  toy_dalek, toy_dalek-IsSound, encode_transfer, decode-encode, serialize, stage, payer, paying,
  made, known, fits, keyed,
}
use tiny_solana.AccountLocks as AccountLocks
use tiny_solana.AccountLocks.Release.{SameLocks}
use tiny_solana.Common.Word.{saturating_add}
use tiny_solana.Client.Paid.{found}
use tiny_solana.Rpc.Handlers.{RpcDeps}
use tiny_solana.Transactions.Errors.{TransactionError}
use tiny_solana.Validator.{running, new_stage, turn, receive, batch_size_limit}
use tiny_solana.Validator.Batches.{receive-take}
use tiny_solana.Validator.Loop.{run, arrives, takes_turn, run-new_stage}
use tiny_solana.Validator.Journey.{rpc_of, with_rpc, send_transaction-get_balance}

abbrev unchecked : Transaction → Result TransactionError (Unit {0})
unchecked tx = ok tt

run-new_stage_example :
    let st =
      (run idle_program toy_digest in_memory unchecked new_model
        (arrives pay ∷ takes_turn false ∷ takes_turn true ∷ [])
        (running, new_stage ((1, account 1 10) ∷ []))).1 in
    SameLocks st.locks AccountLocks.new × (st.bank.freeze_lock_count ≡ 0)
run-new_stage_example =
    run-new_stage idle_program toy_digest in_memory unchecked new_model ((1, account 1 10) ∷ [])
      (arrives pay ∷ takes_turn false ∷ takes_turn true ∷ [])

receive-take_example :
    receive [] (pay ∷ paying ∷ [])
    ≡ (take batch_size_limit (pay ∷ paying ∷ []), drop batch_size_limit (pay ∷ paying ∷ []))
receive-take_example = receive-take (pay ∷ paying ∷ [])

abbrev rpc : RpcDeps
rpc = record toy_deps { deserialize = λ b. ok paying }

send_transaction-get_balance_example :
    let execute = executor deps 3 in
    let (sent, r) =
      send_transaction toy_json
        (serve toy_json rpc execute in_memory)
        rpc.base64_encode
        rpc.serialize
        paying
        (rpc_of stage) in
    let (status, st') =
      turn execute toy_digest in_memory
        (verify_signatures_sync serialize toy_dalek.verifying_from toy_dalek.verify_strict)
        new_model
        false
        (with_rpc r stage) in
    let (balance, _) =
      get_balance toy_json (serve toy_json rpc execute in_memory) rpc.base58 2 (rpc_of st') in
    (status ≡ running)
    × (balance ≡ ok (saturating_add (found in_memory stage.accounts 2).lamports 4))
send_transaction-get_balance_example =
    send_transaction-get_balance toy_dalek deps encode_transfer serialize toy_digest in_memory
      toy_json rpc toy_dalek-IsSound decode-encode in_memory-IsLawful
      (λ k a s. (KeyMap.insert k a s, refl)) toy_json-IsJson toy_base58-IsInverse 2 new_model stage
      payer 2 4 0 paying (5 ∷ []) made refl refl refl known fits refl refl refl keyed (ground arith)
      (ground arith) (ground arith) (omega arith) (omega arith)
