-- ===== src/Client/Tests.antt =====
-- The client's transfer through a batch of the validator, and its requests to a server.
use tiny_solana.Common.{◌≡◌, refl, none, [], ◌∷◌, arith}
use tiny_solana.Common.Result.{ok}
use tiny_solana.Common.KeyMap
use tiny_solana.Common.KeyMap.{KeyMap}
use tiny_solana.Accounts.Store.{in_memory, in_memory-IsLawful}
use tiny_solana.Transactions.Verify.{verify_signatures_sync}
use tiny_solana.Executors.{executor}
use tiny_solana.Executors.Samples.{deps}
use tiny_solana.CostModel.{new_model}
use tiny_solana.Banking.Stage.Batch.{process_batch}
use tiny_solana.Client.Paid.{after_transfer}
use tiny_solana.Client.Delivered.{process_batch-create_transfer_transaction}
use tiny_solana.Client.Requests.{send_transaction, get_balance, get_latest_blockhash}
use tiny_solana.Client.Answered.{
  send_transaction-serve, get_balance-serve, get_latest_blockhash-serve,
}
use tiny_solana.Accounts.Overlay
use tiny_solana.Bank.Processing.{
  simulate_transaction, execute_instructions, prepare_account_infos, prepare_metas,
  load_and_verify_accounts,
}
use tiny_solana.Banking.Recorder.{send}
use tiny_solana.Rpc.Handlers.{signature_or_default}
use tiny_solana.Rpc.Wire.{serve}
use tiny_solana.Rpc.Samples.{
  spell, toy_base58, toy_base58-IsInverse, toy_json, toy_json-IsJson, toy_deps, idle_program,
  server,
}
use tiny_solana.Samples.{pay, toy_digest}
use tiny_solana.Client.Samples.{
  toy_dalek, toy_dalek-IsSound, encode_transfer, decode-encode, serialize, stage, payer, paying,
  made, known, fits, keyed,
}

process_batch-create_transfer_transaction_example :
    let r =
      process_batch
        (executor deps 3)
        toy_digest
        in_memory
        (verify_signatures_sync serialize toy_dalek.verifying_from toy_dalek.verify_strict)
        new_model
        (paying ∷ [])
        stage in
    (r.0 ≡ ok (none ∷ []))
    × (KeyMap.lookup 2 r.1.accounts ≡ after_transfer in_memory stage.accounts 1 2 4 2)
process_batch-create_transfer_transaction_example =
    process_batch-create_transfer_transaction toy_dalek deps encode_transfer serialize toy_digest
      in_memory toy_dalek-IsSound decode-encode in_memory-IsLawful
      (λ k a s. (KeyMap.insert k a s, refl)) 2 new_model stage payer 2 4 0 paying 2 made known fits
      refl refl keyed (ground arith) (ground arith) (ground arith) (omega arith)

simulated :
    simulate_transaction idle_program in_memory pay server.program_cache server.accounts
    ≡ (ok tt, [])
unfolding simulate_transaction execute_instructions prepare_account_infos prepare_metas
    load_and_verify_accounts Overlay.load
simulated = refl

send_transaction-serve_example :
    send_transaction toy_json
      (serve toy_json toy_deps idle_program in_memory)
      spell
      toy_deps.serialize
      pay
      server
    ≡ (
      ok (signature_or_default toy_json toy_deps (77 ∷ [])),
      record server { program_cache = []; tx_sender = send pay server.tx_sender },
    )
send_transaction-serve_example =
    send_transaction-serve toy_json toy_json-IsJson toy_deps idle_program in_memory pay (5 ∷ []) []
      server refl refl refl simulated refl

balance_answered :
    get_balance toy_json (serve toy_json toy_deps idle_program in_memory) toy_base58 1 server
    ≡ (ok 10, server)
balance_answered =
    get_balance-serve toy_json toy_json-IsJson toy_deps idle_program in_memory toy_base58-IsInverse
      1 server (omega arith) (omega arith)

blockhash_answered :
    get_latest_blockhash toy_json (serve toy_json toy_deps idle_program in_memory) toy_base58 server
    ≡ (ok 0, server)
blockhash_answered =
    get_latest_blockhash-serve toy_json toy_json-IsJson toy_deps idle_program in_memory
      toy_base58-IsInverse (record { hash = 0; created_at_slot = 0 }) server refl (omega arith)
