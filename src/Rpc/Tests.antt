-- ===== src/Rpc/Tests.antt =====
-- Requests to a server.
use text.Mathlib.Text as Text
use tiny_solana.Common.{◌≡◌, ◌⊎◌, true, [], ◌∷◌}
use tiny_solana.Accounts.Store.{in_memory}
use tiny_solana.Rpc.Handlers.{JsonRpcRequest}
use tiny_solana.Rpc.Server.{dispatch}
use tiny_solana.Rpc.Sent.{Outcome, dispatch-Outcome}
use tiny_solana.Rpc.Samples.{
  Value, string, number, array_of, toy_json, toy_deps, idle_program, server,
}

abbrev sending : JsonRpcRequest Value
sending = record {
  jsonrpc = "2.0";
  method = "sendTransaction";
  params = array_of (string "aaaaab" ∷ []);
  id = number 1;
}

dispatch-Outcome_example :
    ((Text.◌==◌ sending.method "sendTransaction" ≡ true)
      × Outcome toy_json toy_deps idle_program in_memory sending.params server
          (dispatch toy_json toy_deps idle_program in_memory sending server))
    ⊎ ((dispatch toy_json toy_deps idle_program in_memory sending server).1 ≡ server)
dispatch-Outcome_example = dispatch-Outcome toy_json toy_deps idle_program in_memory sending server
