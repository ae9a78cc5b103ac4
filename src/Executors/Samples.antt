-- ===== src/Executors/Samples.antt =====
-- Decoders, codecs and a VM for tests.
use tiny_solana.Common.{true, Option, none, some, [], ◌∷◌}
use tiny_solana.Common.Result.{ok}
use tiny_solana.Types.{Bytes}
use tiny_solana.Codec.{Codec}
use tiny_solana.Runtime.{pure}
use tiny_solana.Programs.System.{SystemInstruction, transfer}
use tiny_solana.Programs.Token
use tiny_solana.Programs.Token.{TokenDeps}
use tiny_solana.Programs.Loader.{LoaderDeps}
use tiny_solana.Executors.{ExecutorDeps, returned}

-- One byte of instruction data is a transfer, and no state is packed.
abbrev pub decode_transfer : Bytes → Option SystemInstruction
decode_transfer [] = none
decode_transfer (n ∷ _) = some (transfer n)

abbrev pub no_codec : {A : Type 0} → Codec A
no_codec = record { encode = λ a. none; decode = λ b. none }

abbrev pub token_deps : TokenDeps Bytes
token_deps = record {
  decode_instruction = λ b. some (Token.set_authority 9);
  mints = no_codec;
  token_accounts = no_codec;
  decode_rent = λ b. some b;
  is_exempt = λ rent balance size. true;
  encode_system = λ i. some (1 ∷ 9 ∷ []);
}

abbrev pub loader_deps : LoaderDeps Bytes
loader_deps = record {
  decode_instruction = λ b. none;
  decode_state = λ b. none;
  serialized_size = λ s. some 2;
  serialize_into = λ n s. none;
  decode_rent = λ b. some b;
  minimum_balance = λ rent n. 0;
  decode_clock_slot = λ b. none;
  encode_system = λ i. none;
}

-- A VM that leaves the memory alone and returns zero after three instructions.
abbrev pub deps : ExecutorDeps Bytes Bytes
deps = record {
  decode_system = decode_transfer;
  token = token_deps;
  loader = loader_deps;
  from_elf = λ b. ok b;
  verify = λ b. ok tt;
  map_memory = λ b. ok tt;
  execute_program = λ b input ctx.
      pure (record { instruction_count = 3; program_result = returned 0; input_mem = input });
}
