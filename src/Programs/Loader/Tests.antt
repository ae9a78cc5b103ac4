-- ===== src/Programs/Loader/Tests.antt =====
-- Runs of the loader.
use tiny_solana.Common.{
  ◌-◌, ◌∙◌, leb, replicate, ℕ, ◌+◌, ◌≡◌, refl, sym, ap, true, false, Option, none, some, [], ◌∷◌,
  ◌++◌, arith, take, length, ◌==◌, get_elem?, if◌then◌else◌,
}
use tiny_solana.Common.Result.{ok}
use tiny_solana.Types.{Bytes}
use tiny_solana.Accounts.{Account}
use tiny_solana.Runtime.{AccountInfo, Machine, invoke}
use tiny_solana.Runtime.Cells.{total}
use tiny_solana.Programs.Loader.{
  LoaderInstruction, deploy_with_max_data_len, UpgradeableLoaderState, uninitialized, buffer,
  program, program_data, LoaderDeps, process_write, process_set_authority, process_close,
  pack_into_account, copy_into, process_deploy, create_programdata, copy_code, finish_program,
  drain,
}
use tiny_solana.Programs.Loader.Pack.{IsCanonical}
use tiny_solana.Programs.Loader.Write.{Wrote, process_write_ok}
use tiny_solana.Programs.Loader.Authority.{Handed, process_set_authority_ok}
use tiny_solana.Programs.Loader.Close.{closed, process_close-total}
use tiny_solana.Programs.Loader.Deploy.{Deployed, process_deploy_ok}
use tiny_solana.Runtime.{InvokeContext}
use tiny_solana.Programs.System
use tiny_solana.Programs.System.{
  SystemInstruction, create_account, create_account_instruction, process_create_account,
  move_lamports,
}
use tiny_solana.Executors.{ExecutorDeps, executor, chained_execute, native_execute}
use tiny_solana.Executors.Samples
use tiny_solana.Samples.{context, account, info, machine}

-- Two numbers for a state.
abbrev encode_state : UpgradeableLoaderState → Option Bytes
encode_state (buffer (some k)) = some (1 ∷ k ∷ [])
encode_state (buffer none) = some (2 ∷ 0 ∷ [])
encode_state (program p) = some (3 ∷ p ∷ [])
encode_state (program_data slot (some k)) = some ((4 + slot) ∷ k ∷ [])
encode_state _ = none

abbrev decode_state : Bytes → Option UpgradeableLoaderState
decode_state (t ∷ k ∷ _) =
    if t == 1
    then some (buffer (some k))
    else (if t == 2
        then (if k == 0 then some (buffer none) else none)
        else (if t == 3
            then some (program k)
            else (if leb 4 t then some (program_data (t - 4) (some k)) else none)))
decode_state _ = none

-- A deployment, whatever stands behind its length.
abbrev decode_instruction : Bytes → Option LoaderInstruction
decode_instruction (t ∷ n ∷ _) = if t == 2 then some (deploy_with_max_data_len n) else none
decode_instruction _ = none

abbrev deps : LoaderDeps Bytes
deps = record {
  decode_instruction = decode_instruction;
  decode_state = decode_state;
  serialized_size = λ s. some 2;
  serialize_into = λ n s. encode_state s;
  decode_rent = λ b. some b;
  minimum_balance = λ rent n. 0;
  decode_clock_slot = λ b. some 7;
  encode_system = λ i. some [];
}

state_sized :
    (s : UpgradeableLoaderState) (n : ℕ) (b : Bytes)
    → some 2 ≡ some n
    → encode_state s ≡ some b
    → length b ≡ n
state_sized (buffer (some k)) n b size e = ground arith
state_sized (buffer none) n b size e = ground arith
state_sized uninitialized n b size e = cc
state_sized (program p) n b size e = ground arith
state_sized (program_data slot none) n b size e = cc
state_sized (program_data slot (some k)) n b size e = ground arith

state_reads :
    (s : UpgradeableLoaderState) (b rest : Bytes)
    → encode_state s ≡ some b
    → decode_state (b ++ rest) ≡ some s
state_reads (buffer (some k)) b rest e =
    let same : (1 ∷ k ∷ []) ≡ b = cc in ap (λ x. decode_state (x ++ rest)) (sym same)
state_reads (buffer none) b rest e =
    let same : (2 ∷ 0 ∷ []) ≡ b = cc in ap (λ x. decode_state (x ++ rest)) (sym same)
state_reads uninitialized b rest e = cc
state_reads (program p) b rest e =
    let same : (3 ∷ p ∷ []) ≡ b = cc in ap (λ x. decode_state (x ++ rest)) (sym same)
state_reads (program_data slot none) b rest e = cc
state_reads (program_data slot (some k)) b rest e =
    let same : ((4 + slot) ∷ k ∷ []) ≡ b = cc in
    ap (λ x. decode_state (x ++ rest)) (sym same) ∙ ground arith

state_stands :
    (s : UpgradeableLoaderState) (n : ℕ) (b d : Bytes)
    → decode_state d ≡ some s
    → some 2 ≡ some n
    → encode_state s ≡ some b
    → take n d ≡ b
state_stands s n b [] reads size e = cc
state_stands s n b (t ∷ []) reads size e = cc
state_stands s n b (t ∷ k ∷ d) reads size e = ground arith

deps-IsCanonical : IsCanonical deps
deps-IsCanonical = record {
  sized = state_sized;
  reads = λ s n b rest size e. state_reads s b rest e;
  stands = state_stands;
  same_size = λ j k. refl;
  same_size_data = λ slot k. refl;
}

abbrev target_account : Bytes → Account
target_account held = record (account 2 50) { contents = held }

-- A buffer of account 1 in cell 1.
abbrev with_data : Bytes → Machine
with_data held = machine (account 1 100 ∷ target_account held ∷ [])

abbrev target : AccountInfo
target = info 2 1 false

abbrev authority : AccountInfo
authority = info 1 0 true

process_write_writes :
    process_write deps 1 (8 ∷ 9 ∷ []) (target ∷ authority ∷ []) (with_data (1 ∷ 1 ∷ 5 ∷ 6 ∷ 7 ∷ []))
    ≡ (ok tt, with_data (1 ∷ 1 ∷ 5 ∷ 8 ∷ 9 ∷ []))
unfolding process_write pack_into_account copy_into
process_write_writes = refl

process_write_ok_example :
    Wrote deps deps-IsCanonical 2 1
      (8 ∷ 9 ∷ [])
      refl
      (omega arith)
      target
      authority
      (with_data (1 ∷ 1 ∷ 5 ∷ 6 ∷ 7 ∷ []))
      (with_data (1 ∷ 1 ∷ 5 ∷ 8 ∷ 9 ∷ []))
process_write_ok_example =
    process_write_ok deps deps-IsCanonical 2 1 (8 ∷ 9 ∷ []) refl (omega arith) target authority []
      (with_data (1 ∷ 1 ∷ 5 ∷ 6 ∷ 7 ∷ [])) (with_data (1 ∷ 1 ∷ 5 ∷ 8 ∷ 9 ∷ [])) process_write_writes

process_set_authority_hands :
    process_set_authority deps (some 7) (target ∷ authority ∷ []) (with_data (1 ∷ 1 ∷ 5 ∷ []))
    ≡ (ok tt, with_data (1 ∷ 7 ∷ 5 ∷ []))
unfolding process_set_authority pack_into_account
process_set_authority_hands = refl

process_set_authority_ok_example :
    Handed deps (some 7) target authority (with_data (1 ∷ 1 ∷ 5 ∷ [])) (with_data (1 ∷ 7 ∷ 5 ∷ []))
process_set_authority_ok_example =
    process_set_authority_ok deps deps-IsCanonical (some 7) target authority []
      (with_data (1 ∷ 1 ∷ 5 ∷ [])) (with_data (1 ∷ 7 ∷ 5 ∷ [])) process_set_authority_hands

-- A stranger closes a frozen buffer and takes its lamports.
process_close-total_example :
    ((process_close deps (target ∷ authority ∷ authority ∷ []) (with_data (2 ∷ 0 ∷ []))).0 ≡ ok tt)
    × (total
          (process_close deps
            (target ∷ authority ∷ authority ∷ [])
            (with_data (2 ∷ 0 ∷ []))).1.cells
        ≡ 150)
    × (get_elem?
          (process_close deps
            (target ∷ authority ∷ authority ∷ [])
            (with_data (2 ∷ 0 ∷ []))).1.cells
          1
        ≡ some (closed (target_account (2 ∷ 0 ∷ []))))
process_close-total_example =
    process_close-total deps target authority authority [] (with_data (2 ∷ 0 ∷ []))
      (target_account (2 ∷ 0 ∷ [])) (account 1 100) refl refl refl (omega arith) (omega arith)

-- The data of the deployment, which the system program decodes too, as a new account: three lamports
-- and five bytes, for the loader's key of the test.
abbrev decode_system : Bytes → Option SystemInstruction
decode_system (t ∷ n ∷ space ∷ k ∷ []) = if t == 2 then some (create_account n space k) else none
decode_system _ = none

abbrev chain : ExecutorDeps Bytes Bytes
chain = record Samples.deps { decode_system = decode_system; loader = deps }

-- A payer, an account for the program data, a program, and a buffer with two bytes of code.
abbrev before_deploy : Machine
before_deploy = machine (
    account 1 100
    ∷ account 2 0
    ∷ record (account 3 1) { contents = replicate 2 0 }
    ∷ record (account 4 50) { contents = 1 ∷ 1 ∷ 8 ∷ 9 ∷ [] }
    ∷ [])

-- The new account has its lamports and its bytes from the system program.
abbrev after_deploy : Machine
after_deploy = machine (
    account 1 147
    ∷ record (account 2 3) { contents = 11 ∷ 1 ∷ 8 ∷ 9 ∷ 0 ∷ []; owner = 0 }
    ∷ record (account 3 1) { contents = 3 ∷ 2 ∷ []; owner = 0; executable = true }
    ∷ account 4 0
    ∷ [])

abbrev deploy_context : InvokeContext
deploy_context = context (2 ∷ 3 ∷ 5 ∷ 0 ∷ [])

process_deploy_deploys :
    process_deploy deps
      (executor chain 1)
      deploy_context
      3
      (info 1 0 true
        ∷ info 2 1 true
        ∷ info 3 2 false
        ∷ info 4 3 false
        ∷ info 5 0 false
        ∷ info 6 0 false
        ∷ info 0 0 false
        ∷ info 1 0 true
        ∷ [])
      before_deploy
    ≡ (ok tt, after_deploy)
unfolding process_deploy create_programdata create_account_instruction invoke copy_code
    finish_program drain pack_into_account copy_into executor chained_execute native_execute
    System.entrypoint process_create_account move_lamports
process_deploy_deploys = refl

process_deploy_ok_example :
    Deployed chain 0 deploy_context deps-IsCanonical
      (info 1 0 true)
      (info 2 1 true)
      (info 3 2 false)
      (info 4 3 false)
      (info 5 0 false)
      (info 6 0 false)
      (info 0 0 false)
      (info 1 0 true)
      2
      2
      before_deploy
      after_deploy
process_deploy_ok_example =
    process_deploy_ok chain 0 deploy_context deps-IsCanonical (info 1 0 true) (info 2 1 true)
      (info 3 2 false) (info 4 3 false) (info 5 0 false) (info 6 0 false) (info 0 0 false)
      (info 1 0 true) 3 2 2 [] before_deploy after_deploy refl refl (omega arith) (omega arith)
      (omega arith) (omega arith) (λ a e. ground arith) process_deploy_deploys
