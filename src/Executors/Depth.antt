-- ===== src/Executors/Depth.antt =====
-- How deep calls between programs go.
use mathlib.Core.Path.{fun_ext}
use tiny_solana.Common.{ℕ, suc, ◌≡◌, refl, sym, ap, ◌∙◌, not, Option, none, some, List, [], ◌∷◌}
use tiny_solana.Common.Result.{Result, ok, err, panic}
use tiny_solana.Common.Word.{saturating_sub}
use tiny_solana.Types.{Pubkey, Bytes}
use tiny_solana.Transactions.{Instruction}
use tiny_solana.Transactions.Errors.{ProgramError}
use tiny_solana.Runtime.{
  AccountInfo, InvokeContext, Machine, Action, Executor, and_then, ◌>>=◌, invoke, push_call, lift,
  lamports,
}
use tiny_solana.Programs.Ids.{system_program_id}
use tiny_solana.Programs.System
use tiny_solana.Programs.System.{
  SystemInstruction, assign, create_account, with_data, signing, create_assign_instruction,
  create_account_instruction,
}
use tiny_solana.Programs.Token
use tiny_solana.Programs.Token.{
  TokenInstruction, mint, transfer, set_authority, initialize_mint, initialize_account, TokenDeps,
}
use tiny_solana.Programs.Loader
use tiny_solana.Programs.Loader.{
  LoaderInstruction, initialize_buffer, write, deploy_with_max_data_len, upgrade, close, LoaderDeps,
  create_programdata, copy_code, finish_program, process_deploy,
}
use tiny_solana.Executors.{ExecutorDeps, programs, native_execute, chained_execute, executor}

-- Two executors run the system program alike.
abbrev Agree : Executor → Executor → Type 0
Agree e e' =
    (instruction : Instruction) (ctx : InvokeContext) (accounts : List AccountInfo) (m : Machine)
    → instruction.program_id ≡ system_program_id
    → e instruction ctx accounts m ≡ e' instruction ctx accounts m

module _ {A B : Type 0} where
  >>=-right :
      (c : Action A) (f g : A → Action B)
      → ((a : A) (m : Machine) → f a m ≡ g a m)
      → (m : Machine) → (c >>= f) m ≡ (c >>= g) m
  >>=-right c f g h m = go (c m)
    where
      go : (p : Result ProgramError A × Machine) → and_then p.0 f p.1 ≡ and_then p.0 g p.1
      go (ok a, m1) = h a m1
      go (err x, m1) = refl
      go (panic, m1) = refl

module _ (e e' : Executor) (agree : Agree e e') where
  invoke_agree :
      (ctx : InvokeContext) (instruction : Instruction) (accounts : List AccountInfo) (m : Machine)
      → instruction.program_id ≡ system_program_id
      → invoke e ctx instruction accounts m ≡ invoke e' ctx instruction accounts m
  unfolding invoke
  invoke_agree ctx instruction accounts m h =
      rw (agree instruction ctx accounts (push_call instruction.program_id m) h) refl

  module _ {Rent : Type 0} (deps : TokenDeps Rent) where
    set_authority_agree :
        (k : Pubkey) (ctx : InvokeContext) (accounts : List AccountInfo) (m : Machine)
        → Token.process_set_authority deps e k ctx accounts m
          ≡ Token.process_set_authority deps e' k ctx accounts m
    unfolding Token.process_set_authority create_assign_instruction
    set_authority_agree k ctx [] m = refl
    set_authority_agree k ctx (_ ∷ []) m = refl
    set_authority_agree k ctx (target ∷ authority ∷ _) m =
        >>=-right (Token.fail_if (not authority.is_signer) Token.missing_required_signature) _ _
          (λ _ m1. go (deps.encode_system (assign k)) m1) m
      where
        go :
            (o : Option Bytes) (m1 : Machine)
            → Token.invoke_built deps e
                (with_data (signing target.pubkey ∷ []) o)
                ctx
                (target ∷ [])
                m1
              ≡ Token.invoke_built deps e'
                  (with_data (signing target.pubkey ∷ []) o)
                  ctx
                  (target ∷ [])
                  m1
        go none m1 = refl
        go (some b) m1 = invoke_agree ctx _ (target ∷ []) m1 refl

    token_agree :
        (ctx : InvokeContext) (accounts : List AccountInfo) (m : Machine)
        → Token.entrypoint deps e ctx accounts m ≡ Token.entrypoint deps e' ctx accounts m
    unfolding Token.entrypoint
    token_agree ctx accounts m = go (deps.decode_instruction ctx.instruction_data)
      where
        go :
            (o : Option TokenInstruction)
            → Token.dispatch deps e o ctx accounts m ≡ Token.dispatch deps e' o ctx accounts m
        go none = refl
        go (some (mint n)) = refl
        go (some (transfer n)) = refl
        go (some (set_authority k)) = set_authority_agree k ctx accounts m
        go (some (initialize_mint d k)) = refl
        go (some initialize_account) = refl

  module _ {Rent : Type 0} (deps : LoaderDeps Rent) (ctx : InvokeContext) where
    create_programdata_agree :
        (rent : Rent) (n : ℕ) (payer programdata system_program : AccountInfo) (m : Machine)
        → create_programdata deps e ctx rent n payer programdata system_program m
          ≡ create_programdata deps e' ctx rent n payer programdata system_program m
    unfolding create_programdata create_account_instruction
    create_programdata_agree rent n payer programdata system_program m =
        >>=-right (Loader.size_of_programdata deps n) _ _
          (λ len. >>=-right (lamports programdata) _ _ (λ balance m1.
            go
              (deps.encode_system (
                create_account (saturating_sub (deps.minimum_balance rent len) balance) len
                  ctx.program_id))
              m1))
          m
      where
        infos : List AccountInfo
        infos = payer ∷ programdata ∷ system_program ∷ []

        go :
            (o : Option Bytes) (m1 : Machine)
            → (lift (with_data (signing payer.pubkey ∷ signing programdata.pubkey ∷ []) o) >>= λ ix.
                  invoke e ctx ix infos)
                m1
              ≡ (lift (with_data (signing payer.pubkey ∷ signing programdata.pubkey ∷ []) o)
                    >>= λ ix. invoke e' ctx ix infos)
                  m1
        go none m1 = refl
        go (some b) m1 = invoke_agree ctx _ infos m1 refl

    create_programdata_path : create_programdata deps e ctx ≡ create_programdata deps e' ctx
    create_programdata_path = fun_ext (λ rent. fun_ext (λ n. fun_ext (λ payer.
        fun_ext (λ programdata. fun_ext (λ system_program.
          fun_ext (create_programdata_agree rent n payer programdata system_program))))))

    deploy_agree :
        (n : ℕ) (accounts : List AccountInfo) (m : Machine)
        → process_deploy deps e ctx n accounts m ≡ process_deploy deps e' ctx n accounts m
    unfolding process_deploy copy_code finish_program
    deploy_agree n
          (payer ∷ programdata ∷ program_info ∷ buffer_info ∷ rent_info ∷ clock_info
            ∷ system_program ∷ authority ∷ _)
          m =
        rw create_programdata_path refl
    deploy_agree n _ m = refl

    loader_agree :
        (accounts : List AccountInfo) (m : Machine)
        → Loader.entrypoint deps e ctx accounts m ≡ Loader.entrypoint deps e' ctx accounts m
    unfolding Loader.entrypoint
    loader_agree accounts m = go (deps.decode_instruction ctx.instruction_data)
      where
        go :
            (o : Option LoaderInstruction)
            → Loader.dispatch deps e ctx o accounts m ≡ Loader.dispatch deps e' ctx o accounts m
        go none = refl
        go (some initialize_buffer) = refl
        go (some (write offset bytes)) = refl
        go (some (deploy_with_max_data_len n)) = deploy_agree n accounts m
        go (some upgrade) = refl
        go (some (Loader.set_authority k)) = refl
        go (some close) = refl

module _ {Rent Executable : Type 0} (deps : ExecutorDeps Rent Executable) where
  programs-Agree : (e e' : Executor) → Agree e e' → programs deps e ≡ programs deps e'
  programs-Agree e e' agree =
      let of_token : Token.entrypoint deps.token e ≡ Token.entrypoint deps.token e' =
        fun_ext
          (λ ctx. fun_ext (λ accounts. fun_ext (token_agree e e' agree deps.token ctx accounts))) in
      let of_loader : Loader.entrypoint deps.loader e ≡ Loader.entrypoint deps.loader e' =
        fun_ext (λ ctx.
          fun_ext (λ accounts. fun_ext (loader_agree e e' agree deps.loader ctx accounts))) in
      rw (of_token, of_loader) refl

  -- A program that the chain finds to be the system program calls no other.
  pub chained_execute-system :
      (e : Executor) (instruction : Instruction) (ctx : InvokeContext) (accounts : List AccountInfo)
      (m : Machine)
      → instruction.program_id ≡ system_program_id
      → chained_execute deps (programs deps e) instruction ctx accounts m
        ≡ System.entrypoint deps.decode_system ctx accounts m
  unfolding chained_execute native_execute
  chained_execute-system e instruction ctx accounts m h = rw h refl

  -- Calls go no deeper than two: whatever the depth at which calls are cut off, from two on all
  -- instructions run the same.
  pub executor_depth : (depth : ℕ) → executor deps (suc (suc depth)) ≡ executor deps 2
  unfolding executor
  executor_depth depth = ap (chained_execute deps) (
      programs-Agree (chained_execute deps (programs deps (executor deps depth)))
        (chained_execute deps (programs deps (executor deps 0)))
        (λ instruction ctx accounts m h.
          chained_execute-system (executor deps depth) instruction ctx accounts m h
          ∙ sym (chained_execute-system (executor deps 0) instruction ctx accounts m h)))
