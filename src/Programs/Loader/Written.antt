-- ===== src/Programs/Loader/Written.antt =====
-- The program data that a deployment writes.
use tiny_solana.Common.{
  ℕ, ◌-◌, ◌≤◌, ◌≡◌, ◌≢◌, refl, sym, ap, ◌∙◌, inl, inr, none, some, List, [], ◌∷◌, arith, get_elem?,
  drop, length, Option-cases, Option, suc, ◌<◌,
}
use tiny_solana.Common.Result.{ok}
use tiny_solana.Types.{Pubkey, Bytes}
use tiny_solana.Accounts.{Account}
use tiny_solana.Common.Word.{saturating_sub, u64_mod}
use tiny_solana.Transactions.{Instruction, AccountMeta}
use tiny_solana.Runtime.{
  AccountInfo, InvokeContext, Machine, Executor, lamports, lift, invoke, push_call,
}
use tiny_solana.Programs.Ids.{system_program_id}
use tiny_solana.Programs.System
use tiny_solana.Programs.System.{
  SystemInstruction, create_account, with_data, signing, create_account_instruction,
}
use tiny_solana.Programs.System.Contents.{contents_at, Leaves-entrypoint}
use tiny_solana.Runtime.Actions.{>>=-ok, or_abort-then}
use tiny_solana.Programs.Loader.Pack.{IsCanonical}
use tiny_solana.Programs.Loader.{
  buffer, program_data, size_of_programdata, LoaderDeps, pack_into_account, create_programdata,
  copy_code,
}
use mathlib.Core.Path.{subst}
use tiny_solana.Executors.{ExecutorDeps, executor}
use tiny_solana.Executors.Depth.{chained_execute-system}
use tiny_solana.Programs.Loader.Steps.{copy_code-ok}
use tiny_solana.Programs.Loader.Data.{IsDataOf, write_data-ok}

lamports-ok : (info : AccountInfo) (m m' : Machine) (n : ℕ) → lamports info m ≡ (ok n, m') → m' ≡ m
lamports-ok info m m' n e = elim (Option-cases (get_elem? m.cells info.account)) [
  | inl absent ↦ absurd (ground arith)
  | inr (a, cell) ↦ ground arith
]

module _ {Rent : Type 0} (deps : LoaderDeps Rent) (execute : Executor) (ctx : InvokeContext) where
  -- The executor runs the system program, whatever instruction it is handed for it.
  abbrev pub RunsSystem : (Bytes → Option SystemInstruction) → Type 0
  RunsSystem decode =
      (instruction : Instruction) (infos : List AccountInfo) (m : Machine)
      → instruction.program_id ≡ system_program_id
      → execute instruction ctx infos m ≡ System.entrypoint decode ctx infos m

  with_data-ok :
      (metas : List AccountMeta) (o : Option Bytes) (m m' : Machine) (ix : Instruction)
      → lift (with_data metas o) m ≡ (ok ix, m')
      → (ix.program_id ≡ system_program_id) × (m' ≡ m)
  with_data-ok metas none m m' ix e = cc
  with_data-ok metas (some b) m m' ix e = (ground (arith, e), cc)

  -- Whatever instruction the system program finds in the data of the deployment, it leaves the data
  -- of all accounts alone but for the program data.
  pub create_programdata-contents :
      (decode : Bytes → Option SystemInstruction) (rent : Rent) (n i : ℕ)
      (payer programdata system_program : AccountInfo) (m m' : Machine) (u : Unit {0})
      → RunsSystem decode
      → programdata.account ≢ i
      → create_programdata deps execute ctx rent n payer programdata system_program m ≡ (ok u, m')
      → contents_at i m'.cells ≡ contents_at i m.cells
  unfolding create_programdata invoke create_account_instruction
  create_programdata-contents decode rent n i payer programdata system_program m m' u runs ne e =
      let (len, m1, e1, e2) = >>=-ok (size_of_programdata deps n) _ m m' u e in
      let (_, _, e3) =
        or_abort-then (deps.serialized_size (program_data 0 (some 0))) _ m m1 len e1 in
      let (balance, m2, e4, e5) = >>=-ok (lamports programdata) _ m1 m' u e2 in
      let infos : List AccountInfo = payer ∷ programdata ∷ system_program ∷ [] in
      let data_bytes = deps.encode_system (
        create_account (saturating_sub (deps.minimum_balance rent len) balance) len
          ctx.program_id) in
      let metas : List AccountMeta = signing payer.pubkey ∷ signing programdata.pubkey ∷ [] in
      let (ix, m3, e6, e7) =
        >>=-ok (lift (with_data metas data_bytes)) (λ ix. invoke execute ctx ix infos) m2 m' u e5 in
      let (system, kept) = with_data-ok metas data_bytes m2 m3 ix e6 in
      let same : m3 ≡ m =
        kept ∙ lamports-ok programdata m1 m2 balance e4 ∙ ap (λ p. p.1) (sym e3) in
      let called = push_call ix.program_id m3 in
      ap (λ p. contents_at i p.1.cells) (sym e7)
      ∙ ap (λ p. contents_at i p.1.cells) (runs ix infos called system)
      ∙ Leaves-entrypoint i decode ctx payer programdata (system_program ∷ []) ne called
      ∙ ap (λ (x : Machine). contents_at i x.cells) same

-- The whole account behind its data.
contents_at-some :
    (i : ℕ) (cells : List Account) (b : Bytes)
    → contents_at i cells ≡ some b
    → (a : Account) × (get_elem? cells i ≡ some a) × (a.contents ≡ b)
contents_at-some i cells b e = elim (Option-cases (get_elem? cells i)) [
  | inl absent ↦ absurd (ground arith)
  | inr (a, found) ↦ (a, found, ground arith)
]

contents_at-cell :
    (i : ℕ) (cells : List Account) (a : Account)
    → get_elem? cells i ≡ some a
    → contents_at i cells ≡ some a.contents
contents_at-cell i cells a e = rw e refl

module _ {Rent Executable : Type 0} (deps : ExecutorDeps Rent Executable) (depth : ℕ)
    (ctx : InvokeContext) where
  -- The chain of executors runs the system program on the data of the context.
  executor-RunsSystem : RunsSystem deps.loader (executor deps (suc depth)) ctx deps.decode_system
  unfolding executor
  executor-RunsSystem instruction infos m h =
      chained_execute-system deps (executor deps depth) instruction ctx infos m h

  module _ (canonical : IsCanonical deps.loader)
      (payer programdata buffer_info system_program : AccountInfo) (k : Pubkey) where
    -- The program data that the three middle steps of a deployment write.
    pub programdata_written :
        (rent : Rent) (slot n len metadata_len offset : ℕ) (m1 m2 m3 m4 : Machine) (code : Account)
        → deps.loader.serialized_size (program_data 0 (some 0)) ≡ some metadata_len
        → deps.loader.serialized_size (buffer (some 0)) ≡ some offset
        → get_elem? m1.cells buffer_info.account ≡ some code
        → offset ≤ length code.contents
        → len ≡ length code.contents - offset
        → length code.contents < u64_mod
        → create_programdata deps.loader
            (executor deps (suc depth))
            ctx
            rent
            n
            payer
            programdata
            system_program
            m1
          ≡ (ok tt, m2)
        → pack_into_account deps.loader (program_data slot (some k)) programdata m2 ≡ (ok tt, m3)
        → copy_code deps.loader (executor deps (suc depth)) ctx len buffer_info programdata m3
          ≡ (ok tt, m4)
        → (buffer_info.account ≢ programdata.account)
          × ((a : Account) × IsDataOf deps.loader
                (executor deps (suc depth))
                ctx
                k
                metadata_len
                (drop offset code.contents)
                a
              × (get_elem? m4.cells programdata.account ≡ some a))
    programdata_written rent slot n len metadata_len offset m1 m2 m3 m4 code size_p size_b cell
          within long bounded c2 c3 c4 =
        let (_, _, _, _, _, _, _, _, far, _) =
          copy_code-ok deps.loader (executor deps (suc depth)) ctx len buffer_info programdata m3 m4
            tt c4 in
        let (code', cell2, unchanged) =
          contents_at-some buffer_info.account m2.cells code.contents (
            create_programdata-contents deps.loader (executor deps (suc depth)) ctx
              deps.decode_system rent n buffer_info.account payer programdata system_program m1 m2
              tt executor-RunsSystem (λ q. far (sym q)) c2
            ∙ contents_at-cell buffer_info.account m1.cells code cell) in
        let size : length code'.contents ≡ length code.contents = ap (λ b. length b) unchanged in
        let (apart, (a, is_data, cell4), _) =
          write_data-ok deps.loader (executor deps (suc depth)) ctx canonical k slot len
            metadata_len offset buffer_info programdata m2 m3 m4 tt tt code' size_p size_b cell2
            (omega (arith, within, size)) (omega (arith, long, size)) (omega (arith, bounded, size))
            c3 c4 in
        (
          apart,
          (
            a,
            subst
                (λ (b : Bytes).
                  IsDataOf deps.loader (executor deps (suc depth)) ctx k metadata_len
                    (drop offset b) a)
                unchanged is_data,
            cell4,
          ),
        )
