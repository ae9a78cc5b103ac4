-- ===== src/Programs/Loader/Deploy.antt =====
-- What a deployment leaves behind.
use tiny_solana.Executors.{ExecutorDeps, executor}
use tiny_solana.Common.{
  suc, ℕ, ◌<◌, ◌≡◌, ◌≢◌, sym, ap, ◌∙◌, true, not, some, List, ◌∷◌, arith, get_elem?, drop, length,
}
use tiny_solana.Common.Result.{ok}
use tiny_solana.Accounts.{Account}
use tiny_solana.Common.Word.{u64_mod}
use tiny_solana.Transactions.Errors.{ProgramError}
use tiny_solana.Runtime.{AccountInfo, InvokeContext, Machine, Executor}
use tiny_solana.Runtime.Actions.{not-false, >>=-ok, raise_if-then, or_raise-then, borrow_data-then}
use tiny_solana.Programs.Loader.Pack.{IsCanonical}
use tiny_solana.Programs.Loader.Close.{closed}
use tiny_solana.Programs.Loader.{
  buffer, program_data, LoaderDeps, drain, program_error_of, missing_required_signature,
  pack_into_account, code_len, create_programdata, copy_code, finish_program, process_deploy,
}
use tiny_solana.Programs.Loader.Steps.{drain_ok, code_len-ok, IsProgramOf, finish_program-ok}
use tiny_solana.Programs.Loader.Data.{IsDataOf}
use tiny_solana.Programs.Loader.Written.{programdata_written}

module _ {Rent : Type 0} (deps : LoaderDeps Rent) (execute : Executor) (ctx : InvokeContext)
    (payer programdata program_info buffer_info rent_info clock_info system_program
      authority : AccountInfo) where
  -- The steps of a deployment that succeeds, each with the machine that it leaves.
  record Ran (n : ℕ) (m m' : Machine) : Type 0 where
    signer : authority.is_signer ≡ true
    rent : Rent
    slot : ℕ
    len : ℕ
    m1 : Machine
    m2 : Machine
    m3 : Machine
    m4 : Machine
    m5 : Machine
    measured : code_len deps execute ctx n buffer_info m ≡ (ok len, m1)
    created :
        create_programdata deps execute ctx rent n payer programdata system_program m1 ≡ (ok tt, m2)
    packed :
        pack_into_account deps (program_data slot (some authority.pubkey)) programdata m2
        ≡ (ok tt, m3)
    copied : copy_code deps execute ctx len buffer_info programdata m3 ≡ (ok tt, m4)
    finished : finish_program deps execute ctx programdata program_info m4 ≡ (ok tt, m5)
    drained : drain buffer_info payer m5 ≡ (ok tt, m')

  process_deploy-Ran :
      (n : ℕ) (rest : List AccountInfo) (m m' : Machine)
      → process_deploy deps execute ctx n
          (payer ∷ programdata ∷ program_info ∷ buffer_info ∷ rent_info ∷ clock_info
            ∷ system_program ∷ authority ∷ rest)
          m
        ≡ (ok tt, m')
      → Ran n m m'
  unfolding process_deploy
  process_deploy-Ran n rest m m' e =
      let (signed, e1) =
        raise_if-then (not authority.is_signer) (program_error_of missing_required_signature) _ m m'
          tt e in
      let (rent_account, _, e2) = borrow_data-then rent_info _ m m' tt e1 in
      let (rent, _, e3) =
        or_raise-then (deps.decode_rent rent_account.contents) ProgramError.invalid_argument _ m m'
          tt e2 in
      let (len, m1, c1, e4) = >>=-ok (code_len deps execute ctx n buffer_info) _ m m' tt e3 in
      let (_, m2, c2, e5) =
        >>=-ok (create_programdata deps execute ctx rent n payer programdata system_program) _ m1 m'
          tt e4 in
      let (clock_account, _, e6) = borrow_data-then clock_info _ m2 m' tt e5 in
      let (slot, _, e7) =
        or_raise-then (deps.decode_clock_slot clock_account.contents) ProgramError.invalid_argument
          _ m2 m' tt e6 in
      let (_, m3, c3, e8) =
        >>=-ok (pack_into_account deps (program_data slot (some authority.pubkey)) programdata) _ m2
          m' tt e7 in
      let (_, m4, c4, e9) =
        >>=-ok (copy_code deps execute ctx len buffer_info programdata) _ m3 m' tt e8 in
      let (_, m5, c5, c6) =
        >>=-ok (finish_program deps execute ctx programdata program_info) _ m4 m' tt e9 in
      record {
        signer = not-false _ signed;
        rent = rent;
        slot = slot;
        len = len;
        m1 = m1;
        m2 = m2;
        m3 = m3;
        m4 = m4;
        m5 = m5;
        measured = c1;
        created = c2;
        packed = c3;
        copied = c4;
        finished = c5;
        drained = c6;
      }

module _ {Rent Executable : Type 0} (deps : ExecutorDeps Rent Executable) (depth : ℕ)
    (ctx : InvokeContext) where
  module _ (canonical : IsCanonical deps.loader)
      (payer programdata program_info buffer_info rent_info clock_info system_program
        authority : AccountInfo) where
    -- What a deployment that succeeds has found and left.
    pub record Deployed (metadata_len offset : ℕ) (m m' : Machine) : Type 0 where
      pub signer : authority.is_signer ≡ true
      pub code : Account
      pub code_cell : get_elem? m.cells buffer_info.account ≡ some code
      pub program_account : Account
      pub program_cell : get_elem? m'.cells program_info.account ≡ some program_account
      pub is_program :
          IsProgramOf deps.loader (executor deps (suc depth)) ctx programdata.pubkey program_account
      pub data_account : Account
      pub data_cell : get_elem? m'.cells programdata.account ≡ some data_account
      pub is_data :
          IsDataOf deps.loader
            (executor deps (suc depth))
            ctx
            authority.pubkey
            metadata_len
            (drop offset code.contents)
            data_account
      pub emptied : Account
      pub emptied_cell : get_elem? m'.cells buffer_info.account ≡ some (closed emptied)

    Ran-Deployed :
        (n metadata_len offset : ℕ) (m m' : Machine)
        → deps.loader.serialized_size (program_data 0 (some 0)) ≡ some metadata_len
        → deps.loader.serialized_size (buffer (some 0)) ≡ some offset
        → program_info.account ≢ programdata.account
        → program_info.account ≢ buffer_info.account
        → program_info.account ≢ payer.account
        → programdata.account ≢ payer.account
        → ((a : Account)
            → get_elem? m.cells buffer_info.account ≡ some a
            → length a.contents < u64_mod)
        → Ran deps.loader
            (executor deps (suc depth))
            ctx
            payer
            programdata
            program_info
            buffer_info
            rent_info
            clock_info
            system_program
            authority
            n
            m
            m'
        → Deployed metadata_len offset m m'
    Ran-Deployed n metadata_len offset m m' size_p size_b gp gb gy py bounded r =
        let execute = executor deps (suc depth) in
        let (code, o, cell, size_o, within, long, same) =
          code_len-ok deps.loader execute ctx n r.len buffer_info m r.m1 r.measured in
        let is_o : o ≡ offset = cc in
        let moved : get_elem? r.m1.cells buffer_info.account ≡ some code =
          ap (λ (x : Machine). get_elem? x.cells buffer_info.account) same ∙ cell in
        let (apart, (data_account, is_data, cell4)) =
          programdata_written deps depth ctx canonical payer programdata buffer_info system_program
            authority.pubkey r.rent r.slot n r.len metadata_len offset r.m1 r.m2 r.m3 r.m4 code
            size_p size_b moved (omega (arith, within, is_o)) (omega (arith, long, is_o))
            (bounded code cell) r.created r.packed r.copied in
        let ((program_account, is_program, cell5), others5) =
          finish_program-ok deps.loader execute ctx canonical programdata program_info r.m4 r.m5 tt
            r.finished in
        let ((emptied, cell6), others6) = drain_ok buffer_info payer r.m5 m' tt r.drained in
        record {
          signer = r.signer;
          code = code;
          code_cell = cell;
          program_account = program_account;
          program_cell = others6 program_info.account gb gy ∙ cell5;
          is_program = is_program;
          data_account = data_account;
          data_cell =
              others6 programdata.account (λ q. apart (sym q)) py
              ∙ others5 programdata.account (λ q. gp (sym q))
              ∙ cell4;
          is_data = is_data;
          emptied = emptied;
          emptied_cell = cell6;
        }

    -- A deployment that succeeds, and calls the system program through the executors of the node, is
    -- signed by the authority that is passed. It leaves the program account executable, owned by the
    -- loader and pointing to the program data; the program data with that authority, and behind its
    -- metadata the bytes that stood behind the metadata of the buffer before; and the buffer without
    -- lamports and data. This holds whatever system instruction is decoded from the instruction data
    -- of the deployment. The program account stands in a cell of its own and the payer in another
    -- than the program data, the data of the buffer are of a size that a `usize` counts, and bincode
    -- reads back what it wrote, in a size that depends neither on keys nor on the slot.
    pub process_deploy_ok :
        (n metadata_len offset : ℕ) (rest : List AccountInfo) (m m' : Machine)
        → deps.loader.serialized_size (program_data 0 (some 0)) ≡ some metadata_len
        → deps.loader.serialized_size (buffer (some 0)) ≡ some offset
        → program_info.account ≢ programdata.account
        → program_info.account ≢ buffer_info.account
        → program_info.account ≢ payer.account
        → programdata.account ≢ payer.account
        → ((a : Account)
            → get_elem? m.cells buffer_info.account ≡ some a
            → length a.contents < u64_mod)
        → process_deploy deps.loader
            (executor deps (suc depth))
            ctx
            n
            (payer ∷ programdata ∷ program_info ∷ buffer_info ∷ rent_info ∷ clock_info
              ∷ system_program ∷ authority ∷ rest)
            m
          ≡ (ok tt, m')
        → Deployed metadata_len offset m m'
    process_deploy_ok n metadata_len offset rest m m' size_p size_b gp gb gy py bounded e =
        Ran-Deployed n metadata_len offset m m' size_p size_b gp gb gy py bounded (
          process_deploy-Ran deps.loader (executor deps (suc depth)) ctx payer programdata
            program_info buffer_info rent_info clock_info system_program authority n rest m m' e)
