-- ===== src/Programs/Loader/Steps.antt =====
-- The steps of a deployment, one by one.
use tiny_solana.Common.{
  ℕ, ltb, leb, ◌&&◌, ◌==◌, if◌then◌else◌, take, ◌-◌, ◌≤◌, ◌≡◌, ◌≢◌, refl, sym, ap, ◌∙◌, inl, inr,
  true, none, some, ◌++◌, arith, get_elem?, set, drop, length, length-set, Option-cases,
  get_elem?-set_ne, get_elem?-set_self, get_elem?-lt,
}
use tiny_solana.Common.Result.{ok}
use tiny_solana.Types.{Pubkey}
use tiny_solana.Accounts.{Account}
use tiny_solana.Common.Word.{wrapping_add, saturating_sub}
use tiny_solana.Transactions.Errors.{account_borrow_failed}
use tiny_solana.Runtime.{AccountInfo, InvokeContext, Machine, Executor, ◌>>=◌, get_cell, put_cell}
use tiny_solana.Runtime.Cells.{get_elem?-some}
use tiny_solana.Runtime.Actions.{>>=-ok, raise_if-then, borrow_data-then, or_abort-then, with_front}
use tiny_solana.Programs.Loader.Pack.{IsCanonical, pack_into_account-ok, copy_into-ok}
use tiny_solana.Programs.Loader.Close.{closed, paid, paid_cells, drain_eq}
use tiny_solana.Programs.Loader.{
  buffer, program, program_data, buffer_account_too_small, max_data_length_too_small, LoaderDeps,
  program_error_of, pack_into_account, code_len, copy_code, finish_program, drain,
}

-- Draining that succeeds closes the account, and changes no cell but the two.
pub drain_ok :
    (from to : AccountInfo) (m m' : Machine) (u : Unit {0})
    → drain from to m ≡ (ok u, m')
    → ((z : Account) × (get_elem? m'.cells from.account ≡ some (closed z)))
      × ((i : ℕ) → i ≢ from.account → i ≢ to.account → get_elem? m'.cells i ≡ get_elem? m.cells i)
unfolding drain
drain_ok from to m m' u e = elim (Option-cases (get_elem? m.cells to.account)) [
  | inl absent ↦ absurd (ground arith)
  | inr (y, to_cell) ↦ elim (Option-cases (get_elem? m.cells from.account)) [
    | inl absent ↦ absurd (ground arith)
    | inr (x, from_cell) ↦
        let cells = paid_cells from to m x y from_cell to_cell in
        let (z, there) = get_elem?-some cells from.account (
          omega (
            arith,
            length-set m.cells to.account (paid from to m x y from_cell to_cell),
            get_elem?-lt m.cells from.account from_cell,
          )) in
        let emptied = record z { lamports = 0 } in
        let same : m'.cells ≡ set (set cells from.account emptied) from.account (closed z) =
          ap (λ p. p.1.cells) (sym e ∙ drain_eq from to m x y from_cell to_cell z there) in
        (
          (
            z,
            ap (λ c. get_elem? c from.account) same
                ∙ get_elem?-set_self (set cells from.account emptied) from.account (closed z) (
                    omega (
                      arith,
                      length-set cells from.account emptied,
                      get_elem?-lt cells from.account there,
                    )),
          ),
          λ i other another.
              ap (λ c. get_elem? c i) same
              ∙ get_elem?-set_ne (set cells from.account emptied) from.account i (closed z)
                  (λ q. other (sym q))
              ∙ get_elem?-set_ne cells from.account i emptied (λ q. other (sym q))
              ∙ get_elem?-set_ne m.cells to.account i (paid from to m x y from_cell to_cell)
                  (λ q. another (sym q)),
        )
  ]
]

module _ {Rent : Type 0} (deps : LoaderDeps Rent) (execute : Executor) (ctx : InvokeContext) where
  -- The length of the code is that of what stands behind the metadata of the buffer.
  pub code_len-ok :
      (n len : ℕ) (buffer_info : AccountInfo) (m m' : Machine)
      → code_len deps execute ctx n buffer_info m ≡ (ok len, m')
      → (a : Account) × (offset : ℕ) × (get_elem? m.cells buffer_info.account ≡ some a)
        × (deps.serialized_size (buffer (some 0)) ≡ some offset)
        × (offset ≤ length a.contents)
        × (len ≡ length a.contents - offset)
        × (m' ≡ m)
  code_len-ok n len buffer_info m m' e =
      let (a, cell, e1) = borrow_data-then buffer_info _ m m' len e in
      let (offset, size, e2) =
        or_abort-then (deps.serialized_size (buffer (some 0))) _ m m' len e1 in
      let (fits, e3) =
        raise_if-then (ltb (length a.contents) offset) (program_error_of buffer_account_too_small) _
          m m' len e2 in
      let (room, e4) =
        raise_if-then (ltb n (saturating_sub (length a.contents) offset))
          (program_error_of max_data_length_too_small) _ m m' len e3 in
      (a, offset, cell, size, ground arith, ground arith, ap (λ p. p.1) (sym e4))

  -- The copied code stands behind the metadata.
  pub copy_code-ok :
      (len : ℕ) (buffer_info programdata : AccountInfo) (m m' : Machine) (u : Unit {0})
      → copy_code deps execute ctx len buffer_info programdata m ≡ (ok u, m')
      → (metadata_len : ℕ) × (offset : ℕ) × (b : Account) × (a : Account) × (deps.serialized_size
            (program_data 0 (some 0))
          ≡ some metadata_len)
        × (deps.serialized_size (buffer (some 0)) ≡ some offset)
        × (get_elem? m.cells buffer_info.account ≡ some b)
        × (get_elem? m.cells programdata.account ≡ some a)
        × (buffer_info.account ≢ programdata.account)
        × (m' ≡ record m {
          cells = set m.cells programdata.account (record a {
            contents =
                take metadata_len a.contents
                ++ (take (wrapping_add offset len - offset) (drop offset b.contents)
                    ++ drop (wrapping_add metadata_len len) a.contents);
          });
        })
  unfolding copy_code
  copy_code-ok len buffer_info programdata m m' u e =
      let (metadata_len, size, e1) =
        or_abort-then (deps.serialized_size (program_data 0 (some 0))) _ m m' u e in
      let (offset, size', e2) =
        or_abort-then (deps.serialized_size (buffer (some 0))) _ m m' u e1 in
      let (b, cell, e3) = borrow_data-then buffer_info _ m m' u e2 in
      let (apart, e4) =
        raise_if-then (buffer_info.account == programdata.account) account_borrow_failed _ m m' u
          e3 in
      let (code, sliced, e5) =
        or_abort-then
          (if leb offset (wrapping_add offset len)
              && leb (wrapping_add offset len) (length b.contents)
            then some (take (wrapping_add offset len - offset) (drop offset b.contents))
            else none)
          _ m m' u e4 in
      let is_code : code ≡ take (wrapping_add offset len - offset) (drop offset b.contents) =
        ground arith in
      let (a, cell', eq) =
        copy_into-ok programdata metadata_len (wrapping_add metadata_len len) code m m' u e5 in
      (
        metadata_len,
        offset,
        b,
        a,
        size,
        size',
        cell,
        cell',
        ground arith,
        eq
            ∙ ap
                (λ x. record m {
                  cells = set m.cells programdata.account (record a {
                    contents =
                        take metadata_len a.contents
                        ++ (x ++ drop (wrapping_add metadata_len len) a.contents);
                  });
                })
                is_code,
      )

  -- A program account that was written.
  pub record IsProgramOf (k : Pubkey) (a : Account) : Type 0 where
    pub state : deps.decode_state a.contents ≡ some (program k)
    pub owned : a.owner ≡ ctx.program_id
    pub runs : a.executable ≡ true

  pub finish_program-ok :
      (canonical : IsCanonical deps) (programdata program_info : AccountInfo) (m m' : Machine)
      (u : Unit {0})
      → finish_program deps execute ctx programdata program_info m ≡ (ok u, m')
      → ((a : Account) × IsProgramOf programdata.pubkey a
          × (get_elem? m'.cells program_info.account ≡ some a))
        × ((i : ℕ) → i ≢ program_info.account → get_elem? m'.cells i ≡ get_elem? m.cells i)
  unfolding finish_program
  finish_program-ok canonical programdata program_info m m' u e =
      let (_, m1, e1, e2) =
        >>=-ok (pack_into_account deps (program programdata.pubkey) program_info) _ m m' u e in
      let (n, a, b, size, cell, fits, writes, eq) =
        pack_into_account-ok deps (program programdata.pubkey) program_info m m1 tt e1 in
      let w = with_front b a in
      let ready = record w { owner = ctx.program_id; executable = true } in
      let packed : m1.cells ≡ set m.cells program_info.account w =
        ap (λ (x : Machine). x.cells) eq in
      let there : get_elem? m1.cells program_info.account ≡ some w =
        ap (λ c. get_elem? c program_info.account) packed
        ∙ get_elem?-set_self m.cells program_info.account w
            (get_elem?-lt m.cells program_info.account cell) in
      let step : (get_cell program_info.account >>= λ c.
      put_cell program_info.account (record c { owner = ctx.program_id; executable = true }))
            m1
          ≡ (ok tt, record m1 { cells = set m1.cells program_info.account ready }) =
        rw there refl in
      let written : m'.cells ≡ set m1.cells program_info.account ready =
        ap (λ p. p.1.cells) (sym e2 ∙ step) in
      (
        (
          ready,
          record {
            state =
                canonical.reads (program programdata.pubkey) n b (drop (length b) a.contents) size
                  writes;
            owned = refl;
            runs = refl;
          },
          ap (λ c. get_elem? c program_info.account) written
              ∙ get_elem?-set_self m1.cells program_info.account ready
                  (get_elem?-lt m1.cells program_info.account there),
        ),
        λ i other.
            ap (λ c. get_elem? c i) written
            ∙ get_elem?-set_ne m1.cells program_info.account i ready (λ q. other (sym q))
            ∙ ap (λ c. get_elem? c i) packed
            ∙ get_elem?-set_ne m.cells program_info.account i w (λ q. other (sym q)),
      )
