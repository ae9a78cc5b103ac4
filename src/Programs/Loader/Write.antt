-- ===== src/Programs/Loader/Write.antt =====
-- What a write to a buffer does to its bytes.
use tiny_solana.Common.{
  ℕ, ◌+◌, ◌<◌, ◌≤◌, ◌≡◌, ap, ◌∙◌, true, not, none, some, List, ◌∷◌, ◌++◌, arith, drop, get_elem?,
  set, length, ltb, ◌==◌, ==_iff, get_elem?-set_self, get_elem?-lt,
}
use tiny_solana.Common.Result.{ok}
use tiny_solana.Common.Word.{u64_mod, wrapping_add}
use tiny_solana.Types.{Bytes}
use tiny_solana.Accounts.{Account}
use tiny_solana.Runtime.{AccountInfo, Machine}
use tiny_solana.Runtime.Actions.{
  not-false, >>=-ok, raise_if-then, or_raise-then, or_abort-then, borrow_data-then,
}
use tiny_solana.Programs.Loader.Pack.{
  splice, take-splice, copy_into-ok, IsCanonical, pack_into_account-same,
}
use tiny_solana.Programs.Loader.{
  UpgradeableLoaderState, uninitialized, buffer, program, program_data, LoaderDeps,
  program_error_of, incorrect_authority, missing_required_signature, account_data_too_small,
  invalid_account_data, copy_into, write_buffer, process_write,
}

module _ {Rent : Type 0} (deps : LoaderDeps Rent) (canonical : IsCanonical deps)
    (metadata_len offset : ℕ) (bytes : Bytes)
    (size : deps.serialized_size (buffer (some 0)) ≡ some metadata_len)
    (bounded : metadata_len + offset + length bytes < u64_mod) where
  -- What a write of the bytes at the offset behind the metadata has found and written.
  pub record Wrote (buffer_info authority_info : AccountInfo) (m m' : Machine) : Type 0 where
    pub a : Account
    pub cell : get_elem? m.cells buffer_info.account ≡ some a
    pub authority : deps.decode_state a.contents ≡ some (buffer (some authority_info.pubkey))
    pub signer : authority_info.is_signer ≡ true
    pub inside : metadata_len + offset + length bytes ≤ length a.contents
    pub written : m' ≡ record m {
      cells =
          set m.cells buffer_info.account
            (record a { contents = splice (metadata_len + offset) bytes a.contents });
    }

  -- A state that allows the write, and the write before the state is packed again.
  abbrev Allowed : UpgradeableLoaderState → AccountInfo → AccountInfo → Machine → Machine → Type 0
  Allowed s buffer_info authority_info m m' =
      (s ≡ buffer (some authority_info.pubkey))
      × (authority_info.is_signer ≡ true)
      × ((a : Account) × (get_elem? m.cells buffer_info.account ≡ some a)
          × (metadata_len + offset + length bytes ≤ length a.contents)
          × (m' ≡ record m {
            cells =
                set m.cells buffer_info.account
                  (record a { contents = splice (metadata_len + offset) bytes a.contents });
          }))

  copied :
      (n : ℕ) (info : AccountInfo) (a : Account) (m m' : Machine) (u : Unit {0})
      → get_elem? m.cells info.account ≡ some a
      → n ≡ metadata_len
      → wrapping_add (wrapping_add n offset) (length bytes) ≤ length a.contents
      → copy_into info
          (wrapping_add n offset)
          (wrapping_add (wrapping_add n offset) (length bytes))
          bytes
          m
        ≡ (ok u, m')
      → (b : Account) × (get_elem? m.cells info.account ≡ some b)
        × (metadata_len + offset + length bytes ≤ length b.contents)
        × (m' ≡ record m {
          cells =
              set m.cells info.account
                (record b { contents = splice (metadata_len + offset) bytes b.contents });
        })
  copied n info a m m' u cell one_size fits e =
      let start = metadata_len + offset in
      let from : start ≡ wrapping_add n offset = omega (arith, one_size, bounded) in
      let to : start + length bytes ≡ wrapping_add (wrapping_add n offset) (length bytes) =
        omega (arith, one_size, bounded) in
      let (b, cell', eq) = copy_into-ok info start (start + length bytes) bytes m m' u (
        ap (λ x. copy_into info x (start + length bytes) bytes m) from
        ∙ ap (λ x. copy_into info (wrapping_add n offset) x bytes m) to
        ∙ e) in
      let one : a ≡ b = cc in
      (b, cell', omega (arith, to, fits, ap (λ (x : Account). length x.contents) one), eq)

  write_buffer-ok :
      (s : UpgradeableLoaderState) (buffer_info authority_info : AccountInfo) (m m' : Machine)
      (u : Unit {0})
      → write_buffer deps s offset bytes buffer_info authority_info m ≡ (ok u, m')
      → Allowed s buffer_info authority_info m m'
  write_buffer-ok (buffer none) buffer_info authority_info m m' u e = cc
  write_buffer-ok uninitialized buffer_info authority_info m m' u e = cc
  write_buffer-ok (program _) buffer_info authority_info m m' u e = cc
  write_buffer-ok (program_data _ _) buffer_info authority_info m m' u e = cc
  write_buffer-ok (buffer (some k)) buffer_info authority_info m m' u e =
      let (same, e1) =
        raise_if-then (not (k == authority_info.pubkey)) (program_error_of incorrect_authority) _ m
          m' u e in
      let (signed, e2) =
        raise_if-then (not authority_info.is_signer) (program_error_of missing_required_signature) _
          m m' u e1 in
      let (n, size', e3) = or_abort-then (deps.serialized_size (buffer (some 0))) _ m m' u e2 in
      let (a, cell, e4) = borrow_data-then buffer_info _ m m' u e3 in
      let (fits, e5) =
        raise_if-then
          (ltb (length a.contents) (wrapping_add (wrapping_add n offset) (length bytes)))
          (program_error_of account_data_too_small) _ m m' u e4 in
      let one_size : n ≡ metadata_len = cc in
      let inside : wrapping_add (wrapping_add n offset) (length bytes) ≤ length a.contents =
        ground arith in
      (
        ap (λ j. buffer (some j)) ((==_iff k authority_info.pubkey).0 (not-false _ same)),
        not-false _ signed,
        copied n buffer_info a m m' u cell one_size inside e5,
      )

  -- A write to a buffer that succeeds is signed by the authority of the buffer, stays within its
  -- data, and changes the bytes from the offset behind the metadata on, and nothing else: not the
  -- metadata, which is packed again, not the length of the data and no other cell. Offsets do not
  -- wrap; bincode has one encoding for a state, which stands at the front and fills its size, and
  -- all buffers that have an authority have metadata of the same size.
  pub process_write_ok :
      (buffer_info authority_info : AccountInfo) (rest : List AccountInfo) (m m' : Machine)
      → process_write deps offset bytes (buffer_info ∷ authority_info ∷ rest) m ≡ (ok tt, m')
      → Wrote buffer_info authority_info m m'
  unfolding process_write
  process_write_ok buffer_info authority_info rest m m' e =
      let (a, cell, e1) = borrow_data-then buffer_info _ m m' tt e in
      let (s, reads, e2) =
        or_raise-then (deps.decode_state a.contents) (program_error_of invalid_account_data) _ m m'
          tt e1 in
      let (u, m1, e3, e4) =
        >>=-ok (write_buffer deps s offset bytes buffer_info authority_info) _ m m' tt e2 in
      let (state, signed, (b, cell', inside, eq)) =
        write_buffer-ok s buffer_info authority_info m m1 u e3 in
      let start = metadata_len + offset in
      let same : b ≡ a = cc in
      let changed = record b { contents = splice start bytes b.contents } in
      let there : get_elem? m1.cells buffer_info.account ≡ some changed =
        ap (λ (x : Machine). get_elem? x.cells buffer_info.account) eq
        ∙ get_elem?-set_self m.cells buffer_info.account changed
            (get_elem?-lt m.cells buffer_info.account cell) in
      let reads' : deps.decode_state b.contents ≡ some s =
        ap (λ (x : Account). deps.decode_state x.contents) same ∙ reads in
      let sized : deps.serialized_size s ≡ some metadata_len =
        ap deps.serialized_size state ∙ canonical.same_size authority_info.pubkey 0 ∙ size in
      let front =
        take-splice metadata_len start b.contents (bytes ++ drop (start + length bytes) b.contents)
          (omega arith) (omega (arith, inside)) in
      record {
        a = b;
        cell = cell';
        authority = reads' ∙ ap some state;
        signer = signed;
        inside = inside;
        written =
            pack_into_account-same deps canonical s buffer_info changed b.contents metadata_len m1
              m' tt there reads' sized front e4
            ∙ eq;
      }
