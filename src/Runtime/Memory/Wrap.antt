-- ===== src/Runtime/Memory/Wrap.antt =====
-- A length that a VM program writes into its memory.
use tiny_solana.Common.{
  ℕ, ◌+◌, ◌-◌, ◌<◌, ◌≤◌, suc, ◌≡◌, ◌≢◌, refl, ap, ◌∙◌, true, false, not, some, List, [], ◌∷◌, ◌++◌,
  arith, length, length-append, get_elem?, set, get_elem?-set_self, get_elem?-lt, ◌==◌, leb, ltb,
}
use tiny_solana.Common.Result.{ok, panic}
use tiny_solana.Common.Word.{u64_mod, wrapping_add}
use tiny_solana.Common.Digits.{be_value, le_value}
use tiny_solana.Types.{Bytes, Pubkey}
use tiny_solana.Accounts.{Account}
use tiny_solana.Runtime.{AccountInfo, Machine, Action, get_cell, set_owner, set_lamports, ◌>>=◌}
use tiny_solana.Runtime.Actions.{>>=-eq}
use tiny_solana.Runtime.Memory.{non_dup_marker}
use tiny_solana.Runtime.Memory.Read.{
  checked_slice, read_data, read_writable, read_entry, read_accounts, deserialize_parameters,
}
use tiny_solana.Runtime.Memory.Slices.{At, At-advance, At-length, At-get_elem?, At-checked_slice}

-- A check that wraps lets a slice through whose end is before its start.
checked_slice_wraps :
    (input : Bytes) (start len : ℕ) (m : Machine)
    → start ≤ length input
    → length input < u64_mod
    → len < u64_mod
    → u64_mod ≤ start + len
    → checked_slice input start len m ≡ (panic, m)
checked_slice_wraps input start len m inside bounded small wraps =
    let end : wrapping_add start len ≡ start + len - u64_mod = omega arith in
    let passes : ltb (length input) (start + len - u64_mod) ≡ false = ground arith in
    let before : leb start (start + len - u64_mod) ≡ false = ground arith in
    rw (end, passes, before) refl

-- A step that panics ends the chain.
>>=-panic :
    {A B : Type 0} (c : Action A) (f : A → Action B) (m m1 : Machine)
    → c m ≡ (panic, m1)
    → (c >>= f) m ≡ (panic, m1)
>>=-panic c f m m1 e = rw (e, ◌>>=◌) refl

set_owner-ok :
    (info : AccountInfo) (a : Account) (k : Pubkey) (m : Machine)
    → get_elem? m.cells info.account ≡ some a
    → (m1 : Machine) × (b : Account) × (set_owner info k m ≡ (ok tt, m1))
      × (get_elem? m1.cells info.account ≡ some b)
set_owner-ok info a k m cell =
    let b : Account = record a { owner = k } in
    (
      record m { cells = set m.cells info.account b },
      b,
      rw (cell, set_owner) refl,
      get_elem?-set_self m.cells info.account b (get_elem?-lt m.cells info.account cell),
    )

set_lamports-ok :
    (info : AccountInfo) (a : Account) (n : ℕ) (m : Machine)
    → get_elem? m.cells info.account ≡ some a
    → (m1 : Machine) × (set_lamports info n m ≡ (ok tt, m1))
set_lamports-ok info a n m cell = (
  record m { cells = set m.cells info.account (record a { lamports = n }) },
  rw (cell, set_lamports) refl,
)

-- A written account of a memory: its head, its owner, its lamports, and the eight bytes that are
-- taken for the length of its data.
pub record Written (input count key owner lamports len_bytes rest : Bytes) (signer writable : ℕ)
    : Type 0 where
  pub counted : length count ≡ 8
  pub keyed : length key ≡ 32
  pub owned : length owner ≡ 32
  pub paid : length lamports ≡ 8
  pub measured : length len_bytes ≡ 8
  pub shape :
      input
      ≡ count
        ++ (non_dup_marker
            ∷ signer
            ∷ writable
            ∷ (key ++ (owner ++ (lamports ++ (len_bytes ++ rest)))))

module _ (input count key owner lamports len_bytes rest : Bytes) (signer writable : ℕ)
    (w : Written input count key owner lamports len_bytes rest signer writable)
    (bounded : length input < u64_mod) where
  At-marker :
      At input 8
        (non_dup_marker ∷ signer ∷ writable ∷ (key ++ (owner ++ (lamports ++ (len_bytes ++ rest)))))
  At-marker = (count, w.shape, w.counted)

  At-flag : At input 10 (writable ∷ (key ++ (owner ++ (lamports ++ (len_bytes ++ rest)))))
  At-flag = At-advance input 8 2 (non_dup_marker ∷ signer ∷ []) _ At-marker refl

  At-owner : At input 43 (owner ++ (lamports ++ (len_bytes ++ rest)))
  At-owner = At-advance input 10 33 (writable ∷ key) _ At-flag (ap suc w.keyed)

  At-lamports : At input 75 (lamports ++ (len_bytes ++ rest))
  At-lamports = At-advance input 43 32 owner _ At-owner w.owned

  At-len : At input 83 (len_bytes ++ rest)
  At-len = At-advance input 75 8 lamports _ At-lamports w.paid

  sizes : 91 + length rest ≡ length input
  sizes = omega (
    arith,
    At-length input 83 (len_bytes ++ rest) At-len,
    length-append len_bytes rest,
    w.measured,
  )

  module _ (info : AccountInfo) (small : le_value len_bytes < u64_mod)
      (wraps : u64_mod ≤ 91 + le_value len_bytes) where
    read_data_wraps : (m : Machine) → read_data input info 83 m ≡ (panic, m)
    unfolding read_data
    read_data_wraps m =
        >>=-eq (checked_slice input 83 8) _ m m len_bytes
          (At-checked_slice input 83 8 len_bytes rest m At-len w.measured bounded)
        ∙ >>=-panic (checked_slice input 91 (le_value len_bytes)) _ m m (
            checked_slice_wraps input 91 (le_value len_bytes) m (omega (arith, sizes)) bounded small
              wraps)

    read_writable_wraps :
        (m : Machine) (a : Account)
        → get_elem? m.cells info.account ≡ some a
        → (m1 : Machine) × (read_writable input info 43 m ≡ (panic, m1))
    unfolding read_writable
    read_writable_wraps m a cell =
        let (m1, b, writes, cell1) = set_owner-ok info a (be_value owner) m cell in
        let (m2, pays) = set_lamports-ok info b (le_value lamports) m1 cell1 in
        (
          m2,
          >>=-eq (get_cell info.account) _ m m a (rw (cell, get_cell) refl)
              ∙ (>>=-eq (checked_slice input 43 32) _ m m owner
                    (At-checked_slice input 43 32 owner _ m At-owner w.owned bounded)
                  ∙ (>>=-eq (set_owner info (be_value owner)) _ m m1 tt writes
                      ∙ (>>=-eq (checked_slice input 75 8) _ m1 m1 lamports
                            (At-checked_slice input 75 8 lamports _ m1 At-lamports w.paid bounded)
                          ∙ (>>=-eq (set_lamports info (le_value lamports)) _ m1 m2 tt pays
                              ∙ read_data_wraps m2)))),
        )

    -- Reading back a memory panics when the bytes for the length of the data of its first account,
    -- which it takes for writable, count so far behind the memory that the offset at their end
    -- wraps. The account is in its cell, and the memory is of a size that a `usize` counts.
    pub deserialize_parameters_panics :
        (infos : List AccountInfo) (m : Machine) (a : Account)
        → get_elem? m.cells info.account ≡ some a
        → writable ≢ 0
        → (deserialize_parameters (info ∷ infos) input m).0 ≡ panic
    unfolding deserialize_parameters read_accounts
    deserialize_parameters_panics infos m a cell flagged =
        let (m1, e) = read_writable_wraps m a cell in
        let inside : leb (length input) 8 ≡ false = ground (arith, sizes) in
        let flag : not (writable == 0) ≡ true = ground (arith, flagged) in
        let entry : read_entry input info 8 false m ≡ (panic, m1) =
          rw (At-get_elem? input 10 writable _ At-flag, flag) e in
        rw (inside, At-get_elem? input 8 non_dup_marker _ At-marker)
          (ap (λ p. p.0) (>>=-panic (read_entry input info 8 false) _ m m1 entry))
