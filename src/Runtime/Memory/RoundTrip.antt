-- ===== src/Runtime/Memory/RoundTrip.antt =====
-- Reading back the memory that was written.
use mathlib.Core.Path.{subst}
use mathlib.Core.List.{append_assoc}
use tiny_solana.Common.{
  ℕ, zero, suc, ◌+◌, ◌^◌, ◌%◌, ◌<◌, ◌≤◌, ◌≡◌, refl, sym, ap, ◌∙◌, false, some, List, ◌++◌, arith,
  length, length-append, get_elem?, set, replicate, ltb,
}
use tiny_solana.Common.Result.{ok}
use tiny_solana.Common.Word.{u64_mod, wrapping_add}
use tiny_solana.Common.Digits.{
  be_bytes, le_bytes, le_value, length-be_bytes, length-le_bytes, be_value-be_bytes,
  le_value-le_bytes,
}
use tiny_solana.Types.{Bytes}
use tiny_solana.Accounts.{Account}
use tiny_solana.Runtime.{AccountInfo, Machine, get_cell, set_owner, set_lamports, set_data}
use tiny_solana.Runtime.Actions.{>>=-eq}
use tiny_solana.Runtime.Cells.{set-same}
use tiny_solana.Runtime.Memory.{padding, length_bytes, state_bytes}
use tiny_solana.Runtime.Memory.Read.{
  checked_slice, checked_offset, read_data, read_writable, skip_read_only,
}
use tiny_solana.Runtime.Memory.Slices.{At, At-advance, At-length, At-checked_slice}

-- The numbers of an account are those of its fields' types.
abbrev pub IsSized : Account → Type 0
IsSized a = (a.owner < 256 ^ 32) × (a.lamports < 256 ^ 8)

length-replicate : (n : ℕ) → length {A = ℕ} (replicate n 0) ≡ n
length-replicate zero = refl
length-replicate (suc n) = ap suc (length-replicate n)

module _ (info : AccountInfo) (a : Account) (m : Machine)
    (cell : get_elem? m.cells info.account ≡ some a) where
  same_cells : record m { cells = set m.cells info.account a } ≡ m
  same_cells =
      ap (λ (x : List Account). record m { cells = x }) (set-same m.cells info.account a cell)

  -- Writing what stands there changes nothing.
  set_owner-same : set_owner info a.owner m ≡ (ok tt, m)
  set_owner-same = rw (cell, set_owner) (ap (λ x. (ok tt, x)) same_cells)

  set_lamports-same : set_lamports info a.lamports m ≡ (ok tt, m)
  set_lamports-same = rw (cell, set_lamports) (ap (λ x. (ok tt, x)) same_cells)

  set_data-same : set_data info a.contents m ≡ (ok tt, m)
  set_data-same = rw (cell, set_data) (ap (λ x. (ok tt, x)) same_cells)

  get_cell-same : get_cell info.account m ≡ (ok a, m)
  get_cell-same = rw (cell, get_cell) refl

checked_offset-ok :
    (input : Bytes) (offset : ℕ) (m : Machine)
    → offset ≤ length input
    → checked_offset input offset m ≡ (ok offset, m)
checked_offset-ok input offset m h =
    let within : ltb (length input) offset ≡ false = ground arith in rw within refl

module _ (input : Bytes) (bounded : length input < u64_mod) where
  -- The length, the data and the padding of an account.
  abbrev pub data_bytes : Account → Bytes
  data_bytes a =
      length_bytes a.contents ++ (a.contents ++ replicate (padding (length a.contents)) 0)

  length_bytes-value : (xs : Bytes) → length xs < u64_mod → le_value (length_bytes xs) ≡ length xs
  length_bytes-value xs h =
      let small : length xs % u64_mod ≡ length xs = omega arith in
      rw small (le_value-le_bytes 8 (length xs) (omega arith))

  length-data_bytes :
      (a : Account) → length (data_bytes a) ≡ 8 + length a.contents + padding (length a.contents)
  length-data_bytes a = omega (
    arith,
    length-append (length_bytes a.contents)
        (a.contents ++ replicate (padding (length a.contents)) 0),
    length-le_bytes 8 (length a.contents % u64_mod),
    length-append a.contents (replicate (padding (length a.contents)) 0),
    length-replicate (padding (length a.contents)),
  )

  read_data-same :
      (info : AccountInfo) (a : Account) (m : Machine) (offset : ℕ) (rest : Bytes)
      → get_elem? m.cells info.account ≡ some a
      → At input offset (data_bytes a ++ rest)
      → read_data input info offset m ≡ (ok (offset + length (data_bytes a)), m)
  unfolding read_data
  read_data-same info a m offset rest cell at =
      let pad : Bytes = replicate (padding (length a.contents)) 0 in
      let shape : data_bytes a ++ rest ≡ length_bytes a.contents ++ (a.contents ++ (pad ++ rest)) =
        append_assoc (length_bytes a.contents) (a.contents ++ pad) rest
        ∙ ap (λ x. length_bytes a.contents ++ x) (append_assoc a.contents pad rest) in
      let at1 : At input offset (length_bytes a.contents ++ (a.contents ++ (pad ++ rest))) =
        rw (sym shape) at in
      let eight = length-le_bytes 8 (length a.contents % u64_mod) in
      let at2 : At input (offset + 8) (a.contents ++ (pad ++ rest)) =
        At-advance input offset 8 (length_bytes a.contents) (a.contents ++ (pad ++ rest)) at1
          eight in
      let size = At-length input offset (data_bytes a ++ rest) at in
      let size_rest = length-append (data_bytes a) rest in
      let size_data = length-data_bytes a in
      let value =
        length_bytes-value a.contents (omega (arith, size, size_rest, size_data, bounded)) in
      let start : wrapping_add offset 8 ≡ offset + 8 =
        omega (arith, size, size_rest, size_data, bounded) in
      let end : wrapping_add (offset + 8)
            (wrapping_add (length a.contents) (padding (length a.contents)))
          ≡ offset + length (data_bytes a) =
        omega (arith, size, size_rest, size_data, bounded) in
      >>=-eq (checked_slice input offset 8) _ m m (length_bytes a.contents)
        (At-checked_slice input offset 8 (length_bytes a.contents) _ m at1 eight bounded)
      ∙ rw (value, start)
          (>>=-eq (checked_slice input (offset + 8) (length a.contents)) _ m m a.contents (
              At-checked_slice input (offset + 8) (length a.contents) a.contents _ m at2 refl
                bounded)
            ∙ (>>=-eq (set_data info a.contents) _ m m tt (set_data-same info a m cell)
                ∙ rw end (
                    checked_offset-ok input (offset + length (data_bytes a)) m
                      (omega (arith, size, size_rest)))))

  pub length-state_bytes : (a : Account) → length (state_bytes a) ≡ 40 + length (data_bytes a)
  length-state_bytes a = omega (
    arith,
    length-append (be_bytes 32 a.owner) (le_bytes 8 a.lamports ++ data_bytes a),
    length-be_bytes 32 a.owner,
    length-append (le_bytes 8 a.lamports) (data_bytes a),
    length-le_bytes 8 a.lamports,
  )

  module _ (info : AccountInfo) (a : Account) (m : Machine) (offset : ℕ) (rest : Bytes)
      (at : At input offset (state_bytes a ++ rest)) where
    At-owner :
        At input offset (be_bytes 32 a.owner ++ (le_bytes 8 a.lamports ++ (data_bytes a ++ rest)))
    At-owner =
        rw
          (sym (
            append_assoc (be_bytes 32 a.owner) (le_bytes 8 a.lamports ++ data_bytes a) rest
            ∙ ap (λ x. be_bytes 32 a.owner ++ x)
                (append_assoc (le_bytes 8 a.lamports) (data_bytes a) rest)))
          at

    At-lamports : At input (offset + 32) (le_bytes 8 a.lamports ++ (data_bytes a ++ rest))
    At-lamports =
        At-advance input offset 32 (be_bytes 32 a.owner) _ At-owner (length-be_bytes 32 a.owner)

    At-data : At input (offset + 32 + 8) (data_bytes a ++ rest)
    At-data =
        At-advance input (offset + 32) 8 (le_bytes 8 a.lamports) _ At-lamports
          (length-le_bytes 8 a.lamports)

    pub sizes : offset + 40 + length (data_bytes a) + length rest ≡ length input
    sizes = omega (
      arith,
      At-length input offset (state_bytes a ++ rest) at,
      length-append (state_bytes a) rest,
      length-state_bytes a,
    )

    At-data_40 : At input (offset + 40) (data_bytes a ++ rest)
    At-data_40 =
        let forty : offset + 32 + 8 ≡ offset + 40 = omega arith in
        subst (λ n. At input n (data_bytes a ++ rest)) forty At-data

    pub read_writable-same :
        get_elem? m.cells info.account ≡ some a
        → IsSized a
        → read_writable input info offset m ≡ (ok (offset + length (state_bytes a)), m)
    unfolding read_writable
    read_writable-same cell sized =
        let second : wrapping_add offset 32 ≡ offset + 32 = omega (arith, sizes, bounded) in
        let third : wrapping_add offset 40 ≡ offset + 40 = omega (arith, sizes, bounded) in
        let end : offset + 40 + length (data_bytes a) ≡ offset + length (state_bytes a) =
          omega (arith, length-state_bytes a) in
        >>=-eq (get_cell info.account) _ m m a (get_cell-same info a m cell)
        ∙ (>>=-eq (checked_slice input offset 32) _ m m (be_bytes 32 a.owner) (
              At-checked_slice input offset 32 (be_bytes 32 a.owner) _ m At-owner
                (length-be_bytes 32 a.owner) bounded)
            ∙ rw (be_value-be_bytes 32 a.owner sized.0, second, third)
                (>>=-eq (set_owner info a.owner) _ m m tt (set_owner-same info a m cell)
                  ∙ (>>=-eq (checked_slice input (offset + 32) 8) _ m m (le_bytes 8 a.lamports) (
                        At-checked_slice input (offset + 32) 8 (le_bytes 8 a.lamports) _ m
                          At-lamports (length-le_bytes 8 a.lamports) bounded)
                      ∙ rw (le_value-le_bytes 8 a.lamports sized.1) (
                          >>=-eq (set_lamports info a.lamports) _ m m tt
                            (set_lamports-same info a m cell)
                          ∙ (read_data-same info a m (offset + 40) rest cell At-data_40
                              ∙ ap (λ n. (ok n, m)) end)))))

    pub skip_read_only-same :
        skip_read_only input offset m ≡ (ok (offset + length (state_bytes a)), m)
    unfolding skip_read_only
    skip_read_only-same =
        let pad : Bytes = replicate (padding (length a.contents)) 0 in
        let third : wrapping_add offset 40 ≡ offset + 40 = omega (arith, sizes, bounded) in
        let size = length-data_bytes a in
        let whole = length-state_bytes a in
        let value = length_bytes-value a.contents (omega (arith, size, sizes, bounded)) in
        let end : wrapping_add offset
              (wrapping_add 48 (wrapping_add (length a.contents) (padding (length a.contents))))
            ≡ offset + length (state_bytes a) =
          omega (arith, size, whole, sizes, bounded) in
        let at : At input (offset + 40) (length_bytes a.contents ++ ((a.contents ++ pad) ++ rest)) =
          subst (At input (offset + 40))
            (append_assoc (length_bytes a.contents) (a.contents ++ pad) rest) At-data_40 in
        rw third (
          >>=-eq (checked_slice input (offset + 40) 8) _ m m (length_bytes a.contents) (
            At-checked_slice input (offset + 40) 8 (length_bytes a.contents) _ m at
              (length-le_bytes 8 (length a.contents % u64_mod)) bounded)
          ∙ rw (value, end)
              (checked_offset-ok input (offset + length (state_bytes a)) m
                (omega (arith, whole, sizes))))
