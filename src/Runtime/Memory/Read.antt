-- ===== src/Runtime/Memory/Read.antt =====
-- `deserialize_parameters` of src/runtime.rs. Offsets are those of a `usize`, which wrap in a release
-- build; an index or a slice out of range panics.
use tiny_solana.Common.{
  ℕ, ◌-◌, Bool, true, false, not, ◌&&◌, none, some, List, [], ◌∷◌, ltb, leb, ◌==◌, length,
  get_elem?, take, drop, if◌then◌else◌,
}
use tiny_solana.Common.Result.{ok}
use tiny_solana.Common.Word.{wrapping_add}
use tiny_solana.Common.Digits.{be_value, le_value}
use tiny_solana.Types.{Bytes}
use tiny_solana.Transactions.Errors.{invalid_account_data}
use tiny_solana.Runtime.{
  AccountInfo, Action, pure, ◌>>=◌, ◌>>◌, raise_if, or_abort, get_cell, set_owner, set_lamports,
  set_data,
}
use tiny_solana.Runtime.Memory.{non_dup_marker, padding}

module _ (input : Bytes) where
  -- `input[i]`
  abbrev pub byte_at : ℕ → Action ℕ
  byte_at i = or_abort (get_elem? input i)

  -- `&input[start..end]`
  abbrev pub slice : ℕ → ℕ → Action Bytes
  slice start end = or_abort (
      if leb start end && leb end (length input)
      then some (take (end - start) (drop start input))
      else none)

  -- `if offset + len > input_len { return Err(…); }`, then the slice of that length
  abbrev pub checked_slice : ℕ → ℕ → Action Bytes
  checked_slice offset len = do
    raise_if (ltb (length input) (wrapping_add offset len)) invalid_account_data
    slice offset (wrapping_add offset len)

  -- `if offset > input_len { return Err(…); }`, and the offset
  abbrev pub checked_offset : ℕ → Action ℕ
  checked_offset offset = do raise_if (ltb (length input) offset) invalid_account_data; pure offset

  -- The data of a writable account, from the offset of its length on.
  unfoldable pub read_data : AccountInfo → ℕ → Action ℕ
  read_data info offset = do
    len_bytes ← checked_slice offset 8
    let data_len = le_value len_bytes
    let start = wrapping_add offset 8
    bytes ← checked_slice start data_len
    set_data info bytes
    checked_offset (wrapping_add start (wrapping_add data_len (padding data_len)))

  -- A writable account, from the offset of its owner on; the offset behind it.
  unfoldable pub read_writable : AccountInfo → ℕ → Action ℕ
  read_writable info offset = do
    get_cell info.account
    owner_bytes ← checked_slice offset 32
    set_owner info (be_value owner_bytes)
    lamports_bytes ← checked_slice (wrapping_add offset 32) 8
    set_lamports info (le_value lamports_bytes)
    read_data info (wrapping_add offset 40)

  -- An account that is not writable: only the length of its data is read.
  unfoldable pub skip_read_only : ℕ → Action ℕ
  skip_read_only offset = do
    len_bytes ← checked_slice (wrapping_add offset 40) 8
    let data_len = le_value len_bytes
    checked_offset
        (wrapping_add offset (wrapping_add 48 (wrapping_add data_len (padding data_len))))

  abbrev pub read_state : AccountInfo → ℕ → Bool → Action ℕ
  read_state info offset writable =
      if writable then read_writable info offset else skip_read_only offset

  -- An account behind its marker at the offset; a duplicate has no more than that.
  abbrev pub read_entry : AccountInfo → ℕ → Bool → Action ℕ
  read_entry info offset is_duplicate m = elim is_duplicate [
    | true ↦ (ok (wrapping_add offset 1), m)
    | false ↦
        (do
          flag ← byte_at (wrapping_add offset 2)
          read_state info (wrapping_add offset 35) (not (flag == 0)))
          m
  ]

  unfoldable pub read_accounts : List AccountInfo → ℕ → Action (Unit {0})
  read_accounts [] offset = pure tt
  read_accounts (info ∷ infos) offset = do
    raise_if (leb (length input) offset) invalid_account_data
    marker ← byte_at offset
    next ← read_entry info offset (not (marker == non_dup_marker))
    read_accounts infos next

-- `deserialize_parameters`, which skips the number of accounts
unfoldable pub deserialize_parameters : List AccountInfo → Bytes → Action (Unit {0})
deserialize_parameters infos input = read_accounts input infos 8
