-- ===== src/Runtime/Memory.antt =====
-- `serialize_parameters` of src/runtime.rs: the memory in which a VM program finds its accounts.
pub mod Read
pub mod Slices
pub mod Find
pub mod RoundTrip
pub mod Whole
pub mod Wrap
mod Tests
use tiny_solana.Common.{
  ℕ, zero, suc, ◌+◌, ◌-◌, ◌%◌, ◌^◌, ◌≡◌, Bool, true, false, not, ◌&&◌, Option, none, some, List, [],
  ◌∷◌, ◌++◌, ltb, leb, ◌==◌, length, get_elem?, take, drop, replicate, if◌then◌else◌,
}
use tiny_solana.Common.Result.{Result, ok, err, panic, ◌>>=◌}
use tiny_solana.Common.Word.{u64_mod, wrapping_add}
use tiny_solana.Common.Digits.{be_bytes, le_bytes, be_value, le_value}
use tiny_solana.Common.KeyMap
use tiny_solana.Common.KeyMap.{KeyMap}
use tiny_solana.Types.{Bytes}
use tiny_solana.Accounts.{Account}
use tiny_solana.Transactions.Errors.{ProgramError, invalid_account_data}
use tiny_solana.Runtime.{AccountInfo, borrowed}

abbrev pub non_dup_marker : ℕ
non_dup_marker = 255

pub data SerializeAccount : Type 0 where
  original : AccountInfo → Account → SerializeAccount
  duplicate : ℕ → SerializeAccount

-- The loop that finds duplicates, from the index on; an index is cut to a byte.
unfoldable pub find_accounts :
    List Account → ℕ → KeyMap ℕ → List AccountInfo → Result ProgramError (List SerializeAccount)
find_accounts cells i first_indices [] = ok []
find_accounts cells i first_indices (info ∷ infos) =
    elim (KeyMap.lookup info.pubkey first_indices) [
      | some first_index ↦ do
        rest ← find_accounts cells (suc i) first_indices infos
        ok (duplicate (first_index % 256) ∷ rest)
      | none ↦ do
        account ← borrowed (get_elem? cells info.account)
        rest ← find_accounts cells (suc i) (KeyMap.insert info.pubkey i first_indices) infos
        ok (original info account ∷ rest)
    ]

-- The bytes that fill the data up to a multiple of eight.
abbrev pub padding : ℕ → ℕ
padding len = (8 - len % 8) % 8

abbrev pub byte_of : Bool → ℕ
byte_of b = if b then 1 else 0

abbrev pub length_bytes : Bytes → Bytes
length_bytes bytes = le_bytes 8 (length bytes % u64_mod)

-- What is written of an account after its key.
abbrev pub state_bytes : Account → Bytes
state_bytes a =
    be_bytes 32 a.owner
    ++ (le_bytes 8 a.lamports
        ++ (length_bytes a.contents ++ (a.contents ++ replicate (padding (length a.contents)) 0)))

abbrev pub entry_bytes : SerializeAccount → Bytes
entry_bytes (original info a) =
    non_dup_marker
    ∷ byte_of info.is_signer
    ∷ byte_of info.is_writable
    ∷ (be_bytes 32 info.pubkey ++ state_bytes a)
entry_bytes (duplicate first_index) = first_index ∷ []

abbrev pub all_entries : List SerializeAccount → Bytes
all_entries [] = []
all_entries (e ∷ entries) = entry_bytes e ++ all_entries entries

-- `serialize_parameters`; a write to a vector does not fail, and its capacity is left out.
unfoldable pub serialize_parameters :
    List Account → List AccountInfo → Bytes → Result ProgramError Bytes
serialize_parameters cells infos instruction_data = do
  entries ← find_accounts cells 0 [] infos
  ok (
      le_bytes 8 (length infos % u64_mod)
      ++ (all_entries entries ++ (length_bytes instruction_data ++ instruction_data)))
