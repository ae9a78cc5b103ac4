-- ===== src/Runtime/Memory/Find.antt =====
-- One round of the loop that finds duplicate accounts.
use tiny_solana.Common.{
  ℕ, suc, ◌++◌, length, ◌%◌, ◌≡◌, inl, inr, some, List, [], ◌∷◌, arith, get_elem?, Option-cases,
}
use tiny_solana.Common.Result.{ok, ◌>>=◌, >>=-eq-ok}
use tiny_solana.Common.KeyMap
use tiny_solana.Common.KeyMap.{KeyMap}
use tiny_solana.Common.Word.{u64_mod}
use tiny_solana.Common.Digits.{le_bytes}
use tiny_solana.Types.{Bytes}
use tiny_solana.Accounts.{Account}
use tiny_solana.Runtime.{AccountInfo, borrowed}
use tiny_solana.Runtime.Memory.{
  SerializeAccount, original, duplicate, find_accounts, all_entries, length_bytes,
  serialize_parameters,
}

-- What one round of `find_accounts` has found.
pub data Found (cells : List Account) (i : ℕ) (seen : KeyMap ℕ) (info : AccountInfo)
    (infos : List AccountInfo) (entries : List SerializeAccount) : Type 0 where
  again :
      (first : ℕ) (rest : List SerializeAccount)
      → KeyMap.lookup info.pubkey seen ≡ some first
      → find_accounts cells (suc i) seen infos ≡ ok rest
      → entries ≡ duplicate (first % 256) ∷ rest
      → Found cells i seen info infos entries
  anew :
      (a : Account) (rest : List SerializeAccount)
      → get_elem? cells info.account ≡ some a
      → find_accounts cells (suc i) (KeyMap.insert info.pubkey i seen) infos ≡ ok rest
      → entries ≡ original info a ∷ rest
      → Found cells i seen info infos entries

pub find_accounts-cons :
    (cells : List Account) (i : ℕ) (seen : KeyMap ℕ) (info : AccountInfo) (infos : List AccountInfo)
    (entries : List SerializeAccount)
    → find_accounts cells i seen (info ∷ infos) ≡ ok entries
    → Found cells i seen info infos entries
unfolding find_accounts
find_accounts-cons cells i seen info infos entries e =
    elim (Option-cases (KeyMap.lookup info.pubkey seen)) [
      | inl fresh ↦
          let e1 : (borrowed (get_elem? cells info.account) >>= λ (a : Account).
          find_accounts cells (suc i) (KeyMap.insert info.pubkey i seen) infos
          >>= λ (rest : List SerializeAccount). ok (original info a ∷ rest))
              ≡ ok entries =
            rw (fresh, find_accounts) at e in
          let (a, cell, e2) = >>=-eq-ok (borrowed (get_elem? cells info.account)) _ e1 in
          let (rest, found, e3) =
            >>=-eq-ok (find_accounts cells (suc i) (KeyMap.insert info.pubkey i seen) infos) _ e2 in
          anew a rest (ground arith) found (ground arith)
      | inr (first, known) ↦
          let e1 : (find_accounts cells (suc i) seen infos >>= λ (rest : List SerializeAccount).
          ok (duplicate (first % 256) ∷ rest))
              ≡ ok entries =
            rw (known, find_accounts) at e in
          let (rest, found, e2) = >>=-eq-ok (find_accounts cells (suc i) seen infos) _ e1 in
          again first rest known found (ground arith)
    ]

-- The whole memory, with what `find_accounts` gave for its entries.
pub serialize_parameters_ok :
    (cells : List Account) (infos : List AccountInfo) (instruction_data input : Bytes)
    → serialize_parameters cells infos instruction_data ≡ ok input
    → (entries : List SerializeAccount) × (find_accounts cells 0 [] infos ≡ ok entries)
      × (input
          ≡ le_bytes 8 (length infos % u64_mod)
            ++ (all_entries entries ++ (length_bytes instruction_data ++ instruction_data)))
unfolding serialize_parameters
serialize_parameters_ok cells infos instruction_data input e =
    let (entries, found, e1) = >>=-eq-ok (find_accounts cells 0 [] infos) _ e in
    (entries, found, ground arith)
