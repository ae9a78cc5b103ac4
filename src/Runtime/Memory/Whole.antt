-- ===== src/Runtime/Memory/Whole.antt =====
-- Reading back a whole memory as it was written.
use mathlib.Core.Path.{subst}
use mathlib.Core.List.{append_assoc}
use tiny_solana.Common.{
  ℕ, suc, ◌+◌, ◌%◌, ◌<◌, ◌≤◌, ◌≡◌, refl, ap, ◌∙◌, Bool, true, false, not, some, List, [], ◌∷◌, ◌++◌,
  arith, length, length-append, get_elem?, ◌==◌, leb,
}
use tiny_solana.Common.Result.{ok}
use tiny_solana.Common.Word.{u64_mod, wrapping_add}
use tiny_solana.Common.Digits.{be_bytes, le_bytes, length-be_bytes, length-le_bytes}
use tiny_solana.Common.KeyMap
use tiny_solana.Common.KeyMap.{KeyMap}
use tiny_solana.Types.{Bytes, Pubkey}
use tiny_solana.Accounts.{Account}
use tiny_solana.Runtime.{AccountInfo, Machine}
use tiny_solana.Runtime.Actions.{>>=-eq}
use tiny_solana.Runtime.Memory.{
  SerializeAccount, original, duplicate, non_dup_marker, byte_of, length_bytes, state_bytes,
  entry_bytes, all_entries, find_accounts, serialize_parameters,
}
use tiny_solana.Runtime.Memory.Read.{read_state, read_entry, read_accounts, deserialize_parameters}
use tiny_solana.Runtime.Memory.Find.{
  Found, again, anew, find_accounts-cons, serialize_parameters_ok,
}
use tiny_solana.Runtime.Memory.Slices.{At, At-advance, At-length, At-get_elem?}
use tiny_solana.Runtime.Memory.RoundTrip.{IsSized, read_writable-same, skip_read_only-same}

module _ (input : Bytes) (bounded : length input < u64_mod) where
  -- What stands before the state of an account.
  abbrev head_bytes : AccountInfo → Bytes
  head_bytes info =
      non_dup_marker ∷ byte_of info.is_signer ∷ byte_of info.is_writable ∷ be_bytes 32 info.pubkey

  length-head_bytes : (info : AccountInfo) → length (head_bytes info) ≡ 35
  length-head_bytes info = omega (arith, length-be_bytes 32 info.pubkey)

  read_state-same :
      (info : AccountInfo) (a : Account) (m : Machine) (offset : ℕ) (rest : Bytes) (writable : Bool)
      → At input offset (state_bytes a ++ rest)
      → get_elem? m.cells info.account ≡ some a
      → IsSized a
      → read_state input info offset writable m ≡ (ok (offset + length (state_bytes a)), m)
  read_state-same info a m offset rest true at cell sized =
      read_writable-same input bounded info a m offset rest at cell sized
  read_state-same info a m offset rest false at cell sized =
      skip_read_only-same input bounded info a m offset rest at

  flag-is_writable : (b : Bool) → not (byte_of b == 0) ≡ b
  flag-is_writable true = refl
  flag-is_writable false = refl

  read_original :
      (info : AccountInfo) (a : Account) (m : Machine) (offset : ℕ) (rest : Bytes)
      → At input offset (entry_bytes (original info a) ++ rest)
      → get_elem? m.cells info.account ≡ some a
      → IsSized a
      → read_entry input info offset false m
        ≡ (ok (offset + length (entry_bytes (original info a))), m)
  read_original info a m offset rest at cell sized =
      let at_flag =
        At-get_elem? input (offset + 2) (byte_of info.is_writable) _
          (At-advance input offset 2 (non_dup_marker ∷ byte_of info.is_signer ∷ []) _ at refl) in
      let at_state : At input (offset + 35) (state_bytes a ++ rest) =
        At-advance input offset 35 (head_bytes info) (state_bytes a ++ rest)
          (subst (At input offset) (append_assoc (head_bytes info) (state_bytes a) rest) at)
          (length-head_bytes info) in
      let size = At-length input (offset + 35) (state_bytes a ++ rest) at_state in
      let more = length-append (state_bytes a) rest in
      let two : wrapping_add offset 2 ≡ offset + 2 = omega (arith, size, more, bounded) in
      let thirty_five : wrapping_add offset 35 ≡ offset + 35 = omega (arith, size, more, bounded) in
      let end : offset + 35 + length (state_bytes a)
          ≡ offset + length (entry_bytes (original info a)) =
        omega (arith, length-head_bytes info, length-append (head_bytes info) (state_bytes a)) in
      rw (two, at_flag, flag-is_writable info.is_writable, thirty_five)
        (read_state-same info a m (offset + 35) rest info.is_writable at_state cell sized
          ∙ ap (λ n. (ok n, m)) end)

  read_duplicate :
      (info : AccountInfo) (m : Machine) (offset first : ℕ) (rest : Bytes)
      → At input offset (first ∷ rest)
      → read_entry input info offset true m ≡ (ok (offset + 1), m)
  read_duplicate info m offset first rest at =
      let size = At-length input offset (first ∷ rest) at in
      let one : wrapping_add offset 1 ≡ offset + 1 = omega (arith, size, bounded) in rw one refl

  -- One round of the loop.
  read_accounts-cons :
      (info : AccountInfo) (infos : List AccountInfo) (m : Machine) (offset next marker : ℕ)
      (rest : Bytes)
      → At input offset (marker ∷ rest)
      → read_entry input info offset (not (marker == non_dup_marker)) m ≡ (ok next, m)
      → read_accounts input (info ∷ infos) offset m ≡ read_accounts input infos next m
  unfolding read_accounts
  read_accounts-cons info infos m offset next marker rest at e =
      let size = At-length input offset (marker ∷ rest) at in
      let inside : leb (length input) offset ≡ false = ground (arith, size) in
      rw (inside, At-get_elem? input offset marker rest at)
        (>>=-eq (read_entry input info offset (not (marker == non_dup_marker))) _ m m next e)

abbrev AllBelow : ℕ → KeyMap ℕ → Type 0
AllBelow i seen = (k : Pubkey) (j : ℕ) → KeyMap.lookup k seen ≡ some j → j < i

AllBelow-insert :
    (i : ℕ) (k : Pubkey) (seen : KeyMap ℕ)
    → AllBelow i seen
    → AllBelow (suc i) (KeyMap.insert k i seen)
AllBelow-insert i k seen h j n e = ground (arith, KeyMap.lookup-insert j k i seen, h j n)

-- The accounts in cells are those of the types of their fields.
abbrev pub AreSized : List Account → Type 0
AreSized cells = (i : ℕ) (a : Account) → get_elem? cells i ≡ some a → IsSized a

module _ (input : Bytes) (bounded : length input < u64_mod) (m : Machine) where
  -- What the lemmas say of the accounts from an index on.
  abbrev ReadsSame : ℕ → KeyMap ℕ → List AccountInfo → List SerializeAccount → ℕ → Bytes → Type 0
  ReadsSame i seen infos entries offset rest =
      find_accounts m.cells i seen infos ≡ ok entries
      → i + length infos ≤ 255
      → AllBelow i seen
      → At input offset (all_entries entries ++ rest)
      → read_accounts input infos offset m ≡ (ok tt, m)

  entry-At :
      (e : SerializeAccount) (entries : List SerializeAccount) (offset : ℕ) (rest : Bytes)
      → At input offset (all_entries (e ∷ entries) ++ rest)
      → At input offset (entry_bytes e ++ (all_entries entries ++ rest))
  entry-At e entries offset rest at =
      subst (At input offset) (append_assoc (entry_bytes e) (all_entries entries) rest) at

  read_accounts-same :
      (sized : AreSized m.cells) (i : ℕ) (seen : KeyMap ℕ) (infos : List AccountInfo)
      (entries : List SerializeAccount) (offset : ℕ) (rest : Bytes)
      → ReadsSame i seen infos entries offset rest
  unfolding read_accounts find_accounts
  read_accounts-same sized i seen [] entries offset rest found few below at = refl
  read_accounts-same sized i seen (info ∷ infos) entries offset rest found few below at =
      go (find_accounts-cons m.cells i seen info infos entries found)
        (read_accounts-same sized (suc i) seen infos)
        (read_accounts-same sized (suc i) (KeyMap.insert info.pubkey i seen) infos)
    where
      go :
          Found m.cells i seen info infos entries
          → ((es : List SerializeAccount) (o : ℕ) (r : Bytes) → ReadsSame (suc i) seen infos es o r)
          → ((es : List SerializeAccount) (o : ℕ) (r : Bytes)
              → ReadsSame (suc i) (KeyMap.insert info.pubkey i seen) infos es o r)
          → read_accounts input (info ∷ infos) offset m ≡ (ok tt, m)
      go (again first es known found' eq) old new =
          let there = entry-At (duplicate (first % 256)) es offset rest (rw eq at at) in
          let small : first < 255 = omega (arith, below info.pubkey first known, few) in
          let dup : not (first % 256 == non_dup_marker) ≡ true = ground (arith, small) in
          read_accounts-cons input bounded info infos m offset (offset + 1) (first % 256)
            (all_entries es ++ rest) there
            (rw dup (
              read_duplicate input bounded info m offset (first % 256) (all_entries es ++ rest)
                there))
          ∙ old es (offset + 1) rest found' (omega (arith, few))
              (λ k j e. omega (arith, below k j e))
              (At-advance input offset 1 (first % 256 ∷ []) (all_entries es ++ rest) there refl)
      go (anew a es cell found' eq) old new =
          let entry = original info a in
          let there = entry-At entry es offset rest (rw eq at at) in
          read_accounts-cons input bounded info infos m offset (offset + length (entry_bytes entry))
            non_dup_marker _ there
            (read_original input bounded info a m offset (all_entries es ++ rest) there cell
              (sized info.account a cell))
          ∙ new es (offset + length (entry_bytes entry)) rest found' (omega (arith, few))
              (AllBelow-insert i info.pubkey seen below)
              (At-advance input offset (length (entry_bytes entry)) (entry_bytes entry)
                (all_entries es ++ rest) there refl)

-- Reading back the memory as it was written succeeds and changes nothing, read-only and duplicate
-- accounts included. There are 255 infos at most, the memory is of a size that a `usize` counts, and
-- the numbers in the cells are those of their types.
pub deserialize_parameters-serialize_parameters :
    (infos : List AccountInfo) (instruction_data input : Bytes) (m : Machine)
    → AreSized m.cells
    → length infos ≤ 255
    → length input < u64_mod
    → serialize_parameters m.cells infos instruction_data ≡ ok input
    → deserialize_parameters infos input m ≡ (ok tt, m)
unfolding deserialize_parameters
deserialize_parameters-serialize_parameters infos instruction_data input m sized few bounded e =
    let (entries, found, eq) = serialize_parameters_ok m.cells infos instruction_data input e in
    let count = le_bytes 8 (length infos % u64_mod) in
    let rest : Bytes = length_bytes instruction_data ++ instruction_data in
    read_accounts-same input bounded m sized 0 [] infos entries 8 rest found (omega (arith, few))
      (λ k j e. cc)
      (At-advance input 0 8 count (all_entries entries ++ rest) ([], eq, refl)
        (length-le_bytes 8 (length infos % u64_mod)))
