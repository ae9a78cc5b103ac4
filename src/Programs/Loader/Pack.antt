-- ===== src/Programs/Loader/Pack.antt =====
-- Packed states of the loader, and bytes copied into data.
use tiny_solana.Common.{
  ℕ, zero, suc, ◌+◌, ◌-◌, ◌≤◌, ◌≡◌, refl, sym, ap, ◌∙◌, inl, inr, ◌&&◌, none, some, List, [], ◌∷◌,
  ◌++◌, arith, take, drop, get_elem?, set, length, if◌then◌else◌, ltb, leb, ◌==◌, Bool-cases,
}
use tiny_solana.Common.Result.{ok}
use tiny_solana.Types.{Pubkey, Bytes}
use tiny_solana.Accounts.{Account}
use tiny_solana.Transactions.Errors.{internal_error}
use tiny_solana.Runtime.{AccountInfo, Machine, set_data}
use tiny_solana.Runtime.Cells.{set-same}
use tiny_solana.Runtime.Actions.{
  >>=-ok, raise_if-then, or_raise-then, or_abort-ok, borrow_data-then, with_front,
}
use tiny_solana.Runtime.Memory.Read.{slice}
use tiny_solana.Programs.Loader.{
  program_data, UpgradeableLoaderState, buffer, LoaderDeps, program_error_of,
  account_data_too_small, copy_into, pack_into_account,
}

-- The bytes from the start on, replaced.
abbrev pub splice : ℕ → Bytes → Bytes → Bytes
splice start bytes old = take start old ++ (bytes ++ drop (start + length bytes) old)

pub take-splice :
    (n start : ℕ) (old ys : Bytes)
    → n ≤ start
    → start ≤ length old
    → take n (take start old ++ ys) ≡ take n old
take-splice zero start old ys h k = refl
take-splice (suc n) zero old ys h k = absurd (omega arith)
take-splice (suc n) (suc start) [] ys h k = absurd (omega arith)
take-splice (suc n) (suc start) (x ∷ old) ys h k =
    ap (λ l. x ∷ l) (take-splice n start old ys (omega arith) (omega arith))

take-drop : (n : ℕ) (xs : Bytes) → take n xs ++ drop n xs ≡ xs
take-drop zero xs = refl
take-drop (suc n) [] = refl
take-drop (suc n) (x ∷ xs) = ap (λ l. x ∷ l) (take-drop n xs)

pub copy_into-ok :
    (info : AccountInfo) (start end : ℕ) (bytes : Bytes) (m m' : Machine) (u : Unit {0})
    → copy_into info start end bytes m ≡ (ok u, m')
    → (a : Account) × (get_elem? m.cells info.account ≡ some a)
      × (m' ≡ record m {
        cells =
            set m.cells info.account
              (record a { contents = take start a.contents ++ (bytes ++ drop end a.contents) });
      })
unfolding copy_into
copy_into-ok info start end bytes m m' u e =
    let (a, cell, e1) = borrow_data-then info _ m m' u e in
    let (place, m1, e2, e3) = >>=-ok (slice a.contents start end) _ m m' u e1 in
    let (_, same) =
      or_abort-ok
        (if leb start end && leb end (length a.contents)
          then some (take (end - start) (drop start a.contents))
          else none)
        m m1 place e2 in
    elim (Bool-cases (length place == length bytes)) [
      | inl fits ↦ (a, cell, ground arith)
      | inr misfit ↦ absurd (ground arith)
    ]

-- What the code relies on: an encoding fills its size and is read back from the front of any data, a
-- state that is read stands there in its one encoding, and the keys of authorities and the slot do
-- not change the size.
pub record IsCanonical {Rent : Type 0} (deps : LoaderDeps Rent) : Type 0 where
  pub sized :
      (s : UpgradeableLoaderState) (n : ℕ) (b : Bytes)
      → deps.serialized_size s ≡ some n
      → deps.serialize_into n s ≡ some b
      → length b ≡ n
  pub reads :
      (s : UpgradeableLoaderState) (n : ℕ) (b rest : Bytes)
      → deps.serialized_size s ≡ some n
      → deps.serialize_into n s ≡ some b
      → deps.decode_state (b ++ rest) ≡ some s
  pub stands :
      (s : UpgradeableLoaderState) (n : ℕ) (b d : Bytes)
      → deps.decode_state d ≡ some s
      → deps.serialized_size s ≡ some n
      → deps.serialize_into n s ≡ some b
      → take n d ≡ b
  pub same_size :
      (j k : Pubkey)
      → deps.serialized_size (buffer (some j)) ≡ deps.serialized_size (buffer (some k))
  pub same_size_data :
      (slot : ℕ) (k : Pubkey)
      → deps.serialized_size (program_data slot (some k))
        ≡ deps.serialized_size (program_data 0 (some 0))

module _ {Rent : Type 0} (deps : LoaderDeps Rent) where
  -- Packing that succeeds has written the encoding to the front of the data.
  pub pack_into_account-ok :
      (s : UpgradeableLoaderState) (info : AccountInfo) (m m' : Machine) (u : Unit {0})
      → pack_into_account deps s info m ≡ (ok u, m')
      → (n : ℕ) × (a : Account) × (b : Bytes) × (deps.serialized_size s ≡ some n)
        × (get_elem? m.cells info.account ≡ some a)
        × (n ≤ length a.contents)
        × (deps.serialize_into n s ≡ some b)
        × (m' ≡ record m { cells = set m.cells info.account (with_front b a) })
  unfolding pack_into_account
  pack_into_account-ok s info m m' u e =
      let (n, size, e1) =
        or_raise-then (deps.serialized_size s) (internal_error "failed to get serialized size") _ m
          m' u e in
      let (a, cell, e2) = borrow_data-then info _ m m' u e1 in
      let (fits, e3) =
        raise_if-then (ltb (length a.contents) n) (program_error_of account_data_too_small) _ m m' u
          e2 in
      let (b, writes, e4) =
        or_raise-then (deps.serialize_into n s)
          (internal_error "failed to serialize state into account") _ m m' u e3 in
      (n, a, b, size, cell, ground arith, writes, ap (λ p. p.1) (sym e4) ∙ rw (cell, set_data) refl)

module _ {Rent : Type 0} (deps : LoaderDeps Rent) (canonical : IsCanonical deps) where
  -- Packing a state over itself, with the rest changed behind it, changes nothing.
  pub pack_into_account-same :
      (s : UpgradeableLoaderState) (info : AccountInfo) (a : Account) (d : Bytes) (n : ℕ)
      (m m' : Machine) (u : Unit {0})
      → get_elem? m.cells info.account ≡ some a
      → deps.decode_state d ≡ some s
      → deps.serialized_size s ≡ some n
      → take n a.contents ≡ take n d
      → pack_into_account deps s info m ≡ (ok u, m')
      → m' ≡ m
  pack_into_account-same s info a d n m m' u cell reads size front e =
      let (n', c, b, size', cell', fits, writes, eq) = pack_into_account-ok deps s info m m' u e in
      let one : c ≡ a = cc in
      let one_size : n' ≡ n = cc in
      let filled = canonical.sized s n' b size' writes in
      let stands = canonical.stands s n' b d reads size' writes in
      let prefix : b ≡ take n a.contents = sym stands ∙ ap (λ x. take x d) one_size ∙ sym front in
      let whole : b ++ drop (length b) a.contents ≡ a.contents =
        ap (λ x. b ++ drop x a.contents) (filled ∙ one_size)
        ∙ ap (λ x. x ++ drop n a.contents) prefix
        ∙ take-drop n a.contents in
      eq
      ∙ ap (λ (x : Account). record m { cells = set m.cells info.account (with_front b x) }) one
      ∙ ap
          (λ (x : Bytes). record m { cells = set m.cells info.account (record a { contents = x }) })
          whole
      ∙ ap (λ (x : List Account). record m { cells = x }) (set-same m.cells info.account a cell)
