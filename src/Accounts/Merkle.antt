-- ===== src/Accounts/Merkle.antt =====
-- `hash_accounts` of src/accounts.rs: the root of a Merkle tree over the sorted hashes of accounts.
-- The bytes of an account are those of bincode for the pair of its key and itself, `none` where
-- that fails; a digest is compared like its big-endian number.
use mathlib.Core.Option
use mathlib.Core.List.{Perm, foldr}
use mathlib.Core.List.Perm
use tiny_solana.Common.{
  ℕ, zero, suc, ◌+◌, ◌≤◌, ◌<◌, ◌≡◌, refl, sym, ap, ◌∙◌, Option, none, some, List, [], ◌∷◌, ◌++◌,
  arith, leb, length, if◌then◌else◌, Option-cases, inl, inr,
}
use tiny_solana.Types.{Bytes, Hash, Digest, hash_bytes, default_hash}
use tiny_solana.Accounts.{Account}

-- `par_sort_unstable`; digests that compare equal are equal, so stability does not show.
abbrev pub sort_in : Hash → List Hash → List Hash
sort_in h [] = h ∷ []
sort_in h (x ∷ xs) = if leb h x then h ∷ x ∷ xs else x ∷ sort_in h xs

abbrev pub sort : List Hash → List Hash
sort [] = []
sort (h ∷ hs) = sort_in h (sort hs)

module _ (sha256 : Digest) where
  -- One step of `level.par_chunks(2)`; a last hash that is alone is hashed with itself.
  abbrev pub node : Hash → Hash → Hash
  node left right = sha256 (hash_bytes left ++ hash_bytes right)

  abbrev pub next_level : List Hash → List Hash
  next_level [] = []
  next_level (h ∷ []) = node h h ∷ []
  next_level (h ∷ k ∷ hs) = node h k ∷ next_level hs

  -- The `while` loop, on fuel; `none` for an empty level, or when the fuel ran out.
  unfoldable pub climb : ℕ → List Hash → Option Hash
  climb fuel [] = none
  climb fuel (h ∷ []) = some h
  climb zero (h ∷ k ∷ hs) = none
  climb (suc fuel) (h ∷ k ∷ hs) = climb fuel (next_level (h ∷ k ∷ hs))

  abbrev pub root : List Hash → Option Hash
  root hashes = climb (length hashes) hashes

  module _ (serialize : Account → Option Bytes) where
    abbrev pub or_fail : Option Bytes → Option (List Hash) → Option (List Hash)
    or_fail none rest = none
    or_fail (some b) none = none
    or_fail (some b) (some hs) = some (sha256 b ∷ hs)

    pub leaf_hashes : List Account → Option (List Hash)
    leaf_hashes [] = some []
    leaf_hashes (a ∷ accounts) = or_fail (serialize a) (leaf_hashes accounts)

    abbrev pub root_of : Option (List Hash) → Option Hash
    root_of none = none
    root_of (some hs) = root (sort hs)

    -- `hash_accounts`, `none` for its errors
    unfoldable pub hash_accounts : List Account → Option Hash
    hash_accounts accounts = root_of (leaf_hashes accounts)

    -- `OverlayStore::get_root_hash`, from what `all_accounts` lists
    pub overlay_root : List Account → Option Hash
    overlay_root [] = some default_hash
    overlay_root (a ∷ accounts) = hash_accounts (a ∷ accounts)

sort_in-sort_in :
    (h k : Hash) (xs : List Hash) → sort_in h (sort_in k xs) ≡ sort_in k (sort_in h xs)
sort_in-sort_in h k [] = ground arith
sort_in-sort_in h k (x ∷ xs) = ground (arith, sort_in-sort_in h k xs)

module _ (sha256 : Digest) where
  length-next_level : (hs : List Hash) → length (next_level sha256 hs) ≤ length hs
  length-next_level [] = omega arith
  length-next_level (x ∷ []) = omega arith
  length-next_level (x ∷ y ∷ hs) = omega (arith, length-next_level hs)

  -- With fuel for each hash but the first, the loop ends with a root.
  climb_total :
      (fuel : ℕ) (h : Hash) (hs : List Hash)
      → length hs ≤ fuel
      → (r : Hash) × (climb sha256 fuel (h ∷ hs) ≡ some r)
  unfolding climb
  climb_total fuel h [] le = (h, refl)
  climb_total zero h (k ∷ hs) le = absurd (omega arith)
  climb_total (suc fuel) h (k ∷ hs) le =
      climb_total fuel (node sha256 h k) (next_level sha256 hs)
        (omega (arith, length-next_level hs))

  root_total : (hs : List Hash) → 0 < length hs → (r : Hash) × (root sha256 hs ≡ some r)
  root_total [] pos = absurd (omega arith)
  root_total (h ∷ hs) pos = climb_total (length (h ∷ hs)) h hs (omega arith)

length-sort_in : (h : Hash) (xs : List Hash) → length (sort_in h xs) ≡ length xs + 1
length-sort_in h [] = omega arith
length-sort_in h (x ∷ xs) = ground (arith, length-sort_in h xs)

length-sort : (xs : List Hash) → length (sort xs) ≡ length xs
length-sort [] = refl
length-sort (x ∷ xs) = omega (arith, length-sort xs, length-sort_in x (sort xs))

module _ (sha256 : Digest) (serialize : Account → Option Bytes) where
  -- The leaf of an account, sorted into the leaves of others.
  abbrev add_leaf : Account → Option (List Hash) → Option (List Hash)
  add_leaf a none = none
  add_leaf a (some hs) = Option.map (λ b. sort_in (sha256 b) hs) (serialize a)

  add_leaf-add_leaf :
      (a b : Account) (o : Option (List Hash))
      → add_leaf a (add_leaf b o) ≡ add_leaf b (add_leaf a o)
  add_leaf-add_leaf a b none = refl
  add_leaf-add_leaf a b (some hs) = elim (Option-cases (serialize a)) [
    | inl ea ↦ elim (Option-cases (serialize b)) [
      | inl eb ↦ simp (ea, eb)
      | inr (y, eb) ↦ simp (ea, eb)
    ]
    | inr (x, ea) ↦ elim (Option-cases (serialize b)) [
      | inl eb ↦ simp (ea, eb)
      | inr (y, eb) ↦ simp (ea, eb) (ap some (sort_in-sort_in (sha256 x) (sha256 y) hs))
    ]
  ]

  sort-leaf_hashes :
      (accounts : List Account)
      → Option.map sort (leaf_hashes sha256 serialize accounts) ≡ foldr add_leaf (some []) accounts
  unfolding leaf_hashes
  sort-leaf_hashes [] = refl
  sort-leaf_hashes (a ∷ accounts) =
      rw (sym (sort-leaf_hashes accounts)) (elim (Option-cases (serialize a)) [
        | inl e ↦ elim (Option-cases (leaf_hashes sha256 serialize accounts)) [
          | inl f ↦ rw (e, f) refl
          | inr (hs, f) ↦ rw (e, f) rw e refl
        ]
        | inr (x, e) ↦ elim (Option-cases (leaf_hashes sha256 serialize accounts)) [
          | inl f ↦ rw (e, f) refl
          | inr (hs, f) ↦ rw (e, f) rw e refl
        ]
      ])

  sorted_root : Option (List Hash) → Option Hash
  sorted_root none = none
  sorted_root (some hs) = root sha256 hs

  hash_accounts_lem :
      (accounts : List Account)
      → hash_accounts sha256 serialize accounts ≡ sorted_root (foldr add_leaf (some []) accounts)
  unfolding hash_accounts sorted_root
  hash_accounts_lem accounts =
      rw (sym (sort-leaf_hashes accounts)) (go (leaf_hashes sha256 serialize accounts))
    where
      go : (o : Option (List Hash)) → root_of sha256 serialize o ≡ sorted_root (Option.map sort o)
      go none = refl
      go (some hs) = refl

  leaves_set : IsSet (Option (List Hash))
  leaves_set = hlevel

  -- The root hash does not depend on the order in which the accounts are listed.
  pub hash_accounts-perm :
      (xs ys : List Account)
      → Perm xs ys
      → hash_accounts sha256 serialize xs ≡ hash_accounts sha256 serialize ys
  hash_accounts-perm xs ys p =
      hash_accounts_lem xs
      ∙ ap sorted_root (
          Perm.foldr-eq {A = Account} {B = Option (List Hash)} leaves_set add_leaf add_leaf-add_leaf
            p (some []))
      ∙ sym (hash_accounts_lem ys)

  leaf_hashes_total :
      (accounts : List Account)
      → ((a : Account) → (b : Bytes) × (serialize a ≡ some b))
      → (hs : List Hash) × (leaf_hashes sha256 serialize accounts ≡ some hs)
        × (length hs ≡ length accounts)
  unfolding leaf_hashes
  leaf_hashes_total [] total = ([], refl, refl)
  leaf_hashes_total (a ∷ accounts) total =
      let (b, e) = total a in
      let (hs, f, n) = leaf_hashes_total accounts total in
      (sha256 b ∷ hs, rw (e, f) refl, omega (arith, n))

  -- Where every account can be serialized, a list of accounts that is not empty has a root hash: the
  -- loop over the levels ends.
  pub hash_accounts_total :
      (accounts : List Account)
      → ((a : Account) → (b : Bytes) × (serialize a ≡ some b))
      → 0 < length accounts
      → (h : Hash) × (hash_accounts sha256 serialize accounts ≡ some h)
  unfolding hash_accounts
  hash_accounts_total accounts total pos =
      let (hs, e, n) = leaf_hashes_total accounts total in
      let (h, f) = root_total sha256 (sort hs) (omega (arith, n, length-sort hs)) in
      (h, rw (e, f) refl)
