-- ===== src/Accounts/RocksDb.antt =====
-- `RocksDbAccountStore` of src/accounts.rs. RocksDB and bincode are parameters.
use tiny_solana.Common.{
  ◌<◌, ◌^◌, ◌≡◌, ◌≢◌, refl, ap, sym, ◌∙◌, inl, inr, Option, none, some, List, [], ◌∷◌, arith, ◌==◌,
  ==_iff, if◌then◌else◌, Option-cases, Bool-cases,
}
use tiny_solana.Common.Digits.{be_bytes, be_value, be_value-be_bytes}
use tiny_solana.Types.{Pubkey, Hash, Bytes, Digest}
use tiny_solana.Codec.{Codec}
use tiny_solana.Accounts.{Account}
use tiny_solana.Accounts.Store.{AccountStore}
use tiny_solana.Accounts.Merkle.{hash_accounts}

-- An open database: `get` and `put` with `none` for an error, and the entries of the iterator from the
-- start, each of which may be an error.
pub record Db (D : Type 0) : Type 0 where
  pub get : D → Bytes → Option (Option Bytes)
  pub put : Bytes → Bytes → D → Option D
  pub iterator : D → List (Option (Bytes × Bytes))

-- A value that was put is got, and every other key has the value that it had.
pub record IsDb {D : Type 0} (db : Db D) : Type 0 where
  pub get-put : (d d' : D) (k v : Bytes) → db.put k v d ≡ some d' → db.get d' k ≡ some (some v)
  pub get-put_other :
      (d d' : D) (k v j : Bytes) → db.put k v d ≡ some d' → j ≢ k → db.get d' j ≡ db.get d j

module _ {D : Type 0} (db : Db D) (accounts : Codec Account) where
  -- A failing read is as good as an absent account.
  abbrev pub decoded : Option (Option Bytes) → Option Account
  decoded (some (some bytes)) = accounts.decode bytes
  decoded (some none) = none
  decoded none = none

  unfoldable pub load : D → Pubkey → Option Account
  load d k = decoded (db.get d (be_bytes 32 k))

  abbrev pub put_bytes : Pubkey → D → Option Bytes → Option D
  put_bytes k d none = none
  put_bytes k d (some serialized) = db.put (be_bytes 32 k) serialized d

  unfoldable pub store : Pubkey → Account → D → Option D
  store k a d = put_bytes k d (accounts.encode a)

  abbrev pub cons_if : Option Account → List Account → List Account
  cons_if none rest = rest
  cons_if (some a) rest = a ∷ rest

  -- Both `filter_map`s
  unfoldable pub readable : List (Option (Bytes × Bytes)) → List Account
  readable [] = []
  readable (none ∷ entries) = readable entries
  readable (some (_, bytes) ∷ entries) = cons_if (accounts.decode bytes) (readable entries)

  unfoldable pub all_accounts : D → List Account
  all_accounts d = readable (db.iterator d)

  abbrev pub rocks_db : AccountStore D
  rocks_db = record { load = load; store = store; all_accounts = all_accounts }

  -- `get_root_hash`
  abbrev pub get_root_hash : Digest → D → Option Hash
  get_root_hash sha256 d = hash_accounts sha256 accounts.encode (all_accounts d)

  be_bytes-injective :
      (j k : Pubkey) → j < 256 ^ 32 → k < 256 ^ 32 → be_bytes 32 j ≡ be_bytes 32 k → j ≡ k
  be_bytes-injective j k hj hk e =
      sym (be_value-be_bytes 32 j hj) ∙ ap be_value e ∙ be_value-be_bytes 32 k hk

  -- In the store over RocksDB, an account that was stored without an error is loaded as it was stored,
  -- and every other key loads as before. Keys have 32 bytes, bincode decodes what it encoded, and
  -- RocksDB gets what was put.
  pub load-store :
      IsDb db
      → ((a : Account) (b : Bytes) → accounts.encode a ≡ some b → accounts.decode b ≡ some a)
      → (k j : Pubkey) (a : Account) (d d' : D) → k < 256 ^ 32
      → j < 256 ^ 32
      → store k a d ≡ some d'
      → load d' j ≡ (if j == k then some a else load d j)
  unfolding load store
  load-store lawful exact k j a d d' hk hj done = elim (Option-cases (accounts.encode a)) [
    | inl failed ↦ absurd (ground arith)
    | inr (b, e) ↦
        let put : db.put (be_bytes 32 k) b d ≡ some d' = ap (put_bytes k d) (sym e) ∙ done in
        elim (Bool-cases (j == k)) [
          | inl same ↦
              let jk : j ≡ k = (==_iff j k).0 same in
              rw (same, jk, lawful.get-put d d' (be_bytes 32 k) b put) (exact a b e)
          | inr other ↦
              let differ : be_bytes 32 j ≢ be_bytes 32 k =
                λ q. let jk = be_bytes-injective j k hj hk q in ground arith in
              rw (other, lawful.get-put_other d d' (be_bytes 32 k) b (be_bytes 32 j) put differ)
                refl
        ]
  ]
