-- ===== src/Accounts/DbTests.antt =====
-- A store over a toy database.
use tiny_solana.Common.{
  ℕ, ◌≡◌, refl, ap, sym, ◌∙◌, inl, inr, Bool, true, false, ◌&&◌, Option, none, some, [], ◌∷◌, arith,
  ◌==◌, if◌then◌else◌, Bool-cases,
}
use tiny_solana.Common.Digits.{be_bytes}
use tiny_solana.Types.{Bytes}
use tiny_solana.Codec.{Codec}
use tiny_solana.Accounts.{Account}
use tiny_solana.Accounts.RocksDb
use tiny_solana.Accounts.RocksDb.{Db, IsDb, load-store}
use tiny_solana.Samples.{account}

abbrev same_bytes : Bytes → Bytes → Bool
same_bytes [] [] = true
same_bytes [] (y ∷ ys) = false
same_bytes (x ∷ xs) [] = false
same_bytes (x ∷ xs) (y ∷ ys) = x == y && same_bytes xs ys

same_bytes_refl : (xs : Bytes) → same_bytes xs xs ≡ true
same_bytes_refl [] = refl
same_bytes_refl (x ∷ xs) = ground (arith, same_bytes_refl xs)

same_bytes-eq : (xs ys : Bytes) → same_bytes xs ys ≡ true → xs ≡ ys
same_bytes-eq [] [] e = refl
same_bytes-eq [] (y ∷ ys) e = cc
same_bytes-eq (x ∷ xs) [] e = cc
same_bytes-eq (x ∷ xs) (y ∷ ys) e = ground (arith, same_bytes-eq xs ys)

-- A database is what every key holds.
abbrev toy_db : Db (Bytes → Option Bytes)
toy_db = record {
  get = λ d k. some (d k);
  put = λ k v d. some (λ j. if same_bytes j k then some v else d j);
  iterator = λ d. [];
}

abbrev written : (Bytes → Option Bytes) → Bytes → Bytes → Bytes → Option Bytes
written d k v j = if same_bytes j k then some v else d j

-- What a key holds after a write.
abbrev held : Bytes → Option (Bytes → Option Bytes) → Option (Option Bytes)
held k none = none
held k (some d) = some (d k)

toy_db-IsDb : IsDb toy_db
toy_db-IsDb = record {
  get-put = λ d d' k v e.
      sym (ap (held k) e) ∙ ap (λ b. some (if b then some v else d k)) (same_bytes_refl k);
  get-put_other = λ d d' k v j e ne. elim (Bool-cases (same_bytes j k)) [
    | inl same ↦ absurd (ne (same_bytes-eq j k same))
    | inr other ↦ sym (ap (held j) e) ∙ ap (λ b. some (if b then some v else d j)) other
  ];
}

abbrev flag : Bool → ℕ
flag true = 1
flag false = 0

abbrev read_account : Bytes → Option Account
read_account (k ∷ n ∷ o ∷ x ∷ r ∷ contents) = some (record {
  pubkey = k;
  lamports = n;
  contents = contents;
  owner = o;
  executable = x == 1;
  rent_epoch = r;
})
read_account _ = none

abbrev toy_accounts : Codec Account
toy_accounts = record {
  encode =
      λ a. some (a.pubkey ∷ a.lamports ∷ a.owner ∷ flag a.executable ∷ a.rent_epoch ∷ a.contents);
  decode = read_account;
}

abbrev read_option : Option Bytes → Option Account
read_option none = none
read_option (some b) = read_account b

flag-back : (x : Bool) → (flag x == 1) ≡ x
flag-back true = refl
flag-back false = refl

read_back :
    (a : Account) (b : Bytes) → toy_accounts.encode a ≡ some b → toy_accounts.decode b ≡ some a
read_back a b e =
    sym (ap read_option e) ∙ ap (λ x. some (record a { executable = x })) (flag-back a.executable)

abbrev stored : Bytes → Option Bytes
stored = written (λ j. none) (be_bytes 32 3) (3 ∷ 50 ∷ 0 ∷ 0 ∷ 0 ∷ [])

stored_ok : RocksDb.store toy_db toy_accounts 3 (account 3 50) (λ j. none) ≡ some stored
unfolding RocksDb.store
stored_ok = refl

load-store_example :
    RocksDb.load toy_db toy_accounts stored 3
    ≡ (if 3 == 3 then some (account 3 50) else RocksDb.load toy_db toy_accounts (λ j. none) 3)
load-store_example =
    load-store toy_db toy_accounts toy_db-IsDb read_back 3 3 (account 3 50) (λ j. none) stored
      (omega arith) (omega arith) stored_ok
