-- ===== src/Rpc/Samples.antt =====
-- JSON values and codecs for tests.
use Prim.Native.Char.{code}
use Prim.Native.String.{String}
use tiny_solana.Common.{
  ℕ, zero, suc, ◌+◌, ◌≡◌, refl, ap, ◌∙◌, Bool, true, Option, none, some, List, [], ◌∷◌, arith, ◌==◌,
  if◌then◌else◌, get_elem?,
}
use tiny_solana.Common.Result.{Result, ok, err}
use tiny_solana.Common.KeyMap.{KeyMap}
use tiny_solana.Types.{Bytes}
use tiny_solana.Accounts.{Account}
use tiny_solana.Runtime.{Executor, pure}
use tiny_solana.Bank.Lifecycle.{new}
use tiny_solana.Types.Text.{Base58, IsInverse}
use tiny_solana.Rpc.Json.{Json, IsJson, find_field, or_null}
use tiny_solana.Rpc.Handlers.{RpcDeps, RpcState}
use tiny_solana.Samples.{account, pay}

-- Arrays and objects as their elements in a row.
pub data Value : Type 0 where
  null no_element no_field : Value
  string : String → Value
  number : ℕ → Value
  negative : ℕ → Value
  boolean : Bool → Value
  element : Value → Value → Value
  named : String → Value → Value → Value

abbrev pub array_of : List Value → Value
array_of [] = no_element
array_of (v ∷ vs) = element v (array_of vs)

abbrev pub elements : Value → List Value
elements (element v rest) = v ∷ elements rest
elements _ = []

abbrev pub object_of : List (String × Value) → Value
object_of [] = no_field
object_of ((k, v) ∷ fields) = named k v (object_of fields)

abbrev pub fields_of : Value → List (String × Value)
fields_of (named k v rest) = (k, v) ∷ fields_of rest
fields_of _ = []

abbrev pub text_of : Value → Option String
text_of (string s) = some s
text_of _ = none

abbrev pub number_of : Value → Option ℕ
number_of (number n) = some n
number_of _ = none

abbrev pub or_error : {A : Type 0} → Option A → Result String A
or_error none = err "another type"
or_error (some a) = ok a

abbrev pub or_null_value : Option Value → Value
or_null_value none = null
or_null_value (some v) = v

abbrev pub toy_json : Json Value
toy_json = record {
  null = null;
  string = string;
  number = number;
  negative = negative;
  boolean = boolean;
  array = array_of;
  object = object_of;
  index = λ v i. or_null_value (get_elem? (elements v) i);
  field = λ v k. find_field k (fields_of v);
  as_str = text_of;
  as_u64 = number_of;
  read_array = λ v. ok (elements v);
  read_string = λ v. or_error (text_of v);
  read_flag = λ v k. ok none;
}

elements-array_of : (vs : List Value) → elements (array_of vs) ≡ vs
elements-array_of [] = refl
elements-array_of (v ∷ vs) = ap (λ l. v ∷ l) (elements-array_of vs)

fields_of-object_of : (fields : List (String × Value)) → fields_of (object_of fields) ≡ fields
fields_of-object_of [] = refl
fields_of-object_of ((k, v) ∷ fields) = ap (λ l. (k, v) ∷ l) (fields_of-object_of fields)

or_null_value-or_null : (o : Option Value) → or_null_value o ≡ or_null toy_json o
or_null_value-or_null none = refl
or_null_value-or_null (some v) = refl

pub toy_json-IsJson : IsJson toy_json
toy_json-IsJson = record {
  as_str-string = λ s. refl;
  as_str-number = λ n. refl;
  as_u64-number = λ n h. refl;
  read_array-array = λ vs. ap ok (elements-array_of vs);
  read_string-string = λ s. refl;
  index-array = λ vs i. rw (elements-array_of vs) (or_null_value-or_null (get_elem? vs i));
  field-object = λ fields k. ap (find_field k) (fields_of-object_of fields);
}

-- A byte as that many letters and a stop.
abbrev pub unary : ℕ → String → String
unary zero s = String.◌∷◌ "b" s
unary (suc n) s = String.◌∷◌ "a" (unary n s)

abbrev pub spell : Bytes → String
spell [] = String.[]
spell (n ∷ b) = unary n (spell b)

abbrev pub prepend : ℕ → Option Bytes → Option Bytes
prepend n none = none
prepend n (some b) = some (n ∷ b)

abbrev pub unspell : ℕ → String → Option Bytes
unspell n String.[] = some []
unspell n (String.◌∷◌ c s) = if code c == 98 then prepend n (unspell 0 s) else unspell (suc n) s

unspell-unary : (m n : ℕ) (s : String) → unspell m (unary n s) ≡ prepend (m + n) (unspell 0 s)
unspell-unary m zero s = ap (λ k. prepend k (unspell 0 s)) (omega arith)
unspell-unary m (suc n) s =
    unspell-unary (suc m) n s ∙ ap (λ k. prepend k (unspell 0 s)) (omega arith)

unspell-spell : (b : Bytes) → unspell 0 (spell b) ≡ some b
unspell-spell [] = refl
unspell-spell (n ∷ b) =
    unspell-unary 0 n (spell b)
    ∙ ap (λ k. prepend k (unspell 0 (spell b))) (omega arith)
    ∙ ap (prepend n) (unspell-spell b)

abbrev pub toy_base58 : Base58
toy_base58 = record { encode = spell; decode = unspell 0 }

pub toy_base58-IsInverse : IsInverse toy_base58
toy_base58-IsInverse = record { decode-encode = unspell-spell }

-- The codec knows one transaction.
abbrev pub toy_deps : RpcDeps
toy_deps = record {
  base58 = toy_base58;
  base64_encode = spell;
  base64_decode = λ s. or_error (unspell 0 s);
  serialize = λ tx. some (5 ∷ []);
  deserialize = λ b. ok pay;
  number_text = λ n. unary n String.[];
  account_error_text = λ e. "account";
  program_error_text = λ e. "program";
  send_error_text = "sending on a disconnected channel";
}

-- A program that accepts every instruction.
abbrev pub idle_program : Executor
idle_program instruction ctx accounts = pure tt

abbrev pub server : RpcState (KeyMap Account)
server = record {
  bank = new;
  accounts = (1, account 1 10) ∷ [];
  program_cache = [];
  tx_sender = record { connected = true; sent = [] };
}
