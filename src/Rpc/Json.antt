-- ===== src/Rpc/Json.antt =====
-- What src/rpc and src/bin/client.rs take from serde_json.
use Prim.Native.String.{String}
use text.Mathlib.Text as Text
use tiny_solana.Common.{
  ℕ, ◌<◌, ◌≡◌, Bool, Option, none, some, List, [], ◌∷◌, get_elem?, if◌then◌else◌,
}
use tiny_solana.Common.Result.{Result, ok}
use tiny_solana.Common.Word.{u64_mod}

-- `Value`: what `json!` builds (`negative n` is the number -n), indexing (by a number and by a name), `as_str`, `as_u64`, and
-- `from_value` at the types that the handlers read, with the text of its error.
pub record Json (V : Type 0) : Type 0 where
  pub null : V
  pub string : String → V
  pub number : ℕ → V
  pub negative : ℕ → V
  pub boolean : Bool → V
  pub array : List V → V
  pub object : List (String × V) → V
  pub index : V → ℕ → V
  pub field : V → String → Option V
  pub as_str : V → Option String
  pub as_u64 : V → Option ℕ
  pub read_array : V → Result String (List V)
  pub read_string : V → Result String String
  pub read_flag : V → String → Result String (Option Bool)

abbrev pub find_field : {V : Type 0} → String → List (String × V) → Option V
find_field k [] = none
find_field k ((j, v) ∷ fields) =
    let rest = find_field k fields in if Text.◌==◌ j k then some v else rest

abbrev pub or_null : {V : Type 0} → Json V → Option V → V
or_null json none = json.null
or_null json (some v) = v

-- What was built is read back. A name of an object's field is written once.
pub record IsJson {V : Type 0} (json : Json V) : Type 0 where
  pub as_str-string : (s : String) → json.as_str (json.string s) ≡ some s
  pub as_str-number : (n : ℕ) → json.as_str (json.number n) ≡ none
  pub as_u64-number : (n : ℕ) → n < u64_mod → json.as_u64 (json.number n) ≡ some n
  pub read_array-array : (vs : List V) → json.read_array (json.array vs) ≡ ok vs
  pub read_string-string : (s : String) → json.read_string (json.string s) ≡ ok s
  pub index-array :
      (vs : List V) (i : ℕ) → json.index (json.array vs) i ≡ or_null json (get_elem? vs i)
  pub field-object :
      (fields : List (String × V)) (k : String)
      → json.field (json.object fields) k ≡ find_field k fields
