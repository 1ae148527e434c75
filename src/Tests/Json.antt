-- ===== src/Tests/Json.antt =====
-- A small JSON library for the tests: values as trees, and four documents with their texts.
pub mod Laws
use Prim.Native.Nat.{compare, Ordering}
use mathlib.Core.Path.{subst}
use native.Mathlib.Decide.{dec_lt}
use sapper_bricks.Prelude.{
  ℕ, ◌^◌, String, ◌≡◌, refl, Bool, true, false, some, List, [], ◌∷◌, arith, ◌==◌, eq_iff,
  if◌then◌else◌, Bool-cases, ap, ◌&&◌, inl, inr,
}
use sapper_bricks.Prelude.Int.{ℤ, pos, negsuc, IsInt32}
use sapper_bricks.Effect.{Exn, json_error, Result, returns, throws}
use sapper_bricks.Dict.{Dict, find}
use sapper_bricks.Json.{JsonLib, IsJson, IsJsonError}

pub data Value : Type 0 where
  text : String → Value
  number : ℤ → Value
  flag : Bool → Value
  nil : Value
  item : Value → Value → Value
  empty : Value
  field : String → Value → Value → Value

abbrev pub nat_eq : ℕ → ℕ → Bool
nat_eq m n = elim (compare m n) [ Ordering.eq ↦ true | _ ↦ false ]

abbrev pub int_eq : ℤ → ℤ → Bool
int_eq (pos m) (pos n) = nat_eq m n
int_eq (negsuc m) (negsuc n) = nat_eq m n
int_eq _ _ = false

abbrev bool_eq : Bool → Bool → Bool
bool_eq true true = true
bool_eq false false = true
bool_eq _ _ = false

abbrev equal : Value → Value → Bool
equal (text s) (text t) = s == t
equal (number m) (number n) = int_eq m n
equal (flag a) (flag b) = bool_eq a b
equal nil nil = true
equal (item u v) (item x y) = equal u x && equal v y
equal empty empty = true
equal (field k u v) (field j x y) = (k == j) && (equal u x && equal v y)
equal _ _ = false

abbrev fails : {A : Type 0} → Result A
fails = throws (json_error "no such value")

abbrev has_key : Value → String → Bool
has_key (field k v rest) key = if k == key then true else has_key rest key
has_key _ key = false

abbrev value_at : Value → String → Result Value
value_at (field k v rest) key = if k == key then returns v else value_at rest key
value_at _ key = fails

abbrev is_text : Value → Bool
is_text (text s) = true
is_text _ = false

abbrev is_flag : Value → Bool
is_flag (flag b) = true
is_flag _ = false

abbrev is_items : Value → Bool
is_items nil = true
is_items (item v vs) = true
is_items _ = false

abbrev text_of : Value → Result String
text_of (text s) = returns s
text_of _ = fails

abbrev flag_of : Value → Result Bool
flag_of (flag b) = returns b
flag_of _ = fails

abbrev bounded : (n : ℤ) → Dec (IsInt32 n) → Result ℤ
bounded n (yes p) = returns n
bounded n (no p) = fails

abbrev int_of : ℤ → Result ℤ
int_of (pos n) = bounded (pos n) (dec_lt n (2 ^ 31))
int_of (negsuc n) = bounded (negsuc n) (dec_lt n (2 ^ 31))

abbrev number_of : Value → Result ℤ
number_of (number n) = int_of n
number_of _ = fails

abbrev items_of : Value → List Value
items_of (item v vs) = v ∷ items_of vs
items_of _ = []

abbrev is_the_text : Value → String → Bool
is_the_text (text s) t = s == t
is_the_text _ t = false

abbrev pub fields_of : Dict Value → Value
fields_of [] = empty
fields_of ((k, v) ∷ m) = field k v (fields_of m)

-- The documents, with their texts.
abbrev pub entity_doc : Value
entity_doc =
    field "id" (text "a1")
      (field "string_property" (text "blue") (field "int_property" (number (pos 7)) empty))

abbrev pub slash_doc : Value
slash_doc =
    field "id" (text "a/1")
      (field "string_property" (text "blue") (field "int_property" (number (pos 7)) empty))

abbrev pub rsa_key : Value
rsa_key = field "kid" (text "k1") (
    field "kty" (text "RSA")
      (field "use" (text "sig") (field "n" (text "bQ") (field "e" (text "AQ") empty))))

abbrev pub other_key : Value
other_key = field "kid" (text "k2") (field "kty" (text "EC") (field "use" (text "sig") empty))

abbrev pub jwks_doc : Value
jwks_doc = field "keys" (item other_key (item rsa_key nil)) empty

abbrev pub openid_doc : Value
openid_doc = field "issuer" (text "https://id") (field "jwks_uri" (text "https://id/keys") empty)

abbrev parse_text : String → Result Value
parse_text t =
    if t == "entity"
    then returns entity_doc
    else if t == "slash"
    then returns slash_doc
    else if t == "jwks"
    then returns jwks_doc
    else if t == "openid"
    then returns openid_doc
    else fails

abbrev dump_value : Value → Result String
dump_value v =
    if equal v entity_doc
    then returns "entity"
    else if equal v slash_doc
    then returns "slash"
    else fails

abbrev pub json : JsonLib
json = record {
  Json = Value;
  parse = parse_text;
  dump = dump_value;
  contains = has_key;
  at = value_at;
  is_string = is_text;
  is_boolean = is_flag;
  is_array = is_items;
  get_string = text_of;
  get_int = number_of;
  get_bool = flag_of;
  elements = items_of;
  equals_text = is_the_text;
  string_value = text;
  int_value = number;
  object = fields_of;
}
