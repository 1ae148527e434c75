-- ===== src/Security/Jwks.antt =====
-- security/jwt-auth/src/adapters/security-jwt-auth/impl/key_conversion.cpp: which keys of a JWKS
-- document are used, and the map from key ids to PEM texts that is made of them.
pub mod Selection
pub mod PubKeys
pub mod Pem
use sapper_bricks.Prelude.{
  String, Bool, true, false, not, ◌&&◌, ◌||◌, List, [], ◌∷◌, ◌++◌, ◌==◌, if◌then◌else◌,
}
use sapper_bricks.Effect.{Result, returns, throws}
use sapper_bricks.Effect.Fail.{◌>>=◌}
use sapper_bricks.Dict.{Dict, assign}
use sapper_bricks.Json.{JsonLib}

pub record Rs256Key : Type 0 where
  pub id : String
  pub modulus_base64 : String
  pub exponent_base64 : String

-- The loop of extractPubKeysPEM, over the conversion of a key.
unfoldable pub collect_pem :
    (Rs256Key → Result String) → Dict String → List Rs256Key → Result (Dict String)
collect_pem to_pem keys [] = returns keys
collect_pem to_pem keys (key ∷ rest) = do
  pem ← to_pem key
  collect_pem to_pem (assign key.id pem keys) rest

module _ (J : JsonLib) where
  open J use {Json, parse, contains, at, is_string, get_string, elements, equals_text}

  -- key.contains(name) && key[name].is_string()
  unfoldable pub has_string : Json → String → Result Bool
  has_string key name =
      if contains key name then (do v ← at key name; returns (is_string v)) else returns false

  -- key[name] == text
  unfoldable pub text_is : Json → String → String → Result Bool
  text_is key name text = do v ← at key name; returns (equals_text v text)

  -- first || second, where the second test is made only if the first fails
  abbrev pub or_else : Result Bool → Result Bool → Result Bool
  or_else first second = do found ← first; if found then returns true else second

  -- first && second, where the second test is made only if the first passes
  abbrev pub and_then : Result Bool → Result Bool → Result Bool
  and_then first second = do found ← first; if found then second else returns false

  unfoldable pub is_signature_key : Json → Result Bool
  is_signature_key key = or_else (and_then (has_string key "use") (text_is key "use" "sig")) (
      and_then (has_string key "key_ops")
        (or_else (text_is key "key_ops" "sign") (text_is key "key_ops" "verify")))

  unfoldable pub is_rsa_key : Json → Result Bool
  is_rsa_key key = and_then (has_string key "kty") (text_is key "kty" "RSA")

  unfoldable pub has_key_fields : Json → Result Bool
  has_key_fields key =
      and_then (has_string key "kid") (and_then (has_string key "n") (has_string key "e"))

  unfoldable pub text_at : Json → String → Result String
  text_at key name = do v ← at key name; get_string v

  -- Rs256Key k { key["kid"], key["n"], key["e"] };
  unfoldable pub read_key : Json → Result Rs256Key
  read_key key = do
    id ← text_at key "kid"
    modulus ← text_at key "n"
    exponent ← text_at key "e"
    returns (record { id = id; modulus_base64 = modulus; exponent_base64 = exponent })

  abbrev pub has_empty_field : Rs256Key → Bool
  has_empty_field k = k.id == "" || k.modulus_base64 == "" || k.exponent_base64 == ""

  -- One round of the loop, which gives the key to push or none after a `continue`.
  unfoldable pub select_key : Json → Result (List Rs256Key)
  select_key key = do
    signature ← is_signature_key key
    if not signature then returns [] else do
      rsa ← is_rsa_key key
      if not rsa then returns [] else do
        complete ← has_key_fields key
        if not complete
            then returns []
            else do k ← read_key key; if has_empty_field k then returns [] else returns (k ∷ [])

  -- The loop over j["keys"].
  unfoldable pub select_keys : List Json → Result (List Rs256Key)
  select_keys [] = returns []
  select_keys (key ∷ keys) = do
    selected ← select_key key
    rest ← select_keys keys
    returns (selected ++ rest)

  unfoldable pub parse_rs256_keys : String → Result (List Rs256Key)
  parse_rs256_keys jwks_json = do
    j ← parse jwks_json
    if contains j "keys" then (do keys ← at j "keys"; select_keys (elements keys)) else returns []

  unfoldable pub extract_pub_keys_pem : (Rs256Key → Result String) → String → Result (Dict String)
  extract_pub_keys_pem to_pem jwks_json = do
    keys ← parse_rs256_keys jwks_json
    collect_pem to_pem [] keys
