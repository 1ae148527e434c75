-- ===== src/Security/Jwks/Selection.antt =====
-- Which keys of a JWKS document are selected, said without the order of the tests.
use sapper_bricks.Prelude.{
  String, ◌≡◌, refl, inl, inr, Bool, true, false, ◌&&◌, ◌||◌, Option, none, some, List, [], ◌∷◌,
  ◌++◌, arith, ◌==◌, Bool-cases, if◌then◌else◌, is_some,
}
use sapper_bricks.Effect.{Result, returns, throws}
use sapper_bricks.Effect.Fail.{>>=-eq-returns}
use sapper_bricks.Json.{JsonLib, IsJson}
use sapper_bricks.Json.Fields.{text_field}
use sapper_bricks.Security.Jwks.{
  Rs256Key, and_then, or_else, has_string, text_is, is_signature_key, is_rsa_key, has_key_fields,
  text_at, read_key, select_key, select_keys, parse_rs256_keys,
}

-- A field that holds this text.
abbrev pub holds : Option String → String → Bool
holds none text = false
holds (some s) text = s == text

abbrev pub key_of : Option String → Option String → Option String → List Rs256Key
key_of (some kid) (some n) (some e) =
    if kid == "" || n == "" || e == ""
    then []
    else record { id = kid; modulus_base64 = n; exponent_base64 = e } ∷ []
key_of _ _ _ = []

module _ (J : JsonLib) where
  open J use {Json, parse, contains, at, is_string, get_string, elements, equals_text}

  -- A signature key for RSA: "use" is "sig" or "key_ops" is the text "sign" or "verify", and "kty"
  -- is "RSA".
  abbrev pub is_candidate : Json → Bool
  is_candidate key =
      (holds (text_field J key "use") "sig"
        || (holds (text_field J key "key_ops") "sign"
            || holds (text_field J key "key_ops") "verify"))
      && holds (text_field J key "kty") "RSA"

  -- The keys that one entry gives: such a key whose "kid", "n" and "e" are texts, none empty.
  abbrev pub selected : Json → List Rs256Key
  selected key =
      if is_candidate key
      then key_of (text_field J key "kid") (text_field J key "n") (text_field J key "e")
      else []

  abbrev pub all_selected : List Json → List Rs256Key
  all_selected [] = []
  all_selected (key ∷ keys) = selected key ++ all_selected keys

  -- The keys of a document: those selected of "keys", in their order.
  abbrev pub document_keys : Json → Bool → Result Json → List Rs256Key
  document_keys j true (returns keys) = all_selected (elements keys)
  document_keys j true (throws x) = []
  document_keys j false r = []

  pub parse_rs256_keys_inversion :
      (text : String) (keys : List Rs256Key)
      → parse_rs256_keys J text ≡ returns keys
      → (j : Json) × (parse text ≡ returns j)
  unfolding parse_rs256_keys
  parse_rs256_keys_inversion text keys h =
      let (j, parsed, _) = >>=-eq-returns (parse text) _ h in (j, parsed)

  module _ (laws : IsJson J) where
    -- What the two tests and the reading of a field do, by the text of the field.
    data Field (key : Json) (name : String) : Type 0 where
      absent : text_field J key name ≡ none → has_string J key name ≡ returns false → Field key name
      present :
          (s : String)
          → text_field J key name ≡ some s
          → has_string J key name ≡ returns true
          → ((text : String) → text_is J key name text ≡ returns (s == text))
          → text_at J key name ≡ returns s
          → Field key name

    Field-cases : (key : Json) (name : String) → Field key name
    unfolding text_field has_string text_is text_at
    Field-cases key name = elim (Bool-cases (contains key name)) [
      | inl there ↦
          let (v, got) = laws.contains-at key name there in
          elim (Bool-cases (is_string v)) [
            | inl text ↦
                let (s, read) = laws.is_string-get v text in
                present s (ground (arith, got, read)) (ground (arith, got))
                  (λ t. ground (arith, got, laws.equals_text-get v s t read))
                  (ground (arith, got, read))
            | inr other ↦ absent (ground (arith, got)) (ground (arith, got))
          ]
      | inr missing ↦ absent (ground arith) (ground arith)
    ]

    text_at_lem :
        (key : Json) (name s : String)
        → text_field J key name ≡ some s
        → text_at J key name ≡ returns s
    text_at_lem key name s h = elim (Field-cases key name) [
      | absent none_there _ ↦ absurd (cc (none_there, h))
      | present t there _ _ read ↦ ground (arith, there, read)
    ]

    has_string_lem :
        (key : Json) (name : String)
        → has_string J key name ≡ returns (is_some (text_field J key name))
    has_string_lem key name = elim (Field-cases key name) [
      | absent none_there missing ↦ rw none_there missing
      | present s there yes_there _ _ ↦ rw there yes_there
    ]

    text_test :
        (key : Json) (name text : String)
        → and_then J (has_string J key name) (text_is J key name text)
          ≡ returns (holds (text_field J key name) text)
    text_test key name text = elim (Field-cases key name) [
      | absent none_there missing ↦ ground (arith, none_there, missing)
      | present s there yes_there tested _ ↦ ground (arith, there, yes_there, tested text)
    ]

    key_ops_test :
        (key : Json)
        → and_then J
            (has_string J key "key_ops")
            (or_else J (text_is J key "key_ops" "sign") (text_is J key "key_ops" "verify"))
          ≡ returns (
              holds (text_field J key "key_ops") "sign"
              || holds (text_field J key "key_ops") "verify")
    key_ops_test key = elim (Field-cases key "key_ops") [
      | absent none_there missing ↦ ground (arith, none_there, missing)
      | present s there yes_there tested _ ↦
          ground (arith, there, yes_there, tested "sign", tested "verify")
    ]

    is_signature_key_lem :
        (key : Json)
        → is_signature_key J key
          ≡ returns (
              holds (text_field J key "use") "sig"
              || (holds (text_field J key "key_ops") "sign"
                  || holds (text_field J key "key_ops") "verify"))
    unfolding is_signature_key
    is_signature_key_lem key = rw (text_test, key_ops_test) (ground arith)

    is_rsa_key_lem :
        (key : Json) → is_rsa_key J key ≡ returns (holds (text_field J key "kty") "RSA")
    unfolding is_rsa_key
    is_rsa_key_lem key = text_test key "kty" "RSA"

    has_key_fields_lem :
        (key : Json)
        → has_key_fields J key
          ≡ returns (
              is_some (text_field J key "kid")
              && (is_some (text_field J key "n") && is_some (text_field J key "e")))
    unfolding has_key_fields
    has_key_fields_lem key =
        ground (arith, has_string_lem key "kid", has_string_lem key "n", has_string_lem key "e")

    -- What is read of a key whose fields are there.
    read_key_lem :
        (key : Json) (kid n e : String)
        → text_field J key "kid" ≡ some kid
        → text_field J key "n" ≡ some n
        → text_field J key "e" ≡ some e
        → read_key J key ≡ returns (record { id = kid; modulus_base64 = n; exponent_base64 = e })
    unfolding read_key
    read_key_lem key kid n e hk hn he =
        rw (text_at_lem key "kid" kid hk, text_at_lem key "n" n hn, text_at_lem key "e" e he)

    select_key_with :
        (key : Json) (kid n e : Option String)
        → text_field J key "kid" ≡ kid
        → text_field J key "n" ≡ n
        → text_field J key "e" ≡ e
        → select_key J key ≡ returns (if is_candidate key then key_of kid n e else [])
    unfolding select_key
    select_key_with key (some kid) (some n) (some e) hk hn he = ground (
      arith,
      is_signature_key_lem key,
      is_rsa_key_lem key,
      has_key_fields_lem key,
      read_key_lem key kid n e hk hn he,
    )
    select_key_with key _ _ _ hk hn he =
        ground (arith, is_signature_key_lem key, is_rsa_key_lem key, has_key_fields_lem key)

    select_key_lem : (key : Json) → select_key J key ≡ returns (selected key)
    select_key_lem key = select_key_with key _ _ _ refl refl refl

    pub select_keys_lem : (keys : List Json) → select_keys J keys ≡ returns (all_selected keys)
    unfolding select_keys
    select_keys_lem [] = refl
    select_keys_lem (key ∷ keys) = rw (select_key_lem key, select_keys_lem keys)

    -- Once the document parses, parse_rs256_keys does not throw, and its result is the list of the
    -- signature keys for RSA in the document, in their order; every other key is left out.
    pub parse_rs256_keys_lem :
        (text : String) (j : Json)
        → parse text ≡ returns j
        → parse_rs256_keys J text ≡ returns (document_keys j (contains j "keys") (at j "keys"))
    unfolding parse_rs256_keys
    parse_rs256_keys_lem text j h = elim (Bool-cases (contains j "keys")) [
      | inl there ↦
          let (keys, got) = laws.contains-at j "keys" there in
          ground (arith, h, there, got, select_keys_lem (elements keys))
      | inr missing ↦ ground (arith, h, missing)
    ]
