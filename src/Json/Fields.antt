-- ===== src/Json/Fields.antt =====
-- Optional fields of a JSON object: extractString, extractBool and extractStrings of
-- security/openid/src/adapters/security-openid/openid-configuration.cpp. The header of a JWT is
-- read with the tests of extractString too.
use sapper_bricks.Prelude.{
  String, ◌≡◌, refl, inl, inr, Bool, true, false, Option, none, some, List, [], ◌∷◌, Bool-cases,
  if◌then◌else◌,
}
use sapper_bricks.Effect.{Result, returns, throws}
use sapper_bricks.Effect.Fail.{◌>>=◌}
use sapper_bricks.Json.{JsonLib, IsJson}

module _ (J : JsonLib) where
  open J use {Json, contains, at, is_string, is_boolean, is_array, get_string, get_bool, elements}

  unfoldable pub extract_string : Json → String → Result (Option String)
  extract_string json key =
      if contains json key
      then (do
        v ← at json key
        if is_string v then (do s ← get_string v; returns (some s)) else returns none)
      else returns none

  unfoldable pub extract_bool : Json → String → Result (Option Bool)
  extract_bool json key =
      if contains json key
      then (do
        v ← at json key
        if is_boolean v then (do b ← get_bool v; returns (some b)) else returns none)
      else returns none

  -- The loop of extractStrings, which skips what is no text.
  unfoldable pub collect_strings : List Json → Result (List String)
  collect_strings [] = returns []
  collect_strings (v ∷ vs) = do
    rest ← collect_strings vs
    if is_string v then (do s ← get_string v; returns (s ∷ rest)) else returns rest

  unfoldable pub extract_strings : Json → String → Result (Option (List String))
  extract_strings json key =
      if contains json key
      then (do
        v ← at json key
        if is_array v
            then (do ss ← collect_strings (elements v); returns (some ss))
            else returns none)
      else returns none

  -- The same, said by what a field holds.
  abbrev value_of : {A : Type 0} → Result A → Option A
  value_of (returns a) = some a
  value_of (throws x) = none

  abbrev when_typed :
      {A : Type 0} → (Json → Bool) → (Json → Option A) → Bool → Result Json → Option A
  when_typed has_type read false r = none
  when_typed has_type read true (throws x) = none
  when_typed has_type read true (returns v) = if has_type v then read v else none

  -- The text of a field, if the field is there and holds a text.
  unfoldable pub text_field : Json → String → Option String
  text_field j name =
      when_typed is_string (λ v. value_of (get_string v)) (contains j name) (at j name)

  pub bool_field : Json → String → Option Bool
  bool_field j name =
      when_typed is_boolean (λ v. value_of (get_bool v)) (contains j name) (at j name)

  abbrev with_text : Bool → Option String → List String → List String
  with_text true (some s) ss = s ∷ ss
  with_text true none ss = ss
  with_text false o ss = ss

  -- The texts among the elements, in their order.
  pub texts_of : List Json → List String
  texts_of [] = []
  texts_of (v ∷ vs) = with_text (is_string v) (value_of (get_string v)) (texts_of vs)

  -- The texts of a field that holds an array.
  pub texts_field : Json → String → Option (List String)
  texts_field j name =
      when_typed is_array (λ v. some (texts_of (elements v))) (contains j name) (at j name)

  module _ (laws : IsJson J) where
    pub extract_string_lem :
        (j : Json) (key : String) → extract_string j key ≡ returns (text_field j key)
    unfolding extract_string text_field
    extract_string_lem j key = elim (Bool-cases (contains j key)) [
      | inr e ↦ rw e
      | inl e ↦
          let (v, there) = laws.contains-at j key e in
          elim (Bool-cases (is_string v)) [
            | inr t ↦ rw (e, there, t)
            | inl t ↦ let (s, got) = laws.is_string-get v t in rw (e, there, t, got)
          ]
    ]

    pub extract_bool_lem :
        (j : Json) (key : String) → extract_bool j key ≡ returns (bool_field j key)
    unfolding extract_bool bool_field
    extract_bool_lem j key = elim (Bool-cases (contains j key)) [
      | inr e ↦ rw e
      | inl e ↦
          let (v, there) = laws.contains-at j key e in
          elim (Bool-cases (is_boolean v)) [
            | inr t ↦ rw (e, there, t)
            | inl t ↦ let (b, got) = laws.is_boolean-get v t in rw (e, there, t, got)
          ]
    ]

    collect_strings_lem : (vs : List Json) → collect_strings vs ≡ returns (texts_of vs)
    unfolding collect_strings texts_of
    collect_strings_lem [] = refl
    collect_strings_lem (v ∷ vs) = elim (Bool-cases (is_string v)) [
      | inr t ↦ rw (collect_strings_lem vs, t)
      | inl t ↦ let (s, got) = laws.is_string-get v t in rw (collect_strings_lem vs, t, got)
    ]

    -- Reading a field never throws: a field that is missing or holds another type gives none.
    pub extract_strings_lem :
        (j : Json) (key : String) → extract_strings j key ≡ returns (texts_field j key)
    unfolding extract_strings texts_field
    extract_strings_lem j key = elim (Bool-cases (contains j key)) [
      | inr e ↦ rw e
      | inl e ↦
          let (v, there) = laws.contains-at j key e in
          elim (Bool-cases (is_array v)) [
            | inr t ↦ rw (e, there, t)
            | inl t ↦ rw (e, there, t, collect_strings_lem (elements v))
          ]
    ]
