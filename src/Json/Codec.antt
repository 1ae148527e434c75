-- ===== src/Json/Codec.antt =====
-- to_json and from_json, which the handlers, the notifiers and the document repositories each
-- have a copy of; the copies are the same text. The map names the one of handler/http.
use mathlib.Core.Path.{subst}
use sapper_bricks.Prelude.{String, ◌≡◌, refl, [], ◌∷◌, arith}
use sapper_bricks.Prelude.Int.{IsInt32}
use sapper_bricks.Effect.{Exn, Result, returns, throws}
use sapper_bricks.Effect.Fail.{◌>>=◌, >>=_returns, >>=_throws}
use sapper_bricks.Dict.{Dict, find}
use sapper_bricks.Ports.{Entity}
use sapper_bricks.Json.{JsonLib, IsJson, IsJsonError}

module _ (J : JsonLib) where
  open J use {Json, parse, dump, at, get_string, get_int, string_value, int_value, object}

  abbrev entity_fields : Entity → Dict Json
  entity_fields entity =
      ("id", string_value entity.id)
      ∷ ("string_property", string_value entity.string_property)
      ∷ ("int_property", int_value entity.int_property)
      ∷ []

  unfoldable pub to_json : Entity → Json
  to_json entity = object (entity_fields entity)

  -- The source writes the fields into an entity that every caller drops if this throws.
  unfoldable pub from_json : Json → Result Entity
  from_json entity_json = do
    id_json ← at entity_json "id"
    id ← get_string id_json
    string_json ← at entity_json "string_property"
    string_property ← get_string string_json
    int_json ← at entity_json "int_property"
    int_property ← get_int int_json
    returns (record { id = id; string_property = string_property; int_property = int_property })

  -- to_json(entity).dump()
  unfoldable pub encode : Entity → Result String
  encode entity = dump (to_json entity)

  -- from_json(json::parse(text), e)
  unfoldable pub decode : String → Result Entity
  decode text = do j ← parse text; from_json j

  module _ (laws : IsJson J) where
    from_json-to_json : (e : Entity) → IsInt32 e.int_property → from_json (to_json e) ≡ returns e
    unfolding from_json to_json
    from_json-to_json e range = rw (
      laws.at-object (entity_fields e) "id" (string_value e.id) (unfold find in refl),
      laws.get_string-string_value e.id,
      laws.at-object (entity_fields e) "string_property" (string_value e.string_property)
          (unfold find in refl),
      laws.get_string-string_value e.string_property,
      laws.at-object (entity_fields e) "int_property" (int_value e.int_property)
          (unfold find in refl),
      laws.get_int-int_value e.int_property range,
    )

    -- The text of an entity decodes to the entity.
    pub decode-encode :
        (e : Entity) (text : String)
        → IsInt32 e.int_property
        → encode e ≡ returns text
        → decode text ≡ returns e
    unfolding encode decode
    decode-encode e text range h =
        rw (laws.parse-dump (to_json e) text h) (from_json-to_json e range)

    from_json-IsInt32 : (j : Json) (e : Entity) → from_json j ≡ returns e → IsInt32 e.int_property
    unfolding from_json
    from_json-IsInt32 j = >>=_returns (at j "id") _ _ λ i _. >>=_returns (get_string i) _ _ λ id _.
        >>=_returns (at j "string_property") _ _ λ s _. >>=_returns (get_string s) _ _ λ property _.
          >>=_returns (at j "int_property") _ _ λ k _.
            >>=_returns (get_int k) _ _
              λ n got e done. subst IsInt32 (ground arith) (laws.get_int-IsInt32 k n got)

    -- The number of a decoded entity is an int.
    pub decode-IsInt32 :
        (text : String) (e : Entity) → decode text ≡ returns e → IsInt32 e.int_property
    unfolding decode
    decode-IsInt32 text = >>=_returns (parse text) _ _ λ j _. from_json-IsInt32 j

    from_json-throws : (j : Json) (x : Exn) → from_json j ≡ throws x → IsJsonError x
    unfolding from_json
    from_json-throws j = >>=_throws (at j "id") _ _ (laws.at-throws j "id") λ i.
        >>=_throws (get_string i) _ _ (laws.get_string-throws i) λ id.
          >>=_throws (at j "string_property") _ _ (laws.at-throws j "string_property") λ s.
            >>=_throws (get_string s) _ _ (laws.get_string-throws s) λ property.
              >>=_throws (at j "int_property") _ _ (laws.at-throws j "int_property")
                λ k. >>=_throws (get_int k) _ _ (laws.get_int-throws k) λ n x h. cc

    -- A text that does not decode throws a json::exception.
    pub decode-throws : (text : String) (x : Exn) → decode text ≡ throws x → IsJsonError x
    unfolding decode
    decode-throws text = >>=_throws (parse text) _ _ (laws.parse-throws text) from_json-throws
