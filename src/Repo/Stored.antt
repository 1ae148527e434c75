-- ===== src/Repo/Stored.antt =====
-- A store of texts by name that holds one JSON document for each entity, as Redis and a bucket do:
-- what the table of entities is, and that a document written for an entity updates it.
use sapper_bricks.Prelude.{String, ◌≡◌, Option, none, some, arith, ◌==◌, if◌then◌else◌}
use sapper_bricks.Prelude.Int.{IsInt32}
use sapper_bricks.Effect.{Result, returns, throws}
use sapper_bricks.Ports.{Entity}
use sapper_bricks.Ports.Contract.{updated}
use sapper_bricks.Json.{JsonLib, IsJson}
use sapper_bricks.Json.Codec.{encode, decode, decode-encode}

abbrev pub value_of : {A : Type 0} → Result A → Option A
value_of (returns a) = some a
value_of (throws x) = none

module _ (J : JsonLib) where
  abbrev pub entity_of : Option String → Option Entity
  entity_of none = none
  entity_of (some text) = value_of (decode J text)

  -- The names whose text is no entity hold none.
  abbrev pub table_of : (String → Option String) → String → Option Entity
  table_of texts id = entity_of (texts id)

  pub table_of-updated :
      (laws : IsJson J) (e : Entity) (text : String) (before after : String → Option String)
      → IsInt32 e.int_property
      → encode J e ≡ returns text
      → ((k : String) → after k ≡ (if e.id == k then some text else before k))
      → (id : String) → table_of after id ≡ updated e (table_of before) id
  table_of-updated laws e text before after range dumped write id =
      ground (arith, write id, decode-encode J laws e text range dumped)
