-- ===== src/Tests/Scenarios/Core.antt =====
-- testing/catch2/tests/core/core_test.cpp
use sapper_bricks.Prelude.{
  ℕ, suc, String, ◌≡◌, refl, Bool, true, false, not, ◌&&◌, Option, none, some, List, [], ◌∷◌, ◌==◌,
  if◌then◌else◌,
}
use sapper_bricks.Prelude.Int.{ℤ, pos}
use sapper_bricks.Effect.{Result, returns}
use sapper_bricks.Ports.{Entity, EntityRepo, EntityNotifier, Api}
use sapper_bricks.Core.{core_api, set_entity, get_entity}
use sapper_bricks.Tests.Json.{nat_eq, int_eq}
use sapper_bricks.Tests.Scenarios.{all_hold, throws_invalid_argument, throws_runtime_error}

pub record MockRepo : Type 0 where
  pub entity : Entity
  pub id : String
  pub store_call_count : ℕ
  pub retrieve_call_count : ℕ

pub record MockNotifier : Type 0 where
  pub entity : Entity
  pub changed_call_count : ℕ

-- The two mocks that a scenario makes.
abbrev Mocks : Type 0
Mocks = MockRepo × MockNotifier

abbrev mock_repo : EntityRepo Mocks
mock_repo = record {
  store = λ entity m. (
    returns tt,
    (record m.0 { entity = entity; store_call_count = suc m.0.store_call_count }, m.1),
  );
  retrieve = λ id m. (
    returns (if not (m.0.id == id) then none else some m.0.entity),
    (record m.0 { retrieve_call_count = suc m.0.retrieve_call_count }, m.1),
  );
}

abbrev mock_notifier : EntityNotifier Mocks
mock_notifier = record {
  entity_changed = λ entity m. (
    returns tt,
    (m.0, record { entity = entity; changed_call_count = suc m.1.changed_call_count }),
  );
}

abbrev new_entity : Entity
new_entity = record { id = ""; string_property = ""; int_property = pos 0 }

abbrev entity_of : String → String → ℤ → Entity
entity_of id string_property int_property = record {
  id = id;
  string_property = string_property;
  int_property = int_property;
}

abbrev given : Mocks
given = (
  record {
    entity = entity_of "id" "string" (pos 42);
    id = "id";
    store_call_count = 0;
    retrieve_call_count = 0;
  },
  record { entity = new_entity; changed_call_count = 0 },
)

abbrev with_repo : Api Mocks
with_repo = core_api (record { repo = some mock_repo; notifier = none })

abbrev without_repo : Api Mocks
without_repo = core_api (record { repo = none; notifier = none })

abbrev with_both : Api Mocks
with_both = core_api (record { repo = some mock_repo; notifier = some mock_notifier })

abbrev is_entity : Entity → String → String → ℤ → Bool
is_entity e id string_property int_property =
    e.id == id && (e.string_property == string_property && int_eq e.int_property int_property)

-- result.has_value() and the fields of result.value()
abbrev found_entity : Result (Option Entity) → String → String → ℤ → Bool
found_entity (returns (some e)) id string_property int_property =
    is_entity e id string_property int_property
found_entity _ id string_property int_property = false

abbrev found_nothing : Result (Option Entity) → Bool
found_nothing (returns none) = true
found_nothing _ = false

abbrev core_with_mock_repo : List Bool
core_with_mock_repo =
    let existing = with_repo.get_entity "id" given in
    let missing = with_repo.get_entity "invalid" given in
    let stored = with_repo.set_entity (entity_of "my_id" "my_prop" (pos 123)) given in
    nat_eq existing.1.0.retrieve_call_count 1
    ∷ found_entity existing.0 "id" "string" (pos 42)
    ∷ nat_eq missing.1.0.retrieve_call_count 1
    ∷ found_nothing missing.0
    ∷ throws_invalid_argument (with_repo.get_entity "" given).0
    ∷ nat_eq stored.1.0.store_call_count 1
    ∷ is_entity stored.1.0.entity "my_id" "my_prop" (pos 123)
    ∷ throws_invalid_argument (with_repo.set_entity (entity_of "" "my_prop" (pos 123)) given).0
    ∷ []

abbrev core_without_repo : List Bool
core_without_repo =
    throws_runtime_error (without_repo.get_entity "id" given).0
    ∷ throws_runtime_error (without_repo.set_entity new_entity given).0
    ∷ []

abbrev core_with_both_mocks : List Bool
core_with_both_mocks =
    let stored = with_both.set_entity (entity_of "my_id" "my_prop" (pos 123)) given in
    nat_eq stored.1.1.changed_call_count 1
    ∷ is_entity stored.1.1.entity "my_id" "my_prop" (pos 123)
    ∷ []

core_test :
    (all_hold core_with_mock_repo ≡ true)
    × (all_hold core_without_repo ≡ true)
    × (all_hold core_with_both_mocks ≡ true)
unfolding set_entity get_entity
core_test = (refl, refl, refl)
