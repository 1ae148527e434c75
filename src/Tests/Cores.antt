-- ===== src/Tests/Cores.antt =====
-- The core and its ports.
use sapper_bricks.Prelude.{◌≡◌, refl, some, [], ◌++◌, ◌==◌, arith}
use sapper_bricks.Dict.{find, assign}
use sapper_bricks.Ports.Contract.{updated}
use sapper_bricks.Repo.InMemory.{in_memory_repo, store, retrieve}
use sapper_bricks.Repo.InMemory.Refines.{view, in_memory_repo-IsRepo}
use sapper_bricks.Core.{set_entity, get_entity}
use sapper_bricks.Core.Calls.{traced, calls_of_set, set_entity-calls}
use sapper_bricks.Core.Refines.{get_entity-set_entity}
use sapper_bricks.Tests.Samples.{blue, no_entities, quiet}

set_entity-calls_example :
    (set_entity (traced in_memory_repo quiet) blue (no_entities, [])).1.1
    ≡ [] ++ calls_of_set (blue.id == "") blue (in_memory_repo.store blue no_entities).0
set_entity-calls_example = set_entity-calls in_memory_repo quiet blue no_entities []

get_entity-set_entity_example : some blue ≡ updated blue (view no_entities) "a1"
get_entity-set_entity_example =
    get_entity-set_entity in_memory_repo view in_memory_repo-IsRepo quiet blue "a1" no_entities tt
      (some blue) (omega arith) (unfold set_entity in unfold store in refl)
      (unfold set_entity in
        unfold get_entity in
        unfold store in unfold retrieve in unfold assign in unfold find in refl)
