-- ===== src/Repo/InMemory/Refines.antt =====
-- The in-memory repository keeps the contract of the port.
use sapper_bricks.Prelude.{String, refl, Option, arith}
use sapper_bricks.Dict.{find}
use sapper_bricks.Dict.Laws.{find-assign}
use sapper_bricks.Ports.{Entity}
use sapper_bricks.Ports.Contract.{IsRepo}
use sapper_bricks.Repo.InMemory.{InMemoryRepo, store, retrieve, in_memory_repo}

abbrev pub view : InMemoryRepo → String → Option Entity
view repo id = find id repo.entries

-- The in-memory repository refines the table of its map's entries.
pub in_memory_repo-IsRepo : IsRepo in_memory_repo view
unfolding store retrieve
in_memory_repo-IsRepo = record {
  stored = λ e w range ok id. find-assign e.id id e w.entries;
  retrieved = λ id w found h. ground arith;
  kept = λ id w j. refl;
}
