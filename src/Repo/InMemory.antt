-- ===== src/Repo/InMemory.antt =====
-- repo/in-memory/src/adapters/repo-in-memory.
pub mod Refines
use sapper_bricks.Prelude.{String, Option}
use sapper_bricks.Effect.{Comp, returns}
use sapper_bricks.Dict.{Dict, find, assign}
use sapper_bricks.Ports.{Entity, EntityRepo}

pub record InMemoryRepo : Type 0 where
  pub entries : Dict Entity

unfoldable pub store : Entity → Comp InMemoryRepo (Unit {0})
store entity repo = (returns tt, record { entries = assign entity.id entity repo.entries })

unfoldable pub retrieve : String → Comp InMemoryRepo (Option Entity)
retrieve id repo = (returns (find id repo.entries), repo)

abbrev pub in_memory_repo : EntityRepo InMemoryRepo
in_memory_repo = record { store = store; retrieve = retrieve }
