-- ===== src/Ports/Contract.antt =====
-- What a repository promises: it refines a table from ids to entities. The bricks under repo/
-- prove this contract, and the core and the handlers take it.
use sapper_bricks.Prelude.{String, ◌≡◌, Option, some, ◌==◌, if◌then◌else◌}
use sapper_bricks.Prelude.Int.{IsInt32}
use sapper_bricks.Effect.{returns}
use sapper_bricks.Ports.{Entity, EntityRepo}

-- The table after an entity was stored.
abbrev pub updated : Entity → (String → Option Entity) → String → Option Entity
updated e table id = if e.id == id then some e else table id

-- `view w` is the table that the repository holds in the world `w`.
pub record IsRepo {W : Type 0} (r : EntityRepo W) (view : W → String → Option Entity) : Type 0 where
  -- A store that returns has replaced the entity with that id and no other.
  pub stored :
      (e : Entity) (w : W)
      → IsInt32 e.int_property
      → (r.store e w).0 ≡ returns tt
      → (id : String) → view (r.store e w).1 id ≡ updated e (view w) id
  -- A retrieval that returns answers from the table.
  pub retrieved :
      (id : String) (w : W) (found : Option Entity)
      → (r.retrieve id w).0 ≡ returns found
      → found ≡ view w id
  -- A retrieval changes nothing, whether it returns or throws.
  pub kept : (id : String) (w : W) (j : String) → view (r.retrieve id w).1 j ≡ view w j
