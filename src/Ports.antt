-- ===== src/Ports.antt =====
-- The ports of base/hexagonal-skeleton/src/ports: the entity and the three interfaces. A class of
-- pure virtual methods is a record of actions on the world of the object that implements it.
pub mod Contract
use sapper_bricks.Prelude.{String, Option}
use sapper_bricks.Prelude.Int.{ℤ}
use sapper_bricks.Effect.{Comp}

-- struct Entity; `int_property` is an `int`, whose range is `IsInt32`.
pub record Entity : Type 0 where
  pub id : String
  pub string_property : String
  pub int_property : ℤ

pub record EntityRepo (W : Type 0) : Type 0 where
  pub store : Entity → Comp W (Unit {0})
  pub retrieve : String → Comp W (Option Entity)

pub record EntityNotifier (W : Type 0) : Type 0 where
  pub entity_changed : Entity → Comp W (Unit {0})

pub record Api (W : Type 0) : Type 0 where
  pub set_entity : Entity → Comp W (Unit {0})
  pub get_entity : String → Comp W (Option Entity)
