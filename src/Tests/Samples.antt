-- ===== src/Tests/Samples.antt =====
-- The data that the tests share.
use sapper_bricks.Prelude.{[]}
use sapper_bricks.Prelude.Int.{pos}
use sapper_bricks.Effect.{pure}
use sapper_bricks.Ports.{Entity, EntityNotifier}
use sapper_bricks.Repo.InMemory.{InMemoryRepo}

abbrev pub blue : Entity
blue = record { id = "a1"; string_property = "blue"; int_property = pos 7 }

abbrev pub slashed : Entity
slashed = record { id = "a/1"; string_property = "blue"; int_property = pos 7 }

abbrev pub no_entities : InMemoryRepo
no_entities = record { entries = [] }

-- A notifier that reaches everybody.
abbrev pub quiet : {W : Type 0} → EntityNotifier W
quiet = record { entity_changed = λ e. pure tt }
