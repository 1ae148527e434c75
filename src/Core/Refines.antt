-- ===== src/Core/Refines.antt =====
-- The core refines the table of its repository, whichever repository and notifier it has.
use sapper_bricks.Prelude.{String, ◌≡◌, ◌≢◌, ◌∙◌, Option, some, arith, eq_iff}
use sapper_bricks.Prelude.Int.{IsInt32}
use sapper_bricks.Effect.{returns, on_left, on_right}
use sapper_bricks.Ports.{Entity, EntityRepo, EntityNotifier}
use sapper_bricks.Ports.Contract.{IsRepo, updated}
use sapper_bricks.Core.{Core, set_entity, get_entity}

-- A repository and a notifier side by side, each on its own part of the world.
module _ {W V : Type 0} where
  abbrev pub repo_left : EntityRepo W → EntityRepo (W × V)
  repo_left r = record {
    store = λ e. on_left (r.store e);
    retrieve = λ id. on_left (r.retrieve id);
  }

  abbrev pub notifier_right : EntityNotifier V → EntityNotifier (W × V)
  notifier_right n = record { entity_changed = λ e. on_right (n.entity_changed e) }

  abbrev pub joined : EntityRepo W → EntityNotifier V → Core (W × V)
  joined r n = record { repo = some (repo_left r); notifier = some (notifier_right n) }

module _ {W V : Type 0} (r : EntityRepo W) (view : W → String → Option Entity) (c : IsRepo r view)
    (n : EntityNotifier V) where
  -- When SetEntity returns, the id is not empty and exactly the entity with that id is replaced.
  pub set_entity-updated :
      (e : Entity) (w : W) (v : V)
      → IsInt32 e.int_property
      → (set_entity (joined r n) e (w, v)).0 ≡ returns tt
      → (e.id ≢ "")
        × ((id : String) → view (set_entity (joined r n) e (w, v)).1.0 id ≡ updated e (view w) id)
  unfolding set_entity
  set_entity-updated e w v range h =
      let stored : (r.store e w).0 ≡ returns tt = ground arith in
      (ground (arith, eq_iff e.id ""), λ id. ground (arith, c.stored e w range stored id))

  -- Once the repository has stored the entity, SetEntity ends as the notification ends, and the
  -- entity stays stored also when the notification throws.
  pub set_entity-notified :
      (e : Entity) (w : W) (v : V)
      → IsInt32 e.int_property
      → e.id ≢ ""
      → (r.store e w).0 ≡ returns tt
      → ((set_entity (joined r n) e (w, v)).0 ≡ (n.entity_changed e v).0)
        × ((id : String) → view (set_entity (joined r n) e (w, v)).1.0 id ≡ updated e (view w) id)
  unfolding set_entity
  set_entity-notified e w v range named stored = (
    ground (arith, eq_iff e.id ""),
    λ id. ground (arith, eq_iff e.id "", c.stored e w range stored id),
  )

  get_entity-view :
      (id : String) (w : W) (v : V) (found : Option Entity)
      → (get_entity (joined r n) id (w, v)).0 ≡ returns found
      → (id ≢ "") × (found ≡ view w id)
  unfolding get_entity
  get_entity-view id w v found h = ground (arith, eq_iff id "", c.retrieved id w found)

  -- A GetEntity that returns answers from the table of the repository, and whether it returns or
  -- throws it leaves the table and the notifier as they were.
  pub get_entity-refines :
      (id : String) (w : W) (v : V)
      → ((found : Option Entity)
          → (get_entity (joined r n) id (w, v)).0 ≡ returns found
          → (id ≢ "") × (found ≡ view w id))
        × ((j : String) → view (get_entity (joined r n) id (w, v)).1.0 j ≡ view w j)
        × ((get_entity (joined r n) id (w, v)).1.1 ≡ v)
  unfolding get_entity
  get_entity-refines id w v =
      (get_entity-view id w v, λ j. ground (arith, c.kept id w j), ground arith)

  -- GetEntity after a SetEntity that returned: if it returns, it finds the entity that was set
  -- under its id, and under any other id what the repository held before.
  pub get_entity-set_entity :
      (e : Entity) (id : String) (w : W) (v : V) (found : Option Entity)
      → IsInt32 e.int_property
      → (set_entity (joined r n) e (w, v)).0 ≡ returns tt
      → (get_entity (joined r n) id (set_entity (joined r n) e (w, v)).1).0 ≡ returns found
      → found ≡ updated e (view w) id
  get_entity-set_entity e id w v found range set got =
      let after = (set_entity (joined r n) e (w, v)).1 in
      (get_entity-view id after.0 after.1 found got).1 ∙ (set_entity-updated e w v range set).1 id
