-- ===== src/Core/Calls.antt =====
-- Which calls the core makes on its ports, and in which order.
use mathlib.Core.List.{append-nil, append_assoc}
use sapper_bricks.Prelude.{String, ◌≡◌, Bool, true, false, some, List, [], ◌∷◌, ◌++◌, arith, ◌==◌}
use sapper_bricks.Effect.{Comp, Result, returns, throws, on_left, ◌>>◌}
use sapper_bricks.Ports.{Entity, EntityRepo, EntityNotifier}
use sapper_bricks.Core.{Core, set_entity, get_entity}

pub data Call : Type 0 where
  stored changed : Entity → Call
  retrieved : String → Call

module _ {W : Type 0} where
  abbrev pub record_call : Call → Comp (W × List Call) (Unit {0})
  record_call c w = (returns tt, (w.0, w.1 ++ c ∷ []))

  -- The same repository, which also keeps a list of the calls that it gets.
  abbrev pub traced_repo : EntityRepo W → EntityRepo (W × List Call)
  traced_repo r = record {
    store = λ e. record_call (stored e) >> on_left (r.store e);
    retrieve = λ id. record_call (retrieved id) >> on_left (r.retrieve id);
  }

  abbrev pub traced_notifier : EntityNotifier W → EntityNotifier (W × List Call)
  traced_notifier n = record {
    entity_changed = λ e. record_call (changed e) >> on_left (n.entity_changed e);
  }

  abbrev pub traced : EntityRepo W → EntityNotifier W → Core (W × List Call)
  traced r n = record { repo = some (traced_repo r); notifier = some (traced_notifier n) }

-- The calls of a SetEntity, by its test for an empty id and the outcome of the store.
abbrev pub calls_of_set : Bool → Entity → Result (Unit {0}) → List Call
calls_of_set true e outcome = []
calls_of_set false e (returns _) = stored e ∷ changed e ∷ []
calls_of_set false e (throws _) = stored e ∷ []

-- The calls of a GetEntity, by its test for an empty id.
abbrev pub calls_of_get : Bool → String → List Call
calls_of_get true id = []
calls_of_get false id = retrieved id ∷ []

module _ {W : Type 0} (r : EntityRepo W) (n : EntityNotifier W) where
  -- SetEntity with an empty id calls no port. Otherwise it stores the entity, and then, if the
  -- store returned, it announces the same entity to the notifier; it makes no other call.
  pub set_entity-calls :
      (e : Entity) (w : W) (before : List Call)
      → (set_entity (traced r n) e (w, before)).1.1
        ≡ before ++ calls_of_set (e.id == "") e (r.store e w).0
  unfolding set_entity
  set_entity-calls e w before =
      ground (arith, append-nil before, append_assoc before (stored e ∷ []) (changed e ∷ []))

  -- GetEntity with an empty id calls no port, and otherwise makes one retrieval with that id.
  pub get_entity-calls :
      (id : String) (w : W) (before : List Call)
      → (get_entity (traced r n) id (w, before)).1.1 ≡ before ++ calls_of_get (id == "") id
  unfolding get_entity
  get_entity-calls id w before = ground (arith, append-nil before)
