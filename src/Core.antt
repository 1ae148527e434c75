-- ===== src/Core.antt =====
-- base/hexagonal-skeleton/src/core/core.cpp. A null pointer to a port is `none`.
pub mod Calls
pub mod Refines
use sapper_bricks.Prelude.{String, Option, none, some, ◌==◌}
use sapper_bricks.Effect.{Comp, runtime_error, invalid_argument, pure, raise, throw_if, ◌>>◌}
use sapper_bricks.Ports.{Entity, EntityRepo, EntityNotifier, Api}

pub record Core (W : Type 0) : Type 0 where
  pub repo : Option (EntityRepo W)
  pub notifier : Option (EntityNotifier W)

module _ {W : Type 0} where
  -- if(_notifier) { _notifier->EntityChanged(entity); }
  notify : Option (EntityNotifier W) → Entity → Comp W (Unit {0})
  notify none entity = pure tt
  notify (some notifier) entity = notifier.entity_changed entity

  -- The rest of SetEntity, once the repository is known.
  set_in : EntityRepo W → Option (EntityNotifier W) → Entity → Comp W (Unit {0})
  unfolding notify
  set_in repo notifier entity = do
    throw_if (entity.id == "") (invalid_argument "invalid id")
    repo.store entity
    notify notifier entity

  get_in : EntityRepo W → String → Comp W (Option Entity)
  get_in repo id = do throw_if (id == "") (invalid_argument "invalid id"); repo.retrieve id

  unfoldable pub set_entity : Core W → Entity → Comp W (Unit {0})
  unfolding set_in
  set_entity core entity = elim core.repo [
    | none ↦ raise (runtime_error "invalid repo")
    | some repo ↦ set_in repo core.notifier entity
  ]

  unfoldable pub get_entity : Core W → String → Comp W (Option Entity)
  unfolding get_in
  get_entity core id = elim core.repo [
    | none ↦ raise (runtime_error "invalid repo")
    | some repo ↦ get_in repo id
  ]

  -- A Core seen through the Api port.
  abbrev pub core_api : Core W → Api W
  core_api core = record { set_entity = set_entity core; get_entity = get_entity core }
