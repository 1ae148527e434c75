-- ===== src/Handler/Grpc/RoundTrip.antt =====
-- A SetEntity and a later GetEntity over gRPC, with the core and any repository that keeps its
-- contract.
use sapper_bricks.Prelude.{String, ◌≡◌, Option}
use sapper_bricks.Prelude.Int.{IsInt32}
use sapper_bricks.Effect.{Status, status_ok, returns}
use sapper_bricks.Ports.{Entity, Api, EntityRepo, EntityNotifier}
use sapper_bricks.Ports.Contract.{IsRepo, updated}
use sapper_bricks.Core
use sapper_bricks.Core.{core_api}
use sapper_bricks.Core.Refines.{joined, get_entity-set_entity}
use sapper_bricks.Handler.{HandlerLib, IsHandler}
use sapper_bricks.Handler.Grpc.{GetEntityResponse, get_entity, set_entity}
use sapper_bricks.Handler.Grpc.Calls.{
  get_status, get_response, grpc_get_entity_lem, grpc_set_entity_lem,
}

module _ (M : HandlerLib) (laws : IsHandler M) {G : Type 0} (to_grpc : Status → G) {W V : Type 0}
    (r : EntityRepo W) (view : W → String → Option Entity) (c : IsRepo r view)
    (n : EntityNotifier V) where
  abbrev api : Api (W × V)
  api = core_api (joined r n)

  -- The status of a GetEntity by what the table holds.
  abbrev pub status_for : String → Option Entity → Status
  status_for id found = get_status M laws to_grpc api id (returns found)

  abbrev pub response_for : GetEntityResponse → Option Entity → GetEntityResponse
  response_for response found = get_response M laws to_grpc api response (returns found)

  -- A SetEntity in which the core returned answers ok, and a GetEntity after it, of any id, in which
  -- the core returns answers from the table that holds the new entity under its id: ok with the
  -- entity, or not found with the id and an empty response.
  pub get_entity-set_entity_grpc :
      (e : Entity) (id : String) (response : GetEntityResponse) (s : W × V) (found : Option Entity)
      → IsInt32 e.int_property
      → (Core.set_entity (joined r n) e s).0 ≡ returns tt
      → (Core.get_entity (joined r n) id (Core.set_entity (joined r n) e s).1).0 ≡ returns found
      → let (answer, after) = set_entity M to_grpc api e s in
        let held = updated e (view s.0) id in
        (answer ≡ returns (to_grpc status_ok))
        × ((get_entity M to_grpc api id (response, after)).0
            ≡ returns (to_grpc (status_for id held)))
        × ((get_entity M to_grpc api id (response, after)).1.0 ≡ response_for response held)
  get_entity-set_entity_grpc e id response s found range set got =
      let sent = grpc_set_entity_lem M laws to_grpc api e s in
      let middle = (Core.set_entity (joined r n) e s).1 in
      let read = grpc_get_entity_lem M laws to_grpc api id response middle in
      let held : found ≡ updated e (view s.0) id =
        get_entity-set_entity r view c n e id s.0 s.1 found range set got in
      (rw (sent, set), rw (sent, read, got, held), rw (sent, read, got, held))
