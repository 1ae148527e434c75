-- ===== src/Handler/Grpc/Calls.antt =====
-- What the two remote procedures answer.
use sapper_bricks.Prelude.{String, ◌≡◌, inl, inr, Option, none, some}
use sapper_bricks.Effect.{Status, status_ok, Result, returns, throws}
use sapper_bricks.Effect.Laws.{Result-cases}
use sapper_bricks.Ports.{Entity, Api}
use sapper_bricks.Handler.{HandlerLib, IsHandler, unknown_entity}
use sapper_bricks.Handler.Grpc.{GetEntityResponse, get_request, get_entity, set_request, set_entity}

module _ (M : HandlerLib) (laws : IsHandler M) {G : Type 0} (to_grpc : Status → G) {W : Type 0}
    (api : Api W) where
  abbrev pub get_status : String → Result (Option Entity) → Status
  get_status id (throws x) = M.status_of x
  get_status id (returns none) = unknown_entity id
  get_status id (returns (some e)) = status_ok

  abbrev pub get_response : GetEntityResponse → Result (Option Entity) → GetEntityResponse
  get_response response (throws x) = response
  get_response response (returns none) = response
  get_response response (returns (some e)) = record { entity = some e }

  -- GetEntity calls the Api once and never throws. The response is filled exactly when the entity
  -- was found, and then the status is ok; otherwise the status is not found with the id, or that of
  -- what the Api threw.
  pub grpc_get_entity_lem :
      (id : String) (response : GetEntityResponse) (w : W)
      → let (found, left) = api.get_entity id w in
        get_entity M to_grpc api id (response, w)
        ≡ (returns (to_grpc (get_status id found)), (get_response response found, left))
  unfolding get_entity get_request
  grpc_get_entity_lem id response w =
      let m = get_request M to_grpc api id in
      elim (Result-cases (api.get_entity id w).0) [
        | inr (x, k) ↦ rw (laws.process_threw "GetEntity" m (response, w) x (rw k), k)
        | inl (none, k) ↦
            rw (laws.process_returned "GetEntity" m (response, w) (unknown_entity id) (rw k), k)
        | inl (some e, k) ↦
            rw (laws.process_returned "GetEntity" m (response, w) status_ok (rw k), k)
      ]

  abbrev pub set_status : Result (Unit {0}) → Status
  set_status (returns u) = status_ok
  set_status (throws x) = M.status_of x

  -- SetEntity calls the Api once, with the entity of the request, never throws, and answers ok or
  -- with the status of what the Api threw.
  pub grpc_set_entity_lem :
      (e : Entity) (w : W)
      → set_entity M to_grpc api e w
        ≡ (returns (to_grpc (set_status (api.set_entity e w).0)), (api.set_entity e w).1)
  unfolding set_entity set_request
  grpc_set_entity_lem e w =
      let m = set_request M to_grpc api e in
      elim (Result-cases (api.set_entity e w).0) [
        | inr (x, k) ↦ rw (laws.process_threw "SetEntity" m w x (rw k), k)
        | inl (u, k) ↦ rw (laws.process_returned "SetEntity" m w status_ok (rw k), k)
      ]
