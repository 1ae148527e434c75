-- ===== src/Handler/Grpc.antt =====
-- handler/grpc/src/adapters/handler-grpc/handler-grpc.cpp. The response message stands beside the
-- world; its `entity` is none until a field of it is set. The messages that protoc generates and the
-- server are not under the source tree.
pub mod Calls
pub mod RoundTrip
pub mod Server
pub mod Stopping
use sapper_bricks.Prelude.{String, Option, none, some}
use sapper_bricks.Effect.{
  Status, status_ok, Result, returns, throws, Comp, pure, lift, on_right, ◌>>=◌, ◌>>◌,
}
use sapper_bricks.Ports.{Entity, Api}
use sapper_bricks.Handler.{HandlerLib, unknown_entity}

-- EntityPackage::GetEntityResponse
pub record GetEntityResponse : Type 0 where
  pub entity : Option Entity

module _ (M : HandlerLib) {G : Type 0} (to_grpc : Status → G) {W : Type 0} (api : Api W) where
  -- The three calls of mutable_entity()->set_…
  abbrev set_response : Entity → Comp (GetEntityResponse × W) (Unit {0})
  set_response e s = (returns tt, (record { entity = some e }, s.1))

  abbrev answer : String → Option Entity → Comp (GetEntityResponse × W) Status
  answer id none = pure (unknown_entity id)
  answer id (some e) = do set_response e; pure status_ok

  unfoldable pub get_request : String → Comp (GetEntityResponse × W) Status
  get_request id = do found ← on_right (api.get_entity id); answer id found

  unfoldable pub get_entity : String → Comp (GetEntityResponse × W) G
  get_entity id = do status ← M.process "GetEntity" (get_request id); pure (to_grpc status)

  unfoldable pub set_request : Entity → Comp W Status
  set_request e = do api.set_entity e; pure status_ok

  -- The request message holds the three fields of an entity.
  unfoldable pub set_entity : Entity → Comp W G
  set_entity e = do status ← M.process "SetEntity" (set_request e); pure (to_grpc status)
