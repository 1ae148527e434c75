-- ===== src/Handler/PubSub.antt =====
-- handler/google-pubsub/src/adapters/handler-pubsub/handler-pubsub.cpp. The subscriber of the Google
-- library calls `on_message` for each message; `deliver` is one such run of calls. Waiting for Stop
-- is in `Handler/PubSub/Stopping.antt`.
pub mod Delivery
pub mod Session
pub mod Stopping
pub mod Window
use sapper_bricks.Prelude.{String, List, [], ◌∷◌}
use sapper_bricks.Effect.{
  Status, status_ok, Exn, Result, returns, throws, Comp, pure, lift, ◌>>=◌, ◌>>◌,
}
use sapper_bricks.Ports.{Entity, Api}
use sapper_bricks.Json.{JsonLib}
use sapper_bricks.Handler.{HandlerLib, read_entity}

module _ (J : JsonLib) (M : HandlerLib) {W : Type 0} (api : Api W) where
  -- The request that setEntity gives to Process.
  unfoldable pub set_request : String → Comp W Status
  set_request message = do e ← lift (read_entity J message); api.set_entity e; pure status_ok

  -- The status is dropped.
  unfoldable pub set_entity : String → Comp W (Unit {0})
  set_entity message = do M.process "setEntity" (set_request message); pure tt

  -- The callback of Subscribe: the message is acknowledged before it is processed.
  unfoldable pub on_message : (String → Comp W (Unit {0})) → String → Comp W (Unit {0})
  on_message acknowledge message = do acknowledge message; set_entity message

  unfoldable pub deliver : (String → Comp W (Unit {0})) → List String → Comp W (Unit {0})
  deliver acknowledge [] = pure tt
  deliver acknowledge (message ∷ messages) = do
    on_message acknowledge message
    deliver acknowledge messages
