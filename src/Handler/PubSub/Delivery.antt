-- ===== src/Handler/PubSub/Delivery.antt =====
-- What a run of messages does.
use mathlib.Core.List.{append-nil, append_assoc}
use sapper_bricks.Prelude.{String, ◌≡◌, inl, inr, List, [], ◌∷◌, ◌++◌}
use sapper_bricks.Effect.{status_ok, Result, returns, throws, Comp, on_right}
use sapper_bricks.Effect.Laws.{Result-cases}
use sapper_bricks.Ports.{Entity, Api}
use sapper_bricks.Json.{JsonLib}
use sapper_bricks.Handler.{HandlerLib, IsHandler, read_entity}
use sapper_bricks.Handler.PubSub.{set_request, set_entity, on_message, deliver}

module _ (J : JsonLib) (M : HandlerLib) (laws : IsHandler M) {W : Type 0} (api : Api W) where
  -- An Api beside a list of the messages that were acknowledged.
  abbrev pub api_right : Api (List String × W)
  api_right = record {
    set_entity = λ e. on_right (api.set_entity e);
    get_entity = λ id. on_right (api.get_entity id);
  }

  abbrev pub acknowledge : String → Comp (List String × W) (Unit {0})
  acknowledge message s = (returns tt, (s.0 ++ message ∷ [], s.1))

  -- What one message does to the world: its entity is set, if it is one.
  abbrev pub applied_entity : Result Entity → W → W
  applied_entity (returns e) w = (api.set_entity e w).1
  applied_entity (throws x) w = w

  abbrev pub applied : List String → W → W
  applied [] w = w
  applied (message ∷ messages) w = applied messages (applied_entity (read_entity J message) w)

  pub on_message_lem :
      (message : String) (s : List String × W)
      → on_message J M api_right acknowledge message s
        ≡ (returns tt, (s.0 ++ message ∷ [], applied_entity (read_entity J message) s.1))
  unfolding on_message set_entity set_request
  on_message_lem message s =
      let m = set_request J M api_right message in
      let t : List String × W = (s.0 ++ message ∷ [], s.1) in
      elim (Result-cases (read_entity J message)) [
        | inr (x, k) ↦ rw (laws.process_threw "setEntity" m t x (rw k), k)
        | inl (e, k) ↦ elim (Result-cases (api.set_entity e s.1).0) [
          | inr (x, p) ↦ rw (laws.process_threw "setEntity" m t x (rw (k, p)), k, p)
          | inl (u, p) ↦ rw (laws.process_returned "setEntity" m t status_ok (rw (k, p)), k, p)
        ]
      ]

  -- A run of messages never throws. Every message is acknowledged once, in order, also one that is
  -- no entity and one whose SetEntity throws; SetEntity is called for the entities among them, in
  -- order, each once, and a message that failed is lost.
  pub deliver_lem :
      (messages : List String) (s : List String × W)
      → deliver J M api_right acknowledge messages s
        ≡ (returns tt, (s.0 ++ messages, applied messages s.1))
  unfolding deliver
  deliver_lem [] s = rw (append-nil s.0)
  deliver_lem (message ∷ messages) s =
      let t : List String × W = (s.0 ++ message ∷ [], applied_entity (read_entity J message) s.1) in
      rw
        (on_message_lem message s, deliver_lem messages t, append_assoc s.0 (message ∷ []) messages)
