-- ===== src/Notifier/PubSub/Chain.antt =====
-- Two services in a chain: the Pub/Sub notifier of one announces entities on a topic, and the
-- Pub/Sub handler of another gets the messages of the topic.
use sapper_bricks.Prelude.{String, ◌≡◌, ◌⊎◌, List, [], ◌∷◌, ◌++◌}
use sapper_bricks.Prelude.Int.{IsInt32}
use sapper_bricks.Effect.{StatusCode, returns, Comp, pure, ◌>>◌}
use sapper_bricks.Ports.{Entity, Api}
use sapper_bricks.Json.{JsonLib, IsJson}
use sapper_bricks.Json.Codec.{encode}
use sapper_bricks.Mse.{IssuerLib}
use sapper_bricks.Handler.{HandlerLib, IsHandler}
use sapper_bricks.Notifier.PubSub.{PublishLib, PubSubNotifier, published, entity_changed}

-- A topic keeps the texts of its messages, and takes every message. A connection to it keeps the
-- names it was made with.
abbrev pub topic : PublishLib (List String) (String × String)
topic = record {
  make_publisher_connection = λ google_project_id pubsub_topic. (google_project_id, pubsub_topic);
  filtered_metadata = λ headers. pure [];
  publish = λ connection text metadata q. (returns (published "1"), q ++ text ∷ []);
  from_grpc = λ code. StatusCode.other code;
}

abbrev pub IsIn : {A : Type 0} → A → List A → Type 0
IsIn a [] = ⊥
IsIn a (b ∷ bs) = (a ≡ b) ⊎ IsIn a bs

module _ (J : JsonLib) (M : IssuerLib) where
  -- EntityChanged for one entity after another.
  pub announce : PubSubNotifier (String × String) → List Entity → Comp (List String) (Unit {0})
  announce notifier [] = pure tt
  announce notifier (e ∷ entities) =
      entity_changed J topic notifier M e >> announce notifier entities

  -- Each entity has its text, and its number is in the range of an int.
  abbrev pub AreSendable : List Entity → List String → Type 0
  AreSendable [] [] = Unit
  AreSendable [] (text ∷ texts) = ⊥
  AreSendable (e ∷ entities) [] = ⊥
  AreSendable (e ∷ entities) (text ∷ texts) =
      IsInt32 e.int_property × (encode J e ≡ returns text) × AreSendable entities texts

  module _ (json : IsJson J) (S : HandlerLib) (handles : IsHandler S) {W : Type 0}
      (api : Api W) where
    -- SetEntity for one entity after another, whether it returns or throws.
    abbrev pub set_all : List Entity → W → W
    set_all [] w = w
    set_all (e ∷ entities) w = set_all entities (api.set_entity e w).1
