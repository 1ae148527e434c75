-- ===== src/Notifier/PubSub.antt =====
-- notifier/google-pubsub/src/adapters/notifier-pubsub/notifier-pubsub.cpp. The publisher of the
-- Google library is a parameter; the log message is not modelled.
pub mod Chain
pub mod Publishing
use sapper_bricks.Prelude.{ℕ, String, List}
use sapper_bricks.Effect.{
  StatusCode, Status, status_ok, Exn, Result, returns, throws, Comp, pure, lift, ◌>>=◌, ◌>>◌,
}
use sapper_bricks.Dict.{Dict}
use sapper_bricks.Ports.{Entity, EntityNotifier}
use sapper_bricks.Json.{JsonLib}
use sapper_bricks.Json.Codec.{encode}
use sapper_bricks.Mse.{IssuerLib}

-- The message id, or the gRPC code and the text of an error.
pub data Published : Type 0 where
  published : String → Published
  failed : ℕ → String → Published

pub record PublishLib (W Connection : Type 0) : Type 0 where
  -- MakePublisherConnection(Topic(project, topic))
  pub make_publisher_connection : String → String → Connection
  -- context.GetFilteredMetadata(headers)
  pub filtered_metadata : List String → Comp W (Dict String)
  -- Publisher(connection).Publish(message with data and attributes).get()
  pub publish : Connection → String → Dict String → Comp W Published
  -- FromGrpcStatusCode
  pub from_grpc : ℕ → StatusCode

pub record PubSubNotifier (Connection : Type 0) : Type 0 where
  pub connection : Connection
  pub headers_to_propagate : List String

-- PubSubNotifier::PubSubNotifier
unfoldable pub create :
    {W Connection : Type 0}
    → PublishLib W Connection
    → String
    → String
    → List String
    → PubSubNotifier Connection
create P google_project_id pubsub_topic headers_to_propagate = record {
  connection = P.make_publisher_connection google_project_id pubsub_topic;
  headers_to_propagate = headers_to_propagate;
}

module _ (J : JsonLib) {W Connection : Type 0} (P : PublishLib W Connection)
    (notifier : PubSubNotifier Connection) where
  abbrev status_for : Published → Status
  status_for (published id) = status_ok
  status_for (failed code message) = record { code = P.from_grpc code; details = message }

  -- The request that Process is given.
  unfoldable pub publish_request : Entity → Comp W Status
  publish_request entity = do
    metadata_to_propagate ← P.filtered_metadata notifier.headers_to_propagate
    text ← lift (encode J entity)
    id ← P.publish notifier.connection text metadata_to_propagate
    pure (status_for id)

  unfoldable pub entity_changed : IssuerLib → Entity → Comp W (Unit {0})
  entity_changed M entity = do
    M.process "entityChanged" (M.forward_errors (publish_request entity))
    pure tt

  abbrev pub pub_sub_notifier : IssuerLib → EntityNotifier W
  pub_sub_notifier M = record { entity_changed = entity_changed M }
