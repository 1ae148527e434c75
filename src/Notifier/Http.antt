-- ===== src/Notifier/Http.antt =====
-- notifier/http/src/adapters/notifier-http/notifier-http.cpp. The HTTP client and the conversions of
-- the request library are parameters; the two timeouts are the client's.
pub mod Delivery
pub mod Chain
use Prim.Native.String
use sapper_bricks.Prelude.{ℕ, String, List}
use sapper_bricks.Effect.{
  StatusCode, Status, unavailable, Exn, Result, returns, throws, Comp, pure, lift, ◌>>=◌, ◌>>◌,
}
use sapper_bricks.Dict.{Dict}
use sapper_bricks.Ports.{Entity, EntityNotifier}
use sapper_bricks.Json.{JsonLib}
use sapper_bricks.Json.Codec.{encode}
use sapper_bricks.Http.{Fetched, failed, answered}
use sapper_bricks.Mse.{IssuerLib}

pub record PutLib (W : Type 0) : Type 0 where
  -- context.GetFilteredMetadata(headers)
  pub filtered_metadata : List String → Comp W (Dict String)
  -- Client(connection).Put(path, headers, body, content type)
  pub put : String → String → Dict String → String → String → Comp W Fetched
  -- FromHttpStatusCode
  pub from_http : ℕ → StatusCode

pub record HttpNotifier : Type 0 where
  pub notification_connection_string : String
  pub headers_to_propagate : List String
  pub max_retry_count : ℕ
  pub first_retry_interval : ℕ

-- HttpNotifier::HttpNotifier
unfoldable pub create : String → List String → ℕ → ℕ → HttpNotifier
create notification_connection_string headers_to_propagate max_retry_count first_retry_interval =
    record {
      notification_connection_string = notification_connection_string;
      headers_to_propagate = headers_to_propagate;
      max_retry_count = max_retry_count;
      first_retry_interval = first_retry_interval;
    }

module _ (J : JsonLib) {W : Type 0} (H : PutLib W) (notifier : HttpNotifier) where
  abbrev pub status_for : Fetched → Status
  status_for (failed error) = record {
    code = unavailable;
    details = "received error while notifying";
  }
  status_for (answered status body) = record { code = H.from_http status; details = "" }

  -- The request that Process is given.
  unfoldable pub put_request : Entity → Comp W Status
  put_request entity = do
    headers ← H.filtered_metadata notifier.headers_to_propagate
    body ← lift (encode J entity)
    resp ←
        H.put notifier.notification_connection_string (Prim.Native.String.◌++◌ "/Entity/" entity.id)
          headers body "application/json"
    pure (status_for resp)

  unfoldable pub entity_changed : IssuerLib → Entity → Comp W (Unit {0})
  entity_changed M entity = do
    M.process "entityChanged" (
        M.forward_errors
          (M.retry notifier.max_retry_count notifier.first_retry_interval (put_request entity)))
    pure tt

  abbrev pub http_notifier : IssuerLib → EntityNotifier W
  http_notifier M = record { entity_changed = entity_changed M }
