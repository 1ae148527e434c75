-- ===== src/App/Propagated.antt =====
-- A service with a notifier and the bricks security/openid, security/jwt-auth and
-- observerability/opentelemetry-tracing: the headers that pass from the requests that it handles to
-- the notifications that it sends.
use sapper_bricks.Prelude.{ℕ, String, ◌≡◌, refl, Option, List, [], ◌∷◌}
use sapper_bricks.Effect.{Comp, pure}
use sapper_bricks.Ports.{EntityRepo}
use sapper_bricks.Core.{Core}
use sapper_bricks.Json.{JsonLib}
use sapper_bricks.Mse.{IssuerLib}
use sapper_bricks.Security.OpenId.Metadata.{Configuration}
use sapper_bricks.Tracing.{HeaderNames, get_propagation_headers}
use sapper_bricks.Tracing.Provider.{ExporterLib}
use sapper_bricks.Notifier
use sapper_bricks.Notifier.Http.{PutLib, put_request}
use sapper_bricks.Notifier.PubSub.{PublishLib, publish_request}
use sapper_bricks.App.{AppLib, Main, skeleton, run, serve, main_of, execute}
use sapper_bricks.App.Bricks.{
  merge, openid, jwt_authentication, opentelemetry_tracing, http_notifier, pub_sub_notifier,
}

-- What the two security bricks are given.
pub record Security (W : Type 0) : Type 0 where
  pub create_from_url : String → Comp W Configuration
  pub make_key_provider : String → Comp W (String → Comp W String)
  pub openid_default_url : String
  pub audience : String
  pub required_claims : List String

module _ {W : Type 0} (A : AppLib W) (E : ExporterLib W) (names : HeaderNames) (S : Security W)
    (otel_url : String) (J : JsonLib) (M : IssuerLib) where
  -- The two orders in which tracing and security are added to a service.
  abbrev pub secure : Main W → Main W
  secure m =
      jwt_authentication A (openid A m S.create_from_url S.openid_default_url) S.make_key_provider
        S.audience S.required_claims

  abbrev pub trace : Main W → Main W
  trace m = opentelemetry_tracing A m E names otel_url

  abbrev pub headers_passed : List String
  headers_passed = "authorization" ∷ "" ∷ names.b3_combined ∷ []

  -- A client and a publisher whose filter passes these headers, whatever it is asked for.
  abbrev pub put_passing : PutLib W → PutLib W
  put_passing H = record H { filtered_metadata = λ headers. H.filtered_metadata headers_passed }

  abbrev pub publish_passing : {C : Type 0} → PublishLib W C → PublishLib W C
  publish_passing P = record P { filtered_metadata = λ headers. P.filtered_metadata headers_passed }

  module _ (repo : Comp W (Option (EntityRepo W)))
      (handler : Core W → Comp W (Comp W (Unit {0}))) where
    abbrev pub adapted : Main W
    adapted = record (skeleton A) { repo = repo; handler = handler }

    -- With notifier/http, of a connection string, a number of retries and an interval.
    abbrev pub put_notified : String → ℕ → ℕ → PutLib W → Main W
    put_notified url max_retry_count first_retry_interval H =
        http_notifier A adapted
          (λ uri headers count interval.
            pure
              (Notifier.Http.http_notifier J H (Notifier.Http.create uri headers count interval) M))
          url max_retry_count first_retry_interval

    -- With notifier/google-pubsub, of a project and a topic.
    abbrev pub publish_notified : String → String → {C : Type 0} → PublishLib W C → Main W
    publish_notified google_project pubsub_topic P =
        pub_sub_notifier A adapted
          (λ project topic headers. pure (
            Notifier.PubSub.pub_sub_notifier J P (Notifier.PubSub.create P project topic headers)
              M))
          google_project pubsub_topic

    -- Whatever its repository and its handler do, a service with notifier/http, the security bricks
    -- and the tracing brick asks each request that it handles for the same headers to pass on to
    -- the notified service: authorization, the empty text and the header of the trace. It runs
    -- exactly like the service whose filter passes these three whatever it is asked for, whichever
    -- of tracing and security is added first.
    pub main_of-put_passing :
        (url : String) (max_retry_count first_retry_interval : ℕ) (H : PutLib W) (w : W)
        → let plain = put_notified url max_retry_count first_retry_interval H in
          let passing = put_notified url max_retry_count first_retry_interval (put_passing H) in
          (main_of A (trace (secure plain)) w ≡ main_of A (trace (secure passing)) w)
          × (main_of A (secure (trace plain)) w ≡ main_of A (secure (trace passing)) w)
    unfolding main_of run serve execute openid jwt_authentication opentelemetry_tracing
        http_notifier Notifier.Http.entity_changed put_request Notifier.Http.create merge
        get_propagation_headers
    main_of-put_passing url max_retry_count first_retry_interval H w = (refl, refl)

    -- The same of a service with notifier/google-pubsub and the attributes of its messages.
    pub main_of-publish_passing :
        (project topic : String) {C : Type 0} (P : PublishLib W C) (w : W)
        → let plain = publish_notified project topic P in
          let passing = publish_notified project topic (publish_passing P) in
          (main_of A (trace (secure plain)) w ≡ main_of A (trace (secure passing)) w)
          × (main_of A (secure (trace plain)) w ≡ main_of A (secure (trace passing)) w)
    unfolding main_of run serve execute openid jwt_authentication opentelemetry_tracing
        pub_sub_notifier Notifier.PubSub.entity_changed publish_request Notifier.PubSub.create merge
        get_propagation_headers
    main_of-publish_passing project topic P w = (refl, refl)
