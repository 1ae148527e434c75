-- ===== src/App/Bricks.antt =====
-- src/app/main.cpp of each brick: what the generator does to the sections of main, by the strategies
-- REPLACE, PREPEND, APPEND and MERGE of CONTRIBUTING.md. The constructors that a fragment calls are
-- arguments, and so are the values that the generator puts for <<<…>>>.
use sapper_bricks.Prelude.{
  ℕ, String, Bool, false, Option, none, some, List, [], ◌∷◌, ◌++◌, ◌||◌, ◌==◌, if◌then◌else◌,
}
use sapper_bricks.Effect.{Exn, Comp, pure, raise, ◌>>=◌, ◌>>◌}
use sapper_bricks.Ports.{EntityRepo, EntityNotifier}
use sapper_bricks.Core.{Core}
use sapper_bricks.Security.OpenId.Metadata.{Configuration}
use sapper_bricks.Security.JwtAuth.{rs256_parameters}
use sapper_bricks.Tracing.Provider.{ExporterLib, with_tracer_provider}
use sapper_bricks.Tracing.{HeaderNames, b3_single_header, get_propagation_headers}
use sapper_bricks.App.{
  TracerParameters, Hook, logging, tracing, jwt_auth, AppLib, Statement, effect, Main,
}

-- MERGE: only the lines that the section does not have yet are added.
abbrev pub has_line : String → List String → Bool
has_line line [] = false
has_line line (l ∷ lines) = l == line || has_line line lines

unfoldable pub merge : List String → List String → List String
merge target [] = target
merge target (line ∷ lines) =
    if has_line line target then merge target lines else merge (target ++ line ∷ []) lines

module _ {W : Type 0} (A : AppLib W) (m : Main W) where
  -- repo/in-memory
  unfoldable pub in_memory : Comp W (EntityRepo W) → Main W
  in_memory make = record m { repo = (do repo ← make; pure (some repo)) }

  -- repo/redis
  unfoldable pub redis : (String → Comp W (EntityRepo W)) → String → Main W
  redis make connection_string = record m {
    repo = (do
      uri ← A.getenv_or "REDIS_CONNECTION_STRING" connection_string
      repo ← make uri
      pure (some repo));
  }

  -- repo/postgres
  unfoldable pub postgres : (String → Comp W (EntityRepo W)) → String → Main W
  postgres make connection_string = record m {
    repo = (do
      uri ← A.getenv_or "POSTGRES_CONNECTION_STRING" connection_string
      repo ← make uri
      pure (some repo));
  }

  -- repo/google-cloud-storage
  unfoldable pub cloud_storage : (String → Comp W (EntityRepo W)) → String → Main W
  cloud_storage make bucket = record m {
    repo = (do
      name ← A.getenv_or "CLOUD_STORAGE_BUCKET" bucket
      repo ← make name
      pure (some repo));
  }

  -- notifier/http: connection string, headers, retries, and the first interval in milliseconds
  unfoldable pub http_notifier :
      (String → List String → ℕ → ℕ → Comp W (EntityNotifier W)) → String → ℕ → ℕ → Main W
  http_notifier make connection_string max_retry_count first_retry_interval = record m {
    notifier = λ locals. (do
      uri ← A.getenv_or "NOTIFIER_CONNECTION_STRING" connection_string
      count ← A.getenv_int_or "NOTIFIER_MAX_RETRY_COUNT" max_retry_count
      interval ← A.getenv_int_or "NOTIFIER_FIRST_RETRY_INTERVAL_MS" first_retry_interval
      notifier ← make uri locals.headers_to_propagate count interval
      pure (some notifier));
  }

  -- notifier/google-pubsub: project, topic, headers
  unfoldable pub pub_sub_notifier :
      (String → String → List String → Comp W (EntityNotifier W)) → String → String → Main W
  pub_sub_notifier make google_project pubsub_topic = record m {
    notifier = λ locals. (do
      project ← A.getenv_or "GOOGLE_PROJECT" google_project
      topic ← A.getenv_or "PUBSUB_TOPIC" pubsub_topic
      notifier ← make project topic locals.headers_to_propagate
      pure (some notifier));
  }

  -- handler/http and handler/grpc, of a host and a port; the two fragments differ in the class
  unfoldable pub http_handler :
      (Core W → String → ℕ → Comp W (Comp W (Unit {0}))) → String → ℕ → Main W
  http_handler make host port = record m {
    handler = λ core. (do
      address ← A.getenv_or "HOST" host
      number ← A.getenv_int_or "PORT" port
      make core address number);
  }

  unfoldable pub grpc_handler :
      (Core W → String → ℕ → Comp W (Comp W (Unit {0}))) → String → ℕ → Main W
  grpc_handler make host port = record m {
    handler = λ core. (do
      address ← A.getenv_or "HOST" host
      number ← A.getenv_int_or "PORT" port
      make core address number);
  }

  -- handler/google-pubsub
  unfoldable pub pub_sub_handler :
      (Core W → String → String → Comp W (Comp W (Unit {0}))) → String → String → Main W
  pub_sub_handler make google_project pubsub_subscription = record m {
    handler = λ core. (do
      project ← A.getenv_or "GOOGLE_PROJECT" google_project
      subscription ← A.getenv_or "PUBSUB_SUBSCRIPTION" pubsub_subscription
      make core project subscription);
  }

  -- handler/cli, with the arguments of main
  unfoldable pub cli_handler :
      (Core W → List String → Comp W (Comp W (Unit {0}))) → List String → Main W
  cli_handler make argv = record m { handler = λ core. make core argv }

  -- observerability/structured-logging; the loggers are static and write elsewhere
  unfoldable pub structured_logging : Comp W (Unit {0}) → (Exn → Comp W (Unit {0})) → Main W
  structured_logging start_loggers log_critical = record m {
    initialization = effect start_loggers ∷ m.initialization;
    handler_hooks = effect (A.handle_globally_with logging) ∷ m.handler_hooks;
    issuer_hooks = effect (A.issue_globally_with logging) ∷ m.issuer_hooks;
    exception_handler = log_critical;
  }

  -- A variable that the fragment of another brick declares: without that brick the program does not
  -- compile, which is a throw here.
  abbrev pub with_declared : {B : Type 0} → Option B → (B → Comp W ℕ) → Comp W ℕ
  with_declared none rest = raise (Exn.other 0)
  with_declared (some b) rest = rest b

  module _ (E : ExporterLib W) where
    -- tracer_parameters and the local tracer_provider
    abbrev pub declare_tracer : String → Statement W
    declare_tracer default locals rest = do
      otel_url ← A.getenv_or "OPENTELEMETRY_URL" default
      let parameters : TracerParameters = record {
        otel_url = otel_url;
        propagation_type = b3_single_header;
      }
      with_tracer_provider E otel_url (rest (record locals { tracer_parameters = some parameters }))

    -- The headers of the trace are added behind the entries of the list.
    abbrev insert_headers : HeaderNames → Statement W
    insert_headers names locals rest = with_declared locals.tracer_parameters λ p.
        rest (record locals {
          headers_to_propagate =
              locals.headers_to_propagate ++ get_propagation_headers names p.propagation_type;
        })

    abbrev install_tracing : (Hook W → Comp W (Unit {0})) → Statement W
    install_tracing globally_with locals rest =
        with_declared locals.tracer_parameters λ p. (do globally_with (tracing p); rest locals)

    -- observerability/opentelemetry-tracing
    unfoldable pub opentelemetry_tracing : HeaderNames → String → Main W
    opentelemetry_tracing names otel_url = record m {
      initialization = m.initialization ++ declare_tracer otel_url ∷ [];
      handler_hooks =
          insert_headers names ∷ install_tracing A.handle_globally_with ∷ m.handler_hooks;
      issuer_hooks = install_tracing A.issue_globally_with ∷ m.issuer_hooks;
    }

  abbrev pub declare_openid_config : (String → Comp W Configuration) → String → Statement W
  declare_openid_config create_from_url default locals rest = do
    url ← A.getenv_or "OPENID_URL" default
    config ← create_from_url url
    rest (record locals { openid_config = some config })

  -- security/openid
  unfoldable pub openid : (String → Comp W Configuration) → String → Main W
  openid create_from_url openid_default_url = record m {
    initialization =
        m.initialization ++ declare_openid_config create_from_url openid_default_url ∷ [];
  }

  -- RestJwksRSAKeyProvider key_provider(openid_config.jwks_uri);
  abbrev pub declare_key_provider : (String → Comp W (String → Comp W String)) → Statement W
  declare_key_provider make locals rest = with_declared locals.openid_config λ config. (do
    provider ← make config.jwks_uri
    rest (record locals { key_provider = some provider }))

  abbrev pub install_jwt_auth : String → List String → Statement W
  install_jwt_auth audience required_claims locals rest =
      with_declared locals.openid_config λ config. with_declared locals.key_provider λ provider. (do
        A.handle_globally_with
            (jwt_auth (rs256_parameters provider config.issuer audience required_claims))
        rest locals)

  -- security/jwt-auth
  unfoldable pub jwt_authentication :
      (String → Comp W (String → Comp W String)) → String → List String → Main W
  unfolding merge
  jwt_authentication make audience required_claims = record m {
    initialization = m.initialization ++ declare_key_provider make ∷ [];
    headers_to_propagate = merge m.headers_to_propagate ("authorization" ∷ []);
    handler_hooks = m.handler_hooks ++ install_jwt_auth audience required_claims ∷ [];
  }
