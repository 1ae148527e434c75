-- ===== src/Tests/Propagation.antt =====
-- A service that announces one entity. Its world is the names of the headers that the filter of its
-- notifier was asked for.
use sapper_bricks.Prelude.{String, ◌≡◌, refl, Option, none, some, List, [], ◌∷◌, ◌++◌}
use sapper_bricks.Effect.{returns, Comp, pure, ok}
use sapper_bricks.Ports.{EntityRepo}
use sapper_bricks.Core.{Core, set_entity, core_api}
use sapper_bricks.Http.{answered}
use sapper_bricks.Security.OpenId.Metadata.{Configuration}
use sapper_bricks.Tracing.{get_propagation_headers}
use sapper_bricks.Tracing.Provider.{ExporterLib, create_tracer_provider, with_tracer_provider}
use sapper_bricks.Json.Codec.{encode, to_json}
use sapper_bricks.Notifier
use sapper_bricks.Notifier.Http.{PutLib}
use sapper_bricks.App.{Main, main_of, run, serve, execute}
use sapper_bricks.App.Bricks.{
  merge, openid, jwt_authentication, opentelemetry_tracing, http_notifier,
}
use sapper_bricks.App.Propagated.{Security, secure, trace, put_notified}
use sapper_bricks.Tests.Contexts.{bare, names}
use sapper_bricks.Tests.Json.{json}
use sapper_bricks.Tests.Requests.{hooks, retried}
use sapper_bricks.Tests.Samples.{blue}

abbrev Asked : Type 0
Asked = List String

abbrev exporter : ExporterLib Asked
exporter = record {
  Exporter = String;
  Processor = String;
  Resource = String;
  Provider = String;
  global_at_or = λ key default. pure default;
  create_exporter = λ url. pure url;
  create_processor = λ e. pure e;
  create_resource = λ name version. pure name;
  create_provider = λ p r. pure p;
  set_tracer_provider = λ p. pure tt;
}

abbrev pub configuration : Configuration
configuration = record {
  issuer = "https://id";
  authorization_endpoint = "https://id/auth";
  token_endpoint = none;
  userinfo_endpoint = none;
  jwks_uri = "https://id/keys";
  registration_endpoint = none;
  scopes_supported = none;
  response_types_supported = [];
  response_modes_supported = none;
  grant_types_supported = none;
  acr_values_supported = none;
  subject_types_supported = [];
  id_token_signing_alg_values_supported = [];
  id_token_encryption_alg_values_supported = none;
  id_token_encryption_enc_values_supported = none;
  userinfo_signing_alg_values_supported = none;
  userinfo_encryption_alg_values_supported = none;
  userinfo_encryption_enc_values_supported = none;
  request_object_signing_alg_values_supported = none;
  request_object_encryption_alg_values_supported = none;
  request_object_encryption_enc_values_supported = none;
  token_endpoint_auth_methods_supported = none;
  token_endpoint_auth_signing_alg_values_supported = none;
  display_values_supported = none;
  claim_types_supported = none;
  claims_supported = none;
  service_documentation = none;
  claims_locales_supported = none;
  ui_locales_supported = none;
  claims_parameter_supported = none;
  request_parameter_supported = none;
  request_uri_parameter_supported = none;
  require_request_uri_registration = none;
  op_policy_uri = none;
  op_tos_uri = none;
}

abbrev security : Security Asked
security = record {
  create_from_url = λ url. pure configuration;
  make_key_provider = λ uri. pure (λ id. pure "key");
  openid_default_url = "https://id";
  audience = "aud";
  required_claims = [];
}

abbrev client : PutLib Asked
client = record {
  filtered_metadata = λ headers asked. (returns [], asked ++ headers);
  put = λ connection path headers body content_type. pure (answered 200 "");
  from_http = λ status. ok;
}

abbrev forgetful : Comp Asked (Option (EntityRepo Asked))
forgetful = pure (some (record { store = λ e. pure tt; retrieve = λ id. pure none }))

abbrev announcing : Core Asked → Comp Asked (Comp Asked (Unit {0}))
announcing core = pure ((core_api core).set_entity blue)

abbrev notified : PutLib Asked → Main Asked
notified C =
    put_notified bare exporter names security "" json hooks forgetful announcing "http://b" 0 1 C

abbrev secured : Main Asked → Main Asked
secured m = secure bare exporter names security "" json hooks m

abbrev traced : Main Asked → Main Asked
traced m = trace bare exporter names security "" json hooks m

asked_main :
    main_of bare (traced (secured (notified client))) []
    ≡ (returns 0, "authorization" ∷ "" ∷ "b3" ∷ [])
unfolding main_of run serve execute openid jwt_authentication opentelemetry_tracing http_notifier
    Notifier.Http.entity_changed Notifier.Http.put_request Notifier.Http.create merge
    get_propagation_headers set_entity create_tracer_provider with_tracer_provider encode to_json
    retried
asked_main = refl
