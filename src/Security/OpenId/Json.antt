-- ===== src/Security/OpenId/Json.antt =====
-- CreateFromJson of openid-configuration.cpp.
use sapper_bricks.Prelude.{String, Option, none, some}
use sapper_bricks.Effect.{bad_optional_access, Result, returns, throws}
use sapper_bricks.Effect.Fail.{◌>>=◌}
use sapper_bricks.Json.{JsonLib}
use sapper_bricks.Json.Fields.{extract_string, extract_bool, extract_strings}
use sapper_bricks.Security.OpenId.Metadata.{Configuration}

-- std::optional::value()
abbrev pub value : {A : Type 0} → Option A → Result A
value none = throws bad_optional_access
value (some a) = returns a

-- A field that is read and then taken out of its optional.
abbrev required : {A : Type 0} → Result (Option A) → Result A
required read = read >>= value

module _ (J : JsonLib) where
  open J use {Json, parse}

  unfoldable pub read_configuration : Json → Result Configuration
  read_configuration json = do
    issuer ← required (extract_string J json "issuer")
    authorization_endpoint ← required (extract_string J json "authorization_endpoint")
    token_endpoint ← extract_string J json "token_endpoint"
    userinfo_endpoint ← extract_string J json "userinfo_endpoint"
    jwks_uri ← required (extract_string J json "jwks_uri")
    registration_endpoint ← extract_string J json "registration_endpoint"
    scopes_supported ← extract_strings J json "scopes_supported"
    response_types_supported ← required (extract_strings J json "response_types_supported")
    response_modes_supported ← extract_strings J json "response_modes_supported"
    grant_types_supported ← extract_strings J json "grant_types_supported"
    acr_values_supported ← extract_strings J json "acr_values_supported"
    subject_types_supported ← required (extract_strings J json "subject_types_supported")
    id_token_signing_alg_values_supported ←
        required (extract_strings J json "id_token_signing_alg_values_supported")
    id_token_encryption_alg_values_supported ←
        extract_strings J json "id_token_encryption_alg_values_supported"
    id_token_encryption_enc_values_supported ←
        extract_strings J json "id_token_encryption_enc_values_supported"
    userinfo_signing_alg_values_supported ←
        extract_strings J json "userinfo_signing_alg_values_supported"
    userinfo_encryption_alg_values_supported ←
        extract_strings J json "userinfo_encryption_alg_values_supported"
    userinfo_encryption_enc_values_supported ←
        extract_strings J json "userinfo_encryption_enc_values_supported"
    request_object_signing_alg_values_supported ←
        extract_strings J json "request_object_signing_alg_values_supported"
    request_object_encryption_alg_values_supported ←
        extract_strings J json "request_object_encryption_alg_values_supported"
    request_object_encryption_enc_values_supported ←
        extract_strings J json "request_object_encryption_enc_values_supported"
    token_endpoint_auth_methods_supported ←
        extract_strings J json "token_endpoint_auth_methods_supported"
    token_endpoint_auth_signing_alg_values_supported ←
        extract_strings J json "token_endpoint_auth_signing_alg_values_supported"
    display_values_supported ← extract_strings J json "display_values_supported"
    claim_types_supported ← extract_strings J json "claim_types_supported"
    claims_supported ← extract_strings J json "claims_supported"
    service_documentation ← extract_string J json "service_documentation"
    claims_locales_supported ← extract_strings J json "claims_locales_supported"
    ui_locales_supported ← extract_strings J json "ui_locales_supported"
    claims_parameter_supported ← extract_bool J json "claims_parameter_supported"
    request_parameter_supported ← extract_bool J json "request_parameter_supported"
    request_uri_parameter_supported ← extract_bool J json "request_uri_parameter_supported"
    require_request_uri_registration ← extract_bool J json "require_request_uri_registration"
    op_policy_uri ← extract_string J json "op_policy_uri"
    op_tos_uri ← extract_string J json "op_tos_uri"
    returns (record {
      issuer = issuer;
      authorization_endpoint = authorization_endpoint;
      token_endpoint = token_endpoint;
      userinfo_endpoint = userinfo_endpoint;
      jwks_uri = jwks_uri;
      registration_endpoint = registration_endpoint;
      scopes_supported = scopes_supported;
      response_types_supported = response_types_supported;
      response_modes_supported = response_modes_supported;
      grant_types_supported = grant_types_supported;
      acr_values_supported = acr_values_supported;
      subject_types_supported = subject_types_supported;
      id_token_signing_alg_values_supported = id_token_signing_alg_values_supported;
      id_token_encryption_alg_values_supported = id_token_encryption_alg_values_supported;
      id_token_encryption_enc_values_supported = id_token_encryption_enc_values_supported;
      userinfo_signing_alg_values_supported = userinfo_signing_alg_values_supported;
      userinfo_encryption_alg_values_supported = userinfo_encryption_alg_values_supported;
      userinfo_encryption_enc_values_supported = userinfo_encryption_enc_values_supported;
      request_object_signing_alg_values_supported = request_object_signing_alg_values_supported;
      request_object_encryption_alg_values_supported =
          request_object_encryption_alg_values_supported;
      request_object_encryption_enc_values_supported =
          request_object_encryption_enc_values_supported;
      token_endpoint_auth_methods_supported = token_endpoint_auth_methods_supported;
      token_endpoint_auth_signing_alg_values_supported =
          token_endpoint_auth_signing_alg_values_supported;
      display_values_supported = display_values_supported;
      claim_types_supported = claim_types_supported;
      claims_supported = claims_supported;
      service_documentation = service_documentation;
      claims_locales_supported = claims_locales_supported;
      ui_locales_supported = ui_locales_supported;
      claims_parameter_supported = claims_parameter_supported;
      request_parameter_supported = request_parameter_supported;
      request_uri_parameter_supported = request_uri_parameter_supported;
      require_request_uri_registration = require_request_uri_registration;
      op_policy_uri = op_policy_uri;
      op_tos_uri = op_tos_uri;
    })

  unfoldable pub create_from_json : String → Result Configuration
  create_from_json openid_config_json = do json ← parse openid_config_json; read_configuration json
