-- ===== src/Security/OpenId/Described.antt =====
-- Which documents are a configuration, and which one they describe.
use sapper_bricks.Prelude.{String, ◌≡◌, none, some, List}
use sapper_bricks.Json.{JsonLib}
use sapper_bricks.Json.Fields.{text_field, bool_field, texts_field}
use sapper_bricks.Security.OpenId.Metadata.{Configuration}

-- The six fields that the specification requires.
pub record Required : Type 0 where
  pub issuer : String
  pub authorization_endpoint : String
  pub jwks_uri : String
  pub response_types_supported : List String
  pub subject_types_supported : List String
  pub id_token_signing_alg_values_supported : List String

module _ (J : JsonLib) where
  open J use {Json, parse}

  -- A document that has them, with these values.
  pub record Has (j : Json) (q : Required) : Type 0 where
    pub has_issuer : text_field J j "issuer" ≡ some q.issuer
    pub has_authorization_endpoint :
        text_field J j "authorization_endpoint" ≡ some q.authorization_endpoint
    pub has_jwks_uri : text_field J j "jwks_uri" ≡ some q.jwks_uri
    pub has_response_types_supported :
        texts_field J j "response_types_supported" ≡ some q.response_types_supported
    pub has_subject_types_supported :
        texts_field J j "subject_types_supported" ≡ some q.subject_types_supported
    pub has_id_token_signing_alg_values_supported :
        texts_field J j "id_token_signing_alg_values_supported"
        ≡ some q.id_token_signing_alg_values_supported

  -- A document that lacks one, or has it with another type.
  pub data Lacks (j : Json) : Type 0 where
    no_issuer : text_field J j "issuer" ≡ none → Lacks j
    no_authorization_endpoint : text_field J j "authorization_endpoint" ≡ none → Lacks j
    no_jwks_uri : text_field J j "jwks_uri" ≡ none → Lacks j
    no_response_types_supported : texts_field J j "response_types_supported" ≡ none → Lacks j
    no_subject_types_supported : texts_field J j "subject_types_supported" ≡ none → Lacks j
    no_id_token_signing_alg_values_supported :
        texts_field J j "id_token_signing_alg_values_supported" ≡ none → Lacks j

  -- The configuration of a document: the required values, and each optional field as it is there.
  abbrev pub described : Json → Required → Configuration
  described j q = record {
    issuer = q.issuer;
    authorization_endpoint = q.authorization_endpoint;
    token_endpoint = text_field J j "token_endpoint";
    userinfo_endpoint = text_field J j "userinfo_endpoint";
    jwks_uri = q.jwks_uri;
    registration_endpoint = text_field J j "registration_endpoint";
    scopes_supported = texts_field J j "scopes_supported";
    response_types_supported = q.response_types_supported;
    response_modes_supported = texts_field J j "response_modes_supported";
    grant_types_supported = texts_field J j "grant_types_supported";
    acr_values_supported = texts_field J j "acr_values_supported";
    subject_types_supported = q.subject_types_supported;
    id_token_signing_alg_values_supported = q.id_token_signing_alg_values_supported;
    id_token_encryption_alg_values_supported =
        texts_field J j "id_token_encryption_alg_values_supported";
    id_token_encryption_enc_values_supported =
        texts_field J j "id_token_encryption_enc_values_supported";
    userinfo_signing_alg_values_supported = texts_field J j "userinfo_signing_alg_values_supported";
    userinfo_encryption_alg_values_supported =
        texts_field J j "userinfo_encryption_alg_values_supported";
    userinfo_encryption_enc_values_supported =
        texts_field J j "userinfo_encryption_enc_values_supported";
    request_object_signing_alg_values_supported =
        texts_field J j "request_object_signing_alg_values_supported";
    request_object_encryption_alg_values_supported =
        texts_field J j "request_object_encryption_alg_values_supported";
    request_object_encryption_enc_values_supported =
        texts_field J j "request_object_encryption_enc_values_supported";
    token_endpoint_auth_methods_supported = texts_field J j "token_endpoint_auth_methods_supported";
    token_endpoint_auth_signing_alg_values_supported =
        texts_field J j "token_endpoint_auth_signing_alg_values_supported";
    display_values_supported = texts_field J j "display_values_supported";
    claim_types_supported = texts_field J j "claim_types_supported";
    claims_supported = texts_field J j "claims_supported";
    service_documentation = text_field J j "service_documentation";
    claims_locales_supported = texts_field J j "claims_locales_supported";
    ui_locales_supported = texts_field J j "ui_locales_supported";
    claims_parameter_supported = bool_field J j "claims_parameter_supported";
    request_parameter_supported = bool_field J j "request_parameter_supported";
    request_uri_parameter_supported = bool_field J j "request_uri_parameter_supported";
    require_request_uri_registration = bool_field J j "require_request_uri_registration";
    op_policy_uri = text_field J j "op_policy_uri";
    op_tos_uri = text_field J j "op_tos_uri";
  }
