-- ===== src/Security/OpenId/Metadata.antt =====
-- struct Configuration of security/openid/src/adapters/security-openid/openid-configuration.h.
use sapper_bricks.Prelude.{String, Bool, Option, List}

pub record Configuration : Type 0 where
  pub issuer : String
  pub authorization_endpoint : String
  pub token_endpoint : Option String
  pub userinfo_endpoint : Option String
  pub jwks_uri : String
  pub registration_endpoint : Option String
  pub scopes_supported : Option (List String)
  pub response_types_supported : List String
  pub response_modes_supported : Option (List String)
  pub grant_types_supported : Option (List String)
  pub acr_values_supported : Option (List String)
  pub subject_types_supported : List String
  pub id_token_signing_alg_values_supported : List String
  pub id_token_encryption_alg_values_supported : Option (List String)
  pub id_token_encryption_enc_values_supported : Option (List String)
  pub userinfo_signing_alg_values_supported : Option (List String)
  pub userinfo_encryption_alg_values_supported : Option (List String)
  pub userinfo_encryption_enc_values_supported : Option (List String)
  pub request_object_signing_alg_values_supported : Option (List String)
  pub request_object_encryption_alg_values_supported : Option (List String)
  pub request_object_encryption_enc_values_supported : Option (List String)
  pub token_endpoint_auth_methods_supported : Option (List String)
  pub token_endpoint_auth_signing_alg_values_supported : Option (List String)
  pub display_values_supported : Option (List String)
  pub claim_types_supported : Option (List String)
  pub claims_supported : Option (List String)
  pub service_documentation : Option String
  pub claims_locales_supported : Option (List String)
  pub ui_locales_supported : Option (List String)
  pub claims_parameter_supported : Option Bool
  pub request_parameter_supported : Option Bool
  pub request_uri_parameter_supported : Option Bool
  pub require_request_uri_registration : Option Bool
  pub op_policy_uri : Option String
  pub op_tos_uri : Option String
