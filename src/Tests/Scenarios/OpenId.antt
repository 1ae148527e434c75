-- ===== src/Tests/Scenarios/OpenId.antt =====
-- security/openid/tests/adapters/security-openid/openid-configuration_test.cpp. The white space of
-- the documents is shortened.
use sapper_bricks.Prelude.{
  String, ◌≡◌, refl, Bool, true, false, Option, none, some, List, [], ◌∷◌, ◌&&◌, ◌==◌,
}
use sapper_bricks.Effect.{bad_optional_access, Result, returns, throws}
use sapper_bricks.Json.Fields.{extract_string, extract_bool, extract_strings, collect_strings}
use sapper_bricks.Security.OpenId.Metadata.{Configuration}
use sapper_bricks.Security.OpenId.Json.{read_configuration, create_from_json}
use sapper_bricks.Tests.Reader.{reading_json, read_json}
use sapper_bricks.Tests.Scenarios.{all_hold, throws_any, joined}

abbrev auth0_json : String
auth0_json = joined (
    "{ \"issuer\": \"https://dev-abcdef.us.auth0.com/\","
    ∷ " \"authorization_endpoint\": \"https://dev-abcdef.us.auth0.com/authorize\","
    ∷ " \"token_endpoint\": \"https://dev-abcdef.us.auth0.com/oauth/token\","
    ∷ " \"device_authorization_endpoint\": \"https://dev-abcdef.us.auth0.com/oauth/device/code\","
    ∷ " \"userinfo_endpoint\": \"https://dev-abcdef.us.auth0.com/userinfo\","
    ∷ " \"mfa_challenge_endpoint\": \"https://dev-abcdef.us.auth0.com/mfa/challenge\","
    ∷ " \"jwks_uri\": \"https://dev-abcdef.us.auth0.com/.well-known/jwks.json\","
    ∷ " \"registration_endpoint\": \"https://dev-abcdef.us.auth0.com/oidc/register\","
    ∷ " \"revocation_endpoint\": \"https://dev-abcdef.us.auth0.com/oauth/revoke\","
    ∷ " \"scopes_supported\": [\"openid\",\"profile\",\"offline_access\",\"name\","
    ∷ "\"given_name\",\"family_name\",\"nickname\",\"email\",\"email_verified\","
    ∷ "\"picture\",\"created_at\",\"identities\",\"phone\",\"address\"],"
    ∷ " \"response_types_supported\": [\"code\",\"token\",\"id_token\",\"code token\","
    ∷ "\"code id_token\",\"token id_token\",\"code token id_token\"],"
    ∷ " \"code_challenge_methods_supported\": [\"S256\",\"plain\"],"
    ∷ " \"response_modes_supported\": [\"query\",\"fragment\",\"form_post\"],"
    ∷ " \"subject_types_supported\": [\"public\"],"
    ∷ " \"id_token_signing_alg_values_supported\": [\"HS256\",\"RS256\"],"
    ∷ " \"token_endpoint_auth_methods_supported\": [\"client_secret_basic\","
    ∷ "\"client_secret_post\"], \"claims_supported\": [\"aud\",\"auth_time\","
    ∷ "\"created_at\",\"email\",\"email_verified\",\"exp\",\"family_name\",\"given_name\","
    ∷ "\"iat\",\"identities\",\"iss\",\"name\",\"nickname\",\"phone_number\",\"picture\","
    ∷ "\"sub\"], \"request_uri_parameter_supported\": false,"
    ∷ " \"request_parameter_supported\": false }" ∷ [])

abbrev invalid_json : String
invalid_json = "{\"issuer\": \"https://dev-abcd']"

abbrev json_without_issuer : String
json_without_issuer = joined (
    "{ \"authorization_endpoint\": \"https://dev-abcdef.us.auth0.com/authorize\","
    ∷ " \"jwks_uri\": \"https://dev-abcdef.us.auth0.com/.well-known/jwks.json\","
    ∷ " \"response_types_supported\": [\"code\",\"token\",\"id_token\",\"code token\","
    ∷ "\"code id_token\",\"token id_token\",\"code token id_token\"],"
    ∷ " \"subject_types_supported\": [\"public\"],"
    ∷ " \"id_token_signing_alg_values_supported\": [\"HS256\",\"RS256\"] }" ∷ [])

abbrev same_texts : List String → List String → Bool
same_texts [] [] = true
same_texts (s ∷ ss) (t ∷ ts) = s == t && same_texts ss ts
same_texts _ _ = false

abbrev is_texts : Option (List String) → List String → Bool
is_texts (some ss) ts = same_texts ss ts
is_texts none ts = false

abbrev is_text : Option String → String → Bool
is_text (some s) t = s == t
is_text none t = false

abbrev is_false : Option Bool → Bool
is_false (some false) = true
is_false _ = false

abbrev is_nullopt : Option String → Bool
is_nullopt none = true
is_nullopt (some s) = false

abbrev all_response_types : List String
all_response_types =
    "code" ∷ "token" ∷ "id_token" ∷ "code token" ∷ "code id_token" ∷ "token id_token"
    ∷ "code token id_token" ∷ []

abbrev requirements_of : Configuration → List Bool
requirements_of config =
    (config.issuer == "https://dev-abcdef.us.auth0.com/")
    ∷ (config.authorization_endpoint == "https://dev-abcdef.us.auth0.com/authorize")
    ∷ (config.jwks_uri == "https://dev-abcdef.us.auth0.com/.well-known/jwks.json")
    ∷ same_texts config.response_types_supported all_response_types
    ∷ same_texts config.subject_types_supported ("public" ∷ [])
    ∷ same_texts config.id_token_signing_alg_values_supported ("HS256" ∷ "RS256" ∷ [])
    ∷ is_texts config.response_modes_supported ("query" ∷ "fragment" ∷ "form_post" ∷ [])
    ∷ is_false config.request_parameter_supported
    ∷ is_text config.token_endpoint "https://dev-abcdef.us.auth0.com/oauth/token"
    ∷ is_nullopt config.service_documentation
    ∷ []

abbrev reads_configuration : Result Configuration → Bool
reads_configuration (returns config) = all_hold (requirements_of config)
reads_configuration (throws x) = false

abbrev throws_bad_optional_access : Result Configuration → Bool
throws_bad_optional_access (throws bad_optional_access) = true
throws_bad_optional_access _ = false

abbrev openid_requirements : List Bool
openid_requirements =
    reads_configuration (create_from_json reading_json auth0_json)
    ∷ throws_any (create_from_json reading_json invalid_json)
    ∷ throws_bad_optional_access (create_from_json reading_json json_without_issuer)
    ∷ []

openid_test : all_hold openid_requirements ≡ true
unfolding read_json create_from_json read_configuration extract_string extract_bool extract_strings
    collect_strings
openid_test = refl
