-- ===== src/Tests/Scenarios/JwtAuth.antt =====
-- security/jwt-auth/tests/adapters/security-jwt-auth/jwt-auth-request-hook_test.cpp. A token is its
-- header and the name of the rest: signatures and base64 are cpp-jwt's, and a small library with the
-- payloads that the test names stands for it.
use Prim.Native.String.{◌++◌}
use sapper_bricks.Prelude.{
  String, ◌≡◌, refl, Bool, true, false, not, ◌&&◌, ◌||◌, Option, none, some, List, [], ◌∷◌, ◌==◌,
  if◌then◌else◌,
}
use sapper_bricks.Effect.{StatusCode, Status, status_ok, is_ok, Result, returns, throws, pure}
use sapper_bricks.Dict.{find, assign}
use sapper_bricks.Json.Fields.{extract_string}
use sapper_bricks.Security.JwtAuth.{
  JwtLib, JwtError, verification_error, decode_error, Parameters, hs256_parameters, extract_header,
  decode_token, verify_token, extract_claim,
}
use sapper_bricks.Security.JwtAuth.Hook.{Metadata, create, process, claims_of, insert_claims}
use sapper_bricks.Tests.Json.{Value, nat_eq}
use sapper_bricks.Tests.Reader.{reading_json, read_json}
use sapper_bricks.Tests.Hooks.{token_auth, unauthenticated}
use sapper_bricks.Tests.Scenarios.{all_hold}

pub record Payload : Type 0 where
  pub aud : Option String
  pub is_expired : Bool
  pub scope : Option String
  pub is_signed : Bool

abbrev payload : Payload
payload = record {
  aud = some "the_audience";
  is_expired = false;
  scope = some "my_scope";
  is_signed = true;
}

abbrev payload_of : String → Option Payload
payload_of enc =
    if enc == "RS.valid" || enc == "HS.valid"
    then some payload
    else if enc == "RS.invalid_sig" || enc == "HS.invalid"
    then some (record payload { is_signed = false })
    else if enc == "RS.expired"
    then some (record payload { is_expired = true })
    else if enc == "RS.no_audience"
    then some (record payload { aud = none })
    else none

abbrev is_audience : Option String → String → Bool
is_audience none audience = false
is_audience (some aud) audience = aud == audience

-- The first error that jwt::decode reports; the issuer of every token is the_issuer.
abbrev error_of : Payload → String → String → Option JwtError
error_of p issuer audience =
    if not p.is_signed
    then some (verification_error "signature")
    else if not (issuer == "the_issuer")
    then some (verification_error "issuer")
    else if not (is_audience p.aud audience)
    then some (verification_error "audience")
    else if p.is_expired
    then some (verification_error "expired")
    else none

abbrev verified : Option Payload → String → String → Result (Payload × Option JwtError)
verified none issuer audience = returns (payload, some (decode_error "token"))
verified (some p) issuer audience = returns (p, error_of p issuer audience)

abbrev has_scope : Option String → Bool
has_scope none = false
has_scope (some scope) = true

abbrev scope_text : Option String → String
scope_text none = ""
scope_text (some scope) = scope

abbrev header_text : String → String
header_text part =
    if part == "RS"
    then "{\"alg\": \"RS256\", \"typ\": \"JWT\", \"kid\" : \"key0\"}"
    else "{\"alg\": \"HS256\", \"typ\": \"JWT\"}"

abbrev parsed_header : Result Value → Option Value
parsed_header (returns header) = some header
parsed_header (throws x) = none

abbrev jwt : JwtLib reading_json
jwt = record {
  JwtObject = Payload;
  decode_header = λ part. parsed_header (read_json (header_text part));
  decode = λ enc algorithms key issuer audience verify. verified (payload_of enc) issuer audience;
  has_claim = λ p claim. claim == "scope" && has_scope p.scope;
  get_claim_value = λ p claim. returns (scope_text p.scope);
}

abbrev rs256 : String → String → Parameters (Unit {0})
rs256 issuer audience = record {
  key_provider = assign "RS256" (λ key_id. pure "public key") [];
  issuer = issuer;
  audience = audience;
  required_claims = "scope" ∷ [];
  metadata_key = "authorization";
  prefix = "Bearer ";
}

abbrev hs256 : Parameters (Unit {0})
hs256 = hs256_parameters "hs256 key" "the_issuer" "the_audience" []

-- hook.Process([](mse::Context&) { return mse::Status::OK;}, context)
abbrev processed : Parameters (Unit {0}) → Metadata → Result Status × (Metadata × Unit {0})
processed parameters context =
    process jwt token_auth (create parameters) (pure status_ok) (context, tt)

abbrev with_token : String → Metadata
with_token token = ("authorization", "Bearer " ++ token) ∷ []

abbrev is_ok_status : Result Status → Bool
is_ok_status (returns s) = is_ok s.code
is_ok_status (throws x) = false

abbrev same_code : StatusCode → StatusCode → Bool
same_code (StatusCode.other m) (StatusCode.other n) = nat_eq m n
same_code _ _ = false

abbrev is_unauthenticated : Result Status → Bool
is_unauthenticated (returns s) = same_code s.code unauthenticated
is_unauthenticated (throws x) = false

abbrev scope_is : Metadata → String → Bool
scope_is context expected = elim (find "scope" context) [
  | none ↦ false
  | some scope ↦ scope == expected
]

abbrev rs256_requirements : List Bool
rs256_requirements =
    let right = rs256 "the_issuer" "the_audience" in
    let valid = processed right (with_token "RS.valid") in
    let again = processed right (("scope", "previously set scope") ∷ with_token "RS.valid") in
    is_ok_status valid.0
    ∷ scope_is valid.1.0 "my_scope"
    ∷ is_ok_status again.0
    ∷ scope_is again.1.0 "my_scope"
    ∷ is_unauthenticated (processed right (with_token "RS.invalid_sig")).0
    ∷ is_unauthenticated (processed right []).0
    ∷ is_unauthenticated (processed right (with_token "RS.no_audience")).0
    ∷ is_unauthenticated (processed right (with_token "RS.expired")).0
    ∷ []

abbrev wrong_parameters_requirements : List Bool
wrong_parameters_requirements =
    is_unauthenticated (processed (rs256 "wrong_issuer" "the_audience") (with_token "RS.valid")).0
    ∷ is_unauthenticated (processed (rs256 "the_issuer" "wrong_audience") (with_token "RS.valid")).0
    ∷ []

abbrev hs256_requirements : List Bool
hs256_requirements =
    is_ok_status (processed hs256 (with_token "HS.valid")).0
    ∷ is_unauthenticated (processed hs256 (with_token "HS.invalid")).0
    ∷ []

jwt_auth_test :
    (all_hold rs256_requirements ≡ true)
    × (all_hold wrong_parameters_requirements ≡ true)
    × (all_hold hs256_requirements ≡ true)
unfolding process create claims_of insert_claims find assign extract_string hs256_parameters
    extract_header decode_token verify_token extract_claim read_json
jwt_auth_test = (refl, refl, refl)
