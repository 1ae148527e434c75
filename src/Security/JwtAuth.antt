-- ===== src/Security/JwtAuth.antt =====
-- security/jwt-auth/src/adapters/security-jwt-auth/jwt-auth-request-hook.cpp: which tokens the
-- hook takes. The JWT library (cpp-jwt) is a parameter. `JwtAuth/Hook.antt` has the hook as a
-- whole, over its base class, which calls these methods.
pub mod Guards
pub mod Hook
pub mod Header
pub mod Tokens
pub mod Algorithms
use Prim.Native.String.{slice, len, find as find_text}
use sapper_bricks.Prelude.{
  String, Bool, true, false, not, Option, none, some, List, [], ◌∷◌, ◌==◌, if◌then◌else◌,
}
use sapper_bricks.Effect.{
  Exn, bad_optional_access, Result, returns, throws, Comp, pure, raise, lift, ◌>>=◌,
}
use sapper_bricks.Effect.Fail
use sapper_bricks.Dict.{Dict, find, assign}
use sapper_bricks.Json.{JsonLib}
use sapper_bricks.Json.Fields.{extract_string}

-- A std::error_code that is set, by its category.
pub data JwtError : Type 0 where
  algorithm_error decode_error verification_error : String → JwtError

-- theAlgorithmErrCategory or theDecodeErrorCategory
abbrev pub stops_decoding : Option JwtError → Option String
stops_decoding none = none
stops_decoding (some (algorithm_error message)) = some message
stops_decoding (some (decode_error message)) = some message
stops_decoding (some (verification_error message)) = none

abbrev pub message : JwtError → String
message (algorithm_error m) = m
message (decode_error m) = m
message (verification_error m) = m

-- The calls of cpp-jwt.
pub record JwtLib (J : JsonLib) : Type 1 where
  pub JwtObject : Type 0
  -- jwt_header.decode(text, ec) and create_json_obj(), none if the error code is set
  pub decode_header : String → Option J.Json
  -- jwt::decode(text, algorithms, ec, secret, issuer, aud, verify)
  pub decode :
      String → List String → String → String → String → Bool → Result (JwtObject × Option JwtError)
  -- payload().has_claim and payload().get_claim_value<std::string>
  pub has_claim : JwtObject → String → Bool
  pub get_claim_value : JwtObject → String → Result String

-- JwtAuthRequestHook::Parameters
pub record Parameters (W : Type 0) : Type 0 where
  pub key_provider : Dict (String → Comp W String)
  pub issuer : String
  pub audience : String
  pub required_claims : List String
  pub metadata_key : String
  pub prefix : String

module _ {W : Type 0} where
  -- Parameters p; with the defaults of its fields
  abbrev default_parameters : Parameters W
  default_parameters = record {
    key_provider = [];
    issuer = "";
    audience = "";
    required_claims = [];
    metadata_key = "authorization";
    prefix = "Bearer ";
  }

  unfoldable pub rs256_parameters :
      (String → Comp W String) → String → String → List String → Parameters W
  unfolding assign
  rs256_parameters public_key_provider issuer audience required_claims = record default_parameters {
    key_provider = assign "RS256" public_key_provider [];
    issuer = issuer;
    audience = audience;
    required_claims = required_claims;
  }

  unfoldable pub hs256_parameters : String → String → String → List String → Parameters W
  unfolding assign
  hs256_parameters private_key issuer audience required_claims = record default_parameters {
    key_provider = assign "HS256" (λ key_id. pure private_key) [];
    issuer = issuer;
    audience = audience;
    required_claims = required_claims;
  }

pub record JwtHeader : Type 0 where
  pub alg : String
  pub typ : Option String
  pub kid : Option String

module _ {J : JsonLib} (T : JwtLib J) where
  open T use {JwtObject, decode_header, decode, has_claim, get_claim_value}

  pub record TokenImpl : Type 0 where
    pub key : String
    pub jwt_object : JwtObject
    pub ec : Option JwtError

  -- What decode_token answers: false with its details, or true with the decoded token.
  pub data Decoded : Type 0 where
    rejected : String → Decoded
    accepted : TokenImpl → Decoded

  abbrev header_with : J.Json → Option String → Result (Option JwtHeader)
  header_with header_json none = returns none
  header_with header_json (some alg) = Fail.◌>>=◌ (extract_string J header_json "kid") λ kid.
      Fail.◌>>=◌ (extract_string J header_json "typ")
        λ typ. returns (some (record { alg = alg; typ = typ; kid = kid }))

  abbrev read_header : Option J.Json → Result (Option JwtHeader)
  read_header none = returns none
  read_header (some header_json) =
      Fail.◌>>=◌ (extract_string J header_json "alg") λ alg. header_with header_json alg

  -- The text up to the first dot, or all of it.
  abbrev pub first_part : String → String
  first_part enc_token = slice enc_token 0 (find_text enc_token ".")

  unfoldable pub extract_header : String → Result (Option JwtHeader)
  extract_header enc_token = read_header (decode_header (first_part enc_token))

  abbrev pub or_empty : Option String → String
  or_empty none = ""
  or_empty (some text) = text

  -- The last test of decode_token.
  abbrev judge : String → JwtObject × Option JwtError → Decoded
  judge key r = elim (stops_decoding r.1) [
    | some details ↦ rejected details
    | none ↦ accepted (record { key = key; jwt_object = r.0; ec = r.1 })
  ]

  module _ {W : Type 0} (parameters : Parameters W) where
    open parameters use {key_provider, issuer, audience, prefix}

    abbrev decode_with_key : String → String → String → Comp W Decoded
    decode_with_key enc_str algorithm key =
        if key == "" then pure (rejected "key not found") else (do
          r ← lift (decode enc_str (algorithm ∷ []) key issuer audience true)
          pure (judge key r))

    abbrev decode_with_provider :
        String → JwtHeader → Option (String → Comp W String) → Comp W Decoded
    decode_with_provider enc_str header none = pure (rejected "no key provider available")
    decode_with_provider enc_str header (some provider) = do
      key ← provider (or_empty header.kid)
      decode_with_key enc_str header.alg key

    -- !header.typ.has_value() && header.typ.value() != "JWT": value() is called only without a
    -- value, and throws.
    abbrev is_invalid_type : Option String → Result Bool
    is_invalid_type none = throws bad_optional_access
    is_invalid_type (some typ) = returns false

    abbrev decode_with_header : String → Option JwtHeader → Comp W Decoded
    decode_with_header enc_str none = pure (rejected "invalid token header")
    decode_with_header enc_str (some header) = do
      invalid ← lift (is_invalid_type header.typ)
      if invalid
          then pure (rejected "invalid token type")
          else decode_with_provider enc_str header (find header.alg key_provider)

    unfoldable pub decode_token : String → Comp W Decoded
    decode_token token =
        if not (slice token 0 (len prefix) == prefix)
        then pure (rejected "invalid token prefix")
        else (do
          let enc_str = slice token (len prefix) (len token)
          header ← lift (extract_header enc_str)
          decode_with_header enc_str header)

  -- The answer of verify_token, and its details.
  unfoldable pub verify_token : TokenImpl → Bool × String
  verify_token token_impl = elim token_impl.ec [
    | some error ↦ (false, message error)
    | none ↦ (true, "")
  ]

  unfoldable pub extract_claim : TokenImpl → String → Result (Option String)
  extract_claim token claim =
      if not (has_claim token.jwt_object claim)
      then returns none
      else Fail.◌>>=◌ (get_claim_value token.jwt_object claim) λ value. returns (some value)
