-- ===== src/Tests/Tokens.antt =====
-- Tokens and the configuration of a provider.
use Prim.Native.String
use sapper_bricks.Prelude.{
  String, ◌≡◌, ◌↔◌, refl, ◌⊎◌, true, false, none, some, [], ◌∷◌, ◌==◌, if◌then◌else◌,
}
use sapper_bricks.Effect.{bad_optional_access, Status, Result, returns, throws, Comp, pure}
use sapper_bricks.Dict.{Dict, find, assign}
use sapper_bricks.Json.Fields.{extract_string}
use sapper_bricks.Security.JwtAuth.{
  JwtLib, Parameters, JwtHeader, TokenImpl, accepted, extract_header, or_empty, decode_token,
  hs256_parameters, rs256_parameters,
}
use sapper_bricks.Security.JwtAuth.Tokens.{Authenticates, decode_token_iff, decode_token-no_type}
use sapper_bricks.Security.JwtAuth.Hook.{Metadata, Refuses, insert_claims}
use sapper_bricks.Security.JwtAuth.Guards.{IsAllowed, decoding_left, run, process_lem}
use sapper_bricks.Tests.Hooks.{token_auth, token_auth-IsTokenAuth}
use sapper_bricks.Security.Jwks.{Rs256Key}
use sapper_bricks.Security.KeyProvider.{KeyProvider, get_key, shared_lookup}
use sapper_bricks.Security.Keyed.{extract, KeySource, decode_token-KeySource}
use sapper_bricks.Security.OpenId.Json.{create_from_json}
use sapper_bricks.Security.OpenId.Described.{Required, Has, Lacks, described}
use sapper_bricks.Security.OpenId.Reading.{create_from_json_lem}
use sapper_bricks.Tests.Json.{Value, text, field, empty, json, openid_doc}
use sapper_bricks.Tests.Json.Laws.{json_laws}

abbrev hs_header : Value
hs_header = field "alg" (text "HS256") (field "typ" (text "JWT") empty)

abbrev rs_header : Value
rs_header = field "alg" (text "RS256") (field "typ" (text "at+jwt") (field "kid" (text "k1") empty))

abbrev bare_header : Value
bare_header = field "alg" (text "HS256") empty

-- A library whose tokens are the names of their headers, and which takes them all.
abbrev jwt : JwtLib json
jwt = record {
  JwtObject = String;
  decode_header = λ t.
      if t == "hs" then some hs_header else if t == "rs" then some rs_header else some bare_header;
  decode = λ enc algorithms key issuer audience verify. returns (enc, none);
  has_claim = λ o claim. false;
  get_claim_value = λ o claim. returns "";
}

abbrev hs256 : Parameters (Unit {0})
hs256 = hs256_parameters "secret" "iss" "aud" []

abbrev hs_token : TokenImpl jwt
hs_token = record { key = "secret"; jwt_object = "hs.x"; ec = none }

abbrev to_pem : Rs256Key → Result String
to_pem key = returns key.modulus_base64

abbrev provider : KeyProvider (Unit {0})
provider = record { jwks_provider = pure "jwks"; throw_on_error = true }

-- The cache of the provider, which has the key already.
abbrev cache : Dict String
cache = ("k1", "pem") ∷ []

abbrev rs256 : Parameters (Dict String × Unit {0})
rs256 = rs256_parameters (get_key (extract json to_pem provider) provider) "iss" "aud" []

abbrev rs_token : TokenImpl jwt
rs_token = record { key = "pem"; jwt_object = "rs.x"; ec = none }

hs_decoded : decode_token jwt hs256 "Bearer hs.x" tt ≡ (returns (accepted hs_token), tt)
unfolding decode_token hs256_parameters extract_header extract_string find assign
hs_decoded = refl

rs_decoded :
    decode_token jwt rs256 "Bearer rs.x" (cache, tt) ≡ (returns (accepted rs_token), (cache, tt))
unfolding decode_token rs256_parameters extract_header extract_string find assign get_key
    shared_lookup
rs_decoded = refl

decode_token-KeySource_example :
    (enc : String) × (header : JwtHeader) × (◌≡◌ {A = String} "Bearer rs.x"
      (Prim.Native.String.◌++◌ "Bearer " enc))
    × (extract_header jwt enc ≡ returns (some header))
    × (jwt.decode enc ("RS256" ∷ []) "pem" "iss" "aud" true ≡ returns ("rs.x", none))
    × KeySource json to_pem provider cache tt (or_empty jwt header.kid) "pem" (cache, tt)
decode_token-KeySource_example =
    decode_token-KeySource json to_pem provider jwt "iss" "aud" [] "Bearer rs.x" cache tt
      (cache, tt) rs_token rs_decoded

decode_token_iff_example :
    (decode_token jwt hs256 "Bearer hs.x" tt ≡ (returns (accepted hs_token), tt))
    ↔ Authenticates jwt hs256 "Bearer hs.x" tt hs_token tt
decode_token_iff_example = decode_token_iff jwt hs256 "Bearer hs.x" tt tt hs_token

-- A request that brings the token.
abbrev bringing : Metadata × Unit {0}
bringing = (("authorization", "Bearer hs.x") ∷ [], tt)

process_lem_example :
    (Refuses
        (run jwt token_auth token_auth-IsTokenAuth hs256)
        bringing
        (decoding_left jwt token_auth token_auth-IsTokenAuth hs256 bringing)
      ⊎ ((left : Unit {0}) × (claims : Metadata) × IsAllowed jwt token_auth token_auth-IsTokenAuth
            hs256 bringing left claims))
    × ((left : Unit {0}) (claims : Metadata)
        → IsAllowed jwt token_auth token_auth-IsTokenAuth hs256 bringing left claims
        → (request : Comp (Metadata × Unit {0}) Status)
        → run jwt token_auth token_auth-IsTokenAuth hs256 request bringing
          ≡ request (insert_claims claims bringing.0, left))
process_lem_example = process_lem jwt token_auth token_auth-IsTokenAuth hs256 bringing

decode_token-no_type_example :
    decode_token jwt rs256 "Bearer none.x" (cache, tt) ≡ (throws bad_optional_access, (cache, tt))
unfolding rs256_parameters
decode_token-no_type_example =
    decode_token-no_type jwt rs256 "none.x" (record { alg = "HS256"; typ = none; kid = none })
      (cache, tt) (unfold extract_header in unfold extract_string in refl) refl

create_from_json_lem_example :
    ((q : Required) × Has json openid_doc q
      × (create_from_json json "openid" ≡ returns (described json openid_doc q)))
    ⊎ (Lacks json openid_doc × (create_from_json json "openid" ≡ throws bad_optional_access))
create_from_json_lem_example = create_from_json_lem json json_laws "openid" openid_doc refl
