-- ===== src/Security/JwtAuth/Algorithms.antt =====
-- The two ways to configure the hook fix the algorithm and the key of every token that is taken.
use Prim.Native.String
use sapper_bricks.Prelude.{String, ◌≡◌, ◌≢◌, true, some, List, [], ◌∷◌, arith, eq_iff}
use sapper_bricks.Effect.{returns, Comp}
use sapper_bricks.Dict.{find}
use sapper_bricks.Json.{JsonLib}
use sapper_bricks.Security.JwtAuth.{
  JwtLib, JwtHeader, TokenImpl, extract_header, or_empty, decode_token, accepted, hs256_parameters,
  rs256_parameters,
}
use sapper_bricks.Security.JwtAuth.Tokens.{decode_token_inversion}

infixr 65 ◌++◌
abbrev ◌++◌ : String → String → String
◌++◌ = Prim.Native.String.◌++◌

module _ {J : JsonLib} (T : JwtLib J) where
  find_single :
      {V : Type 0} (k j : String) (v u : V) → find j ((k, v) ∷ []) ≡ some u → (j ≡ k) × (u ≡ v)
  unfolding find
  find_single k j v u h = ground (arith, eq_iff k j)

  -- With the parameters of HS256 only tokens of that algorithm are taken, and only under the
  -- private key, whatever key id their header has.
  pub hs256_parameters-accepts :
      {W : Type 0} (private_key issuer audience : String) (required_claims : List String)
      (token : String) (w left : W) (t : TokenImpl T)
      → decode_token T (hs256_parameters private_key issuer audience required_claims) token w
        ≡ (returns (accepted t), left)
      → (enc : String) × (token ≡ "Bearer " ++ enc)
        × (T.decode enc ("HS256" ∷ []) private_key issuer audience true
            ≡ returns (t.jwt_object, t.ec))
        × (left ≡ w)
  unfolding hs256_parameters
  hs256_parameters-accepts private_key issuer audience required_claims token w left t h =
      let p = hs256_parameters private_key issuer audience required_claims in
      let a = decode_token_inversion T p token w left t h in
      let (alg, provided) = find_single "HS256" a.header.alg _ a.provider a.is_configured in
      let key : (returns private_key, w) ≡ (returns t.key, left) = rw provided at a.has_key in
      (a.enc, a.behind_prefix, cc (a.decodes, alg, key), cc key)

  -- With the parameters of RS256 only tokens of that algorithm are taken, and only under a key that
  -- the given provider returns for the key id of the header, or for the empty id if it has none.
  pub rs256_parameters-accepts :
      {W : Type 0} (provider : String → Comp W String) (issuer audience : String)
      (required_claims : List String) (token : String) (w left : W) (t : TokenImpl T)
      → decode_token T (rs256_parameters provider issuer audience required_claims) token w
        ≡ (returns (accepted t), left)
      → (enc : String) × (header : JwtHeader) × (token ≡ "Bearer " ++ enc)
        × (extract_header T enc ≡ returns (some header))
        × (provider (or_empty T header.kid) w ≡ (returns t.key, left))
        × (t.key ≢ "")
        × (T.decode enc ("RS256" ∷ []) t.key issuer audience true ≡ returns (t.jwt_object, t.ec))
  unfolding rs256_parameters
  rs256_parameters-accepts provider issuer audience required_claims token w left t h =
      let p = rs256_parameters provider issuer audience required_claims in
      let a = decode_token_inversion T p token w left t h in
      let (alg, provided) = find_single "RS256" a.header.alg _ a.provider a.is_configured in
      (
        a.enc,
        a.header,
        a.behind_prefix,
        a.has_header,
        rw provided at a.has_key,
        a.key_is_set,
        cc (a.decodes, alg),
      )
