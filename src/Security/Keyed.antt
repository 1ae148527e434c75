-- ===== src/Security/Keyed.antt =====
-- The hook of security/jwt-auth with the key provider of the same brick, as its main fragment puts
-- them together: where the key of a token comes from.
use Prim.Native.String.{◌++◌}
use sapper_bricks.Prelude.{
  String, ◌≡◌, ◌≢◌, refl, inl, inr, true, Option, none, some, List, [], ◌∷◌, sym, ap, ◌∙◌,
  Option-cases, Bool-cases,
}
use sapper_bricks.Effect.{Result, returns}
use sapper_bricks.Effect.Laws.{Result-cases}
use sapper_bricks.Dict.{Dict, find}
use sapper_bricks.Json.{JsonLib}
use sapper_bricks.Security.Jwks.{Rs256Key, parse_rs256_keys, extract_pub_keys_pem}
use sapper_bricks.Security.Jwks.PubKeys.{IsEntry, last_with, extract_pub_keys_pem_lem}
use sapper_bricks.Security.KeyProvider
use sapper_bricks.Security.KeyProvider.{KeyProvider, get_key}
use sapper_bricks.Security.KeyProvider.Lookup.{fetched, asked, fetched_lem, get_key_lem}
use sapper_bricks.Security.JwtAuth.{
  JwtLib, JwtHeader, TokenImpl, accepted, extract_header, or_empty, decode_token, rs256_parameters,
}
use sapper_bricks.Security.JwtAuth.Algorithms.{rs256_parameters-accepts}

module _ (J : JsonLib) (to_pem : Rs256Key → Result String) {W : Type 0}
    (provider : KeyProvider W) where
  abbrev pub extract : String → Result (Dict String)
  extract = extract_pub_keys_pem J to_pem

  -- Where a PEM text for a key id comes from, and what is left of the cache.
  pub data KeySource (cache : Dict String) (w : W) (key_id pem : String) (left : Dict String × W)
      : Type 0 where
    cached : find key_id cache ≡ some pem → left ≡ (cache, w) → KeySource cache w key_id pem left
    requested :
        (jwks : String) (keys : List Rs256Key) (key : Rs256Key) (pems : Dict String)
        → (provider.jwks_provider w).0 ≡ returns jwks
        → parse_rs256_keys J jwks ≡ returns keys
        → last_with key_id keys ≡ some key
        → to_pem key ≡ returns pem
        → left ≡ (pems, (provider.jwks_provider w).1)
        → KeySource cache w key_id pem left

  entry_source :
      (last : Option Rs256Key) (entry : Option String) (pem : String)
      → IsEntry to_pem none last entry
      → entry ≡ some pem
      → (key : Rs256Key) × (last ≡ some key) × (to_pem key ≡ returns pem)
  entry_source none entry pem h e = absurd (cc (h, e))
  entry_source (some key) entry pem (made, converts, h) e = (key, refl, cc (converts, h, e))

  missed :
      (cache pems : Dict String) (w : W) (key_id pem : String) (left : Dict String × W)
      → fetched extract provider w ≡ returns pems
      → KeyProvider.or_empty (find key_id pems) ≡ pem
      → pem ≢ ""
      → left ≡ (pems, asked extract provider w)
      → KeySource cache w key_id pem left
  missed cache pems w key_id pem left got found set there =
      let (jwks, answered, converted) = fetched_lem extract provider w pems got in
      let (keys, parsed, entries) = extract_pub_keys_pem_lem J to_pem jwks pems converted in
      elim (Option-cases (find key_id pems)) [
        | inl lacks ↦ absurd (set (cc (found, ap KeyProvider.or_empty lacks)))
        | inr (p, has) ↦
            let same : p ≡ pem = cc (found, ap KeyProvider.or_empty has) in
            let (key, last, converts) =
              entry_source (last_with key_id keys) (find key_id pems) pem (entries key_id)
                (has ∙ ap (λ (t : String). some t) same) in
            requested jwks keys key pems answered parsed last converts there
      ]

  get_key-KeySource :
      (cache : Dict String) (w : W) (key_id pem : String) (left : Dict String × W)
      → get_key extract provider key_id (cache, w) ≡ (returns pem, left)
      → pem ≢ ""
      → KeySource cache w key_id pem left
  get_key-KeySource cache w key_id pem left got set =
      let (hit, miss) = get_key_lem extract provider key_id cache w in
      elim (Option-cases (find key_id cache)) [
        | inr (p, has) ↦
            let all = sym (hit p has) ∙ got in
            let same : p ≡ pem = cc all in cached (has ∙ ap (λ (t : String). some t) same) (cc all)
        | inl lacks ↦ elim (Result-cases (fetched extract provider w)) [
          | inl (pems, e) ↦
              let all = rw e at (sym (miss lacks) ∙ got) in
              missed cache pems w key_id pem left e (cc all) set (cc all)
          | inr (x, e) ↦ elim (Bool-cases provider.throw_on_error) [
            | inl throwing ↦
                let all = rw (e, throwing) at (sym (miss lacks) ∙ got) in absurd (cc all)
            | inr quiet ↦
                let all = rw (e, quiet) at (sym (miss lacks) ∙ got) in absurd (set (cc all))
          ]
        ]
      ]

  module _ (T : JwtLib J) where
    -- A hook with the parameters of RS256 and this key provider takes a token only if the library
    -- decodes its text with RS256, the issuer and the audience under a key that the provider had
    -- cached for the key id of the token's header, or that is the PEM text of the last RSA signature
    -- key with that id in the JWKS document that was asked for now.
    pub decode_token-KeySource :
        (issuer audience : String) (required_claims : List String) (token : String)
        (cache : Dict String) (w : W) (left : Dict String × W) (t : TokenImpl T)
        → let p = rs256_parameters (get_key extract provider) issuer audience required_claims in
          decode_token T p token (cache, w) ≡ (returns (accepted t), left)
          → (enc : String) × (header : JwtHeader) × (token ≡ "Bearer " ++ enc)
            × (extract_header T enc ≡ returns (some header))
            × (T.decode enc ("RS256" ∷ []) t.key issuer audience true
                ≡ returns (t.jwt_object, t.ec))
            × KeySource cache w (or_empty T header.kid) t.key left
    decode_token-KeySource issuer audience required_claims token cache w left t h =
        let (enc, header, prefixed, has_header, provided, set, decodes) =
          rs256_parameters-accepts T (get_key extract provider) issuer audience required_claims
            token (cache, w) left t h in
        (
          enc,
          header,
          prefixed,
          has_header,
          decodes,
          get_key-KeySource cache w (or_empty T header.kid) t.key left provided set,
        )
