-- ===== src/Security/JwtAuth/Tokens.antt =====
-- Which tokens decode_token and verify_token let through.
use Prim.Native.String
use Prim.Native.String.{slice, len}
use text.Mathlib.TextPositions.{len-append, slice-append_left, slice-append_right}
use text.Mathlib.TextEquality.{starts_with_iff}
use sapper_bricks.Prelude.{
  String, ◌≡◌, ◌≢◌, ◌↔◌, sym, ◌∙◌, ap, inl, inr, true, none, some, [], ◌∷◌, ◌==◌, arith, eq_iff,
  eq_refl, Bool-cases, Option-cases,
}
use sapper_bricks.Effect.{bad_optional_access, returns, throws, Comp}
use sapper_bricks.Effect.Laws.{Result-cases}
use sapper_bricks.Dict.{find}
use sapper_bricks.Json.{JsonLib}
use sapper_bricks.Security.JwtAuth.{
  stops_decoding, JwtLib, Parameters, JwtHeader, TokenImpl, extract_header, or_empty, decode_token,
  verify_token, accepted, decode_with_key, decode_with_provider,
}

infixr 65 ◌++◌
abbrev ◌++◌ : String → String → String
◌++◌ = Prim.Native.String.◌++◌

-- The rest of a text behind a prefix of it.
drop_prefix :
    (prefix rest : String) → slice (prefix ++ rest) (len prefix) (len (prefix ++ rest)) ≡ rest
drop_prefix prefix rest = rw (len-append prefix rest) (slice-append_right prefix rest)

strip_prefix :
    (prefix rest token : String)
    → prefix ++ rest ≡ token
    → slice token (len prefix) (len token) ≡ rest
strip_prefix prefix rest token e = rw (sym e) (drop_prefix prefix rest)

module _ {J : JsonLib} (T : JwtLib J) where
  open T use {decode_header, decode}

  module _ {W : Type 0} (parameters : Parameters W) where
    open parameters use {key_provider, issuer, audience, prefix}

    -- What it takes for a token to be decoded with this header and key.
    pub record Authenticates (token : String) (w : W) (t : TokenImpl T) (left : W) : Type 0 where
      pub enc : String
      pub behind_prefix : token ≡ prefix ++ enc
      pub header : JwtHeader
      pub has_header : extract_header T enc ≡ returns (some header)
      pub typ : String
      pub has_type : header.typ ≡ some typ
      pub provider : String → Comp W String
      pub is_configured : find header.alg key_provider ≡ some provider
      pub has_key : provider (or_empty T header.kid) w ≡ (returns t.key, left)
      pub key_is_set : t.key ≢ ""
      pub decodes :
          decode enc (header.alg ∷ []) t.key issuer audience true ≡ returns (t.jwt_object, t.ec)
      pub goes_on : stops_decoding t.ec ≡ none

    decode_with_key_inversion :
        (enc alg key : String) (w left : W) (t : TokenImpl T)
        → decode_with_key T parameters enc alg key w ≡ (returns (accepted t), left)
        → (key ≡ t.key)
          × (t.key ≢ "")
          × (decode enc (alg ∷ []) t.key issuer audience true ≡ returns (t.jwt_object, t.ec))
          × (stops_decoding t.ec ≡ none)
          × (w ≡ left)
    decode_with_key_inversion enc alg key w left t h = elim (Bool-cases (key == "")) [
      | inl e ↦ absurd (ground (arith, e))
      | inr e ↦ elim (Result-cases (decode enc (alg ∷ []) key issuer audience true)) [
        | inr (x, d) ↦ absurd (ground (arith, e, d))
        | inl ((o, ec), d) ↦ elim (Option-cases (stops_decoding ec)) [
          | inr (m, g) ↦ absurd (ground (arith, e, d, g))
          | inl g ↦ ground (arith, e, d, g, eq_iff key "")
        ]
      ]
    ]

    decode_token-accepts :
        (token : String) (w left : W) (t : TokenImpl T)
        → Authenticates token w t left
        → decode_token T parameters token w ≡ (returns (accepted t), left)
    unfolding decode_token
    decode_token-accepts token w left t a =
        rw
          (
            a.behind_prefix,
            slice-append_left prefix a.enc,
            eq_refl prefix,
            drop_prefix prefix a.enc,
            a.has_header,
            a.has_type,
            a.is_configured,
            a.has_key,
          )
          (ground (arith, eq_iff t.key "", a.decodes, a.goes_on, a.key_is_set))

    with_provider_inversion :
        (enc : String) (header : JwtHeader) (w left : W) (t : TokenImpl T)
        → decode_with_provider T parameters enc header (find header.alg key_provider) w
          ≡ (returns (accepted t), left)
        → (provider : String → Comp W String) × (find header.alg key_provider ≡ some provider)
          × (provider (or_empty T header.kid) w ≡ (returns t.key, left))
          × (t.key ≢ "")
          × (decode enc (header.alg ∷ []) t.key issuer audience true ≡ returns (t.jwt_object, t.ec))
          × (stops_decoding t.ec ≡ none)
    with_provider_inversion enc header w left t h =
        elim (Option-cases (find header.alg key_provider)) [
          | inl e ↦ absurd (ground (arith, e))
          | inr (provider, e) ↦
              let h' : decode_with_provider T parameters enc header (some provider) w
                  ≡ (returns (accepted t), left) =
                rw e at h in
              elim (Result-cases (provider (or_empty T header.kid) w).0) [
                | inr (x, k) ↦ absurd (ground (arith, k))
                | inl (key, k) ↦
                    let after = (provider (or_empty T header.kid) w).1 in
                    let rest : decode_with_key T parameters enc header.alg key after
                        ≡ (returns (accepted t), left) =
                      rw k at h' in
                    let (same, set, decodes, goes_on, there) =
                      decode_with_key_inversion enc header.alg key after left t rest in
                    (provider, e, ground (arith, k), set, decodes, goes_on)
              ]
        ]

    pub decode_token_inversion :
        (token : String) (w left : W) (t : TokenImpl T)
        → decode_token T parameters token w ≡ (returns (accepted t), left)
        → Authenticates token w t left
    unfolding decode_token
    decode_token_inversion token w left t h =
        let enc = slice token (len prefix) (len token) in
        elim (Bool-cases (slice token 0 (len prefix) == prefix)) [
          | inr e ↦ absurd (ground (arith, e))
          | inl e ↦
              let (behind, split) = (starts_with_iff token prefix).0 e in
              elim (Result-cases (extract_header T enc)) [
                | inr (x, k) ↦ absurd (ground (arith, e, k))
                | inl (none, k) ↦ absurd (ground (arith, e, k))
                | inl (some header, k) ↦ elim (Option-cases header.typ) [
                  | inl q ↦ absurd (ground (arith, e, k, q))
                  | inr (typ, q) ↦
                      let rest : decode_with_provider T parameters enc header
                            (find header.alg key_provider) w
                          ≡ (returns (accepted t), left) =
                        ground (arith, e, k, q) in
                      let (provider, configured, has_key, set, decodes, goes_on) =
                        with_provider_inversion enc header w left t rest in
                      record {
                        enc = enc;
                        behind_prefix =
                            sym split
                            ∙ ap (λ r. prefix ++ r) (sym (strip_prefix prefix behind token split));
                        header = header;
                        has_header = k;
                        typ = typ;
                        has_type = q;
                        provider = provider;
                        is_configured = configured;
                        has_key = has_key;
                        key_is_set = set;
                        decodes = decodes;
                        goes_on = goes_on;
                      }
                ]
              ]
        ]

    -- decode_token takes a token exactly when all of these hold: it is the prefix and an encoded
    -- token, whose header can be read and has a type, of whatever text; the algorithm of the header
    -- is configured; its provider gives a key that is not empty for the key id of the header, or for
    -- the empty id if it has none; and the library, asked for that algorithm alone with that key,
    -- the issuer and the audience, reports no algorithm or decode error. What the provider did is
    -- all that changes.
    pub decode_token_iff :
        (token : String) (w left : W) (t : TokenImpl T)
        → (decode_token T parameters token w ≡ (returns (accepted t), left))
          ↔ Authenticates token w t left
    decode_token_iff token w left t =
        (decode_token_inversion token w left t, decode_token-accepts token w left t)

    -- A token that is decoded and then verified is authentic: besides all that decoding it takes,
    -- the library reported no error for it at all.
    pub verified_token-Authenticates :
        (token : String) (w left : W) (t : TokenImpl T) (details : String)
        → decode_token T parameters token w ≡ (returns (accepted t), left)
        → verify_token T t ≡ (true, details)
        → Authenticates token w t left × (t.ec ≡ none)
    unfolding verify_token
    verified_token-Authenticates token w left t details decoded verified = (
      decode_token_inversion token w left t decoded,
      elim (Option-cases t.ec) [ inl e ↦ e | inr (error, e) ↦ absurd (ground (arith, e)) ],
    )

    -- A token with the prefix whose header has no type is not rejected: bad_optional_access escapes
    -- from decode_token.
    pub decode_token-no_type :
        (enc : String) (header : JwtHeader) (w : W)
        → extract_header T enc ≡ returns (some header)
        → header.typ ≡ none
        → decode_token T parameters (prefix ++ enc) w ≡ (throws bad_optional_access, w)
    unfolding decode_token
    decode_token-no_type enc header w has_header no_type =
        rw (
          slice-append_left prefix enc,
          eq_refl prefix,
          drop_prefix prefix enc,
          has_header,
          no_type,
        )
