-- ===== src/Security/OpenId/Reading.antt =====
-- When a document is a configuration, and which one.
use sapper_bricks.Prelude.{String, ◌≡◌, ◌⊎◌, refl, inl, inr, Option, none, some, Option-cases}
use sapper_bricks.Effect.{bad_optional_access, Result, returns, throws}
use sapper_bricks.Effect.Fail.{◌>>=◌}
use sapper_bricks.Json.{JsonLib, IsJson}
use sapper_bricks.Json.Fields.{
  text_field, texts_field, extract_string_lem, extract_bool_lem, extract_strings_lem,
}
use sapper_bricks.Security.OpenId.Json.{value, read_configuration, create_from_json}
use sapper_bricks.Security.OpenId.Described.{
  Required, Has, Lacks, described, no_issuer, no_authorization_endpoint, no_jwks_uri,
  no_response_types_supported, no_subject_types_supported, no_id_token_signing_alg_values_supported,
}

module _ (J : JsonLib) where
  open J use {parse, Json}

  module _ (laws : IsJson J) where
    create_from_json-Has :
        (text : String) (j : Json) (q : Required)
        → parse text ≡ returns j
        → Has J j q
        → create_from_json J text ≡ returns (described J j q)
    unfolding create_from_json read_configuration
    create_from_json-Has text j q parsed h = simp (
      parsed,
      extract_string_lem J laws j,
      extract_bool_lem J laws j,
      extract_strings_lem J laws j,
      h.has_issuer,
      h.has_authorization_endpoint,
      h.has_jwks_uri,
      h.has_response_types_supported,
      h.has_subject_types_supported,
      h.has_id_token_signing_alg_values_supported,
    )

    -- A required value that is missing ends the reading, whatever the later ones are.
    absorbs :
        {A B : Type 0} (o : Option A) (f : A → Result B)
        → ((a : A) → f a ≡ throws bad_optional_access)
        → (value o >>= f) ≡ throws bad_optional_access
    absorbs none f h = refl
    absorbs (some a) f h = h a

    ends :
        {A B : Type 0} (o : Option A) (f : A → Result B)
        → o ≡ none
        → (value o >>= f) ≡ throws bad_optional_access
    ends o f e = rw e

    create_from_json-Lacks :
        (text : String) (j : Json)
        → parse text ≡ returns j
        → Lacks J j
        → create_from_json J text ≡ throws bad_optional_access
    unfolding create_from_json read_configuration
    create_from_json-Lacks text j parsed (no_issuer e) =
        simp
          (
            parsed,
            extract_string_lem J laws j,
            extract_bool_lem J laws j,
            extract_strings_lem J laws j,
          )
          (ends _ _ e)
    create_from_json-Lacks text j parsed (no_authorization_endpoint e) =
        simp
          (
            parsed,
            extract_string_lem J laws j,
            extract_bool_lem J laws j,
            extract_strings_lem J laws j,
          )
          (absorbs (text_field J j "issuer") _ λ issuer. ends _ _ e)
    create_from_json-Lacks text j parsed (no_jwks_uri e) =
        simp
          (
            parsed,
            extract_string_lem J laws j,
            extract_bool_lem J laws j,
            extract_strings_lem J laws j,
          )
          (absorbs (text_field J j "issuer") _ λ issuer.
            absorbs (text_field J j "authorization_endpoint") _
              λ authorization_endpoint. ends _ _ e)
    create_from_json-Lacks text j parsed (no_response_types_supported e) =
        simp
          (
            parsed,
            extract_string_lem J laws j,
            extract_bool_lem J laws j,
            extract_strings_lem J laws j,
          )
          (absorbs (text_field J j "issuer") _ λ issuer.
            absorbs (text_field J j "authorization_endpoint") _ λ authorization_endpoint.
              absorbs (text_field J j "jwks_uri") _ λ jwks_uri. ends _ _ e)
    create_from_json-Lacks text j parsed (no_subject_types_supported e) =
        simp
          (
            parsed,
            extract_string_lem J laws j,
            extract_bool_lem J laws j,
            extract_strings_lem J laws j,
          )
          (absorbs (text_field J j "issuer") _ λ issuer.
            absorbs (text_field J j "authorization_endpoint") _ λ authorization_endpoint.
              absorbs (text_field J j "jwks_uri") _ λ jwks_uri.
                absorbs (texts_field J j "response_types_supported") _
                  λ response_types_supported. ends _ _ e)
    create_from_json-Lacks text j parsed (no_id_token_signing_alg_values_supported e) =
        simp
          (
            parsed,
            extract_string_lem J laws j,
            extract_bool_lem J laws j,
            extract_strings_lem J laws j,
          )
          (absorbs (text_field J j "issuer") _ λ issuer.
            absorbs (text_field J j "authorization_endpoint") _ λ authorization_endpoint.
              absorbs (text_field J j "jwks_uri") _ λ jwks_uri.
                absorbs (texts_field J j "response_types_supported") _ λ response_types_supported.
                  absorbs (texts_field J j "subject_types_supported") _
                    λ subject_types_supported. ends _ _ e)

    Has-or-Lacks : (j : Json) → ((q : Required) × Has J j q) ⊎ Lacks J j
    Has-or-Lacks j = elim (Option-cases (text_field J j "issuer")) [
      | inl e ↦ inr (no_issuer e)
      | inr (issuer, has_issuer) ↦ elim (Option-cases (text_field J j "authorization_endpoint")) [
        | inl e ↦ inr (no_authorization_endpoint e)
        | inr (authorization_endpoint, has_authorization_endpoint) ↦
            elim (Option-cases (text_field J j "jwks_uri")) [
              | inl e ↦ inr (no_jwks_uri e)
              | inr (jwks_uri, has_jwks_uri) ↦
                  elim (Option-cases (texts_field J j "response_types_supported")) [
                    | inl e ↦ inr (no_response_types_supported e)
                    | inr (response_types_supported, has_response_types_supported) ↦
                        elim (Option-cases (texts_field J j "subject_types_supported")) [
                          | inl e ↦ inr (no_subject_types_supported e)
                          | inr (subject_types_supported, has_subject_types_supported) ↦
                              elim (Option-cases
                                (texts_field J j "id_token_signing_alg_values_supported")) [
                                  | inl e ↦ inr (no_id_token_signing_alg_values_supported e)
                                  | inr
                                        (
                                          id_token_signing_alg_values_supported,
                                          has_id_token_signing_alg_values_supported,
                                        ) ↦
                                      inl (
                                        record {
                                          issuer = issuer;
                                          authorization_endpoint = authorization_endpoint;
                                          jwks_uri = jwks_uri;
                                          response_types_supported = response_types_supported;
                                          subject_types_supported = subject_types_supported;
                                          id_token_signing_alg_values_supported =
                                              id_token_signing_alg_values_supported;
                                        },
                                        record {
                                          has_issuer = has_issuer;
                                          has_authorization_endpoint = has_authorization_endpoint;
                                          has_jwks_uri = has_jwks_uri;
                                          has_response_types_supported =
                                              has_response_types_supported;
                                          has_subject_types_supported = has_subject_types_supported;
                                          has_id_token_signing_alg_values_supported =
                                              has_id_token_signing_alg_values_supported;
                                        },
                                      )
                                ]
                        ]
                  ]
            ]
      ]
    ]

    -- A document that parses is read to the configuration that it describes if each of the six
    -- required fields is there with its type; otherwise bad_optional_access is thrown. An optional
    -- field that is missing or has another type is left out, and texts are taken from an array
    -- without its other elements.
    pub create_from_json_lem :
        (text : String) (j : Json)
        → parse text ≡ returns j
        → ((q : Required) × Has J j q × (create_from_json J text ≡ returns (described J j q)))
          ⊎ (Lacks J j × (create_from_json J text ≡ throws bad_optional_access))
    create_from_json_lem text j parsed = elim (Has-or-Lacks j) [
      | inl (q, h) ↦ inl (q, h, create_from_json-Has text j q parsed h)
      | inr l ↦ inr (l, create_from_json-Lacks text j parsed l)
    ]
