-- ===== src/Security/JwtAuth/Header.antt =====
-- Which header a token has.
use sapper_bricks.Prelude.{String, ◌≡◌, inl, inr, Option, none, some, Option-cases}
use sapper_bricks.Effect.{returns}
use sapper_bricks.Json.{JsonLib, IsJson}
use sapper_bricks.Json.Fields.{text_field, extract_string_lem}
use sapper_bricks.Security.JwtAuth.{JwtLib, JwtHeader, first_part, extract_header}

module _ {J : JsonLib} (T : JwtLib J) where
  open T use {decode_header}

  abbrev header_of : Option String → Option String → Option String → Option JwtHeader
  header_of none typ kid = none
  header_of (some alg) typ kid = some (record { alg = alg; typ = typ; kid = kid })

  abbrev header_in : Option J.Json → Option JwtHeader
  header_in none = none
  header_in (some j) =
      header_of (text_field J j "alg") (text_field J j "typ") (text_field J j "kid")

  -- Reading the header of a token never throws. There is one exactly when the first part of the
  -- token decodes to a JSON value whose "alg" is a text; its "typ" and "kid" are kept if they are
  -- texts.
  pub extract_header_lem :
      (laws : IsJson J) (enc : String)
      → extract_header T enc ≡ returns (header_in (decode_header (first_part T enc)))
  unfolding extract_header
  extract_header_lem laws enc = elim (Option-cases (decode_header (first_part T enc))) [
    | inl e ↦ rw e
    | inr (j, e) ↦ elim (Option-cases (text_field J j "alg")) [
      | inl a ↦ rw (e, extract_string_lem J laws j "alg", a)
      | inr (alg, a) ↦ rw (
        e,
        extract_string_lem J laws j "alg",
        a,
        extract_string_lem J laws j "kid",
        extract_string_lem J laws j "typ",
      )
    ]
  ]
