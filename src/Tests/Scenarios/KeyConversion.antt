-- ===== src/Tests/Scenarios/KeyConversion.antt =====
-- security/jwt-auth/tests/adapters/security-jwt-auth/impl/key_conversion_test.cpp, but for the PEM
-- text of OpenSSL. The white space of the documents is shortened.
use Prim.Native.String.{◌++◌}
use sapper_bricks.Prelude.{String, ◌≡◌, refl, Bool, true, false, ◌&&◌, List, [], ◌∷◌, ◌==◌}
use sapper_bricks.Effect.{Result, returns}
use sapper_bricks.Security.Jwks.{
  Rs256Key, parse_rs256_keys, select_keys, select_key, is_signature_key, is_rsa_key, has_key_fields,
  read_key, text_at, has_string, text_is,
}
use sapper_bricks.Tests.Reader.{reading_json, read_json}
use sapper_bricks.Tests.Scenarios.{all_hold, throws_any}

abbrev jwks : String
jwks =
    "{\"keys\": [ { \"kty\": \"RSA\", \"use\": \"sig\", \"n\": \"abc\", "
    ++ ("\"e\": \"def\", \"kid\": \"key_0\" }, { \"kty\": \"RSA\", "
        ++ ("\"key_ops\": \"sign\", \"n\": \"xyz\", \"e\": \"123\", "
            ++ ("\"kid\": \"key_1\" }, { \"kty\": \"EC\", \"use\": \"sig\", "
                ++ ("\"n\": \"aaa\", \"e\": \"bbb\", \"kid\": \"key_2\" }, { "
                    ++ ("\"kty\": \"RSA\", \"use\": \"enc\", \"n\": \"aaa\", \"e\": \"bbb\", "
                        ++ "\"kid\": \"key_3\" } ]}")))))

abbrev invalid_jwks : String
invalid_jwks = "{\"keys\": [ { \"kty\": \"RSA\", \"us }]"

abbrev jwks_with_missing_e : String
jwks_with_missing_e =
    "{\"keys\": [ { \"kty\": \"RSA\", \"use\": \"sig\", \"n\": \"abc\", "
    ++ "\"kid\": \"key_0\" }] }"

abbrev is_key : Rs256Key → String → String → String → Bool
is_key key id modulus exponent =
    key.id == id && (key.modulus_base64 == modulus && key.exponent_base64 == exponent)

abbrev has_two_keys : Result (List Rs256Key) → Bool
has_two_keys (returns (first ∷ second ∷ [])) =
    is_key first "key_0" "abc" "def" && is_key second "key_1" "xyz" "123"
has_two_keys _ = false

abbrev has_no_keys : Result (List Rs256Key) → Bool
has_no_keys (returns []) = true
has_no_keys _ = false

abbrev conversion_requirements : List Bool
conversion_requirements =
    has_two_keys (parse_rs256_keys reading_json jwks)
    ∷ throws_any (parse_rs256_keys reading_json invalid_jwks)
    ∷ has_no_keys (parse_rs256_keys reading_json jwks_with_missing_e)
    ∷ []

key_conversion_test : all_hold conversion_requirements ≡ true
unfolding read_json parse_rs256_keys select_keys select_key is_signature_key is_rsa_key
    has_key_fields read_key text_at has_string text_is
key_conversion_test = refl
