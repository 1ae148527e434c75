-- ===== src/Tests/Scenarios/KeyProvider.antt =====
-- security/jwt-auth/tests/adapters/security-jwt-auth/rest-jwks-rsa-key-provider_test.cpp. The PEM
-- text is OpenSSL's, so a fixed one stands for it, and the test for its two lines is an equation.
use sapper_bricks.Prelude.{
  ℕ, suc, String, ◌≡◌, refl, Bool, true, false, not, List, [], ◌∷◌, ◌++◌, ◌==◌,
}
use sapper_bricks.Effect.{Result, returns, throws, Comp, ◌>>=◌}
use sapper_bricks.Dict.{Dict, find, assign}
use sapper_bricks.Security.Jwks.{
  parse_rs256_keys, extract_pub_keys_pem, collect_pem, select_keys, select_key, is_signature_key,
  is_rsa_key, has_key_fields, read_key, text_at, has_string, text_is,
}
use sapper_bricks.Security.KeyProvider.{
  KeyProvider, create_with, get_key, shared_lookup, exclusive_lookup, update_key_cache,
}
use sapper_bricks.Security.KeyProvider.Schedule.{calls, IsFair, run}
use sapper_bricks.Security.KeyProvider.Requests.{answered, lacking_ids, requests_lem}
use sapper_bricks.Tests.Json.{nat_eq}
use sapper_bricks.Tests.Reader.{reading_json, read_json}
use sapper_bricks.Tests.Scenarios.{all_hold, throws_any}

-- TestJWKSProvider, in the world of its call count.
abbrev test_jwks_provider : String → Comp ℕ String
test_jwks_provider jwks call_count = (returns jwks, suc call_count)

abbrev jwks : String
jwks =
    "{\"keys\": [{\"kty\": \"RSA\",\"use\": \"sig\",\"n\": \"abc\",\"e\": \"def\",\"kid\": \"key_0\" }]}"

abbrev jwks_with_syntax_error : String
jwks_with_syntax_error =
    "{\"keys\": [{\"kt\": y\": \"RSA\",\"use\": \"sig\",\"n\": \"abc\",\"e\": \"def\",\"kid\": \"key_0\" }]}"

abbrev pem_text : String
pem_text = "-----BEGIN PUBLIC KEY-----\n-----END PUBLIC KEY-----\n"

abbrev extract : String → Result (Dict String)
extract = extract_pub_keys_pem reading_json (λ key. returns pem_text)

abbrev Provided : Type 0 → Type 0
Provided A = Comp (Dict String × ℕ) A

abbrev made : String → Bool → Provided (KeyProvider ℕ)
made document throw_on_error = create_with extract (test_jwks_provider document) throw_on_error

abbrev requested : String → Provided String
requested key_id = do rest_jwks_provider ← made jwks true; get_key extract rest_jwks_provider key_id

abbrev is_pem : Result String → String → Bool
is_pem (returns pem) expected = pem == expected
is_pem (throws x) expected = false

abbrev provider_requirements : List Bool
provider_requirements =
    let (created, (created_cache, created_count)) = made jwks true ([], 0) in
    let (existing, (existing_cache, existing_count)) = requested "key_0" ([], 0) in
    let (missing, (missing_cache, missing_count)) = requested "key_29" ([], 0) in
    nat_eq created_count 1
    ∷ is_pem existing pem_text
    ∷ nat_eq existing_count 1
    ∷ is_pem missing ""
    ∷ nat_eq missing_count 2
    ∷ throws_any (made jwks_with_syntax_error true ([], 0)).0
    ∷ not (throws_any (made jwks_with_syntax_error false ([], 0)).0)
    ∷ []

key_provider_test : all_hold provider_requirements ≡ true
unfolding read_json extract_pub_keys_pem parse_rs256_keys collect_pem select_keys select_key
    is_signature_key is_rsa_key has_key_fields read_key text_at has_string text_is assign find
    create_with get_key shared_lookup exclusive_lookup update_key_cache
key_provider_test = refl

abbrev known : Dict String
known = ("key_0", pem_text) ∷ []

abbrev twenty_existing : List String
twenty_existing =
    "key_0" ∷ "key_0" ∷ "key_0" ∷ "key_0" ∷ "key_0" ∷ "key_0" ∷ "key_0" ∷ "key_0" ∷ "key_0"
    ∷ "key_0" ∷ "key_0" ∷ "key_0" ∷ "key_0" ∷ "key_0" ∷ "key_0" ∷ "key_0" ∷ "key_0" ∷ "key_0"
    ∷ "key_0" ∷ "key_0" ∷ []

abbrev ten_missing : List String
ten_missing = "0" ∷ "1" ∷ "2" ∷ "3" ∷ "4" ∷ "5" ∷ "6" ∷ "7" ∷ "8" ∷ "9" ∷ []

abbrev rest_jwks_provider : KeyProvider ℕ
rest_jwks_provider = record { jwks_provider = test_jwks_provider jwks; throw_on_error = true }

extracts : extract jwks ≡ returns known
unfolding read_json extract_pub_keys_pem parse_rs256_keys collect_pem select_keys select_key
    is_signature_key is_rsa_key has_key_fields read_key text_at has_string text_is assign
extracts = refl

-- However the calls of the three threads interleave, there are eleven requests, the existing key is
-- found twenty times, and the missing ones are not found ten times.
threads_test :
    (schedule : List ℕ)
    → IsFair schedule (calls (twenty_existing ++ ten_missing))
    → let created = made jwks true ([], 0) in
      let (threads, left) =
        run extract rest_jwks_provider schedule
          (calls (twenty_existing ++ ten_missing), created.1) in
      (left.1 ≡ 11) × (threads ≡ answered known (twenty_existing ++ ten_missing))
unfolding lacking_ids find
threads_test schedule fair =
    let (created, threads, cached, count) =
      requests_lem known extract jwks extracts refl (λ n. n) rest_jwks_provider (λ n. refl)
        (λ n. refl) (twenty_existing ++ ten_missing) schedule [] 0 fair in
    (count, threads)
