-- ===== src/Tests/Keys.antt =====
-- Key sets, key providers and tokens.
use sapper_bricks.Prelude.{
  ℕ, zero, suc, arith, String, ◌≡◌, refl, inl, true, none, some, List, [], ◌∷◌,
}
use sapper_bricks.Effect.{Result, returns, pure}
use sapper_bricks.Dict.{Dict, find, assign}
use sapper_bricks.Http.{HttpLib, failed}
use sapper_bricks.Json.Fields.{text_field}
use sapper_bricks.Security.Jwks.{
  Rs256Key, parse_rs256_keys, extract_pub_keys_pem, collect_pem, select_keys, select_key,
  is_signature_key, is_rsa_key, has_key_fields, read_key, text_at, has_string, text_is,
}
use sapper_bricks.Security.Jwks.Selection.{parse_rs256_keys_lem}
use sapper_bricks.Security.Jwks.PubKeys.{IsEntry, last_with, extract_pub_keys_pem_lem}
use sapper_bricks.Security.KeyProvider.{
  KeyProvider, create_with, get_key, shared_lookup, exclusive_lookup, update_key_cache,
}
use sapper_bricks.Security.KeyProvider.Lookup.{fetched, on_miss, get_key_lem}
use sapper_bricks.Security.KeyProvider.Threads.{
  System, Phase, asking, done, IsConsistent, Reach, here, next, runs, Reach-IsConsistent,
}
use sapper_bricks.Security.KeyProvider.Schedule.{calls, steps_at, hit, picks, IsFair, run}
use sapper_bricks.Security.KeyProvider.Requests.{answered, lacking_ids, requests_lem}
use sapper_bricks.Security.KeyProvider.Once.{one_request}
use sapper_bricks.Tests.Json.{json, jwks_doc}
use sapper_bricks.Tests.Json.Laws.{json_laws}

abbrev to_pem : Rs256Key → Result String
to_pem key = returns key.modulus_base64

abbrev extract : String → Result (Dict String)
extract = extract_pub_keys_pem json to_pem

parse_rs256_keys_lem_example :
    parse_rs256_keys json "jwks"
    ≡ returns (record { id = "k1"; modulus_base64 = "bQ"; exponent_base64 = "AQ" } ∷ [])
unfolding text_field
parse_rs256_keys_lem_example = parse_rs256_keys_lem json json_laws "jwks" jwks_doc refl

extracts : extract "jwks" ≡ returns (("k1", "bQ") ∷ [])
unfolding extract_pub_keys_pem parse_rs256_keys collect_pem select_keys select_key is_signature_key
    is_rsa_key has_key_fields read_key text_at has_string text_is assign
extracts = refl

extract_pub_keys_pem_lem_example :
    (keys : List Rs256Key) × (parse_rs256_keys json "jwks" ≡ returns keys)
    × ((id : String) → IsEntry to_pem none (last_with id keys) (find id (("k1", "bQ") ∷ [])))
extract_pub_keys_pem_lem_example =
    extract_pub_keys_pem_lem json to_pem "jwks" (("k1", "bQ") ∷ []) extracts

abbrev provider : KeyProvider (Unit {0})
provider = record { jwks_provider = pure "jwks"; throw_on_error = true }

get_key_lem_example :
    ((pem : String)
      → find {V = String} "k1" [] ≡ some pem
      → get_key extract provider "k1" ([], tt) ≡ (returns pem, ([], tt)))
    × (find {V = String} "k1" [] ≡ none
        → let (answer, left) =
            on_miss extract provider "k1" [] true (fetched extract provider tt) in
          get_key extract provider "k1" ([], tt) ≡ (answer, (left, tt)))
get_key_lem_example = get_key_lem extract provider "k1" [] tt

no_key : (get_key extract provider "" ([], tt)).0 ≡ returns ""
unfolding get_key shared_lookup exclusive_lookup update_key_cache find
no_key = rw extracts

abbrev offline : HttpLib (Unit {0})
offline = record { get = λ url. pure (failed "no route"); to_text = λ n. "0" }

abbrev one_thread : System (Unit {0})
one_thread = record { cache = []; world = tt; threads = asking "k1" ∷ [] }

abbrev after_look : System (Unit {0})
after_look = record { cache = []; world = tt; threads = Phase.missed "k1" ∷ [] }

looks : Reach extract provider one_thread after_look
unfolding find
looks = next here (runs [] (asking "k1") [] refl refl refl refl)

starts : IsConsistent extract provider one_thread
starts = record { cached = inl refl; answers = (tt, tt) }

Reach-IsConsistent_example : IsConsistent extract provider after_look
Reach-IsConsistent_example = Reach-IsConsistent extract provider looks starts

-- A provider in the world that counts its calls.
abbrev counting : KeyProvider ℕ
counting = record { jwks_provider = λ n. (returns "jwks", suc n); throw_on_error = true }

abbrev known : Dict String
known = ("k1", "bQ") ∷ []

-- Two calls for the key of the document, and one for an id that it does not have.
abbrev asked_ids : List String
asked_ids = "k1" ∷ "k9" ∷ "k1" ∷ []

abbrev schedule : List ℕ
schedule = 2 ∷ 1 ∷ 0 ∷ 1 ∷ 0 ∷ 2 ∷ []

schedule-IsFair : IsFair schedule (calls asked_ids)
unfolding steps_at picks hit
schedule-IsFair zero = omega arith
schedule-IsFair (suc zero) = omega arith
schedule-IsFair (suc (suc zero)) = omega arith
schedule-IsFair (suc (suc (suc m))) = omega arith

requests_lem_example :
    let created = create_with extract counting.jwks_provider true ([], 0) in
    let (threads, left) = run extract counting schedule (calls asked_ids, created.1) in
    (created.0 ≡ returns counting)
    × (threads ≡ done "k1" (returns "bQ") ∷ done "k9" (returns "") ∷ done "k1" (returns "bQ") ∷ [])
    × (left.0 ≡ known)
    × (left.1 ≡ 2)
unfolding answered lacking_ids find
requests_lem_example =
    requests_lem known extract "jwks" extracts refl (λ n. n) counting (λ n. refl) (λ n. refl)
      asked_ids schedule [] 0 schedule-IsFair

-- Two calls that both miss in the empty cache before one of them asks for the keys.
abbrev both_miss : List ℕ
both_miss = 0 ∷ 1 ∷ 1 ∷ 0 ∷ []

both_miss-IsFair : IsFair both_miss (calls ("k1" ∷ "k1" ∷ []))
unfolding steps_at picks hit
both_miss-IsFair zero = omega arith
both_miss-IsFair (suc zero) = omega arith
both_miss-IsFair (suc (suc m)) = omega arith

one_request_example :
    let (threads, left) = run extract counting both_miss (calls ("k1" ∷ "k1" ∷ []), ([], 0)) in
    (threads ≡ done "k1" (returns "bQ") ∷ done "k1" (returns "bQ") ∷ [])
    × (left.0 ≡ known)
    × (left.1 ≡ 1)
unfolding answered find
one_request_example =
    one_request known extract "jwks" extracts refl (λ n. n) counting (λ n. refl) (λ n. refl) "k1"
      ("k1" ∷ []) both_miss 0 (("bQ", refl), (("bQ", refl), tt)) both_miss-IsFair
