-- ===== src/Security/KeyProvider/Lookup.antt =====
-- What a call of the provider returns, and what it does to the cache.
use Prim.Native.String
use sapper_bricks.Prelude.{
  String, ◌≡◌, inl, inr, Bool, true, false, none, some, arith, if◌then◌else◌,
}
use sapper_bricks.Effect.{unavailable, error_forwarding, runtime_error, Result, returns, throws}
use sapper_bricks.Effect.Laws.{Result-cases}
use sapper_bricks.Dict.{Dict, find}
use sapper_bricks.Json.{JsonLib, IsJson}
use sapper_bricks.Http.{HttpLib, failed}
use sapper_bricks.Security.Jwks.{Rs256Key, extract_pub_keys_pem}
use sapper_bricks.Security.Jwks.PubKeys.{extract_pub_keys_pem-empty_id}
use sapper_bricks.Security.KeyProvider.{
  create, create_with, request_jwks, KeyProvider, is_empty, update_key_cache, shared_lookup,
  exclusive_lookup, get_key, or_empty,
}

module _ {W : Type 0} (extract : String → Result (Dict String)) (provider : KeyProvider W) where
  open provider use {jwks_provider, throw_on_error}

  abbrev checked : Dict String → Result (Dict String)
  checked keys =
      if is_empty keys
      then throws (runtime_error "RestJwksRSAKeyProvider: no keys found")
      else returns keys

  abbrev keys_of : Result String → Result (Dict String)
  keys_of (throws x) = throws x
  keys_of (returns jwks) = elim (extract jwks) [ throws x ↦ throws x | returns keys ↦ checked keys ]

  -- The keys that the JWKS of this world gives: a document that is fetched, converted and not
  -- empty of keys, or the exception on the way.
  abbrev pub fetched : W → Result (Dict String)
  fetched w = keys_of (jwks_provider w).0

  -- The world after the JWKS was asked for.
  abbrev pub asked : W → W
  asked w = (jwks_provider w).1

  -- The answer to a miss, and the cache that it leaves.
  abbrev pub on_miss :
      String → Dict String → Bool → Result (Dict String) → Result String × Dict String
  on_miss key_id cache throwing (returns keys) = (returns (or_empty (find key_id keys)), keys)
  on_miss key_id cache true (throws x) = (throws x, cache)
  on_miss key_id cache false (throws x) = (returns "", cache)

  abbrev pub on_update : Dict String → Bool → Result (Dict String) → Result (Unit {0}) × Dict String
  on_update cache throwing (returns keys) = (returns tt, keys)
  on_update cache true (throws x) = (throws x, cache)
  on_update cache false (throws x) = (returns tt, cache)

  -- An update replaces the cache only by keys that were fetched whole.
  pub update_key_cache_lem :
      (cache : Dict String) (w : W)
      → let (done, left) = on_update cache throw_on_error (fetched w) in
        update_key_cache extract provider (cache, w) ≡ (done, (left, asked w))
  unfolding update_key_cache
  update_key_cache_lem cache w = elim (Result-cases (jwks_provider w).0) [
    | inr (x, e) ↦ ground (arith, e)
    | inl (jwks, e) ↦ elim (Result-cases (extract jwks)) [
      | inr (x, e') ↦ ground (arith, e, e')
      | inl (keys, e') ↦ ground (arith, e, e')
    ]
  ]

  get_key_hit :
      (key_id pem : String) (cache : Dict String) (w : W)
      → find key_id cache ≡ some pem
      → get_key extract provider key_id (cache, w) ≡ (returns pem, (cache, w))
  unfolding get_key shared_lookup
  get_key_hit key_id pem cache w h = ground (arith, h)

  get_key_miss :
      (key_id : String) (cache : Dict String) (w : W)
      → find key_id cache ≡ none
      → let (answer, left) = on_miss key_id cache throw_on_error (fetched w) in
        get_key extract provider key_id (cache, w) ≡ (answer, (left, asked w))
  unfolding get_key exclusive_lookup shared_lookup
  get_key_miss key_id cache w h = ground (arith, h, update_key_cache_lem cache w)

  -- A key that is cached is returned, and nothing is asked for. Otherwise the JWKS is asked for
  -- once: keys that were fetched replace the whole cache and answer the call, with the empty text
  -- for an id that they lack; a failure leaves the cache, and is thrown or answered by the empty
  -- text as `throw_on_error` says.
  pub get_key_lem :
      (key_id : String) (cache : Dict String) (w : W)
      → ((pem : String)
          → find key_id cache ≡ some pem
          → get_key extract provider key_id (cache, w) ≡ (returns pem, (cache, w)))
        × (find key_id cache ≡ none
            → let (answer, left) = on_miss key_id cache throw_on_error (fetched w) in
              get_key extract provider key_id (cache, w) ≡ (answer, (left, asked w)))
  get_key_lem key_id cache w = (λ pem. get_key_hit key_id pem cache w, get_key_miss key_id cache w)

  -- Keys that were fetched come from a document and are not empty.
  abbrev pub IsKeySet : Dict String → Type 0
  IsKeySet keys = (jwks : String) × (extract jwks ≡ returns keys) × (is_empty keys ≡ false)

  -- Keys that were fetched are those of the document that was asked for.
  pub fetched_lem :
      (w : W) (keys : Dict String)
      → fetched w ≡ returns keys
      → (jwks : String) × ((jwks_provider w).0 ≡ returns jwks) × (extract jwks ≡ returns keys)
  fetched_lem w keys h = elim (Result-cases (jwks_provider w).0) [
    | inr (x, e) ↦ absurd (ground (arith, e))
    | inl (jwks, e) ↦ elim (Result-cases (extract jwks)) [
      | inr (x, e') ↦ absurd (ground (arith, e, e'))
      | inl (found, e') ↦ (jwks, e, ground (arith, e, e'))
    ]
  ]

  pub fetched-IsKeySet : (w : W) (keys : Dict String) → fetched w ≡ returns keys → IsKeySet keys
  fetched-IsKeySet w keys h = elim (Result-cases (jwks_provider w).0) [
    | inr (x, e) ↦ absurd (ground (arith, e))
    | inl (jwks, e) ↦ elim (Result-cases (extract jwks)) [
      | inr (x, e') ↦ absurd (ground (arith, e, e'))
      | inl (found, e') ↦ (jwks, ground (arith, e, e'), ground (arith, e, e'))
    ]
  ]

-- With the keys of extractPubKeysPEM, and a cache that lacks the empty key id, a call for the empty
-- key id that returns, returns the empty text: no key.
pub get_key-empty_id :
    (J : JsonLib) (laws : IsJson J) (to_pem : Rs256Key → Result String) {W : Type 0}
    (provider : KeyProvider W) (cache : Dict String) (w : W) (pem : String)
    → find "" cache ≡ none
    → (get_key (extract_pub_keys_pem J to_pem) provider "" (cache, w)).0 ≡ returns pem
    → pem ≡ ""
get_key-empty_id J laws to_pem provider cache w pem h got =
    let extract = extract_pub_keys_pem J to_pem in
    let miss = get_key_miss extract provider "" cache w h in
    elim (Result-cases (fetched extract provider w)) [
      | inl (keys, e) ↦
          let (jwks, taken, _) = fetched-IsKeySet extract provider w keys e in
          let none_there = extract_pub_keys_pem-empty_id J laws to_pem jwks keys taken in
          ground (arith, miss, e, none_there)
      | inr (x, e) ↦ ground (arith, miss, e)
    ]

-- Whatever value of `throw_on_error` the constructor with a URI gets, a request that fails makes it
-- throw the exception that forwards the status unavailable.
pub create_ignores_throw_on_error :
    {W : Type 0} (H : HttpLib W) (extract : String → Result (Dict String)) (jwks_uri error : String)
    (flag : Bool) (cache : Dict String) (w : W)
    → (H.get jwks_uri w).0 ≡ returns (failed error)
    → (what : String) × ((create H extract jwks_uri flag (cache, w)).0
        ≡ throws (error_forwarding (record { code = unavailable; details = "" }) what))
unfolding create create_with update_key_cache request_jwks
create_ignores_throw_on_error H extract jwks_uri error flag cache w h =
    (Prim.Native.String.◌++◌ "requesting JWKS resulted in error: " error, ground (arith, h))
