-- ===== src/Security/KeyProvider.antt =====
-- security/jwt-auth/src/adapters/security-jwt-auth/rest-jwks-rsa-key-provider.cpp. The cache that
-- the copies of a provider share stands beside the world. Each of the two locked blocks of the call
-- operator is one step; what other threads do between them is in `KeyProvider/Threads.antt`. The
-- log messages are not modelled.
pub mod Lookup
pub mod Once
pub mod Requests
pub mod Schedule
pub mod Threads
use Prim.Native.String
use sapper_bricks.Prelude.{
  zero, suc, ℕ, String, Bool, true, false, Option, none, some, List, [], ◌∷◌, if◌then◌else◌,
}
use sapper_bricks.Effect.{
  Status, unavailable, Exn, runtime_error, error_forwarding, Comp, Result, returns, throws, pure,
  raise, lift, throw_if, try_catch, on_right, ◌>>=◌, ◌>>◌,
}
use sapper_bricks.Dict.{Dict, find}
use sapper_bricks.Http.{HttpLib, Fetched, failed, answered}

abbrev pub is_empty : Dict String → Bool
is_empty [] = true
is_empty (entry ∷ m) = false

-- The provider's fields, but for the cache; `extract` stands for extractPubKeysPEM.
pub record KeyProvider (W : Type 0) : Type 0 where
  pub jwks_provider : Comp W String
  pub throw_on_error : Bool

-- The first block of the call operator, under the shared lock.
unfoldable pub shared_lookup : {W : Type 0} → String → Comp (Dict String × W) (Option String)
shared_lookup key_id s = (returns (find key_id s.0), s)

-- The end of the second block: still not found gives the empty text.
abbrev pub or_empty : Option String → String
or_empty none = ""
or_empty (some pem) = pem

module _ {W : Type 0} (extract : String → Result (Dict String)) where
  -- _key_cache->data = keys;
  abbrev assign_cache : Dict String → Comp (Dict String × W) (Unit {0})
  assign_cache keys s = (returns tt, (keys, s.1))

  -- The block under try in updateKeyCache.
  fetch_keys : KeyProvider W → Comp (Dict String × W) (Unit {0})
  fetch_keys provider = do
    jwks ← on_right provider.jwks_provider
    keys ← lift (extract jwks)
    throw_if (is_empty keys) (runtime_error "RestJwksRSAKeyProvider: no keys found")
    assign_cache keys

  -- if(_throw_on_error) { throw; } else { log }
  abbrev on_error : Bool → Exn → Comp (Dict String × W) (Unit {0})
  on_error true x = raise x
  on_error false x = pure tt

  unfoldable pub update_key_cache : KeyProvider W → Comp (Dict String × W) (Unit {0})
  unfolding fetch_keys
  update_key_cache provider = try_catch (fetch_keys provider) (on_error provider.throw_on_error)

  -- The constructor with a custom provider; the cache is a new one.
  unfoldable pub create_with : Comp W String → Bool → Comp (Dict String × W) (KeyProvider W)
  create_with jwks_provider throw_on_error = do
    assign_cache []
    let provider : KeyProvider W = record {
      jwks_provider = jwks_provider;
      throw_on_error = throw_on_error;
    }
    update_key_cache provider
    pure provider

  -- The second block, under the exclusive lock.
  abbrev found_or_update : KeyProvider W → String → Option String → Comp (Dict String × W) String
  found_or_update provider key_id (some pem) = pure pem
  found_or_update provider key_id none = do
    update_key_cache provider
    again ← shared_lookup key_id
    pure (or_empty again)

  unfoldable pub exclusive_lookup : KeyProvider W → String → Comp (Dict String × W) String
  unfolding update_key_cache shared_lookup
  exclusive_lookup provider key_id = do
    hit ← shared_lookup key_id
    found_or_update provider key_id hit

  abbrev hit_or_exclusive : KeyProvider W → String → Option String → Comp (Dict String × W) String
  hit_or_exclusive provider key_id (some pem) = pure pem
  hit_or_exclusive provider key_id none = exclusive_lookup provider key_id

  -- The call operator of a provider that no other thread uses meanwhile.
  unfoldable pub get_key : KeyProvider W → String → Comp (Dict String × W) String
  unfolding exclusive_lookup
  get_key provider key_id = do hit ← shared_lookup key_id; hit_or_exclusive provider key_id hit

module _ {W : Type 0} (H : HttpLib W) where
  abbrev jwks_error : String → Comp W String
  jwks_error details =
      raise (error_forwarding (record { code = unavailable; details = "" }) details)

  -- What is made of a response: an error, or a status of zero, is the error that makes the
  -- current request unavailable.
  abbrev jwks_of : Fetched → Comp W String
  jwks_of (failed error) =
      jwks_error (Prim.Native.String.◌++◌ "requesting JWKS resulted in error: " error)
  jwks_of (answered zero body) =
      jwks_error (Prim.Native.String.◌++◌ "requesting JWKS returned with status " (H.to_text 0))
  jwks_of (answered (suc status) body) = pure body

  unfoldable pub request_jwks : String → Comp W String
  request_jwks jwks_uri = do resp ← H.get jwks_uri; jwks_of resp

  -- The constructor with a URI. It delegates without its second argument, so the default holds.
  unfoldable pub create :
      (String → Result (Dict String)) → String → Bool → Comp (Dict String × W) (KeyProvider W)
  create extract jwks_uri throw_on_error = create_with extract (request_jwks jwks_uri) true
