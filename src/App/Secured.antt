-- ===== src/App/Secured.antt =====
-- A service with the bricks security/openid and security/jwt-auth.
use sapper_bricks.Prelude.{String, ◌≡◌, true, List, []}
use sapper_bricks.Effect.{Exn, Result, returns, throws, Comp, ◌>>=◌, pure}
use sapper_bricks.Dict.{Dict}
use sapper_bricks.Http.{HttpLib}
use sapper_bricks.Security.KeyProvider.{KeyProvider, request_jwks, create, create_with, get_key}
use sapper_bricks.Security.KeyProvider.Lookup.{fetched, asked, update_key_cache_lem}
use sapper_bricks.Security.OpenId.Metadata.{Configuration}
use sapper_bricks.App.{AppLib, Main, run, main_of, execute}
use sapper_bricks.App.Bricks.{openid, jwt_authentication}
use sapper_bricks.App.Exit.{IsQuiet, prepared, main_of_lem}

-- The cache of the key provider stands beside the world.
module _ {W : Type 0} (A : AppLib (Dict String × W)) (m : Main (Dict String × W)) (H : HttpLib W)
    (extract : String → Result (Dict String))
    (create_from_url : String → Comp (Dict String × W) Configuration) (default audience : String)
    (required_claims : List String) where
  -- RestJwksRSAKeyProvider key_provider(uri);
  abbrev pub make_provider :
      String → Comp (Dict String × W) (String → Comp (Dict String × W) String)
  make_provider uri = do provider ← create H extract uri true; pure (get_key extract provider)

  abbrev pub provider_at : String → KeyProvider W
  provider_at uri = record { jwks_provider = request_jwks H uri; throw_on_error = true }

  abbrev pub secured : Main (Dict String × W)
  secured =
      jwt_authentication A (openid A m create_from_url default) make_provider audience
        required_claims

  abbrev pub url_read : Dict String × W → Result String × (Dict String × W)
  url_read s = A.getenv_or "OPENID_URL" default (prepared A secured s)

  -- The key provider is not made if no keys can be fetched.
  make_provider-throws :
      (uri : String) (s : Dict String × W) (x : Exn)
      → fetched extract (provider_at uri) s.1 ≡ throws x
      → make_provider uri s ≡ (throws x, ([], asked extract (provider_at uri) s.1))
  unfolding create create_with
  make_provider-throws uri s x none_there =
      rw (update_key_cache_lem extract (provider_at uri) [] s.1, none_there)

  -- What ends a start: the configuration at the URL cannot be had, or from the address that it
  -- names no set of keys can be fetched, converted and found not empty. With the exception, and
  -- what is left behind.
  pub data Refusal (url : String) (s : Dict String × W) (x : Exn) (left : Dict String × W)
      : Type 0 where
    no_configuration : create_from_url url s ≡ (throws x, left) → Refusal url s x left
    no_keys :
        (config : Configuration) (t : Dict String × W)
        → create_from_url url s ≡ (returns config, t)
        → fetched extract (provider_at config.jwks_uri) t.1 ≡ throws x
        → left ≡ ([], asked extract (provider_at config.jwks_uri) t.1)
        → Refusal url s x left

  -- A service whose first steps of initialization are those of the two security bricks, and whose
  -- library calls outside of the try block of main do not throw: if the OpenID configuration cannot
  -- be had, or the key provider gets no keys at the address that the configuration names, main
  -- ends with exit code 1 right after the report of the exception. No adapter is made and no request
  -- is handled.
  pub main_of-unsecured :
      (quiet : IsQuiet A secured) (s : Dict String × W) (url : String) (x : Exn)
      (left : Dict String × W)
      → m.initialization ≡ []
      → (url_read s).0 ≡ returns url
      → Refusal url (url_read s).1 x left
      → main_of A secured s ≡ (returns 1, (m.exception_handler x left).1)
  unfolding jwt_authentication openid run execute
  main_of-unsecured quiet s url x left first got (no_configuration e) =
      rw (main_of_lem A secured quiet s) (rw (first, got, e))
  main_of-unsecured quiet s url x left first got (no_keys config t e none_there is) =
      let threw = make_provider-throws config.jwks_uri t x none_there in
      rw (main_of_lem A secured quiet s) (rw (first, got, e, threw, is))
