-- ===== src/Security/OpenId.antt =====
-- security/openid/src/adapters/security-openid/openid-configuration.{h,cpp}: the configuration that
-- an OpenID provider publishes, read from its JSON text.
pub mod Json
pub mod Metadata
pub mod Described
pub mod Failing
pub mod Reading
use Prim.Native.String
use sapper_bricks.Prelude.{zero, suc, String, Bool, Option, none, some, List}
use sapper_bricks.Effect.{
  Exn, runtime_error, bad_optional_access, Result, returns, throws, Comp, raise, lift, ◌>>=◌,
}
use sapper_bricks.Effect.Fail
use sapper_bricks.Json.{JsonLib}
use sapper_bricks.Json.Fields.{extract_string, extract_bool, extract_strings}
use sapper_bricks.Http.{HttpLib, Fetched, failed, answered}
use sapper_bricks.Security.OpenId.Json.{create_from_json}
use sapper_bricks.Security.OpenId.Metadata.{Configuration}

module _ (J : JsonLib) {W : Type 0} (H : HttpLib W) where
  -- A response without an error whose status is zero is refused; any other is read.
  abbrev configuration_of : Fetched → Comp W Configuration
  configuration_of (failed error) = raise (
      runtime_error
        (Prim.Native.String.◌++◌ "requesting openid configuration resulted in error: " error))
  configuration_of (answered zero body) = raise (
      runtime_error (
        Prim.Native.String.◌++◌ "receiving openid configuration returned with status "
          (H.to_text 0)))
  configuration_of (answered (suc status) body) = lift (create_from_json J body)

  unfoldable pub create_from_url : String → Comp W Configuration
  create_from_url openid_config_url = do resp ← H.get openid_config_url; configuration_of resp
