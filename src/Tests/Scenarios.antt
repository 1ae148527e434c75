-- ===== src/Tests/Scenarios.antt =====
-- The unit tests of the repository, run on the model: each THEN is the list of its requirements.
mod Core
mod ConnectionManager
mod KeyConversion
mod KeyProvider
mod OpenId
mod JwtAuth
use Prim.Native.String
use sapper_bricks.Prelude.{Bool, true, false, String, List, [], ◌∷◌, ◌&&◌, Option, none, some}
use sapper_bricks.Effect.{
  Exn, runtime_error, invalid_argument, error_forwarding, Result, returns, throws,
}

abbrev pub all_hold : List Bool → Bool
all_hold [] = true
all_hold (requirement ∷ requirements) = requirement && all_hold requirements

abbrev pub throws_invalid_argument : {A : Type 0} → Result A → Bool
throws_invalid_argument (throws (invalid_argument what)) = true
throws_invalid_argument _ = false

abbrev pub throws_runtime_error : {A : Type 0} → Result A → Bool
throws_runtime_error (throws (runtime_error what)) = true
throws_runtime_error _ = false

abbrev pub throws_any : {A : Type 0} → Result A → Bool
throws_any (throws x) = true
throws_any (returns a) = false

-- A document from its parts.
abbrev pub joined : List String → String
joined [] = ""
joined (part ∷ parts) = Prim.Native.String.◌++◌ part (joined parts)
