-- ===== src/Tests/Consoles.antt =====
-- Two processes of the CLI handler on the same Redis server, one after the other. The world has the
-- lines that the process has printed beside the texts of the server.
use sapper_bricks.Prelude.{String, ◌≡◌, refl, Option, some, List, [], ◌∷◌, ◌++◌, arith}
use sapper_bricks.Effect.{returns, pure}
use sapper_bricks.Ports.{Entity, EntityRepo}
use sapper_bricks.Core.{set_entity, get_entity}
use sapper_bricks.Json.Codec.{encode, to_json, decode, from_json}
use sapper_bricks.Repo.Redis.{redis_repo, store, retrieve}
use sapper_bricks.Repo.Redis.Refines
use sapper_bricks.Repo.Redis.Refines.{redis_repo-IsRepo}
use sapper_bricks.Dict.{Dict, find, assign}
use sapper_bricks.Handler.Cli.{CliLib, CliApp, Parsed, parsed, parse_error, create, handle}
use sapper_bricks.Handler.Cli.RoundTrip.{api, handle-get_set}
use sapper_bricks.Tests.Json.{json}
use sapper_bricks.Tests.Json.Laws.{json_laws}
use sapper_bricks.Tests.Requests.{handlers, handler_laws}
use sapper_bricks.Tests.Samples.{blue, quiet}
use sapper_bricks.Tests.Servers.{redis, redis_laws}

abbrev World : Type 0
World = Dict String × List String

abbrev parse : CliApp World → List String → Parsed
parse app (name ∷ value ∷ []) = parsed name value
parse app other_arguments = parse_error 106

abbrev console : CliLib World
console = record {
  global_at_or = λ key default. pure default;
  parse = parse;
  exit = λ code. pure tt;
  print_line = λ text s. (returns tt, (s.0, s.1 ++ text ∷ []));
}

-- The lines of a process are not those of the next one.
abbrev restart : World → World
restart s = (s.0, [])

abbrev server : EntityRepo (Dict String)
server = redis_repo redis json (record { connection = tt })

abbrev table : Dict String → String → Option Entity
table = Refines.view redis json json_laws redis_laws (record { connection = tt })

handle-get_set_example :
    let core =
      api json json_laws handlers handler_laws server table
        (redis_repo-IsRepo redis json json_laws redis_laws (record { connection = tt }))
        quiet
        console in
    let set = handle json handlers console (create core ("set" ∷ "entity" ∷ [])) ([], []) in
    (set.0 ≡ returns tt)
    × (handle json handlers console (create core ("get" ∷ "a1" ∷ [])) (restart set.1)
        ≡ (returns tt, (("a1", "entity") ∷ [], "entity" ∷ [])))
unfolding set_entity get_entity store retrieve assign find encode to_json decode from_json
    native.Mathlib.Decide.dec_lt
handle-get_set_example =
    handle-get_set json json_laws handlers handler_laws server table
      (redis_repo-IsRepo redis json json_laws redis_laws (record { connection = tt })) quiet console
      blue "entity" "a1" "UNKNOWN APP" ("set" ∷ "entity" ∷ []) ("get" ∷ "a1" ∷ []) ([], [])
      (some blue) restart (λ s id. refl) (omega arith) refl (λ t. refl) refl refl refl refl
