-- ===== src/Tests/Commands.antt =====
-- The CLI handler under main, and a service that gets no keys.
use sapper_bricks.Prelude.{ℕ, String, ◌≡◌, refl, none, List, [], ◌∷◌}
use sapper_bricks.Effect.{unavailable, Exn, error_forwarding, returns, throws, pure, Result, Comp}
use sapper_bricks.Dict.{Dict}
use sapper_bricks.Http.{HttpLib, failed}
use sapper_bricks.Security.KeyProvider.{request_jwks}
use sapper_bricks.Tests.Propagation.{configuration}
use sapper_bricks.Ports.{Entity, EntityRepo}
use sapper_bricks.Core
use sapper_bricks.Core.{core_api}
use sapper_bricks.Repo.InMemory.{InMemoryRepo, in_memory_repo}
use sapper_bricks.Handler.{read_entity}
use sapper_bricks.Handler.Cli.{CliLib, CliApp, Parsed, parsed, parse_error, create, handle}
use sapper_bricks.Handler.Cli.Commands.{get_result, set_result, reported}
use sapper_bricks.Handler.Cli.Outcomes.{printed_end, cli_handle_lem}
use sapper_bricks.App.{Main, skeleton, main_of}
use sapper_bricks.App.Bricks.{in_memory, cli_handler, openid, jwt_authentication}
use sapper_bricks.App.Exit.{IsQuiet}
use sapper_bricks.App.CommandLine.{Starts, service, core_of, code_of, main_of-code_of}
use sapper_bricks.App.Secured.{secured, no_keys, main_of-unsecured}
use sapper_bricks.Security.OpenId.Metadata.{Configuration}
use sapper_bricks.Tests.Json.{json}
use sapper_bricks.Tests.Requests.{handlers, handler_laws}
use sapper_bricks.Tests.Samples.{no_entities}
use sapper_bricks.Tests.Contexts.{bare}

-- get with one argument, set with one, and a usage error.
abbrev parse : CliApp InMemoryRepo → List String → Parsed
parse app (name ∷ value ∷ []) = parsed name value
parse app other_arguments = parse_error 106

abbrev cli : CliLib InMemoryRepo
cli = record {
  global_at_or = λ key default. pure default;
  parse = parse;
  exit = λ code. pure tt;
  print_line = λ text. pure tt;
}

abbrev make : Comp InMemoryRepo (EntityRepo InMemoryRepo)
make = pure in_memory_repo

abbrev arguments : List String
arguments = "get" ∷ "a1" ∷ []

abbrev command : Main InMemoryRepo
command = service bare json handlers handler_laws cli make arguments

quiet_command : IsQuiet bare command
unfolding cli_handler in_memory
quiet_command = record {
  gets = λ name default w. (default, refl);
  inserts = λ m w. refl;
  prints = λ x w. refl;
}

command-Starts :
    Starts bare json handlers handler_laws cli make arguments in_memory_repo no_entities
command-Starts = record { hooks = refl; made = refl; guarded = refl }

main_of-code_of_example :
    let core = core_of bare json handlers handler_laws cli make arguments in_memory_repo in
    let api = core_api core in
    let code = (main_of bare command no_entities).0 in
    (code
      ≡ returns (
          code_of bare json handlers handler_laws cli make arguments
            (handle json handlers cli (create api arguments) no_entities).0))
    × ((n : ℕ)
        → parsed "get" "a1" ≡ parse_error n
        → ◌≡◌ {A = Result (Unit {0})} (returns tt) (returns tt)
        → code ≡ returns 0)
    × ((id : String)
        → parsed "get" "a1" ≡ parsed "get" id
        → (Core.get_entity core id no_entities).0 ≡ returns none
        → code ≡ returns 1)
    × ((text : String) (x : Exn)
        → parsed "get" "a1" ≡ parsed "set" text
        → read_entity json text ≡ throws x
        → code ≡ returns 1)
main_of-code_of_example =
    main_of-code_of bare json handlers handler_laws cli make arguments quiet_command in_memory_repo
      no_entities "UNKNOWN APP" command-Starts refl

-- The configuration can be had, but not the keys.
abbrev Cached : Type 0
Cached = Dict String × Unit {0}

abbrev offline : HttpLib (Unit {0})
offline = record { get = λ url. pure (failed "no route"); to_text = λ n. "0" }

abbrev extract : String → Result (Dict String)
extract jwks = returns []

abbrev create_from_url : String → Comp Cached Configuration
create_from_url url = pure configuration

abbrev guarded : Main Cached
guarded =
    secured bare (skeleton bare) offline extract create_from_url "https://id" "aud" ("sub" ∷ [])

quiet_guarded : IsQuiet bare guarded
unfolding openid jwt_authentication
quiet_guarded = record {
  gets = λ name default w. (default, refl);
  inserts = λ m w. refl;
  prints = λ x w. refl;
}

no_route : Exn
no_route =
    error_forwarding (record { code = unavailable; details = "" })
      "requesting JWKS resulted in error: no route"

main_of-unsecured_example : main_of bare guarded ([], tt) ≡ (returns 1, ([], tt))
unfolding request_jwks no_route
main_of-unsecured_example =
    main_of-unsecured bare (skeleton bare) offline extract create_from_url "https://id" "aud"
      ("sub" ∷ []) quiet_guarded ([], tt) "https://id" no_route ([], tt) refl refl
      (no_keys configuration ([], tt) refl refl refl)

cli_handle_lem_example :
    let core = core_of bare json handlers handler_laws cli make arguments in_memory_repo in
    let api = core_api core in
    let left = handle json handlers cli (create api arguments) no_entities in
    ((code : ℕ) → parsed "get" "a1" ≡ parse_error code → left ≡ (returns tt, no_entities))
    × ((id : String)
        → parsed "get" "a1" ≡ parsed "get" id
        → left
          ≡ printed_end json handlers handler_laws api cli
              (get_result json handlers handler_laws api id (api.get_entity id no_entities).0)
              (api.get_entity id no_entities).1)
    × ((text : String) (x : Exn)
        → parsed "get" "a1" ≡ parsed "set" text
        → read_entity json text ≡ throws x
        → left ≡ (reported json handlers handler_laws api x, no_entities))
    × ((text : String) (e : Entity)
        → parsed "get" "a1" ≡ parsed "set" text
        → read_entity json text ≡ returns e
        → left ≡ (
          set_result json handlers handler_laws api (api.set_entity e no_entities).0,
          (api.set_entity e no_entities).1,
        ))
cli_handle_lem_example =
    let core = core_of bare json handlers handler_laws cli make arguments in_memory_repo in
    cli_handle_lem json handlers handler_laws (core_api core) cli arguments no_entities
      "UNKNOWN APP" refl
