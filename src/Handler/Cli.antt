-- ===== src/Handler/Cli.antt =====
-- handler/cli/src/adapters/handler-cli/handler-cli.cpp. The text that getEntity fills in its request
-- stands beside the world while the request runs. The parsing of the arguments is CLI11's, a
-- parameter that is told the options and subcommands. The metadata that a request is given do not
-- enter the model of the request library.
pub mod Commands
pub mod Outcomes
pub mod RoundTrip
use sapper_bricks.Prelude.{ℕ, String, Option, none, some, List, [], ◌∷◌, ◌==◌, if◌then◌else◌}
use sapper_bricks.Effect.{
  Status, status_ok, is_ok, Exn, runtime_error, Result, returns, throws, Comp, pure, raise, lift,
  on_right, ◌>>=◌, ◌>>◌,
}
use sapper_bricks.Ports.{Entity, Api}
use sapper_bricks.Json.{JsonLib}
use sapper_bricks.Json.Codec.{encode}
use sapper_bricks.Handler.{HandlerLib, read_entity, unknown_entity}

-- A subcommand with its one required option; the callback gets the value of the option.
pub record Subcommand (W : Type 0) : Type 0 where
  pub name : String
  pub description : String
  pub option : String
  pub option_description : String
  pub callback : String → Comp W (Unit {0})

-- CLI::App as Handle sets it up: exactly one subcommand is required.
pub record CliApp (W : Type 0) : Type 0 where
  pub title : String
  pub metadata_option : String
  pub metadata_description : String
  pub subcommands : List (Subcommand W)

-- What the parser finds: a subcommand with the value of its option, or a CLI::ParseError (a request
-- for help is one) with its exit code.
pub data Parsed : Type 0 where
  parsed : String → String → Parsed
  parse_error : ℕ → Parsed

pub record CliLib (W : Type 0) : Type 0 where
  -- Context::GetGlobalContext().AtOr(key, default)
  pub global_at_or : String → String → Comp W String
  pub parse : CliApp W → List String → Parsed
  -- app.exit(e), which prints the message or the help
  pub exit : ℕ → Comp W (Unit {0})
  -- std::cout << text << std::endl
  pub print_line : String → Comp W (Unit {0})

module _ (J : JsonLib) (M : HandlerLib) {W : Type 0} (api : Api W) where
  abbrev assign_text : String → Comp (String × W) (Unit {0})
  assign_text text s = (returns tt, (text, s.1))

  abbrev answer : String → Option Entity → Comp (String × W) Status
  answer id none = pure (unknown_entity id)
  answer id (some e) = do text ← lift (encode J e); assign_text text; pure status_ok

  unfoldable pub get_request : String → Comp (String × W) Status
  get_request id = do found ← on_right (api.get_entity id); answer id found

  -- The end of getEntity, with the status and the text.
  abbrev entity_json_or : String → Status → Comp W String
  entity_json_or entity_json status =
      if is_ok status.code then pure entity_json else raise (runtime_error status.details)

  abbrev get_end : Result Status × (String × W) → Result String × W
  get_end (returns status, (entity_json, w)) = entity_json_or entity_json status w
  get_end (throws x, (entity_json, w)) = (throws x, w)

  unfoldable pub get_entity : String → Comp W String
  get_entity id w = get_end (M.process "getEntity" (get_request id) ("", w))

  unfoldable pub set_request : String → Comp W Status
  set_request text = do e ← lift (read_entity J text); api.set_entity e; pure status_ok

  abbrev ok_or : Status → Comp W (Unit {0})
  ok_or status = if is_ok status.code then pure tt else raise (runtime_error status.details)

  unfoldable pub set_entity : String → Comp W (Unit {0})
  set_entity text = do status ← M.process "setEntity" (set_request text); ok_or status

  module _ (C : CliLib W) where
    -- getEntity(id, metadata), printed
    abbrev pub print_entity : String → Comp W (Unit {0})
    print_entity id = do text ← get_entity id; C.print_line text

    abbrev pub cli_app : String → CliApp W
    cli_app title = record {
      title = title;
      metadata_option = "--metadata,-m";
      metadata_description = "metadata key value pairs";
      subcommands =
          record {
            name = "get";
            description = "gets an entity";
            option = "--id,1";
            option_description = "id of the entity";
            callback = print_entity;
          }
          ∷ record {
            name = "set";
            description = "sets an entity";
            option = "--data,1";
            option_description = "the entity as json";
            callback = set_entity;
          }
          ∷ [];
    }

    -- The parser ends with the callback of the subcommand that it found.
    call_back : List (Subcommand W) → String → String → Comp W (Unit {0})
    call_back [] name value = pure tt
    call_back (s ∷ subcommands) name value =
        if s.name == name then s.callback value else call_back subcommands name value

    -- app.parse under try. An exception of a callback is no ParseError, so it is not caught.
    abbrev run_parsed : CliApp W → Parsed → Comp W (Unit {0})
    run_parsed app (parsed name value) = call_back app.subcommands name value
    run_parsed app (parse_error code) = C.exit code

    unfoldable pub handle_command : List String → Comp W (Unit {0})
    unfolding call_back
    handle_command argv = do
      title ← C.global_at_or "app" "UNKNOWN APP"
      run_parsed (cli_app title) (C.parse (cli_app title) argv)

-- argc and argv are the list of the arguments.
pub record CliHandler (W : Type 0) : Type 0 where
  pub api : Api W
  pub argv : List String

module _ {W : Type 0} where
  -- CliHandler::CliHandler
  unfoldable pub create : Api W → List String → CliHandler W
  create api argv = record { api = api; argv = argv }

  -- CliHandler::Handle
  unfoldable pub handle : JsonLib → HandlerLib → CliLib W → CliHandler W → Comp W (Unit {0})
  unfolding handle_command
  handle J M C handler = handle_command J M handler.api C handler.argv

  -- CliHandler::Stop
  unfoldable pub stop : CliHandler W → Comp W (Unit {0})
  stop handler = pure tt
