-- ===== src/App/CommandLine.antt =====
-- A service with the CLI handler and a repository: one command, and the exit code of the process.
use sapper_bricks.Prelude.{ℕ, String, ◌≡◌, ◌∙◌, inl, inr, none, some, List}
use sapper_bricks.Effect.{Exn, Result, returns, throws, Comp, pure}
use sapper_bricks.Effect.Laws.{Result-cases}
use sapper_bricks.Ports.{EntityRepo}
use sapper_bricks.Core
use sapper_bricks.Core.{Core, core_api}
use sapper_bricks.Json.{JsonLib}
use sapper_bricks.Handler.{HandlerLib, IsHandler, read_entity}
use sapper_bricks.Handler.Cli.{CliLib, parsed, parse_error, cli_app, create, handle}
use sapper_bricks.Handler.Cli.Outcomes.{titled, cli_handle_lem}
use sapper_bricks.App.{AppLib, Main, exception_handling, skeleton, serve, run, main_of, execute}
use sapper_bricks.App.Bricks.{in_memory, cli_handler}
use sapper_bricks.App.Exit.{IsQuiet, prepared, main_of_lem}

module _ {W : Type 0} (A : AppLib W) (J : JsonLib) (M : HandlerLib) (laws : IsHandler M)
    (C : CliLib W) (make : Comp W (EntityRepo W)) (argv : List String) where
  abbrev pub service : Main W
  service =
      cli_handler A (in_memory A (skeleton A) make)
        (λ core arguments. pure (handle J M C (create (core_api core) arguments))) argv

  -- The worlds in which the repository is made and in which the command runs.
  abbrev pub hooked : W → W
  hooked w = (A.handle_globally_with exception_handling (prepared A service w)).1

  abbrev pub ready : W → W
  ready w = (A.graceful_shutdown (make (hooked w)).1).1

  -- Everything before the command succeeds, and gives this repository.
  pub record Starts (repo : EntityRepo W) (w : W) : Type 0 where
    pub hooks : (A.handle_globally_with exception_handling (prepared A service w)).0 ≡ returns tt
    pub made : (make (hooked w)).0 ≡ returns repo
    pub guarded : (A.graceful_shutdown (make (hooked w)).1).0 ≡ returns tt

  abbrev pub core_of : EntityRepo W → Core W
  core_of repo = record { repo = some repo; notifier = none }

  abbrev pub code_of : Result (Unit {0}) → ℕ
  code_of (returns u) = 0
  code_of (throws x) = 1

  exits :
      (quiet : IsQuiet A service) (repo : EntityRepo W) (w : W)
      → Starts repo w
      → (main_of A service w).0
        ≡ returns (code_of (handle J M C (create (core_api (core_of repo)) argv) (ready w)).0)
  unfolding cli_handler in_memory run serve execute
  exits quiet repo w s = rw (main_of_lem A service quiet w) (
      rw (s.hooks, s.made, s.guarded)
        (elim (Result-cases (handle J M C (create (core_api (core_of repo)) argv) (ready w)).0) [
          | inl (u, e) ↦ rw e
          | inr (x, e) ↦ rw e
        ]))

  -- The process of a command ends with the code 0 if the command returns and with 1 if it throws:
  -- with 1 for a get of an entity that the repository does not have, and for a set with a text that
  -- is no entity, but with 0 for arguments that do not parse, whatever the exit code of the parse
  -- error is.
  pub main_of-code_of :
      (quiet : IsQuiet A service) (repo : EntityRepo W) (w : W) (title : String)
      → Starts repo w
      → (C.global_at_or "app" "UNKNOWN APP" (ready w)).0 ≡ returns title
      → let core = core_of repo in
        let api = core_api core in
        let found = C.parse (cli_app J M api C title) argv in
        let called = titled J M laws api C (ready w) in
        ((main_of A service w).0 ≡ returns (code_of (handle J M C (create api argv) (ready w)).0))
        × ((code : ℕ)
            → found ≡ parse_error code
            → (C.exit code called).0 ≡ returns tt
            → (main_of A service w).0 ≡ returns 0)
        × ((id : String)
            → found ≡ parsed "get" id
            → (Core.get_entity core id called).0 ≡ returns none
            → (main_of A service w).0 ≡ returns 1)
        × ((text : String) (x : Exn)
            → found ≡ parsed "set" text
            → read_entity J text ≡ throws x
            → (main_of A service w).0 ≡ returns 1)
  main_of-code_of quiet repo w title s got =
      let core = core_of repo in
      let api = core_api core in
      let (usage, gets, unread, sets) = cli_handle_lem J M laws api C argv (ready w) title got in
      let code = exits quiet repo w s in
      (
        code,
        λ n found shown. code ∙ (rw (usage n found, shown)),
        λ id found unknown. code ∙ (rw (gets id found, unknown)),
        λ text x found threw. code ∙ (rw (unread text x found threw)),
      )
