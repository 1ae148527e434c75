-- ===== src/App.antt =====
-- base/hexagonal-skeleton/src/app/main.cpp. Its SAPPER sections are the fields of `Main`, so that
-- the fragments of the bricks (`App/Bricks.antt`) are functions on it; `skeleton` is main as it
-- stands. What main calls of the request library and the output are parameters.
pub mod Bricks
pub mod CommandLine
pub mod Exit
pub mod Propagated
pub mod Secured
pub mod Traced
use sapper_bricks.Prelude.{ℕ, String, Option, none, some, List, [], ◌∷◌, ◌++◌}
use sapper_bricks.Effect.{
  Exn, Result, returns, throws, Comp, pure, try_catch, with_cleanup, ◌>>=◌, ◌>>◌,
}
use sapper_bricks.Dict.{Dict}
use sapper_bricks.Ports.{EntityRepo, EntityNotifier}
use sapper_bricks.Core.{Core}
use sapper_bricks.Security.OpenId.Metadata.{Configuration}
use sapper_bricks.Security.JwtAuth.{Parameters}
use sapper_bricks.Tracing.{PropagationType}

-- TracingRequestHook::Parameters
pub record TracerParameters : Type 0 where
  pub otel_url : String
  pub propagation_type : PropagationType

-- The hooks that the fragments install.
pub data Hook (W : Type 0) : Type 0 where
  exception_handling logging : Hook W
  tracing : TracerParameters → Hook W
  jwt_auth : Parameters W → Hook W

pub record AppLib (W : Type 0) : Type 0 where
  -- getenv_or(name, default), for texts and for numbers
  pub getenv_or : String → String → Comp W String
  pub getenv_int_or : String → ℕ → Comp W ℕ
  -- Context::GetGlobalContext().Insert(metadata)
  pub insert_global : Dict String → Comp W (Unit {0})
  -- RequestHandler::GloballyWith and RequestIssuer::GloballyWith
  pub handle_globally_with : Hook W → Comp W (Unit {0})
  pub issue_globally_with : Hook W → Comp W (Unit {0})
  -- GracefulShutdownOnSignal(SIG_SHUTDOWN), and its destructor
  pub graceful_shutdown : Comp W (Unit {0})
  pub end_graceful_shutdown : Comp W (Unit {0})
  -- the lines on std::cerr for a std::exception and for any other
  pub print_exception : Exn → Comp W (Unit {0})

-- The variables of the block under try that fragments declare and other fragments use.
pub record Locals (W : Type 0) : Type 0 where
  pub openid_config : Option Configuration
  pub key_provider : Option (String → Comp W String)
  pub tracer_parameters : Option TracerParameters
  pub headers_to_propagate : List String

-- A statement of a section, before the rest of its block: a variable that it declares is destroyed
-- at the end of the block.
abbrev pub Statement : Type 0 → Type 0
Statement W = Locals W → (Locals W → Comp W ℕ) → Comp W ℕ

module _ {W : Type 0} where
  unfoldable pub execute : List (Statement W) → Statement W
  execute [] locals rest = rest locals
  execute (statement ∷ statements) locals rest =
      statement locals (λ later. execute statements later rest)

  -- A statement that declares nothing.
  abbrev pub effect : Comp W (Unit {0}) → Statement W
  effect m locals rest = do m; rest locals

  abbrev pub no_locals : Locals W
  no_locals = record {
    openid_config = none;
    key_provider = none;
    tracer_parameters = none;
    headers_to_propagate = [];
  }

-- The sections of main.
pub record Main (W : Type 0) : Type 0 where
  pub initialization : List (Statement W)
  pub headers_to_propagate : List String
  pub handler_hooks : List (Statement W)
  pub issuer_hooks : List (Statement W)
  -- repo and notifier are null or an adapter
  pub repo : Comp W (Option (EntityRepo W))
  pub notifier : Locals W → Comp W (Option (EntityNotifier W))
  -- the handler that is made of the core, by its Handle
  pub handler : Core W → Comp W (Comp W (Unit {0}))
  -- the two catch blocks, which differ in what they print
  pub exception_handler : Exn → Comp W (Unit {0})

module _ {W : Type 0} (A : AppLib W) where
  -- The end of the block under try, from the adapters on.
  unfoldable pub serve : Main W → Locals W → Comp W ℕ
  serve m locals = do
    repo ← m.repo
    notifier ← m.notifier locals
    handle ← m.handler (record { repo = repo; notifier = notifier })
    A.graceful_shutdown
    with_cleanup A.end_graceful_shutdown handle
    pure 0

  -- The list starts with the entries of the section; the last one is the empty text.
  abbrev with_headers : Main W → Locals W → Locals W
  with_headers m locals = record locals { headers_to_propagate = m.headers_to_propagate ++ "" ∷ [] }

  -- The block under try.
  unfoldable pub run : Main W → Comp W ℕ
  unfolding execute
  run m = execute m.initialization no_locals λ locals.
      execute m.handler_hooks (with_headers m locals)
        λ hooked. execute m.issuer_hooks hooked (serve m)

  abbrev pub report : Main W → Exn → Comp W ℕ
  report m x = do m.exception_handler x; pure 1

  unfoldable pub main_of : Main W → Comp W ℕ
  main_of m = do
    app ← A.getenv_or "APP" "<<<NAME>>>"
    version ← A.getenv_or "VERSION" "<<<VERSION>>>"
    A.insert_global (("app", app) ∷ ("version", version) ∷ [])
    try_catch (run m) (report m)

  -- DummyHandler::Handle
  abbrev dummy_handle : Comp W (Unit {0})
  dummy_handle = pure tt

  -- The sections as the skeleton has them.
  abbrev pub skeleton : Main W
  skeleton = record {
    initialization = [];
    headers_to_propagate = [];
    handler_hooks = effect (A.handle_globally_with exception_handling) ∷ [];
    issuer_hooks = [];
    repo = pure none;
    notifier = λ locals. pure none;
    handler = λ core. pure dummy_handle;
    exception_handler = A.print_exception;
  }

  unfoldable pub main : Comp W ℕ
  unfolding main_of
  main = main_of skeleton
