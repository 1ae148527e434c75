-- ===== src/App/Traced.antt =====
-- A service with the tracing brick.
use sapper_bricks.Prelude.{ℕ, String, ◌≡◌, Option, none, []}
use sapper_bricks.Effect.{Exn, Result, returns, throws}
use sapper_bricks.Tracing.{HeaderNames}
use sapper_bricks.Tracing.Provider.{ExporterLib, create_tracer_provider}
use sapper_bricks.Tracing.Lifetime.{IsExporter, with_tracer_provider_lem}
use sapper_bricks.App.{AppLib, Main, run, main_of, execute}
use sapper_bricks.App.Bricks.{opentelemetry_tracing}
use sapper_bricks.App.Exit.{IsQuiet, ended, prepared, main_of_lem}

module _ {W : Type 0} (A : AppLib W) (m : Main W) (E : ExporterLib W) (names : HeaderNames)
    (default : String) where
  abbrev pub traced : Main W
  traced = opentelemetry_tracing A m E names default

  -- The world before the provider is made.
  abbrev pub configured : W → W
  configured w = (A.getenv_or "OPENTELEMETRY_URL" default (prepared A traced w)).1

  ended-reset :
      (current : W → Option E.Provider) (r : Result ℕ × W)
      → ((x : Exn) (v : W) → current (m.exception_handler x v).1 ≡ current v)
      → current r.1 ≡ none
      → current (ended A traced r).1 ≡ none
  unfolding opentelemetry_tracing
  ended-reset current (returns n, v) keeps reset = reset
  ended-reset current (throws x, v) keeps reset = rw (keeps x v) reset

  -- Whatever the repository, the notifier, the handler and the other hooks do, and however the
  -- service ends, main leaves no global tracer provider behind, if the tracing brick is the first
  -- that initialises something, its provider can be made, and the report of an exception leaves the
  -- global provider alone.
  pub main_of-reset :
      {current : W → Option E.Provider} (laws : IsExporter E current) (quiet : IsQuiet A traced)
      (w : W) (url : String) (p : E.Provider)
      → m.initialization ≡ []
      → ((x : Exn) (v : W) → current (m.exception_handler x v).1 ≡ current v)
      → (A.getenv_or "OPENTELEMETRY_URL" default (prepared A traced w)).0 ≡ returns url
      → (create_tracer_provider E url (configured w)).0 ≡ returns p
      → current (main_of A traced w).1 ≡ none
  unfolding opentelemetry_tracing run execute
  main_of-reset {current} laws quiet w url p first keeps got made =
      rw (main_of_lem A traced quiet w) (
        ended-reset current (run A traced (prepared A traced w)) keeps
          (rw (first, got) ((with_tracer_provider_lem E laws url _ (configured w)).0 p made).reset))
