-- ===== src/Tracing/Lifetime.antt =====
-- How long the global tracer provider of a block lasts.
use sapper_bricks.Prelude.{String, ◌≡◌, refl, Option, none, some}
use sapper_bricks.Effect.{Exn, Result, returns, throws, Comp}
use sapper_bricks.Tracing.Provider.{ExporterLib, create_tracer_provider, with_tracer_provider}

-- `current w` is the global provider; what the documentation says of the call that sets it.
pub record IsExporter {W : Type 0} (E : ExporterLib W) (current : W → Option E.Provider)
    : Type 0 where
  pub sets :
      (p : Option E.Provider) (w : W)
      → ((E.set_tracer_provider p w).0 ≡ returns tt) × (current (E.set_tracer_provider p w).1 ≡ p)

module _ {W : Type 0} (E : ExporterLib W) {current : W → Option E.Provider}
    (laws : IsExporter E current) {A : Type 0} where
  -- The block runs in a world whose provider is the one that was made.
  pub record Ran (block : Comp W A) (provider : E.Provider) (made : W) (left : Result A × W)
      : Type 0 where
    pub entered : W
    pub provided : current entered ≡ some provider
    pub started : entered ≡ (E.set_tracer_provider (some provider) made).1
    pub outcome : left.0 ≡ (block entered).0
    pub reset : current left.1 ≡ none

  -- While a block with a TracerProvider runs, the provider that was made for its URL is the global
  -- one, and when the block has ended, by a return or by a throw, there is none, and the outcome is
  -- that of the block. If the provider cannot be made, the exception is passed on, and the block is
  -- not run.
  pub with_tracer_provider_lem :
      (otel_url : String) (block : Comp W A) (w : W)
      → ((p : E.Provider)
          → (create_tracer_provider E otel_url w).0 ≡ returns p
          → Ran block p
              (create_tracer_provider E otel_url w).1
              (with_tracer_provider E otel_url block w))
        × ((x : Exn)
            → (create_tracer_provider E otel_url w).0 ≡ throws x
            → with_tracer_provider E otel_url block w
              ≡ (throws x, (create_tracer_provider E otel_url w).1))
  unfolding with_tracer_provider
  with_tracer_provider_lem otel_url block w =
      let made = (create_tracer_provider E otel_url w).1 in
      (
        λ p e. record {
          entered = (E.set_tracer_provider (some p) made).1;
          provided = (laws.sets (some p) made).1;
          started = refl;
          outcome = rw (e, (laws.sets (some p) made).0);
          reset = rw (e, (laws.sets (some p) made).0) (laws.sets none _).1;
        },
        λ x e. rw e,
      )
