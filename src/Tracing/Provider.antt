-- ===== src/Tracing/Provider.antt =====
-- The RAII class TracerProvider of tracing-request-hook.cpp, which sets the global tracer provider of
-- OpenTelemetry and takes it away again. The exporter and its processor are the library's.
use sapper_bricks.Prelude.{String, Option, none, some}
use sapper_bricks.Effect.{Comp, with_cleanup, ◌>>=◌, ◌>>◌}

pub record ExporterLib (W : Type 0) : Type 1 where
  pub Exporter : Type 0
  pub Processor : Type 0
  pub Resource : Type 0
  pub Provider : Type 0
  -- Context::GetGlobalContext().AtOr(key, default)
  pub global_at_or : String → String → Comp W String
  -- OtlpHttpExporterFactory::Create(opts), with opts.url
  pub create_exporter : String → Comp W Exporter
  -- SimpleSpanProcessorFactory::Create(exporter)
  pub create_processor : Exporter → Comp W Processor
  -- Resource::Create of service.name and service.version
  pub create_resource : String → String → Comp W Resource
  -- TracerProviderFactory::Create(processor, resource)
  pub create_provider : Processor → Resource → Comp W Provider
  -- Provider::SetTracerProvider, with `none` for a null pointer
  pub set_tracer_provider : Option Provider → Comp W (Unit {0})

module _ {W : Type 0} (E : ExporterLib W) where
  open E use {Provider}

  -- The provider that the constructor makes.
  unfoldable pub create_tracer_provider : String → Comp W Provider
  create_tracer_provider otel_url = do
    exporter ← E.create_exporter otel_url
    processor ← E.create_processor exporter
    app ← E.global_at_or "app" "UNKNOWN"
    version ← E.global_at_or "version" "UNKNOWN"
    resource ← E.create_resource app version
    E.create_provider processor resource

  -- The constructor.
  unfoldable pub construct : String → Comp W (Unit {0})
  construct otel_url = do
    provider ← create_tracer_provider otel_url
    E.set_tracer_provider (some provider)

  -- The destructor.
  unfoldable pub destroy : Comp W (Unit {0})
  destroy = E.set_tracer_provider none

  -- A block with a local TracerProvider: its destructor runs once the constructor has returned.
  unfoldable pub with_tracer_provider : {A : Type 0} → String → Comp W A → Comp W A
  unfolding construct destroy
  with_tracer_provider otel_url block = do construct otel_url; with_cleanup destroy block
