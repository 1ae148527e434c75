-- ===== src/Tracing.antt =====
-- observerability/opentelemetry-tracing/src/adapters/observability-opentelemetry-tracing/
-- tracing-request-hook.cpp: the hook of a request with its spans and scopes. OpenTelemetry is the
-- parameter `OtelLib`, whose calls do not throw. The RAII class TracerProvider is in
-- `Tracing/Provider.antt`, the carrier of the headers in `Tracing/Carrier.antt`.
pub mod Across
pub mod Carrier
pub mod Lifetime
pub mod Provider
pub mod Scopes
use sapper_bricks.Prelude.{String, Bool, true, false, Option, none, some, List, [], ◌∷◌}
use sapper_bricks.Effect.{
  Status, status_ok, is_ok, Exn, Result, returns, throws, Comp, pure, raise, on_right, ◌>>=◌, ◌>>◌,
}

-- Parameters::PropagationType
pub data PropagationType : Type 0 where
  b3_single_header b3_multi_header http : PropagationType

-- The names of the headers are constants of OpenTelemetry.
pub record HeaderNames : Type 0 where
  pub b3_combined : String
  pub b3_trace_id : String
  pub b3_span_id : String
  pub b3_sampled : String
  pub trace_parent : String
  pub trace_state : String

unfoldable pub get_propagation_headers : HeaderNames → PropagationType → List String
get_propagation_headers h b3_single_header = h.b3_combined ∷ []
get_propagation_headers h b3_multi_header = h.b3_trace_id ∷ h.b3_span_id ∷ h.b3_sampled ∷ []
get_propagation_headers h http = h.trace_parent ∷ h.trace_state ∷ []

pub record OtelLib (W : Type 0) : Type 1 where
  pub RuntimeContext : Type 0
  pub Propagator : Type 0
  pub Span : Type 0
  pub Scope : Type 0
  pub TracerProvider : Type 0
  pub Tracer : Type 0
  -- Provider::GetTracerProvider()
  pub get_tracer_provider : W → TracerProvider × W
  -- Context::GetGlobalContext().AtOr(key, default)
  pub global_at_or : String → String → W → String × W
  -- provider->GetTracer(name, version)
  pub get_tracer : TracerProvider → String → String → W → Tracer × W
  pub b3_propagator : Propagator
  pub b3_multi_propagator : Propagator
  pub http_trace_context : Propagator
  -- RuntimeContext::GetCurrent()
  pub get_current : W → RuntimeContext × W
  -- propagator->Extract(MSEContextCarrier(context), current)
  pub extract : Propagator → RuntimeContext → W → RuntimeContext × W
  -- propagator->Inject(MSEContextCarrier(thread local context), current)
  pub inject : Propagator → RuntimeContext → W → Unit {0} × W
  -- GetSpan(context)
  pub get_span : RuntimeContext → Span
  -- context.AtOr("request", "UNKNOWN")
  pub request_name : W → String × W
  -- tracer->StartSpan(name)
  pub start_span : Tracer → String → W → Span × W
  -- span->SetStatus(kOk or kError, details)
  pub set_status : Span → Bool → String → W → Unit {0} × W
  -- span->End()
  pub end_span : Span → W → Unit {0} × W
  -- Scope(tracer->WithActiveSpan(span)), and the destructor of a scope
  pub with_active_span : Span → W → Scope × W
  pub end_scope : Scope → W → Unit {0} × W

module _ {W : Type 0} (O : OtelLib W) where
  open O use {Propagator, Span, Scope, Tracer}

  unfoldable pub create_propagator : PropagationType → Propagator
  create_propagator b3_single_header = O.b3_propagator
  create_propagator b3_multi_header = O.b3_multi_propagator
  create_propagator http = O.http_trace_context

  -- A call that does not throw, of a function that needs no hook yet.
  abbrev outside : {A : Type 0} → (W → A × W) → Comp W A
  outside f w = (returns (f w).0, (f w).1)

  unfoldable pub get_app_tracer : Comp W Tracer
  get_app_tracer = do
    provider ← outside O.get_tracer_provider
    app ← outside (O.global_at_or "app" "UNKNOWN")
    version ← outside (O.global_at_or "version" "UNKNOWN")
    outside (O.get_tracer provider app version)

  -- TracingRequestHook::Impl, less the parameters that it keeps a copy of.
  pub record Impl : Type 0 where
    pub propagator : Propagator
    pub tracer : Tracer
    pub remote_scope : Option Scope
    pub scope : Option Scope
    pub span : Option Span

  -- A hook between two requests.
  abbrev pub idle : Propagator → Tracer → Impl
  idle propagator tracer = record {
    propagator = propagator;
    tracer = tracer;
    remote_scope = none;
    scope = none;
    span = none;
  }

  -- The constructor of the hook.
  unfoldable pub create : PropagationType → Comp W Impl
  unfolding create_propagator get_app_tracer
  create propagation_type = do
    tracer ← get_app_tracer
    pure (idle (create_propagator propagation_type) tracer)

  -- A call that does not throw.
  abbrev call : {A : Type 0} → (W → A × W) → Comp (Impl × W) A
  call f s = (returns (f s.1).0, (s.0, (f s.1).1))

  -- The destructor of what a pointer held.
  abbrev release : Option Scope → Comp (Impl × W) (Unit {0})
  release none = pure tt
  release (some scope) = call (O.end_scope scope)

  -- Each assignment of a pointer puts the new value first and then releases the old one.
  abbrev set_remote_scope : Option Scope → Comp (Impl × W) (Unit {0})
  set_remote_scope value s = release s.0.remote_scope (record s.0 { remote_scope = value }, s.1)

  abbrev set_scope : Option Scope → Comp (Impl × W) (Unit {0})
  set_scope value s = release s.0.scope (record s.0 { scope = value }, s.1)

  abbrev set_span : Option Span → Comp (Impl × W) (Unit {0})
  set_span value s = (returns tt, (record s.0 { span = value }, s.1))

  abbrev get_propagator : Comp (Impl × W) Propagator
  get_propagator s = (returns s.0.propagator, s)

  abbrev get_tracer : Comp (Impl × W) Tracer
  get_tracer s = (returns s.0.tracer, s)

  -- 1. the remote parent span of an incoming request
  unfoldable pub enter_remote : Bool → Comp (Impl × W) (Unit {0})
  enter_remote false = pure tt
  enter_remote true = do
    propagator ← get_propagator
    current ← call O.get_current
    new ← call (O.extract propagator current)
    remote ← call (O.with_active_span (O.get_span new))
    set_remote_scope (some remote)

  -- the metadata of the request get the current span
  unfoldable pub inject_current : Comp (Impl × W) (Unit {0})
  inject_current = do
    propagator ← get_propagator
    current ← call O.get_current
    call (O.inject propagator current)

  -- 2. the span of this request
  unfoldable pub enter_span : Comp (Impl × W) (Unit {0})
  enter_span = do
    tracer ← get_tracer
    name ← call O.request_name
    span ← call (O.start_span tracer name)
    set_span (some span)
    scope ← call (O.with_active_span span)
    set_scope (some scope)

  unfoldable pub pre_process : Bool → Comp (Impl × W) Status
  unfolding enter_remote inject_current enter_span
  pre_process incoming = do enter_remote incoming; enter_span; inject_current; pure status_ok

  -- The span must be there: the source follows its pointer without a test.
  abbrev finish_span : Option Span → Status → Comp (Impl × W) (Unit {0})
  finish_span none status = raise (Exn.other 0)
  finish_span (some span) status = do
    call (O.set_status span (is_ok status.code) status.details)
    call (O.end_span span)

  abbrev end_with : Status → Comp (Impl × W) (Unit {0})
  end_with status s = finish_span s.0.span status s

  unfoldable pub post_process : Status → Comp (Impl × W) Status
  unfolding inject_current
  post_process status = do
    end_with status
    set_scope none
    set_span none
    inject_current
    set_remote_scope none
    pure status
