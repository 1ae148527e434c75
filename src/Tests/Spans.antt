-- ===== src/Tests/Spans.antt =====
-- A request under the tracing hook.
use sapper_bricks.Prelude.{ℕ, String, ◌≡◌, refl, ap, true, List, [], ◌∷◌}
use sapper_bricks.Effect.{status_ok, returns}
use sapper_bricks.Tracing.{OtelLib, idle, pre_process, post_process}
use sapper_bricks.Tracing.Scopes.{IsOtel, post_process-pre_process}

abbrev tail : List ℕ → List ℕ
tail [] = []
tail (s ∷ rest) = rest

-- Scopes are numbered, and the world is the list of those that are open.
abbrev otel : OtelLib (List ℕ)
otel = record {
  RuntimeContext = Unit {0};
  Propagator = Unit {0};
  Span = ℕ;
  Scope = ℕ;
  TracerProvider = Unit {0};
  Tracer = String;
  get_tracer_provider = λ w. (tt, w);
  global_at_or = λ key default w. (default, w);
  get_tracer = λ p name version w. (name, w);
  b3_propagator = tt;
  b3_multi_propagator = tt;
  http_trace_context = tt;
  get_current = λ w. (tt, w);
  extract = λ p c w. (tt, w);
  inject = λ p c w. (tt, w);
  get_span = λ c. 1;
  request_name = λ w. ("get", w);
  start_span = λ t name w. (2, w);
  set_status = λ s good details w. (tt, w);
  end_span = λ s w. (tt, w);
  with_active_span = λ s w. (s, s ∷ w);
  end_scope = λ s w. (tt, tail w);
}

abbrev all_open : List ℕ → List ℕ
all_open w = w

otel_laws : IsOtel otel all_open
otel_laws = record {
  get_current_keeps = λ w. refl;
  extract_keeps = λ p c w. refl;
  inject_keeps = λ p c w. refl;
  request_name_keeps = λ w. refl;
  start_span_keeps = λ t name w. refl;
  set_status_keeps = λ s good details w. refl;
  end_span_keeps = λ s w. refl;
  opened = λ s w. refl;
  closed = λ s rest w e. ap tail (let same : w ≡ s ∷ rest = e in same);
}

abbrev between : List ℕ → List ℕ
between w = w

post_process-pre_process_example :
    let (ready, s) = pre_process otel true (idle otel tt "app", []) in
    let (done, t) = post_process otel status_ok (s.0, between s.1) in
    (ready ≡ returns status_ok)
    × (done ≡ returns status_ok)
    × (all_open t.1 ≡ [])
    × (t.0 ≡ idle otel tt "app")
post_process-pre_process_example =
    post_process-pre_process otel otel_laws tt "app" true between status_ok [] (λ v. refl)
