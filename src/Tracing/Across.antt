-- ===== src/Tracing/Across.antt =====
-- A trace that goes from one service to the next: the hook of a request that is issued writes the
-- span into its context, a notifier sends the headers that it is to propagate, and the hook of the
-- request that is handled reads the span from the context of the message.
use sapper_bricks.Prelude.{
  String, ◌≡◌, ◌∙◌, Bool, true, false, some, List, [], ◌∷◌, ◌++◌, ◌||◌, ◌==◌, arith, if◌then◌else◌,
}
use sapper_bricks.Dict.{Dict}
use sapper_bricks.Tracing.{
  HeaderNames, PropagationType, b3_single_header, b3_multi_header, http, get_propagation_headers,
}
use sapper_bricks.Tracing.Carrier.{
  ContextLib, IsContext, get, inject_headers, last_value, get-inject_headers,
}

abbrev pub has_name : String → List String → Bool
has_name k [] = false
has_name k (name ∷ names) = name == k || has_name k names

has_name-append :
    (k : String) (before names : List String)
    → has_name k names ≡ true
    → has_name k (before ++ names) ≡ true
has_name-append k [] names h = h
has_name-append k (name ∷ before) names h = ground (arith, has_name-append k before names h)

-- The values that a multimap of headers has for a name.
unfoldable pub values_of : String → Dict String → List String
values_of k [] = []
values_of k ((j, v) ∷ headers) = if j == k then v ∷ values_of k headers else values_of k headers

-- A message carries metadata from the context of one request to that of another.
pub record MessageLib (X : ContextLib) : Type 0 where
  -- context.GetFilteredMetadata(names)
  pub filtered_metadata : List String → X.Context → Dict String
  -- Context(metadata)
  pub of_metadata : Dict String → X.Context

pub record IsMessage (X : ContextLib) (entries : X.Context → String → List String)
    (M : MessageLib X) : Type 0 where
  pub passed :
      (names : List String) (k : String) (c : X.Context)
      → has_name k names ≡ true
      → values_of k (M.filtered_metadata names c) ≡ entries c k
  pub received : (m : Dict String) (k : String) → entries (M.of_metadata m) k ≡ values_of k m

-- The propagators of OpenTelemetry, by the calls of Set that an injection makes, and by what an
-- extraction makes of the answers of Get.
pub record PropagatorLib : Type 1 where
  -- the trace id and the id of a span
  pub SpanContext : Type 0
  -- the names that TextMapPropagator::Fields gives
  pub fields : PropagationType → List String
  pub is_valid : SpanContext → Bool
  pub inject : PropagationType → SpanContext → Dict String
  pub extract : PropagationType → (String → String) → SpanContext

pub record IsPropagator (names : HeaderNames) (P : PropagatorLib) : Type 0 where
  -- the names are those of the B3 and the W3C specifications
  pub single_fields : P.fields b3_single_header ≡ names.b3_combined ∷ []
  pub multi_fields :
      P.fields b3_multi_header ≡ names.b3_trace_id ∷ names.b3_span_id ∷ names.b3_sampled ∷ []
  pub http_fields : P.fields http ≡ names.trace_parent ∷ names.trace_state ∷ []
  -- an extraction that reads what was set for a valid span finds it; that of B3 with several headers
  -- looks for the single one first
  pub extracted :
      (t : PropagationType) (s : P.SpanContext) (read : String → String)
      → P.is_valid s ≡ true
      → (t ≡ b3_multi_header → read names.b3_combined ≡ "")
      → ((k v : String)
          → has_name k (P.fields t) ≡ true
          → last_value k (P.inject t s) ≡ some v
          → read k ≡ v)
      → P.extract t read ≡ s

module _ (X : ContextLib) (entries : X.Context → String → List String)
    (context : IsContext X entries) (M : MessageLib X) (message : IsMessage X entries M)
    (names : HeaderNames) (P : PropagatorLib) (propagator : IsPropagator names P) where
  -- Every header that a propagator reads is passed on.
  fields-passed :
      (t : PropagationType) (k : String)
      → has_name k (P.fields t) ≡ true
      → has_name k (get_propagation_headers names t) ≡ true
  unfolding get_propagation_headers
  fields-passed b3_single_header k own = rw propagator.single_fields at own
  fields-passed b3_multi_header k own = rw propagator.multi_fields at own
  fields-passed http k own = rw propagator.http_fields at own

  -- The context of the request that the next service handles.
  abbrev pub arrived : PropagationType → P.SpanContext → List String → X.Context → X.Context
  arrived t s before c = M.of_metadata (
      M.filtered_metadata (before ++ get_propagation_headers names t)
        (inject_headers X (P.inject t s) c))

  get-arrived :
      (t : PropagationType) (s : P.SpanContext) (before : List String) (c : X.Context)
      (k v : String)
      → has_name k (get_propagation_headers names t) ≡ true
      → last_value k (P.inject t s) ≡ some v
      → get X (arrived t s before c) k ≡ v
  unfolding get
  get-arrived t s before c k v own set =
      let injected = inject_headers X (P.inject t s) c in
      let held : entries injected k ≡ v ∷ [] =
        (get-inject_headers X entries context (P.inject t s) c k).1 ∙ rw set in
      let sent : entries (arrived t s before c) k ≡ v ∷ [] =
        message.received _ k
        ∙ message.passed _ k injected (has_name-append k before _ own)
        ∙ held in
      context.found k v "" (arrived t s before c) sent

  -- A trace is not broken between two services: whatever headers other bricks have put before those
  -- of the trace, and whatever the context of the issued request held before, the hook of the next
  -- service extracts the span that was current when the request was issued, if that is valid and,
  -- with the several headers of B3, no single one has come along.
  pub extract-inject :
      (t : PropagationType) (s : P.SpanContext) (before : List String) (c : X.Context)
      → P.is_valid s ≡ true
      → (t ≡ b3_multi_header → get X (arrived t s before c) names.b3_combined ≡ "")
      → P.extract t (get X (arrived t s before c)) ≡ s
  extract-inject t s before c valid no_single =
      propagator.extracted t s (get X (arrived t s before c)) valid no_single
        (λ k v own set. get-arrived t s before c k v (fields-passed t k own) set)
