-- ===== src/Tests/Traces.antt =====
-- A trace from one service to the next, over the contexts of `Tests/Contexts.antt`.
use sapper_bricks.Prelude.{
  String, ◌≡◌, refl, true, List, [], ◌∷◌, if◌then◌else◌, ◌==◌, eq_iff, inl, inr, some, Bool-cases,
}
use sapper_bricks.Dict.{Dict}
use sapper_bricks.Tracing.{
  PropagationType, b3_single_header, b3_multi_header, http, get_propagation_headers,
}
use sapper_bricks.Tracing.Carrier.{get, inject_headers, last_value}
use sapper_bricks.Tracing.Across.{
  has_name, values_of, MessageLib, IsMessage, PropagatorLib, IsPropagator, extract-inject,
}
use sapper_bricks.Tests.Contexts.{contexts, entries, contexts-IsContext, names}

filtered : List String → Dict String → Dict String
filtered passing [] = []
filtered passing ((j, v) ∷ c) =
    if has_name j passing then (j, v) ∷ filtered passing c else filtered passing c

abbrev messages : MessageLib contexts
messages = record { filtered_metadata = filtered; of_metadata = λ m. m }

passed :
    (passing : List String) (k : String) (c : Dict String)
    → has_name k passing ≡ true
    → values_of k (filtered passing c) ≡ entries c k
unfolding filtered entries values_of
passed passing k [] h = refl
passed passing k ((j, v) ∷ c) h = elim (Bool-cases (j == k)) [
  | inl same ↦
      let named : has_name j passing ≡ true = rw ((eq_iff j k).0 same) h in
      rw named (rw (same, passed passing k c h))
  | inr differs ↦ elim (Bool-cases (has_name j passing)) [
    | inl named ↦ rw named (rw (differs, passed passing k c h))
    | inr unnamed ↦ rw unnamed (rw (differs, passed passing k c h))
  ]
]

received : (m : Dict String) (k : String) → entries m k ≡ values_of k m
unfolding entries values_of
received [] k = refl
received ((j, v) ∷ m) k = rw (received m k) refl

messages-IsMessage : IsMessage contexts entries messages
messages-IsMessage = record { passed = passed; received = received }

-- A span is its text, which the first header of each kind carries.
abbrev inject : PropagationType → String → Dict String
inject b3_single_header s = ("b3", s) ∷ []
inject b3_multi_header s = ("x-b3-traceid", s) ∷ ("x-b3-spanid", s) ∷ ("x-b3-sampled", "1") ∷ []
inject http s = ("traceparent", s) ∷ ("tracestate", "") ∷ []

abbrev extract : PropagationType → (String → String) → String
extract b3_single_header read = read "b3"
extract b3_multi_header read = read "x-b3-traceid"
extract http read = read "traceparent"

abbrev fields : PropagationType → List String
fields b3_single_header = "b3" ∷ []
fields b3_multi_header = "x-b3-traceid" ∷ "x-b3-spanid" ∷ "x-b3-sampled" ∷ []
fields http = "traceparent" ∷ "tracestate" ∷ []

abbrev propagators : PropagatorLib
propagators = record {
  SpanContext = String;
  fields = fields;
  is_valid = λ s. true;
  inject = inject;
  extract = extract;
}

extracted :
    (t : PropagationType) (s : String) (read : String → String)
    → ((k v : String)
        → has_name k (fields t) ≡ true
        → last_value k (inject t s) ≡ some v
        → read k ≡ v)
    → extract t read ≡ s
extracted b3_single_header s read reads = reads "b3" s refl refl
extracted b3_multi_header s read reads = reads "x-b3-traceid" s refl refl
extracted http s read reads = reads "traceparent" s refl refl

propagators-IsPropagator : IsPropagator names propagators
propagators-IsPropagator = record {
  single_fields = refl;
  multi_fields = refl;
  http_fields = refl;
  extracted = λ t s read valid no_single. extracted t s read;
}

-- The context of the issued request has two older headers of the trace, and a token.
abbrev stale : Dict String
stale = ("b3", "old") ∷ ("b3", "older") ∷ ("authorization", "token") ∷ []

extract-inject_example :
    get contexts
      (filtered
        ("authorization" ∷ "" ∷ "b3" ∷ [])
        (inject_headers contexts (("b3", "new") ∷ []) stale))
      "b3"
    ≡ "new"
unfolding get_propagation_headers
extract-inject_example =
    extract-inject contexts entries contexts-IsContext messages messages-IsMessage names propagators
      propagators-IsPropagator b3_single_header "new" ("authorization" ∷ "" ∷ []) stale refl
      (λ h. absurd (cc h))
