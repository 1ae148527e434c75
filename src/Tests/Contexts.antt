-- ===== src/Tests/Contexts.antt =====
-- A context whose metadata are a list that may name a key several times, and a tracing service.
use sapper_bricks.Prelude.{
  ℕ, String, ◌≡◌, ◌≢◌, refl, Option, none, some, List, [], ◌∷◌, ◌==◌, eq_iff, eq_refl, arith,
  if◌then◌else◌,
}
use sapper_bricks.Effect.{returns, pure}
use sapper_bricks.Dict.{Dict, find}
use sapper_bricks.Tracing.{HeaderNames}
use sapper_bricks.Tracing.Carrier.{ContextLib, IsContext}
use sapper_bricks.Tracing.Provider.{ExporterLib, create_tracer_provider}
use sapper_bricks.Tracing.Lifetime.{IsExporter}
use sapper_bricks.App.{AppLib, Main, main_of, skeleton}
use sapper_bricks.App.Bricks.{opentelemetry_tracing}
use sapper_bricks.App.Exit.{IsQuiet}
use sapper_bricks.App.Traced.{traced, main_of-reset}

pub erase : String → Dict String → Dict String
erase k [] = []
erase k ((j, v) ∷ c) = if j == k then erase k c else (j, v) ∷ erase k c

unfoldable pub entries : Dict String → String → List String
entries [] k = []
entries ((j, v) ∷ c) k = if j == k then v ∷ entries c k else entries c k

abbrev or_default : Option String → String → String
or_default none default = default
or_default (some v) default = v

abbrev pub contexts : ContextLib
contexts = record {
  Context = Dict String;
  at_or = λ c k default. or_default (find k c) default;
  erase = erase;
  insert = λ k v c. (k, v) ∷ c;
}

erased : (k : String) (c : Dict String) → entries (erase k c) k ≡ []
unfolding erase entries
erased k [] = refl
erased k ((j, v) ∷ c) = ground (arith, erased k c)

found :
    (k v default : String) (c : Dict String)
    → entries c k ≡ v ∷ []
    → or_default (find k c) default ≡ v
unfolding find entries
found k v default [] e = absurd (cc e)
found k v default ((j, u) ∷ c) e = ground (arith, found k v default c)

erase_other :
    (k j : String) (c : Dict String)
    → k ≢ j
    → (entries (erase k c) j ≡ entries c j) × (find j (erase k c) ≡ find j c)
unfolding erase entries find
erase_other k j [] n = (refl, refl)
erase_other k j ((i, v) ∷ c) n = ground (arith, erase_other k j c n, eq_iff i k, eq_iff i j)

pub contexts-IsContext : IsContext contexts entries
unfolding entries find
contexts-IsContext = record {
  erased = erased;
  inserted = λ k v c. rw (eq_refl k);
  found = found;
  other_entries = λ k j v c n. ((erase_other k j c n).0, ground (arith, eq_iff k j));
  other_found = λ k j v default c n. (rw (erase_other k j c n).1, ground (arith, eq_iff k j));
}

-- The world is the global provider, a number.
abbrev exporter : ExporterLib (Option ℕ)
exporter = record {
  Exporter = String;
  Processor = String;
  Resource = String;
  Provider = ℕ;
  global_at_or = λ key default. pure default;
  create_exporter = λ url. pure url;
  create_processor = λ e. pure e;
  create_resource = λ name version. pure name;
  create_provider = λ p r. pure 5;
  set_tracer_provider = λ p w. (returns tt, p);
}

abbrev current : Option ℕ → Option ℕ
current w = w

exporter_laws : IsExporter exporter current
exporter_laws = record { sets = λ p w. (refl, refl) }

-- An environment without variables.
abbrev pub bare : {W : Type 0} → AppLib W
bare = record {
  getenv_or = λ name default. pure default;
  getenv_int_or = λ name default. pure default;
  insert_global = λ m. pure tt;
  handle_globally_with = λ hook. pure tt;
  issue_globally_with = λ hook. pure tt;
  graceful_shutdown = pure tt;
  end_graceful_shutdown = pure tt;
  print_exception = λ x. pure tt;
}

abbrev pub names : HeaderNames
names = record {
  b3_combined = "b3";
  b3_trace_id = "x-b3-traceid";
  b3_span_id = "x-b3-spanid";
  b3_sampled = "x-b3-sampled";
  trace_parent = "traceparent";
  trace_state = "tracestate";
}

abbrev service : Main (Option ℕ)
service = skeleton bare

quiet_service : IsQuiet bare (traced bare service exporter names "http://otel")
unfolding opentelemetry_tracing
quiet_service = record {
  gets = λ name default w. (default, refl);
  inserts = λ m w. refl;
  prints = λ x w. refl;
}

main_of-reset_example :
    current (main_of bare (traced bare service exporter names "http://otel") none).1 ≡ none
main_of-reset_example =
    main_of-reset bare service exporter names "http://otel" exporter_laws quiet_service none
      "http://otel" 5 refl (λ x v. refl) refl (unfold create_tracer_provider in refl)
