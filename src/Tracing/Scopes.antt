-- ===== src/Tracing/Scopes.antt =====
-- The scopes of a request are closed when it is done.
use sapper_bricks.Prelude.{String, ◌≡◌, refl, Bool, true, false, List, ◌∷◌}
use sapper_bricks.Effect.{Status, status_ok, Result, returns}
use sapper_bricks.Tracing.{OtelLib, Impl, idle, pre_process, post_process}

-- The scopes that are open, the innermost first: what the documentation says of the calls.
pub record IsOtel {W : Type 0} (O : OtelLib W) (open_scopes : W → List O.Scope) : Type 0 where
  pub get_current_keeps : (w : W) → open_scopes (O.get_current w).1 ≡ open_scopes w
  pub extract_keeps :
      (p : O.Propagator) (c : O.RuntimeContext) (w : W)
      → open_scopes (O.extract p c w).1 ≡ open_scopes w
  pub inject_keeps :
      (p : O.Propagator) (c : O.RuntimeContext) (w : W)
      → open_scopes (O.inject p c w).1 ≡ open_scopes w
  pub request_name_keeps : (w : W) → open_scopes (O.request_name w).1 ≡ open_scopes w
  pub start_span_keeps :
      (t : O.Tracer) (name : String) (w : W) → open_scopes (O.start_span t name w).1 ≡ open_scopes w
  pub set_status_keeps :
      (s : O.Span) (good : Bool) (details : String) (w : W)
      → open_scopes (O.set_status s good details w).1 ≡ open_scopes w
  pub end_span_keeps : (s : O.Span) (w : W) → open_scopes (O.end_span s w).1 ≡ open_scopes w
  pub opened :
      (s : O.Span) (w : W)
      → open_scopes (O.with_active_span s w).1 ≡ (O.with_active_span s w).0 ∷ open_scopes w
  -- the innermost scope closes alone
  pub closed :
      (s : O.Scope) (rest : List O.Scope) (w : W)
      → open_scopes w ≡ s ∷ rest
      → open_scopes (O.end_scope s w).1 ≡ rest

module _ {W : Type 0} (O : OtelLib W) {open_scopes : W → List O.Scope} (laws : IsOtel O open_scopes)
    (propagator : O.Propagator) (tracer : O.Tracer) where
  -- A request with its hook: `inner` is all that runs between the two calls.
  abbrev entered : Bool → W → Result Status × (Impl O × W)
  entered incoming w = pre_process O incoming (idle O propagator tracer, w)

  abbrev left : Status → (W → W) → Result Status × (Impl O × W) → Result Status × (Impl O × W)
  left status inner s = post_process O status (s.1.0, inner s.1.1)

  -- The scope of the request's span, which `pre_process` opens last, in a world.
  abbrev span_scope : W → O.Scope
  span_scope w =
      (O.with_active_span (O.start_span tracer (O.request_name w).0 (O.request_name w).1).0
        (O.start_span tracer (O.request_name w).0 (O.request_name w).1).1).0

  abbrev Closes : (W → W) → Status → Bool → W → Type 0
  Closes inner status incoming w =
      ((entered incoming w).0 ≡ returns status_ok)
      × ((left status inner (entered incoming w)).0 ≡ returns status)
      × (open_scopes (left status inner (entered incoming w)).1.1 ≡ open_scopes w)
      × ((left status inner (entered incoming w)).1.0 ≡ idle O propagator tracer)

  outgoing :
      (inner : W → W) (status : Status) (w : W)
      → ((v : W) → open_scopes (inner v) ≡ open_scopes v)
      → Closes inner status false w
  unfolding pre_process post_process
  outgoing inner status w keeps =
      let entered_scopes : open_scopes (entered false w).1.1 ≡ span_scope w ∷ open_scopes w = simp (
        laws.inject_keeps, laws.get_current_keeps, laws.opened, laws.start_span_keeps,
        laws.request_name_keeps,
      ) in
      (
        refl,
        refl,
        simp (laws.inject_keeps, laws.get_current_keeps)
            (laws.closed (span_scope w) (open_scopes w) _
              (simp (laws.end_span_keeps, laws.set_status_keeps, keeps) entered_scopes)),
        refl,
      )

  -- The context that an incoming request brings, and the world with its span active.
  abbrev extracted : W → O.RuntimeContext × W
  extracted w = O.extract propagator (O.get_current w).0 (O.get_current w).1

  abbrev remote_entered : W → O.Scope × W
  remote_entered w = O.with_active_span (O.get_span (extracted w).0) (extracted w).1

  incoming :
      (inner : W → W) (status : Status) (w : W)
      → ((v : W) → open_scopes (inner v) ≡ open_scopes v)
      → Closes inner status true w
  unfolding pre_process post_process
  incoming inner status w keeps =
      let remote = (remote_entered w).0 in
      let own = span_scope (remote_entered w).1 in
      let entered_scopes : open_scopes (entered true w).1.1 ≡ own ∷ remote ∷ open_scopes w = simp (
        laws.inject_keeps, laws.get_current_keeps, laws.opened, laws.start_span_keeps,
        laws.request_name_keeps, laws.extract_keeps,
      ) in
      (
        refl,
        refl,
        laws.closed remote (open_scopes w) _ (
            simp (laws.inject_keeps, laws.get_current_keeps)
              (laws.closed own (remote ∷ open_scopes w) _
                (simp (laws.end_span_keeps, laws.set_status_keeps, keeps) entered_scopes))),
        refl,
      )

  -- A hook that is idle opens its scopes in `pre_process`, for a request of either kind, and closes
  -- each of them, the innermost first, in `post_process`, if what runs between leaves the open
  -- scopes as it found them. Both calls return, the status of the request is passed on unchanged,
  -- and the hook is idle again.
  pub post_process-pre_process :
      (is_incoming : Bool) (inner : W → W) (status : Status) (w : W)
      → ((v : W) → open_scopes (inner v) ≡ open_scopes v)
      → let (ready, s) = pre_process O is_incoming (idle O propagator tracer, w) in
        let (done, t) = post_process O status (s.0, inner s.1) in
        (ready ≡ returns status_ok)
        × (done ≡ returns status)
        × (open_scopes t.1 ≡ open_scopes w)
        × (t.0 ≡ idle O propagator tracer)
  post_process-pre_process false inner status w keeps = outgoing inner status w keeps
  post_process-pre_process true inner status w keeps = incoming inner status w keeps
