-- ===== src/Notifier/Http/Chain.antt =====
-- Two services in a chain: the HTTP notifier of one sends its entities to the HTTP handler of
-- another.
use sapper_bricks.Prelude.{
  ℕ, zero, suc, String, ◌≡◌, ◌≢◌, refl, sym, ap, ◌∙◌, true, false, [], arith,
}
use sapper_bricks.Prelude.Int.{IsInt32}
use sapper_bricks.Effect.{StatusCode, Status, is_ok, Exn, Result, returns, Comp, pure}
use sapper_bricks.Ports.{Entity, Api}
use sapper_bricks.Json.{JsonLib, IsJson}
use sapper_bricks.Json.Codec.{encode}
use sapper_bricks.Http.{Fetched, answered}
use sapper_bricks.Mse.{IssuerLib, IsIssuer}
use sapper_bricks.Mse.Issuer.{after}
use sapper_bricks.Handler.{HandlerLib, IsHandler}
use sapper_bricks.Handler.Http
use sapper_bricks.Handler.Http.{Request, Response}
use sapper_bricks.Handler.Http.Path.{one_line}
use sapper_bricks.Handler.Http.Path.Segments.{has_slash, extract_id-no_slash}
use sapper_bricks.Handler.Http.Requests.{
  path_of, refusal, called, unread, misplaced, set_entity-Outcome, read_entity-encode,
  set_entity-put,
}
use sapper_bricks.Notifier.Http.{PutLib, HttpNotifier, put_request, entity_changed}
use sapper_bricks.Notifier.Http.Delivery.{entity_changed_recovers, entity_changed_attempts}

-- A fresh response of the server.
abbrev pub fresh : Response
fresh = record { status = 200; body = ""; content_type = "" }

module _ (J : JsonLib) (S : HandlerLib) {W : Type 0} (api : Api W)
    (from_http : ℕ → StatusCode) where
  abbrev reply : Response × W → Result Fetched × W
  reply s = (returns (answered s.0.status s.0.body), s.1)

  -- A network that loses no PUT: it reaches the other service's setEntity, and its response is the
  -- answer. The client and the server of the library have made the path `target path` of the text
  -- that the client was given: they cut off a query and decode what is encoded.
  abbrev pub served : (String → String) → PutLib W
  served target = record {
    filtered_metadata = λ headers. pure [];
    put = λ connection path headers body content_type w.
        reply (Http.set_entity J S api (record { path = target path; body = body }) (fresh, w)).1;
    from_http = from_http;
  }

  module _ (json : IsJson J) (handles : IsHandler S)
      (translates : (code : StatusCode) → is_ok (from_http (S.to_http code)) ≡ is_ok code)
      (M : IssuerLib) (issues : IsIssuer M) (notifier : HttpNotifier) (target : String → String)
      (e : Entity) (text : String) (range : IsInt32 e.int_property)
      (encoded : encode J e ≡ returns text) where
    abbrev request : Comp W Status
    request = put_request J (served target) notifier e

    request_taken :
        (w : W)
        → target (path_of e.id) ≡ path_of e.id
        → one_line e.id ≡ true
        → has_slash e.id ≡ false
        → (api.set_entity e w).0 ≡ returns tt
        → request w ≡ (
          returns (record { code = from_http (S.to_http StatusCode.ok); details = "" }),
          (api.set_entity e w).1,
        )
    unfolding put_request
    request_taken w kept line no_slash taken = rw (
      encoded,
      kept,
      set_entity-put J S handles api e text fresh w json range encoded line no_slash,
      taken,
    )

    -- An id with a slash is in no path that the handler reads.
    request-refused :
        (w : W)
        → has_slash e.id ≡ true
        → (st : Status) × (request w ≡ (returns st, w)) × (is_ok st.code ≡ false)
    unfolding put_request
    request-refused w slash =
        let put : Request = record { path = target (path_of e.id); body = text } in
        let read = read_entity-encode J S handles api e text json range encoded in
        let refused : (x : Exn)
            → (Http.set_entity J S api put (fresh, w)).1 ≡ (refusal J S handles api x fresh, w)
            → (st : Status) × (request w ≡ (returns st, w)) × (is_ok st.code ≡ false) =
          λ x left. (
            record { code = from_http (S.to_http (S.status_of x).code); details = "" },
            rw (encoded, left),
            translates (S.status_of x).code ∙ handles.status_of_error x,
          ) in
        elim (set_entity-Outcome J S handles api put fresh w).1 [
          | called f g path left ↦
              let same : f ≡ e = cc (g, read) in
              let own = extract_id-no_slash put.path f.id path in
              absurd (cc (own, slash, ap (λ d. d.id) same))
          | unread x thrown left ↦ refused x left
          | misplaced f x g other left ↦ refused x left
        ]

    after_refused : (k : ℕ) (w : W) → has_slash e.id ≡ true → after k request w ≡ w
    after_refused zero w slash = refl
    after_refused (suc k) w slash =
        let (_, same, _) = request-refused w slash in rw same (after_refused k w slash)

    -- Over a network without loss that keeps the path of the entity, as it does for an id without
    -- characters that have a meaning in a URL, with status conversions that agree on what is ok,
    -- and for an entity that can be encoded and whose id has no slash and no line break: if the
    -- other service's SetEntity returns for it, so does EntityChanged, and the other service's
    -- world is the one that a single such call leaves.
    pub entity_changed-served :
        (w : W)
        → target (path_of e.id) ≡ path_of e.id
        → one_line e.id ≡ true
        → has_slash e.id ≡ false
        → (api.set_entity e w).0 ≡ returns tt
        → entity_changed J (served target) notifier M e w ≡ (returns tt, (api.set_entity e w).1)
    entity_changed-served w kept line no_slash taken =
        let sent = request_taken w kept line no_slash taken in
        let good : is_ok (from_http (S.to_http StatusCode.ok)) ≡ true = translates StatusCode.ok in
        entity_changed_recovers J M issues (served target) notifier e 0 notifier.max_retry_count w
          (record { code = from_http (S.to_http StatusCode.ok); details = "" }) (omega arith) tt
          (ap (λ p. p.0) sent) good
        ∙ ap (λ p. (returns tt, p.1)) sent

    -- With status conversions that agree on what is ok, and for an entity that can be encoded, but
    -- with a slash in its id, the entity never arrives, whatever the network makes of the path:
    -- EntityChanged does not return, however often it is sent, and the other service keeps its
    -- world.
    pub entity_changed-slash :
        (w : W)
        → has_slash e.id ≡ true
        → ((entity_changed J (served target) notifier M e w).0 ≢ returns tt)
          × ((entity_changed J (served target) notifier M e w).1 ≡ w)
    entity_changed-slash w slash =
        let (k, _, _, final, ended) =
          entity_changed_attempts J M issues (served target) notifier e w in
        let (refused, now, bad) = request-refused w slash in
        let last : request (after k request w) ≡ (returns refused, w) =
          rw (after_refused k w slash) now in
        (
          λ h.
              let (st, got, good) = ended h in
              let same : returns refused ≡ returns st = sym (ap (λ p. p.0) last) ∙ got in
              cc (same, good, bad),
          final ∙ ap (λ p. p.1) last,
        )
