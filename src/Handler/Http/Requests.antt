-- ===== src/Handler/Http/Requests.antt =====
-- What the two methods of the HTTP handler answer, and which call of the Api they make.
use Prim.Native.String
use sapper_bricks.Prelude.{
  String, ◌≡◌, ◌≢◌, ap, ◌∙◌, inl, inr, true, false, ◌==◌, eq_iff, eq_refl, if◌then◌else◌, arith,
  Bool-cases,
}
use sapper_bricks.Prelude.Int.{IsInt32}
use sapper_bricks.Effect.{
  StatusCode, Status, status_ok, is_ok, Exn, invalid_argument, Result, returns, throws, Comp, ◌>>=◌,
}
use sapper_bricks.Effect.Laws.{Result-cases}
use sapper_bricks.Ports.{Entity, Api}
use sapper_bricks.Json.{JsonLib, IsJson}
use sapper_bricks.Json.Codec.{encode, decode-encode}
use sapper_bricks.Handler.{HandlerLib, IsHandler, read_entity}
use sapper_bricks.Handler.Http.Path.{extract_id, one_line}
use sapper_bricks.Handler.Http.Path.Segments.{has_slash, last_segment, extract_id-entity}
use sapper_bricks.Handler.Http.{Request, Response, set_request, set_entity, finish}

abbrev pub path_of : String → String
path_of id = Prim.Native.String.◌++◌ "/Entity/" id

module _ (J : JsonLib) (M : HandlerLib) (laws : IsHandler M) {W : Type 0} (api : Api W) where
  -- A response that refuses a request: the status of an exception, with its details.
  abbrev pub refusal : Exn → Response → Response
  refusal x r = record r { status = M.to_http (M.status_of x).code; body = (M.status_of x).details }

  -- The response after a call of SetEntity.
  abbrev pub set_response : Result (Unit {0}) → Response → Response
  set_response (returns u) r = record r { status = M.to_http StatusCode.ok }
  set_response (throws x) r = refusal x r

  -- The response that a request leaves, by how it ended.
  abbrev pub done : Result Status → Response × W → Response × W
  done (returns status) s = (
    record s.0 {
      status = M.to_http status.code;
      body = if is_ok status.code then s.0.body else status.details;
    },
    s.1,
  )
  done (throws x) s = (refusal x s.0, s.1)

  pub processed :
      (m : Comp (Response × W) Status) (name : String) (s : Response × W)
      → (M.process name m >>= finish M) s ≡ (returns tt, done (m s).0 (m s).1)
  processed m name s = elim (Result-cases (m s).0) [
    | inl (status, e) ↦ rw (laws.process_returned name m s status e, e)
    | inr (x, e) ↦ rw (laws.process_threw name m s x e, laws.status_of_error x, e)
  ]

  abbrev pub then_ok : Result (Unit {0}) → Result Status
  then_ok (returns u) = returns status_ok
  then_ok (throws x) = throws x

  set_request-called :
      (request : Request) (r : Response) (w : W) (e : Entity)
      → read_entity J request.body ≡ returns e
      → extract_id request.path ≡ returns e.id
      → set_request J M api request (r, w)
        ≡ (then_ok (api.set_entity e w).0, (r, (api.set_entity e w).1))
  unfolding set_request
  set_request-called request r w e read path =
      rw (read, path, eq_refl e.id)
        (elim (Result-cases (api.set_entity e w).0) [ inl (u, k) ↦ rw k | inr (x, k) ↦ rw k ])

  pub set_entity-called :
      (request : Request) (r : Response) (w : W) (e : Entity)
      → read_entity J request.body ≡ returns e
      → extract_id request.path ≡ returns e.id
      → set_entity J M api request (r, w)
        ≡ (returns tt, (set_response (api.set_entity e w).0 r, (api.set_entity e w).1))
  unfolding set_entity
  set_entity-called request r w e read path =
      rw
        (
          processed (set_request J M api request) "setEntity" (r, w),
          set_request-called request r w e read path,
        )
        (elim (Result-cases (api.set_entity e w).0) [ inl (u, k) ↦ rw k | inr (x, k) ↦ rw k ])

  pub set_entity-thrown :
      (request : Request) (r : Response) (w : W) (x : Exn)
      → set_request J M api request (r, w) ≡ (throws x, (r, w))
      → set_entity J M api request (r, w) ≡ (returns tt, (refusal x r, w))
  unfolding set_entity
  set_entity-thrown request r w x e =
      rw (processed (set_request J M api request) "setEntity" (r, w), e)

  -- What a PUT comes to.
  pub data Outcome (request : Request) (r : Response) (w : W) (left : Response × W) : Type 0 where
    called :
        (e : Entity)
        → read_entity J request.body ≡ returns e
        → extract_id request.path ≡ returns e.id
        → left ≡ (set_response (api.set_entity e w).0 r, (api.set_entity e w).1)
        → Outcome request r w left
    unread :
        (x : Exn)
        → read_entity J request.body ≡ throws x
        → left ≡ (refusal x r, w)
        → Outcome request r w left
    misplaced :
        (e : Entity) (x : Exn)
        → read_entity J request.body ≡ returns e
        → extract_id request.path ≢ returns e.id
        → left ≡ (refusal x r, w)
        → Outcome request r w left

  -- A PUT never throws. It sets the entity of its body if the path ends in the id of that entity,
  -- and then answers ok, or with the status of what SetEntity threw. With a body that is no entity,
  -- or with another path, it leaves the world, and answers with the status of an exception.
  pub set_entity-Outcome :
      (request : Request) (r : Response) (w : W)
      → ((set_entity J M api request (r, w)).0 ≡ returns tt)
        × Outcome request r w (set_entity J M api request (r, w)).1
  set_entity-Outcome request r w = elim (Result-cases (read_entity J request.body)) [
    | inr (x, e) ↦
        let all = set_entity-thrown request r w x (unfold set_request in rw e) in
        (ap (λ t. t.0) all, unread x e (ap (λ t. t.1) all))
    | inl (entity, e) ↦ elim (Result-cases (extract_id request.path)) [
      | inr (x, p) ↦
          let all = set_entity-thrown request r w x (unfold set_request in rw (e, p)) in
          (ap (λ t. t.0) all, misplaced entity x e (λ same. cc (p, same)) (ap (λ t. t.1) all))
      | inl (id, p) ↦ elim (Bool-cases (entity.id == id)) [
        | inl same ↦
            let here : extract_id request.path ≡ returns entity.id =
              rw ((eq_iff entity.id id).0 same) p in
            let all = set_entity-called request r w entity e here in
            (ap (λ t. t.0) all, called entity e here (ap (λ t. t.1) all))
        | inr differs ↦
            let x = invalid_argument "inconsistent id" in
            let all = set_entity-thrown request r w x (unfold set_request in rw (e, p, differs)) in
            (
              ap (λ t. t.0) all,
              misplaced entity x e (λ same. ground (arith, p, same, eq_iff entity.id id))
                  (ap (λ t. t.1) all),
            )
      ]
    ]
  ]

  pub read_entity-encode :
      (e : Entity) (text : String)
      → IsJson J
      → IsInt32 e.int_property
      → encode J e ≡ returns text
      → read_entity J text ≡ returns e
  unfolding read_entity
  read_entity-encode e text json range h = rw (decode-encode J json e text range h)

  entity_path :
      (id : String) → one_line id ≡ true → extract_id (path_of id) ≡ returns (last_segment id)
  entity_path id line = (extract_id-entity id).0 ∙ rw line

  -- The PUT that a notifier or a client sends for an entity, whose id has no slash and no line
  -- break: SetEntity is called with exactly that entity, and the answer is that of the call.
  pub set_entity-put :
      (e : Entity) (text : String) (r : Response) (w : W)
      → IsJson J
      → IsInt32 e.int_property
      → encode J e ≡ returns text
      → one_line e.id ≡ true
      → has_slash e.id ≡ false
      → set_entity J M api (record { path = path_of e.id; body = text }) (r, w)
        ≡ (returns tt, (set_response (api.set_entity e w).0 r, (api.set_entity e w).1))
  set_entity-put e text r w json range encoded line no_slash =
      let own = (extract_id-entity e.id).1.1 no_slash in
      set_entity-called (record { path = path_of e.id; body = text }) r w e
        (read_entity-encode e text json range encoded)
        (entity_path e.id line ∙ ap (λ id. returns id) own)

  -- The same PUT for an id with a slash is refused as inconsistent, whatever the entity, although
  -- SetEntity takes such an id.
  pub set_entity-slash :
      (e : Entity) (text : String) (r : Response) (w : W)
      → IsJson J
      → IsInt32 e.int_property
      → encode J e ≡ returns text
      → one_line e.id ≡ true
      → has_slash e.id ≡ true
      → set_entity J M api (record { path = path_of e.id; body = text }) (r, w)
        ≡ (returns tt, (refusal (invalid_argument "inconsistent id") r, w))
  set_entity-slash e text r w json range encoded line slash =
      let request : Request = record { path = path_of e.id; body = text } in
      let read = read_entity-encode e text json range encoded in
      let other : last_segment e.id ≢ e.id =
        λ same. cc (slash, (extract_id-entity e.id).1.0 same) in
      let differs : (e.id == last_segment e.id) ≡ false =
        ground (arith, eq_iff e.id (last_segment e.id), other) in
      set_entity-thrown request r w (invalid_argument "inconsistent id")
        (unfold set_request in rw (read, entity_path e.id line, differs))
