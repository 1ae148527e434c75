-- ===== src/Handler/Http/Reads.antt =====
-- What a GET answers.
use Prim.Native.String
use sapper_bricks.Prelude.{String, ◌≡◌, ◌∙◌, inl, inr, Option, none, some}
use sapper_bricks.Effect.{StatusCode, Exn, Result, returns, throws}
use sapper_bricks.Effect.Laws.{Result-cases}
use sapper_bricks.Ports.{Entity, Api}
use sapper_bricks.Json.{JsonLib}
use sapper_bricks.Json.Codec.{encode}
use sapper_bricks.Handler.{HandlerLib, IsHandler}
use sapper_bricks.Handler.Http.Path.{extract_id}
use sapper_bricks.Handler.Http.Requests.{refusal, processed}
use sapper_bricks.Handler.Http.{Request, Response, get_request, get_entity}

module _ (J : JsonLib) (M : HandlerLib) (laws : IsHandler M) {W : Type 0} (api : Api W) where
  -- The response with the text of an entity.
  abbrev pub content : Result String → Response → Response
  content (returns text) r = record {
    status = M.to_http StatusCode.ok;
    body = text;
    content_type = "application/json";
  }
  content (throws x) r = refusal J M laws api x r

  -- The response for what GetEntity came to.
  abbrev pub get_response : String → Result (Option Entity) → Response → Response
  get_response id (throws x) r = refusal J M laws api x r
  get_response id (returns none) r = record r {
    status = M.to_http StatusCode.not_found;
    body = Prim.Native.String.◌++◌ "unknown entity with id " id;
  }
  get_response id (returns (some e)) r = content (encode J e) r

  -- A GET never throws. With a path that is no "/…/…" it calls nothing and answers with the status
  -- of an exception. Otherwise it calls GetEntity once, with the last segment of the path, and
  -- answers with the JSON text of the entity, with not found and the id, or with the status of what
  -- GetEntity or the encoding threw.
  pub http_get_entity_lem :
      (request : Request) (r : Response) (w : W)
      → ((x : Exn)
          → extract_id request.path ≡ throws x
          → get_entity J M api request (r, w) ≡ (returns tt, (refusal J M laws api x r, w)))
        × ((id : String)
            → extract_id request.path ≡ returns id
            → get_entity J M api request (r, w)
              ≡ (returns tt, (get_response id (api.get_entity id w).0 r, (api.get_entity id w).1)))
  unfolding get_entity
  http_get_entity_lem request r w =
      let run = processed J M laws api (get_request J M api request) "getEntity" (r, w) in
      (
        λ x p. run ∙ (unfold get_request in rw p),
        λ id p.
            run
            ∙ (unfold get_request in
                rw p (elim (Result-cases (api.get_entity id w).0) [
                  | inr (x, k) ↦ rw k
                  | inl (none, k) ↦ rw k
                  | inl (some e, k) ↦ elim (Result-cases (encode J e)) [
                    | inl (text, t) ↦ rw (k, t)
                    | inr (x, t) ↦ rw (k, t)
                  ]
                ])),
      )
