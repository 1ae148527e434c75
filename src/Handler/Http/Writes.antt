-- ===== src/Handler/Http/Writes.antt =====
-- The answer to a PUT, as a function of its body, its path and the Api.
use sapper_bricks.Prelude.{String, ◌≡◌, inl, inr, ◌==◌, eq_iff, if◌then◌else◌, Bool-cases}
use sapper_bricks.Effect.{invalid_argument, Result, returns, throws}
use sapper_bricks.Effect.Laws.{Result-cases}
use sapper_bricks.Ports.{Entity, Api}
use sapper_bricks.Json.{JsonLib}
use sapper_bricks.Handler.{HandlerLib, IsHandler, read_entity}
use sapper_bricks.Handler.Http.Path.{extract_id}
use sapper_bricks.Handler.Http.Requests.{
  refusal, set_response, set_entity-called, set_entity-thrown,
}
use sapper_bricks.Handler.Http.{Request, Response, set_request, set_entity}

module _ (J : JsonLib) (M : HandlerLib) (laws : IsHandler M) {W : Type 0} (api : Api W) where
  abbrev pub put_result : Result Entity → Result String → Response → W → Response × W
  put_result (throws x) path r w = (refusal J M laws api x r, w)
  put_result (returns e) (throws x) r w = (refusal J M laws api x r, w)
  put_result (returns e) (returns id) r w =
      if e.id == id
      then (set_response J M laws api (api.set_entity e w).0 r, (api.set_entity e w).1)
      else (refusal J M laws api (invalid_argument "inconsistent id") r, w)

  pub http_set_entity_lem :
      (request : Request) (r : Response) (w : W)
      → set_entity J M api request (r, w)
        ≡ (returns tt, put_result (read_entity J request.body) (extract_id request.path) r w)
  http_set_entity_lem request r w =
      let refused = set_entity-thrown J M laws api request r w in
      elim (Result-cases (read_entity J request.body)) [
        | inr (x, e) ↦ rw (refused x (unfold set_request in rw e), e)
        | inl (entity, e) ↦ elim (Result-cases (extract_id request.path)) [
          | inr (x, p) ↦ rw (refused x (unfold set_request in rw (e, p)), e, p)
          | inl (id, p) ↦ elim (Bool-cases (entity.id == id)) [
            | inl same ↦
                let here : extract_id request.path ≡ returns entity.id =
                  rw ((eq_iff entity.id id).0 same) p in
                rw (set_entity-called J M laws api request r w entity e here, e, p, same)
            | inr differs ↦ rw (
              refused (invalid_argument "inconsistent id")
                  (unfold set_request in rw (e, p, differs)),
              e,
              p,
              differs,
            )
          ]
        ]
      ]
