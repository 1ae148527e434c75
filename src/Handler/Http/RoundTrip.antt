-- ===== src/Handler/Http/RoundTrip.antt =====
-- A PUT and a later GET, through the handler, the core and any repository that keeps its contract.
use sapper_bricks.Prelude.{String, ◌≡◌, ap, ◌∙◌, true, false, Option, some, eq_refl}
use sapper_bricks.Prelude.Int.{IsInt32}
use sapper_bricks.Effect.{StatusCode, returns}
use sapper_bricks.Ports.{Entity, Api, EntityRepo, EntityNotifier}
use sapper_bricks.Ports.Contract.{IsRepo}
use sapper_bricks.Core
use sapper_bricks.Core.{core_api}
use sapper_bricks.Core.Refines.{joined, get_entity-set_entity}
use sapper_bricks.Json.{JsonLib, IsJson}
use sapper_bricks.Json.Codec.{encode}
use sapper_bricks.Handler.{HandlerLib, IsHandler}
use sapper_bricks.Handler.Http.Path.{extract_id, one_line}
use sapper_bricks.Handler.Http.Path.Segments.{has_slash, extract_id-entity}
use sapper_bricks.Handler.Http.Requests.{path_of, set_entity-put}
use sapper_bricks.Handler.Http.Reads.{http_get_entity_lem}
use sapper_bricks.Handler.Http.{Response, get_entity, set_entity}

module _ (J : JsonLib) (json : IsJson J) (M : HandlerLib) (laws : IsHandler M) {W V : Type 0}
    (r : EntityRepo W) (view : W → String → Option Entity) (c : IsRepo r view)
    (n : EntityNotifier V) where
  abbrev api : Api (W × V)
  api = core_api (joined r n)

  -- After a PUT of an entity, whose id has no slash and no line break, in which SetEntity returned,
  -- a GET of its path in which GetEntity returns answers ok with the text of that very entity.
  pub get_entity-set_entity_http :
      (e : Entity) (text : String) (first second : Response) (s : W × V) (found : Option Entity)
      → IsInt32 e.int_property
      → encode J e ≡ returns text
      → one_line e.id ≡ true
      → has_slash e.id ≡ false
      → (Core.set_entity (joined r n) e s).0 ≡ returns tt
      → (Core.get_entity (joined r n) e.id (Core.set_entity (joined r n) e s).1).0 ≡ returns found
      → let after =
          (set_entity J M api (record { path = path_of e.id; body = text }) (first, s)).1.1 in
        (get_entity J M api (record { path = path_of e.id; body = "" }) (second, after)).1.0
        ≡ record {
          status = M.to_http StatusCode.ok;
          body = text;
          content_type = "application/json";
        }
  get_entity-set_entity_http e text first second s found range encoded line no_slash set got =
      let put = set_entity-put J M laws api e text first s json range encoded line no_slash in
      let there : extract_id (path_of e.id) ≡ returns e.id =
        (extract_id-entity e.id).0
        ∙ rw line (ap (λ id. returns id) ((extract_id-entity e.id).1.1 no_slash)) in
      let middle = (Core.set_entity (joined r n) e s).1 in
      let read =
        (http_get_entity_lem J M laws api (record { path = path_of e.id; body = "" }) second
            middle).1
          e.id there in
      let own : found ≡ some e =
        get_entity-set_entity r view c n e e.id s.0 s.1 found range set got ∙ rw (eq_refl e.id) in
      rw put (rw read (rw got (rw own (rw encoded))))
