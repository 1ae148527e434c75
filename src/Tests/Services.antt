-- ===== src/Tests/Services.antt =====
-- The HTTP handler with its routes, and the life of a gRPC server.
use sapper_bricks.Prelude.{
  String, ◌≡◌, refl, Bool, true, false, not, ◌&&◌, ◌||◌, none, some, List, [], ◌∷◌, ◌==◌,
  if◌then◌else◌,
}
use sapper_bricks.Effect.{returns, pure}
use sapper_bricks.Repo.InMemory.{InMemoryRepo}
use sapper_bricks.Repo.InMemory.Refines.{view}
use sapper_bricks.Handler.Http.{Request, Response}
use sapper_bricks.Handler.Http.Server.{
  Method, get, put, other, RequestHandler, ServerLib, IsServer, is_get, is_put, answer_all,
}
use sapper_bricks.Handler.Http.Service.{svr, spec_all, answer_all-spec_all}
use sapper_bricks.Handler.Http.WellFormed.{IsWellFormed, answer_all-IsWellFormed}
use sapper_bricks.Dict.{find}
use sapper_bricks.Tests.Json.Laws.{json_laws}
use sapper_bricks.Handler.Grpc.Server.{Running, Event, handles, stops, looks, run}
use sapper_bricks.Handler.Grpc.Stopping.{is_returned, run-is_premature}
use sapper_bricks.Tests.Json.{json}
use sapper_bricks.Tests.Requests.{handlers, handler_laws}
use sapper_bricks.Tests.Samples.{no_entities}

-- A server is the list of its routes, the latest first.
pub data Route (W : Type 0) : Type 0 where
  route_to : Method → String → RequestHandler W → Route W

abbrev is_method : Method → Method → Bool
is_method get m = is_get m
is_method put m = is_put m
is_method other m = false

abbrev fits : String → String → Bool
fits pattern path = not (path == "/")

abbrev routed : List (Route InMemoryRepo) → Method → String → Bool
routed [] m path = false
routed (route_to method pattern h ∷ routes) m path =
    routed routes m path || (is_method method m && fits pattern path)

abbrev unrouted : Response → Response
unrouted r = record r { status = 404 }

abbrev route : List (Route InMemoryRepo) → Method → RequestHandler InMemoryRepo
route [] m request t = (returns tt, (unrouted t.0, t.1))
route (route_to method pattern h ∷ routes) m request t =
    let rest = route routes m request t in
    if routed routes m request.path
    then rest
    else if is_method method m && fits pattern request.path
    then h request t
    else rest

abbrev server : ServerLib InMemoryRepo
server = record {
  Server = List (Route InMemoryRepo);
  new = [];
  add_get = λ pattern h routes. route_to get pattern h ∷ routes;
  add_put = λ pattern h routes. route_to put pattern h ∷ routes;
  route = route;
  fits = fits;
  unrouted = unrouted;
  listen = λ s host port. pure tt;
  stop = λ s. pure tt;
}

server_laws : IsServer server routed
server_laws = record {
  routed_new = λ m path. refl;
  routed_get = λ p h s m path. refl;
  routed_put = λ p h s m path. refl;
  route_new = λ m r t. refl;
  route_get = λ p h s m r t. refl;
  route_put = λ p h s m r t. refl;
}

abbrev fresh : Response
fresh = record { status = 200; body = ""; content_type = "" }

abbrev requests : List (Method × Request)
requests =
    (put, record { path = "/Entity/a1"; body = "entity" })
    ∷ (get, record { path = "/Entity/a1"; body = "" })
    ∷ (get, record { path = "/"; body = "" })
    ∷ []

answer_all-spec_all_example :
    let routes = svr json handlers handler_laws server routed server_laws "localhost" 80 in
    let served = answer_all json handlers server routes fresh requests no_entities in
    let spec = spec_all json handlers handler_laws server (view no_entities) fresh requests in
    (served.0 ≡ spec.0) × (view served.1 ≡ spec.1)
answer_all-spec_all_example =
    answer_all-spec_all json handlers handler_laws server routed server_laws "localhost" 80 fresh
      requests no_entities

empty-IsWellFormed : IsWellFormed (view no_entities)
unfolding find
empty-IsWellFormed id e h = absurd (cc h)

answer_all-IsWellFormed_example :
    let routes = svr json handlers handler_laws server routed server_laws "localhost" 80 in
    IsWellFormed (view (answer_all json handlers server routes fresh requests no_entities).1)
answer_all-IsWellFormed_example =
    answer_all-IsWellFormed json json_laws handlers handler_laws server routed server_laws
      "localhost" 80 fresh requests no_entities empty-IsWellFormed

abbrev orderly : List Event
orderly = looks ∷ handles true ∷ looks ∷ stops ∷ looks ∷ []

run-is_premature_example :
    (false ≡ true → run "localhost" "80" orderly ≡ none)
    × (false ≡ false
        → (r : Running) × (run "localhost" "80" orderly ≡ some r) × (is_returned r.phase ≡ true))
run-is_premature_example = run-is_premature "localhost" "80" orderly
