-- ===== src/Tests/Handlers.antt =====
-- The handlers and the notifiers.
use sapper_bricks.Prelude.{◌≡◌, refl, none, some, List, [], ◌∷◌, arith}
use sapper_bricks.Effect.{Status, status_ok, returns}
use sapper_bricks.Dict.{find, assign}
use sapper_bricks.Ports.{Api}
use sapper_bricks.Core.{core_api, set_entity, get_entity}
use sapper_bricks.Core.Refines.{joined}
use sapper_bricks.Json.Codec.{encode, to_json}
use sapper_bricks.Repo.InMemory.{InMemoryRepo, in_memory_repo, store, retrieve}
use sapper_bricks.Repo.InMemory.Refines.{view, in_memory_repo-IsRepo}
use sapper_bricks.Handler.Http
use sapper_bricks.Handler.Http.{Request, Response}
use sapper_bricks.Handler.Http.Path.{one_line}
use sapper_bricks.Handler.Http.Path.Segments.{has_slash}
use sapper_bricks.Handler.Http.Requests.{Outcome, set_entity-Outcome}
use sapper_bricks.Handler.Http.RoundTrip.{get_entity-set_entity_http}
use sapper_bricks.Handler.Cli
use sapper_bricks.Handler.Cli.Commands.{get_result, cli_get_entity_lem}
use sapper_bricks.Handler.Grpc
use sapper_bricks.Handler.Grpc.{GetEntityResponse}
use sapper_bricks.Handler.Grpc.RoundTrip.{get_entity-set_entity_grpc}
use sapper_bricks.Handler.PubSub.{deliver}
use sapper_bricks.Handler.PubSub.Delivery.{api_right, acknowledge, applied, deliver_lem}
use sapper_bricks.Handler.PubSub.Session.{
  Event, handles, receives, stops, wakes, ends, finished, run,
}
use sapper_bricks.Handler.PubSub.Window
use sapper_bricks.Handler.PubSub.Window.{run-window}
use sapper_bricks.Tests.Json.{json}
use sapper_bricks.Tests.Json.Laws.{json_laws}
use sapper_bricks.Tests.Requests.{handlers, handler_laws}
use sapper_bricks.Tests.Samples.{blue, no_entities, quiet}

abbrev api : Api (InMemoryRepo × Unit {0})
api = core_api (joined in_memory_repo quiet)

abbrev world : InMemoryRepo × Unit {0}
world = (no_entities, tt)

abbrev fresh : Response
fresh = record { status = 200; body = ""; content_type = "" }

abbrev put_blue : Request
put_blue = record { path = "/Entity/a1"; body = "entity" }

blue_text : encode json blue ≡ returns "entity"
unfolding encode to_json
blue_text = refl

set_entity-Outcome_example :
    ((Http.set_entity json handlers api put_blue (fresh, world)).0 ≡ returns tt)
    × Outcome json handlers handler_laws api put_blue fresh world
        (Http.set_entity json handlers api put_blue (fresh, world)).1
set_entity-Outcome_example = set_entity-Outcome json handlers handler_laws api put_blue fresh world

get_entity-set_entity_http_example :
    let after_put = (Http.set_entity json handlers api put_blue (fresh, world)).1.1 in
    (Http.get_entity json handlers api
      (record { path = "/Entity/a1"; body = "" })
      (fresh, after_put)).1.0
    ≡ record { status = 200; body = "entity"; content_type = "application/json" }
unfolding one_line has_slash set_entity get_entity store retrieve assign find
get_entity-set_entity_http_example =
    get_entity-set_entity_http json json_laws handlers handler_laws in_memory_repo view
      in_memory_repo-IsRepo quiet blue "entity" fresh fresh world (some blue) (omega arith)
      blue_text refl refl refl refl

cli_get_entity_lem_example : Cli.get_entity json handlers api "a1" world ≡ (
  get_result json handlers handler_laws api "a1" (api.get_entity "a1" world).0,
  (api.get_entity "a1" world).1,
)
cli_get_entity_lem_example = cli_get_entity_lem json handlers handler_laws api "a1" world

abbrev same_status : Status → Status
same_status s = s

abbrev no_response : GetEntityResponse
no_response = record { entity = none }

deliver_lem_example :
    deliver json handlers
      (api_right json handlers handler_laws api)
      (acknowledge json handlers handler_laws api)
      ("entity" ∷ "nonsense" ∷ [])
      ([], world)
    ≡ (
      returns tt,
      (
        "entity" ∷ "nonsense" ∷ [],
        applied json handlers handler_laws api ("entity" ∷ "nonsense" ∷ []) world,
      ),
    )
deliver_lem_example =
    deliver_lem json handlers handler_laws api ("entity" ∷ "nonsense" ∷ []) ([], world)

get_entity-set_entity_grpc_example :
    let (answer, after) = Grpc.set_entity handlers same_status api blue world in
    let left = Grpc.get_entity handlers same_status api "a1" (no_response, after) in
    (answer ≡ returns status_ok)
    × (left.0 ≡ returns status_ok)
    × (left.1.0 ≡ record { entity = some blue })
unfolding set_entity get_entity store retrieve assign find
get_entity-set_entity_grpc_example =
    get_entity-set_entity_grpc handlers handler_laws same_status in_memory_repo view
      in_memory_repo-IsRepo quiet blue "a1" no_response world (some blue) (omega arith) refl refl

-- The first callback comes too early and the last too late; one comes after the cancellation.
abbrev events : List Event
events =
    receives "slash"
    ∷ handles
    ∷ receives "entity"
    ∷ wakes
    ∷ stops
    ∷ wakes
    ∷ receives "nonsense"
    ∷ ends
    ∷ receives "slash"
    ∷ []

run-window_example :
    let left =
      run json handlers
        (acknowledge json handlers handler_laws api)
        events
        (Window.fresh (api_right json handlers handler_laws api) "project" "topic" ([], world)) in
    (left.world ≡ (
      "entity" ∷ "nonsense" ∷ [],
      applied json handlers handler_laws api ("entity" ∷ "nonsense" ∷ []) world,
    ))
    × (left.session ≡ finished)
run-window_example = run-window json handlers handler_laws api "project" "topic" events world
