-- ===== src/Tests/Notifiers.antt =====
-- The notifiers, and two services in a chain.
use sapper_bricks.Prelude.{
  ℕ, zero, suc, String, ◌≡◌, ◌≢◌, refl, List, [], ◌∷◌, ◌==◌, if◌then◌else◌, arith,
}
use sapper_bricks.Effect.{
  StatusCode, Status, ok, not_found, unavailable, is_ok, returns, Comp, pure,
}
use sapper_bricks.Dict.{Dict}
use sapper_bricks.Ports.{Api}
use sapper_bricks.Core.{core_api, set_entity}
use sapper_bricks.Core.Refines.{joined}
use sapper_bricks.Http.{Fetched, failed, answered}
use sapper_bricks.Json.Codec.{encode, to_json}
use sapper_bricks.Mse.{Forwards}
use sapper_bricks.Mse.Issuer.{after, FailsFor}
use sapper_bricks.Repo.InMemory.{InMemoryRepo, in_memory_repo, store}
use sapper_bricks.Handler.Http.Path.{one_line}
use sapper_bricks.Handler.Http.Path.Segments.{has_slash}
use sapper_bricks.Notifier.Http.{PutLib, HttpNotifier, put_request, entity_changed}
use sapper_bricks.Notifier.Http.Delivery.{
  on_line, sent, entity_changed_sends, entity_changed_exhausted,
}
use sapper_bricks.Notifier.Http.Chain.{served, entity_changed-served, entity_changed-slash}
use sapper_bricks.Notifier
use sapper_bricks.Notifier.PubSub.{PubSubNotifier}
use sapper_bricks.Notifier.PubSub.Chain.{topic}
use sapper_bricks.Tests.Json.{json}
use sapper_bricks.Tests.Json.Laws.{json_laws}
use sapper_bricks.Tests.Requests.{handlers, handler_laws, hooks, hook_laws}
use sapper_bricks.Tests.Samples.{blue, slashed, no_entities, quiet}

abbrev from_http : ℕ → StatusCode
from_http n = elim (Prim.Native.Nat.compare n 200) [
  | Prim.Native.Nat.Ordering.eq ↦ ok
  | _ ↦ unavailable
]

-- A receiver that cannot be reached as often as the number says.
abbrev put_flaky : Comp ℕ Fetched
put_flaky zero = (returns (answered 200 ""), zero)
put_flaky (suc n) = (returns (failed "no route"), n)

abbrev flaky_client : PutLib ℕ
flaky_client = record {
  filtered_metadata = λ headers. pure [];
  put = λ connection path headers body content_type. put_flaky;
  from_http = from_http;
}

abbrev notifier : HttpNotifier
notifier = Notifier.Http.create "http://other" [] 3 5

abbrev request : Comp ℕ Status
request = put_request json flaky_client notifier blue

fails_always : FailsFor 4 request 9
unfolding put_request encode to_json
fails_always = ((_, refl, refl), ((_, refl, refl), ((_, refl, refl), ((_, refl, refl), tt))))

entity_changed_exhausted_example :
    Forwards unavailable (entity_changed json flaky_client notifier hooks blue 9).0
    × ((entity_changed json flaky_client notifier hooks blue 9).1 ≡ after 4 request 9)
unfolding Notifier.Http.create
entity_changed_exhausted_example =
    entity_changed_exhausted json hooks hook_laws flaky_client notifier blue 9 fails_always

abbrev other_service : Api (InMemoryRepo × Unit {0})
other_service = core_api (joined in_memory_repo quiet)

translates : (code : StatusCode) → is_ok (from_http (handlers.to_http code)) ≡ is_ok code
translates ok = refl
translates not_found = refl
translates unavailable = refl
translates (StatusCode.other n) = refl

-- The path up to a query.
without_query : String → String
without_query String.[] = ""
without_query (String.◌∷◌ c s) =
    if String.◌∷◌ c "" == "?" then "" else String.◌∷◌ c (without_query s)

entity_changed-served_example :
    entity_changed json
      (served json handlers other_service from_http without_query)
      notifier
      hooks
      blue
      (no_entities, tt)
    ≡ (returns tt, (other_service.set_entity blue (no_entities, tt)).1)
unfolding one_line has_slash encode to_json set_entity store without_query
entity_changed-served_example =
    entity_changed-served json handlers other_service from_http json_laws handler_laws translates
      hooks hook_laws notifier without_query blue "entity" (omega arith) refl (no_entities, tt) refl
      refl refl refl

entity_changed-slash_example :
    let sent =
      entity_changed json
        (served json handlers other_service from_http without_query)
        notifier
        hooks
        slashed
        (no_entities, tt) in
    (sent.0 ≢ returns tt) × (sent.1 ≡ (no_entities, tt))
unfolding has_slash encode to_json
entity_changed-slash_example =
    entity_changed-slash json handlers other_service from_http json_laws handler_laws translates
      hooks hook_laws notifier without_query slashed "slash" (omega arith) refl (no_entities, tt)
      refl

blue_text : encode json blue ≡ returns "entity"
unfolding encode to_json
blue_text = refl

abbrev topic_notifier : PubSubNotifier (String × String)
topic_notifier = Notifier.PubSub.create topic "project" "entities" ("b3" ∷ [])

-- Only the header of the trace is in the context.
abbrev filter : List String → Dict String
filter names = ("b3", "1-2") ∷ []

entity_changed_sends_example :
    let put = sent json hooks hook_laws filter from_http notifier blue "entity" blue_text in
    entity_changed json
      (on_line filter from_http)
      notifier
      hooks
      blue
      ([], failed "no route" ∷ answered 503 "" ∷ answered 200 "" ∷ answered 200 "" ∷ [])
    ≡ (returns tt, (put ∷ put ∷ put ∷ [], answered 200 "" ∷ []))
unfolding Notifier.Http.create
entity_changed_sends_example =
    entity_changed_sends json hooks hook_laws filter from_http notifier blue "entity" blue_text 2 1
      (failed "no route" ∷ answered 503 "" ∷ []) (answered 200 "" ∷ []) (answered 200 "")
      (omega arith) (refl, (refl, tt)) refl

-- The messages come in the other order, and one of them twice.
abbrev received : List String
received = "slash" ∷ "entity" ∷ "slash" ∷ []
