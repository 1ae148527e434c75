-- ===== src/Handler/Grpc/Stopping.antt =====
-- When the gRPC handler ends, and when the program does, for every order of the calls.
use sapper_bricks.Prelude.{String, ◌≡◌, refl, Bool, true, false, Option, none, some, List, [], ◌∷◌}
use sapper_bricks.Handler.Grpc.Server.{
  Server, serving, shut, ServerBuilder, Phase, before, waiting, returned, Running, Event, handles,
  stops, looks, step, run_from, run, create,
}

-- Stop, or a Handle whose server does not start, is the first of the calls.
abbrev pub is_premature : List Event → Bool
is_premature [] = false
is_premature (handles true ∷ events) = false
is_premature (handles false ∷ events) = true
is_premature (stops ∷ events) = true
is_premature (looks ∷ events) = is_premature events

abbrev pub has_look : List Event → Bool
has_look [] = false
has_look (looks ∷ events) = true
has_look (handles started ∷ events) = has_look events
has_look (stops ∷ events) = has_look events

-- Wait looks after the first Stop.
abbrev pub is_woken : List Event → Bool
is_woken [] = false
is_woken (stops ∷ events) = has_look events
is_woken (looks ∷ events) = is_woken events
is_woken (handles started ∷ events) = is_woken events

abbrev pub is_returned : Phase → Bool
is_returned before = false
is_returned waiting = false
is_returned returned = true

module _ (builder : ServerBuilder) where
  abbrev at : Option Server → Phase → Running
  at server phase = record {
    impl = record { server = server; server_builder = builder };
    phase = phase;
  }

  -- The run goes on, and whether Handle has returned in the end is `b`.
  abbrev Ends : Option Running → Bool → Type 0
  Ends left b = (r : Running) × (left ≡ some r) × (is_returned r.phase ≡ b)

  after_return : (events : List Event) → Ends (run_from events (at (some shut) returned)) true
  unfolding run_from step
  after_return [] = (at (some shut) returned, refl, refl)
  after_return (handles true ∷ events) = after_return events
  after_return (handles false ∷ events) = after_return events
  after_return (stops ∷ events) = after_return events
  after_return (looks ∷ events) = after_return events

  after_stop :
      (events : List Event) → Ends (run_from events (at (some shut) waiting)) (has_look events)
  unfolding run_from step
  after_stop [] = (at (some shut) waiting, refl, refl)
  after_stop (handles true ∷ events) = after_stop events
  after_stop (handles false ∷ events) = after_stop events
  after_stop (stops ∷ events) = after_stop events
  after_stop (looks ∷ events) = after_return events

  after_start :
      (events : List Event) → Ends (run_from events (at (some serving) waiting)) (is_woken events)
  unfolding run_from step
  after_start [] = (at (some serving) waiting, refl, refl)
  after_start (handles true ∷ events) = after_start events
  after_start (handles false ∷ events) = after_start events
  after_start (stops ∷ events) = after_stop events
  after_start (looks ∷ events) = after_start events

  abbrev Outcome : Option Running → List Event → Type 0
  Outcome left events =
      (is_premature events ≡ true → left ≡ none)
      × (is_premature events ≡ false → Ends left (is_woken events))

  from_create : (events : List Event) → Outcome (run_from events (at none before)) events
  unfolding run_from step
  from_create [] = (λ h. cc, λ h. (at none before, refl, refl))
  from_create (handles true ∷ events) = (λ h. cc, λ h. after_start events)
  from_create (handles false ∷ events) = (λ h. refl, λ h. cc)
  from_create (stops ∷ events) = (λ h. refl, λ h. cc)
  from_create (looks ∷ events) = from_create events

-- In whatever order Handle and Stop are called and Wait looks at its server, the program ends on a
-- null pointer exactly if the first of the calls is Stop or a Handle whose server does not start.
-- Otherwise, also with several calls of Stop, it never does, and Handle has returned exactly if Wait
-- has looked after the first Stop.
pub run-is_premature :
    (host port : String) (events : List Event)
    → (is_premature events ≡ true → run host port events ≡ none)
      × (is_premature events ≡ false
          → (r : Running) × (run host port events ≡ some r)
            × (is_returned r.phase ≡ is_woken events))
unfolding run create
run-is_premature host port events = from_create _ events
