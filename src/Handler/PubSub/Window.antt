-- ===== src/Handler/PubSub/Window.antt =====
-- Which messages a run of Handle processes, and when it ends, for every order of the events.
use mathlib.Core.Path.{subst}
use mathlib.Core.List.{append-nil, append_assoc}
use sapper_bricks.Prelude.{String, ◌≡◌, refl, sym, ap, Bool, true, false, List, [], ◌∷◌, ◌++◌}
use sapper_bricks.Ports.{Api}
use sapper_bricks.Json.{JsonLib}
use sapper_bricks.Handler.{HandlerLib, IsHandler, read_entity}
use sapper_bricks.Handler.PubSub.{on_message}
use sapper_bricks.Handler.PubSub.Delivery.{
  api_right, acknowledge, applied, applied_entity, on_message_lem,
}
use sapper_bricks.Handler.PubSub.Stopping
use sapper_bricks.Handler.PubSub.Stopping.{wake}
use sapper_bricks.Handler.PubSub.Session.{
  create, Event, handles, receives, stops, wakes, ends, Session, unsubscribed, subscribed,
  cancelled, finished, Running, run,
}

-- The messages that are called back from here to the end of a session that was cancelled.
abbrev pub until_end : List Event → List String
until_end [] = []
until_end (receives message ∷ events) = message ∷ until_end events
until_end (ends ∷ events) = []
until_end (event ∷ events) = until_end events

-- The messages from here to that end, where a look at the flag after a Stop cancels the session;
-- `stopped` says whether Stop was called already.
abbrev pub until_look : Bool → List Event → List String
until_look stopped [] = []
until_look stopped (receives message ∷ events) = message ∷ until_look stopped events
until_look stopped (stops ∷ events) = until_look true events
until_look true (wakes ∷ events) = until_end events
until_look stopped (event ∷ events) = until_look stopped events

-- The messages of the whole run: those behind the first call of Handle.
abbrev pub window : Bool → List Event → List String
window stopped [] = []
window stopped (handles ∷ events) = until_look stopped events
window stopped (stops ∷ events) = window true events
window stopped (event ∷ events) = window stopped events

-- Where the session is after the run.
abbrev pub ending : List Event → Session
ending [] = cancelled
ending (ends ∷ events) = finished
ending (event ∷ events) = ending events

abbrev pub looking : Bool → List Event → Session
looking stopped [] = subscribed
looking stopped (stops ∷ events) = looking true events
looking true (wakes ∷ events) = ending events
looking stopped (event ∷ events) = looking stopped events

abbrev pub session_of : Bool → List Event → Session
session_of stopped [] = unsubscribed
session_of stopped (handles ∷ events) = looking stopped events
session_of stopped (stops ∷ events) = session_of true events
session_of stopped (event ∷ events) = session_of stopped events

module _ (J : JsonLib) (M : HandlerLib) (laws : IsHandler M) {W : Type 0} (api : Api W)
    (project subscription : String) where
  abbrev in_state : Bool → Bool → Session → List String × W → Running (List String × W)
  in_state stopped returned session s = record {
    handler = record (create (api_right J M laws api) project subscription) {
      waiting = record { stop_requested = stopped; returned = returned };
    };
    session = session;
    world = s;
  }

  abbrev run_of : List Event → Running (List String × W) → Running (List String × W)
  run_of = run J M (acknowledge J M laws api)

  -- What a run leaves: the messages it took, and its session.
  abbrev Leaves : Running (List String × W) → List String × W → List String → Session → Type 0
  Leaves left s messages session =
      (left.world ≡ (s.0 ++ messages, applied J M laws api messages s.1)) × (left.session ≡ session)

  -- A run that goes on behind a message that was processed.
  extended :
      (rest : List String × W → Running (List String × W)) (message : String)
      (messages : List String) (session : Session) (s : List String × W)
      → let t : List String × W =
          (s.0 ++ message ∷ [], applied_entity J M laws api (read_entity J message) s.1) in
        Leaves (rest t) t messages session
        → Leaves
            (rest (on_message J M (api_right J M laws api) (acknowledge J M laws api) message s).1)
            s
            (message ∷ messages)
            session
  extended rest message messages session s (worlds, over) =
      let processed = ap (λ r. r.1) (on_message_lem J M laws api message s) in
      subst (λ u. Leaves (rest u) s (message ∷ messages) session) (sym processed)
        (rw (append_assoc s.0 (message ∷ []) messages) at worlds, over)

  over :
      (events : List Event) (stopped : Bool) (s : List String × W)
      → Leaves (run_of events (in_state stopped true finished s)) s [] finished
  unfolding run create Stopping.stop
  over [] stopped s = (rw (append-nil s.0), refl)
  over (handles ∷ events) stopped s = over events stopped s
  over (receives message ∷ events) stopped s = over events stopped s
  over (stops ∷ events) stopped s = over events true s
  over (wakes ∷ events) stopped s = over events stopped s
  over (ends ∷ events) stopped s = over events stopped s

  when_cancelled :
      (events : List Event) (stopped : Bool) (s : List String × W)
      → Leaves
          (run_of events (in_state stopped true cancelled s))
          s
          (until_end events)
          (ending events)
  unfolding run create Stopping.stop
  when_cancelled [] stopped s = (rw (append-nil s.0), refl)
  when_cancelled (handles ∷ events) stopped s = when_cancelled events stopped s
  when_cancelled (receives message ∷ events) stopped s =
      extended (λ u. run_of events (in_state stopped true cancelled u)) message (until_end events)
        (ending events) s (when_cancelled events stopped _)
  when_cancelled (stops ∷ events) stopped s = when_cancelled events true s
  when_cancelled (wakes ∷ events) stopped s = when_cancelled events stopped s
  when_cancelled (ends ∷ events) stopped s = over events stopped s

  when_subscribed :
      (events : List Event) (stopped : Bool) (s : List String × W)
      → Leaves
          (run_of events (in_state stopped false subscribed s))
          s
          (until_look stopped events)
          (looking stopped events)
  unfolding run create Stopping.stop wake
  when_subscribed [] stopped s = (rw (append-nil s.0), refl)
  when_subscribed (handles ∷ events) stopped s = when_subscribed events stopped s
  when_subscribed (receives message ∷ events) stopped s =
      extended (λ u. run_of events (in_state stopped false subscribed u)) message
        (until_look stopped events) (looking stopped events) s (when_subscribed events stopped _)
  when_subscribed (stops ∷ events) stopped s = when_subscribed events true s
  when_subscribed (wakes ∷ events) true s = when_cancelled events true s
  when_subscribed (wakes ∷ events) false s = when_subscribed events false s
  when_subscribed (ends ∷ events) stopped s = when_subscribed events stopped s

  when_unsubscribed :
      (events : List Event) (stopped : Bool) (s : List String × W)
      → Leaves
          (run_of events (in_state stopped false unsubscribed s))
          s
          (window stopped events)
          (session_of stopped events)
  unfolding run create Stopping.stop
  when_unsubscribed [] stopped s = (rw (append-nil s.0), refl)
  when_unsubscribed (handles ∷ events) stopped s = when_subscribed events stopped s
  when_unsubscribed (receives message ∷ events) stopped s = when_unsubscribed events stopped s
  when_unsubscribed (stops ∷ events) stopped s = when_unsubscribed events true s
  when_unsubscribed (wakes ∷ events) stopped s = when_unsubscribed events stopped s
  when_unsubscribed (ends ∷ events) stopped s = when_unsubscribed events stopped s

-- A handler that no thread has touched yet, in a world.
abbrev pub fresh : {W : Type 0} → Api W → String → String → W → Running W
fresh api project subscription w = record {
  handler = create api project subscription;
  session = unsubscribed;
  world = w;
}

-- In whatever order Handle and Stop are called, the library calls back, the wait looks at its flag
-- and a session that was cancelled ends: each message that is called back between the call of Handle
-- and the end of its cancelled session is acknowledged once, in the order of the callbacks, and
-- SetEntity is called for the entities among them; no other message is acknowledged. Handle cancels
-- the session at the first look behind a Stop, also if Stop was called before Handle, and returns
-- at the end of the session behind that, and at no other time.
pub run-window :
    (J : JsonLib) (M : HandlerLib) (laws : IsHandler M) {W : Type 0} (api : Api W)
    (project subscription : String) (events : List Event) (w : W)
    → let left =
        run J M
          (acknowledge J M laws api)
          events
          (fresh (api_right J M laws api) project subscription ([], w)) in
      (left.world ≡ (window false events, applied J M laws api (window false events) w))
      × (left.session ≡ session_of false events)
unfolding create
run-window J M laws api project subscription events w =
    when_unsubscribed J M laws api project subscription events false ([], w)
