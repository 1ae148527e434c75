-- ===== src/Handler/PubSub/Session.antt =====
-- The object PubSubHandler and a run of its Handle: subscribing, the callback for each message,
-- waiting for Stop, the cancellation of the subscription, and the wait for its end. The subscriber
-- of the Google library calls back only between Subscribe and the end of the session, also after it
-- was cancelled (from its documentation). A callback is one event of a run, also where the threads
-- of the library make several at a time; which message is called back when is not fixed.
use sapper_bricks.Prelude.{String, Bool, true, false, Option, none, some, List, [], ◌∷◌}
use sapper_bricks.Effect.{Comp}
use sapper_bricks.Ports.{Api}
use sapper_bricks.Json.{JsonLib}
use sapper_bricks.Handler.{HandlerLib}
use sapper_bricks.Handler.PubSub.{on_message}
use sapper_bricks.Handler.PubSub.Stopping
use sapper_bricks.Handler.PubSub.Stopping.{Waiting, wake}

-- PubSubHandler, less the mutex and the condition variable.
pub record PubSubHandler (W : Type 0) : Type 0 where
  pub api : Api W
  pub google_project_id : String
  pub subscription_id : String
  pub waiting : Waiting

-- The constructor.
unfoldable pub create : {W : Type 0} → Api W → String → String → PubSubHandler W
create api google_project_id subscription_id = record {
  api = api;
  google_project_id = google_project_id;
  subscription_id = subscription_id;
  waiting = Stopping.start;
}

pub data Event : Type 0 where
  -- Handle is called, and subscribes
  handles : Event
  -- the library calls back with a message, if there is a session to do so; a message without one
  -- stays in the subscription, for a later event
  receives : String → Event
  -- Stop is called
  stops : Event
  -- the wait of Handle looks at its predicate
  wakes : Event
  -- a session that was cancelled ends: the future has its status
  ends : Event

pub data Session : Type 0 where
  unsubscribed : Session
  -- future_status before and after its cancellation
  subscribed : Session
  cancelled : Session
  -- Handle has returned
  finished : Session

-- Whether the library may call back.
abbrev pub is_live : Session → Bool
is_live subscribed = true
is_live cancelled = true
is_live other_session = false

-- The handler, the session of its Handle, and the world.
pub record Running (W : Type 0) : Type 0 where
  pub handler : PubSubHandler W
  pub session : Session
  pub world : W

module _ (J : JsonLib) (M : HandlerLib) {W : Type 0}
    (acknowledge : String → Comp W (Unit {0})) where
  -- The end of the wait cancels the subscription.
  abbrev put_woken : Running W → Option Waiting → Running W
  put_woken r none = r
  put_woken r (some waiting) = record r {
    handler = record r.handler { waiting = waiting };
    session = cancelled;
  }

  -- Handle waits on the condition variable only until it cancels.
  abbrev look : Running W → Session → Running W
  look r subscribed = put_woken r (wake r.handler.waiting)
  look r other_session = r

  abbrev finish : Running W → Session → Running W
  finish r cancelled = record r { session = finished }
  finish r other_session = r

  abbrev receive : Running W → String → Bool → Running W
  receive r message false = r
  receive r message true = record r {
    world = (on_message J M r.handler.api acknowledge message r.world).1;
  }

  -- A second call of Handle on the object does not occur: main calls it once.
  abbrev subscribe : Running W → Session → Running W
  subscribe r unsubscribed = record r { session = subscribed }
  subscribe r other_session = r

  unfoldable pub step : Event → Running W → Running W
  step handles r = subscribe r r.session
  step (receives message) r = receive r message (is_live r.session)
  step stops r = record r {
    handler = record r.handler { waiting = Stopping.stop r.handler.waiting };
  }
  step wakes r = look r r.session
  step ends r = finish r r.session

  unfoldable pub run : List Event → Running W → Running W
  unfolding step
  run [] r = r
  run (event ∷ events) r = run events (step event r)
