-- ===== src/Handler/Grpc/Server.antt =====
-- The server of the gRPC handler: the constructor, Handle and Stop, which the thread of main and
-- the thread of a shutdown call. The pointer `_server` is null until Handle has built the server;
-- following a null pointer ends the program, which is `none` here. BuildAndStart gives null if the
-- server cannot be started; Wait returns once Shutdown was called (both from the documentation).
use Prim.Native.String.{◌++◌}
use sapper_bricks.Prelude.{
  ℕ, String, Bool, true, false, Option, none, some, List, [], ◌∷◌, if◌then◌else◌,
}

-- grpc::Server, once it is started
pub data Server : Type 0 where
  serving shut : Server

-- What ServerBuilder was told: the ports, and how many services.
pub record ServerBuilder : Type 0 where
  pub listening_ports : List String
  pub services : ℕ

-- GrpcHandler::Impl, less the Api.
pub record Impl : Type 0 where
  pub server : Option Server
  pub server_builder : ServerBuilder

-- The constructor, of a host and of the text of a port.
unfoldable pub create : String → String → Impl
create host port = record {
  server = none;
  server_builder = record { listening_ports = (host ++ (":" ++ port)) ∷ []; services = 1 };
}

-- _server->Shutdown()
shutdown : Option Server → Option Server
shutdown none = none
shutdown (some server) = some shut

-- Stop: none if the program ends on the null pointer.
unfoldable pub stop : Impl → Option Impl
unfolding shutdown
stop impl = elim (shutdown impl.server) [
  | none ↦ none
  | some server ↦ some (record impl { server = some server })
]

-- _server = _serverBuilder.BuildAndStart(), by whether the server could be started, up to the call
-- of Wait, which follows the pointer.
unfoldable pub start : Bool → Impl → Option Impl
start true impl = some (record impl { server = some serving })
start false impl = none

-- Whether Wait returns.
abbrev pub is_shut : Option Server → Bool
is_shut (some shut) = true
is_shut other = false

-- Where the thread in Handle is.
pub data Phase : Type 0 where
  before waiting returned : Phase

pub record Running : Type 0 where
  pub impl : Impl
  pub phase : Phase

-- What the two threads and the server do, one after another: Handle is called and the server starts
-- or not; Stop is called; Wait looks whether the server is shut.
pub data Event : Type 0 where
  handles : Bool → Event
  stops : Event
  looks : Event

abbrev put_impl : Phase → Option Impl → Option Running
put_impl phase none = none
put_impl phase (some impl) = some (record { impl = impl; phase = phase })

-- Wait returns or goes on.
abbrev look : Impl → Phase → Phase
look impl waiting = if is_shut impl.server then returned else waiting
look impl before = before
look impl returned = returned

-- Handle is called once.
abbrev handle : Bool → Impl → Phase → Option Running
handle started impl before = put_impl waiting (start started impl)
handle started impl waiting = some (record { impl = impl; phase = waiting })
handle started impl returned = some (record { impl = impl; phase = returned })

unfoldable pub step : Event → Running → Option Running
unfolding start stop
step (handles started) r = handle started r.impl r.phase
step stops r = put_impl r.phase (stop r.impl)
step looks r = some (record r { phase = look r.impl r.phase })

-- `none` as soon as the program has ended on a null pointer.
unfoldable pub run_from : List Event → Running → Option Running
run_from [] r = some r
run_from (event ∷ events) r = elim (step event r) [ none ↦ none | some next ↦ run_from events next ]

unfoldable pub run : String → String → List Event → Option Running
unfolding run_from create
run host port events = run_from events (record { impl = create host port; phase = before })
