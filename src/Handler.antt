-- ===== src/Handler.antt =====
-- What the handlers under handler/ share: the request library (microservice-essentials), which runs
-- each of their methods, as a parameter; the reading of a JSON entity; and the answers.
pub mod Http
pub mod Cli
pub mod Grpc
pub mod PubSub
use Prim.Native.String
use sapper_bricks.Prelude.{ℕ, String, ◌≡◌, false}
use sapper_bricks.Effect.{
  StatusCode, Status, not_found, is_ok, Exn, json_error, invalid_argument, Result, returns, throws,
  Comp,
}
use sapper_bricks.Effect.Fail.{map_throw}
use sapper_bricks.Json.{JsonLib}
use sapper_bricks.Json.Codec.{decode}
use sapper_bricks.Ports.{Entity}

pub record HandlerLib : Type 1 where
  -- RequestHandler(name, Context(metadata)).Process(request), with the ExceptionHandlingRequestHook
  -- that main installs globally
  pub process : {W : Type 0} → String → Comp W Status → Comp W Status
  -- the status that the hook makes of an exception
  pub status_of : Exn → Status
  -- ToHttpStatusCode
  pub to_http : StatusCode → ℕ

-- What the documentation of the library says: the request runs once, and an exception becomes a
-- status that is not ok.
pub record IsHandler (M : HandlerLib) : Type 1 where
  pub process_returned :
      {W : Type 0} (name : String) (m : Comp W Status) (w : W) (s : Status)
      → (m w).0 ≡ returns s
      → M.process name m w ≡ m w
  pub process_threw :
      {W : Type 0} (name : String) (m : Comp W Status) (w : W) (x : Exn)
      → (m w).0 ≡ throws x
      → M.process name m w ≡ (returns (M.status_of x), (m w).1)
  pub status_of_error : (x : Exn) → is_ok (M.status_of x).code ≡ false

-- catch(const json::exception& error) { throw std::invalid_argument(error.what()); }
abbrev pub to_invalid : Exn → Exn
to_invalid (json_error what) = invalid_argument what
to_invalid x = x

-- Entity e; try { from_json(json::parse(text), e); } catch …
unfoldable pub read_entity : JsonLib → String → Result Entity
read_entity J text = map_throw to_invalid (decode J text)

-- Status { not_found, "unknown entity with id " + id }
abbrev pub unknown_entity : String → Status
unknown_entity id = record {
  code = not_found;
  details = Prim.Native.String.◌++◌ "unknown entity with id " id;
}
