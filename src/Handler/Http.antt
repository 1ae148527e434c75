-- ===== src/Handler/Http.antt =====
-- handler/http/src/adapters/handler-http/handler-http.cpp. The response object stands beside the
-- world. The routes and the server (cpp-httplib) that calls the two methods are in
-- `Handler/Http/Server.antt`.
pub mod Path
pub mod Requests
pub mod Reads
pub mod RoundTrip
pub mod Server
pub mod Service
pub mod Table
pub mod WellFormed
pub mod Writes
use sapper_bricks.Prelude.{ℕ, String, not, Option, none, some, ◌==◌, if◌then◌else◌}
use sapper_bricks.Effect.{
  Status, status_ok, is_ok, Exn, invalid_argument, Result, returns, throws, Comp, pure, lift,
  throw_if, on_right, ◌>>=◌, ◌>>◌,
}
use sapper_bricks.Ports.{Entity, Api}
use sapper_bricks.Json.{JsonLib}
use sapper_bricks.Json.Codec.{encode}
use sapper_bricks.Handler.{HandlerLib, read_entity, unknown_entity}
use sapper_bricks.Handler.Http.Path.{extract_id}

pub record Request : Type 0 where
  pub path : String
  pub body : String

pub record Response : Type 0 where
  pub status : ℕ
  pub body : String
  pub content_type : String

module _ {W : Type 0} where
  -- response.set_content(text, type)
  abbrev set_content : String → String → Comp (Response × W) (Unit {0})
  set_content text type s = (returns tt, (record s.0 { body = text; content_type = type }, s.1))

  -- response.status = …; if(status.code != ok) { response.body = status.details; }
  abbrev finish : HandlerLib → Status → Comp (Response × W) (Unit {0})
  finish M s r = (
    returns tt,
    (
      record r.0 { status = M.to_http s.code; body = if is_ok s.code then r.0.body else s.details },
      r.1,
    ),
  )

module _ (J : JsonLib) (M : HandlerLib) {W : Type 0} (api : Api W) where
  abbrev answer : String → Option Entity → Comp (Response × W) Status
  answer id none = pure (unknown_entity id)
  answer id (some e) = do
    text ← lift (encode J e)
    set_content text "application/json"
    pure status_ok

  -- The request that getEntity gives to Process.
  unfoldable pub get_request : Request → Comp (Response × W) Status
  get_request request = do
    id ← lift (extract_id request.path)
    found ← on_right (api.get_entity id)
    answer id found

  unfoldable pub get_entity : Request → Comp (Response × W) (Unit {0})
  get_entity request = do status ← M.process "getEntity" (get_request request); finish M status

  -- The request that setEntity gives to Process.
  unfoldable pub set_request : Request → Comp (Response × W) Status
  set_request request = do
    e ← lift (read_entity J request.body)
    id ← lift (extract_id request.path)
    throw_if (not (e.id == id)) (invalid_argument "inconsistent id")
    on_right (api.set_entity e)
    pure status_ok

  unfoldable pub set_entity : Request → Comp (Response × W) (Unit {0})
  set_entity request = do status ← M.process "setEntity" (set_request request); finish M status
