-- ===== src/Handler/Http/Table.antt =====
-- The abstract service of the HTTP handler: a table from ids to entities, and the answer and the
-- change that a request stands for.
use sapper_bricks.Prelude.{String, Bool, Option, List, [], ◌∷◌, ◌==◌, if◌then◌else◌}
use sapper_bricks.Effect.{Exn, invalid_argument, Result, returns, throws}
use sapper_bricks.Ports.{Entity, Api}
use sapper_bricks.Ports.Contract.{updated}
use sapper_bricks.Json.{JsonLib}
use sapper_bricks.Handler.{HandlerLib, IsHandler, read_entity}
use sapper_bricks.Handler.Http.Path.{extract_id}
use sapper_bricks.Handler.Http.Requests.{refusal, set_response}
use sapper_bricks.Handler.Http.Reads.{get_response}
use sapper_bricks.Handler.Http.Server.{Method, get, put, other, ServerLib}
use sapper_bricks.Handler.Http.{Request, Response}

abbrev pub Table : Type 0
Table = String → Option Entity

module _ (J : JsonLib) (M : HandlerLib) (laws : IsHandler M) {W : Type 0} (api : Api W)
    (S : ServerLib W) where
  abbrev pub refuse : Exn → Response → Response
  refuse x r = refusal J M laws api x r

  abbrev pub invalid_id : Exn
  invalid_id = invalid_argument "invalid id"

  -- The answer to a GET, from the table.
  abbrev pub read_answer : Table → Result String → Response → Response × Table
  read_answer table (throws x) r = (refuse x r, table)
  read_answer table (returns id) r = (
    get_response J M laws api id (if id == "" then throws invalid_id else returns (table id)) r,
    table,
  )

  -- The answer to a PUT, and the table after it.
  abbrev pub write_answer : Table → Result Entity → Result String → Response → Response × Table
  write_answer table (throws x) path r = (refuse x r, table)
  write_answer table (returns e) (throws x) r = (refuse x r, table)
  write_answer table (returns e) (returns id) r =
      if e.id == id
      then (if e.id == ""
          then (refuse invalid_id r, table)
          else (set_response J M laws api (returns tt) r, updated e table))
      else (refuse (invalid_argument "inconsistent id") r, table)

  abbrev pub fits : String → Bool
  fits path = S.fits "/Entity/(.*)" path

  -- What one request does to the table, and its answer.
  abbrev pub answer : Table → Response → Method → Request → Response × Table
  answer table r get request =
      if fits request.path
      then read_answer table (extract_id request.path) r
      else (S.unrouted r, table)
  answer table r put request =
      if fits request.path
      then write_answer table (read_entity J request.body) (extract_id request.path) r
      else (S.unrouted r, table)
  answer table r other request = (S.unrouted r, table)

  unfoldable pub spec_all : Table → Response → List (Method × Request) → List Response × Table
  spec_all table fresh [] = ([], table)
  spec_all table fresh ((method, request) ∷ requests) =
      let answered = answer table fresh method request in
      let rest = spec_all answered.1 fresh requests in (answered.0 ∷ rest.0, rest.1)
