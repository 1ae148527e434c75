-- ===== src/Handler/Cli/RoundTrip.antt =====
-- A set command and a later get command, each a process of its own, with the core and any
-- repository that keeps its contract and whose table outlives a process. One in the memory of the
-- process does not, as the README of handler/cli says.
use sapper_bricks.Prelude.{String, ◌≡◌, ap, ◌∙◌, Option, List}
use sapper_bricks.Prelude.Int.{IsInt32}
use sapper_bricks.Effect.{Result, returns}
use sapper_bricks.Ports.{Entity, Api, EntityRepo, EntityNotifier}
use sapper_bricks.Ports.Contract.{IsRepo, updated}
use sapper_bricks.Core
use sapper_bricks.Core.{core_api}
use sapper_bricks.Core.Refines.{joined, set_entity-updated, get_entity-refines}
use sapper_bricks.Json.{JsonLib, IsJson}
use sapper_bricks.Json.Codec.{encode, decode-encode}
use sapper_bricks.Handler.{HandlerLib, IsHandler, read_entity}
use sapper_bricks.Handler.Cli.{CliLib, parsed, cli_app, create, handle}
use sapper_bricks.Handler.Cli.Commands.{get_result}
use sapper_bricks.Handler.Cli.Outcomes.{printed_end, cli_handle_lem}

module _ (J : JsonLib) (json : IsJson J) (M : HandlerLib) (laws : IsHandler M) {W V : Type 0}
    (r : EntityRepo W) (view : W → String → Option Entity) (c : IsRepo r view)
    (n : EntityNotifier V) (C : CliLib (W × V)) where
  abbrev pub api : Api (W × V)
  api = core_api (joined r n)

  -- What get prints or throws, by what the table holds.
  abbrev pub shown : String → Option Entity → Result String
  shown id found = get_result J M laws api id (returns found)

  -- What becomes of the world between two processes: what the repository holds is still there.
  abbrev pub Persists : (W × V → W × V) → Type 0
  Persists restart = (s : W × V) (id : String) → view (restart s).0 id ≡ view s.0 id

  -- With a repository whose table outlives the process, and if reading the title changes nothing: a
  -- process with a set of the JSON text of an entity in which SetEntity
  -- returns, and a later process with a get, of any id, in which GetEntity returns: set returns, and
  -- get prints the text of that very entity for its id, and for another id what the table held
  -- before, or it throws that the entity is unknown.
  pub handle-get_set :
      (e : Entity) (text id title : String) (set_argv get_argv : List String) (s : W × V)
      (found : Option Entity) (restart : W × V → W × V)
      → Persists restart
      → IsInt32 e.int_property
      → encode J e ≡ returns text
      → ((t : W × V) → C.global_at_or "app" "UNKNOWN APP" t ≡ (returns title, t))
      → C.parse (cli_app J M api C title) set_argv ≡ parsed "set" text
      → C.parse (cli_app J M api C title) get_argv ≡ parsed "get" id
      → (Core.set_entity (joined r n) e s).0 ≡ returns tt
      → (Core.get_entity (joined r n) id (restart (Core.set_entity (joined r n) e s).1)).0
        ≡ returns found
      → let set = handle J M C (create api set_argv) s in
        (set.0 ≡ returns tt)
        × (handle J M C (create api get_argv) (restart set.1)
            ≡ printed_end J M laws api C
                (shown id (updated e (view s.0) id))
                (Core.get_entity (joined r n) id (restart (Core.set_entity (joined r n) e s).1)).1)
  handle-get_set e text id title set_argv get_argv s found restart persists range encoded reads sets
        gets set got =
      let middle = (Core.set_entity (joined r n) e s).1 in
      let again = restart middle in
      let read : read_entity J text ≡ returns e =
        unfold read_entity in rw (decode-encode J json e text range encoded) in
      let keeps : (t : W × V) → (C.global_at_or "app" "UNKNOWN APP" t).1 ≡ t =
        λ t. ap (λ p. p.1) (reads t) in
      let held : found ≡ updated e (view s.0) id =
        ((get_entity-refines r view c n id again.0 again.1).0 found got).1
        ∙ persists middle id
        ∙ (set_entity-updated r view c n e s.0 s.1 range set).1 id in
      let first : handle J M C (create api set_argv) s ≡ (returns tt, middle) =
        (cli_handle_lem J M laws api C set_argv s title (rw (reads s))).3 text e sets read
        ∙ rw (keeps s, set) in
      let second : handle J M C (create api get_argv) again
          ≡ printed_end J M laws api C (shown id found) (Core.get_entity (joined r n) id again).1 =
        (cli_handle_lem J M laws api C get_argv again title (rw (reads again))).1 id gets
        ∙ rw (keeps again, got) in
      (rw first, rw (first, second, held))
