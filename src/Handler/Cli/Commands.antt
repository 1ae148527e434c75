-- ===== src/Handler/Cli/Commands.antt =====
-- What the two commands do, on every outcome of the Api.
use Prim.Native.String
use sapper_bricks.Prelude.{String, ◌≡◌, inl, inr, Option, none, some}
use sapper_bricks.Effect.{status_ok, Exn, runtime_error, Result, returns, throws}
use sapper_bricks.Effect.Laws.{Result-cases}
use sapper_bricks.Ports.{Entity, Api}
use sapper_bricks.Json.{JsonLib}
use sapper_bricks.Json.Codec.{encode}
use sapper_bricks.Handler.{HandlerLib, IsHandler, read_entity, unknown_entity}
use sapper_bricks.Handler.Cli.{get_request, get_entity, set_request, set_entity}

module _ (J : JsonLib) (M : HandlerLib) (laws : IsHandler M) {W : Type 0} (api : Api W) where
  -- The exception that a command ends with: the details of the status of what went wrong.
  abbrev pub reported : {A : Type 0} → Exn → Result A
  reported x = throws (runtime_error (M.status_of x).details)

  abbrev pub printed : Result String → Result String
  printed (returns text) = returns text
  printed (throws x) = reported x

  abbrev pub get_result : String → Result (Option Entity) → Result String
  get_result id (throws x) = reported x
  get_result id (returns none) =
      throws (runtime_error (Prim.Native.String.◌++◌ "unknown entity with id " id))
  get_result id (returns (some e)) = printed (encode J e)

  -- The get command calls GetEntity once and gives the JSON text of the entity. For an entity that
  -- is not there, and for whatever GetEntity or the encoding threw, it throws a runtime_error with
  -- the details of the status.
  pub cli_get_entity_lem :
      (id : String) (w : W)
      → get_entity J M api id w ≡ (get_result id (api.get_entity id w).0, (api.get_entity id w).1)
  unfolding get_entity get_request
  cli_get_entity_lem id w =
      let m = get_request J M api id in
      elim (Result-cases (api.get_entity id w).0) [
        | inr (x, k) ↦
            rw (laws.process_threw "getEntity" m ("", w) x (rw k), k, laws.status_of_error x)
        | inl (none, k) ↦
            rw (laws.process_returned "getEntity" m ("", w) (unknown_entity id) (rw k), k)
        | inl (some e, k) ↦ elim (Result-cases (encode J e)) [
          | inl (text, t) ↦
              rw (laws.process_returned "getEntity" m ("", w) status_ok (rw (k, t)), k, t)
          | inr (x, t) ↦
              rw (
                laws.process_threw "getEntity" m ("", w) x (rw (k, t)),
                k,
                t,
                laws.status_of_error x,
              )
        ]
      ]

  abbrev pub set_result : Result (Unit {0}) → Result (Unit {0})
  set_result (returns u) = returns tt
  set_result (throws x) = reported x

  -- The set command calls SetEntity with the entity of its text, and nothing if the text is no
  -- entity; what goes wrong is thrown as a runtime_error with the details of the status.
  pub cli_set_entity_lem :
      (text : String) (w : W)
      → ((x : Exn) → read_entity J text ≡ throws x → set_entity J M api text w ≡ (reported x, w))
        × ((e : Entity)
            → read_entity J text ≡ returns e
            → set_entity J M api text w
              ≡ (set_result (api.set_entity e w).0, (api.set_entity e w).1))
  unfolding set_entity set_request
  cli_set_entity_lem text w =
      let m = set_request J M api text in
      (
        λ x p. rw (laws.process_threw "setEntity" m w x (rw p), p, laws.status_of_error x),
        λ e p. elim (Result-cases (api.set_entity e w).0) [
          | inr (x, k) ↦
              rw (laws.process_threw "setEntity" m w x (rw (p, k)), p, k, laws.status_of_error x)
          | inl (u, k) ↦ rw (laws.process_returned "setEntity" m w status_ok (rw (p, k)), p, k)
        ],
      )
