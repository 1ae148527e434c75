-- ===== src/Handler/Cli/Outcomes.antt =====
-- What a run of the CLI handler prints, sets and throws, by what the parser finds.
use sapper_bricks.Prelude.{ℕ, String, ◌≡◌, refl, List}
use sapper_bricks.Effect.{Exn, Result, returns, throws, continue}
use sapper_bricks.Ports.{Entity, Api}
use sapper_bricks.Json.{JsonLib}
use sapper_bricks.Handler.{HandlerLib, IsHandler, read_entity}
use sapper_bricks.Handler.Cli.{CliLib, parsed, parse_error, cli_app, create, handle}
use sapper_bricks.Handler.Cli.Commands.{
  get_result, set_result, reported, cli_get_entity_lem, cli_set_entity_lem,
}

module _ (J : JsonLib) (M : HandlerLib) (laws : IsHandler M) {W : Type 0} (api : Api W)
    (C : CliLib W) where
  -- The world after the name of the application was read, if it could be read.
  abbrev pub titled : W → W
  titled w = (C.global_at_or "app" "UNKNOWN APP" w).1

  -- The end of the get command, of what there is to print.
  abbrev pub printed_end : Result String → W → Result (Unit {0}) × W
  printed_end (returns text) w = C.print_line text w
  printed_end (throws x) w = (throws x, w)

  continue-printed_end :
      (r : Result String) (w : W) → continue r (λ text. C.print_line text) w ≡ printed_end r w
  continue-printed_end (returns text) w = refl
  continue-printed_end (throws x) w = refl

  -- Handle with a title that can be read: a parse error prints its message and does nothing else;
  -- get makes one GetEntity and prints the JSON text of the entity or throws a runtime_error with
  -- the reason; set makes one SetEntity of the entity in its text, and throws a runtime_error with
  -- the reason if the text is no entity, which makes no call, or if SetEntity threw.
  pub cli_handle_lem :
      (argv : List String) (w : W) (title : String)
      → (C.global_at_or "app" "UNKNOWN APP" w).0 ≡ returns title
      → let run = handle J M C (create api argv) w in
        let found = C.parse (cli_app J M api C title) argv in
        ((code : ℕ) → found ≡ parse_error code → run ≡ C.exit code (titled w))
        × ((id : String)
            → found ≡ parsed "get" id
            → run
              ≡ printed_end
                  (get_result J M laws api id (api.get_entity id (titled w)).0)
                  (api.get_entity id (titled w)).1)
        × ((text : String) (x : Exn)
            → found ≡ parsed "set" text
            → read_entity J text ≡ throws x
            → run ≡ (reported J M laws api x, titled w))
        × ((text : String) (e : Entity)
            → found ≡ parsed "set" text
            → read_entity J text ≡ returns e
            → run ≡ (
              set_result J M laws api (api.set_entity e (titled w)).0,
              (api.set_entity e (titled w)).1,
            ))
  unfolding handle create
  cli_handle_lem argv w title got = (
    λ code f. rw (got, f),
    λ id f.
        rw (got, f, cli_get_entity_lem J M laws api id (titled w))
          (continue-printed_end (get_result J M laws api id (api.get_entity id (titled w)).0)
            (api.get_entity id (titled w)).1),
    λ text x f e. rw (got, f, (cli_set_entity_lem J M laws api text (titled w)).0 x e),
    λ text e f r. rw (got, f, (cli_set_entity_lem J M laws api text (titled w)).1 e r),
  )
