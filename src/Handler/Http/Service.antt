-- ===== src/Handler/Http/Service.antt =====
-- The whole service of the HTTP handler, the core and the in-memory repository against a table.
use mathlib.Core.Path.{fun_ext}
use sapper_bricks.Prelude.{
  ℕ, String, ◌≡◌, refl, ap, ◌∙◌, inl, inr, Bool, ◌&&◌, none, some, List, [], ◌∷◌, ◌==◌,
  if◌then◌else◌, Bool-cases,
}
use sapper_bricks.Effect.{returns}
use sapper_bricks.Effect.Laws.{Result-cases}
use sapper_bricks.Dict.Laws.{find-assign}
use sapper_bricks.Ports.{Entity, Api}
use sapper_bricks.Ports.Contract.{updated}
use sapper_bricks.Core
use sapper_bricks.Core.{Core, core_api}
use sapper_bricks.Json.{JsonLib}
use sapper_bricks.Handler.{HandlerLib, IsHandler, read_entity}
use sapper_bricks.Handler.Http.Path.{extract_id}
use sapper_bricks.Handler.Http.Requests.{set_response}
use sapper_bricks.Handler.Http.Reads.{http_get_entity_lem}
use sapper_bricks.Handler.Http.Writes.{http_set_entity_lem}
use sapper_bricks.Handler.Http.Server.{
  Method, get, put, other, ServerLib, IsServer, is_get, is_put, create, answer_all,
}
use sapper_bricks.Handler.Http.{Request, Response, get_entity, set_entity}
use sapper_bricks.Handler.Http.Table
use sapper_bricks.Handler.Http.Table.{Table}
use sapper_bricks.Repo.InMemory.Refines.{view}
use sapper_bricks.Repo.InMemory.{InMemoryRepo, store, retrieve, in_memory_repo}

-- The core of a service with the in-memory repository and no notifier.
abbrev pub core : Core InMemoryRepo
core = record { repo = some in_memory_repo; notifier = none }

abbrev pub api : Api InMemoryRepo
api = core_api core

module _ (J : JsonLib) (M : HandlerLib) (laws : IsHandler M) (S : ServerLib InMemoryRepo) where
  abbrev fits : String → Bool
  fits path = Table.fits J M laws api S path

  abbrev pub answer : Table → Response → Method → Request → Response × Table
  answer table r m request = Table.answer J M laws api S table r m request

  abbrev pub spec_all : Table → Response → List (Method × Request) → List Response × Table
  spec_all table fresh requests = Table.spec_all J M laws api S table fresh requests

  view-assign : (e : Entity) (w : InMemoryRepo) → view (store e w).1 ≡ updated e (view w)
  unfolding store
  view-assign e w = fun_ext (λ id. find-assign e.id id e w.entries)

  -- A response and a world, with the world seen as a table.
  abbrev seen : Response × InMemoryRepo → Response × Table
  seen s = (s.0, view s.1)

  get_lem :
      (request : Request) (r : Response) (w : InMemoryRepo)
      → seen (get_entity J M api request (r, w)).1
        ≡ Table.read_answer J M laws api S (view w) (extract_id request.path) r
  unfolding Core.get_entity retrieve
  get_lem request r w =
      let (bad, good) = http_get_entity_lem J M laws api request r w in
      elim (Result-cases (extract_id request.path)) [
        | inr (x, e) ↦ rw (bad x e, e)
        | inl (id, e) ↦
            rw (good id e, e) (elim (Bool-cases (id == "")) [ inl b ↦ rw b | inr b ↦ rw b ])
      ]

  put_lem :
      (request : Request) (r : Response) (w : InMemoryRepo)
      → seen (set_entity J M api request (r, w)).1
        ≡ Table.write_answer J M laws api S
            (view w)
            (read_entity J request.body)
            (extract_id request.path)
            r
  unfolding Core.set_entity store
  put_lem request r w =
      rw (http_set_entity_lem J M laws api request r w)
        (elim (Result-cases (read_entity J request.body)) [
          | inr (x, e) ↦ rw e
          | inl (entity, e) ↦ elim (Result-cases (extract_id request.path)) [
            | inr (x, p) ↦ rw (e, p)
            | inl (id, p) ↦ elim (Bool-cases (entity.id == id)) [
              | inr differs ↦ rw (e, p, differs)
              | inl same ↦ elim (Bool-cases (entity.id == "")) [
                | inl empty ↦ rw (e, p, same, empty)
                | inr named ↦
                    rw (e, p, same, named)
                      (ap (λ (t : Table). (set_response J M laws api (returns tt) r, t))
                        (view-assign entity w))
              ]
            ]
          ]
        ])

  module _ (routed : S.Server → Method → String → Bool) (server : IsServer S routed) where
    abbrev pub svr : String → ℕ → S.Server
    svr host port = (create J M S api host port).svr

    abbrev pattern : String
    pattern = "/Entity/(.*)"

    -- The server between the two registrations.
    abbrev readable : S.Server
    readable = S.add_get pattern (get_entity J M api) S.new

    route_readable :
        (m : Method) (request : Request) (t : Response × InMemoryRepo)
        → S.route readable m request t ≡ (
            if is_get m && fits request.path
            then get_entity J M api request t
            else (returns tt, (S.unrouted t.0, t.1)))
    route_readable m request t = rw (
      server.route_get pattern (get_entity J M api) S.new m request t,
      server.routed_new m request.path,
      server.route_new m request t,
    )

    route_all :
        (host : String) (port : ℕ) (m : Method) (request : Request) (t : Response × InMemoryRepo)
        → S.route (svr host port) m request t ≡ (
            if is_get m && fits request.path
            then get_entity J M api request t
            else if is_put m && fits request.path
            then set_entity J M api request t
            else (returns tt, (S.unrouted t.0, t.1)))
    unfolding create
    route_all host port m request t =
        rw
          (
            server.route_put pattern (set_entity J M api) readable m request t,
            server.routed_get pattern (get_entity J M api) S.new m request.path,
            server.routed_new m request.path,
            route_readable m request t,
          )
          (elim (Bool-cases (is_get m && fits request.path)) [ inl b ↦ rw b | inr b ↦ rw b ])

    route_lem :
        (host : String) (port : ℕ) (m : Method) (request : Request) (r : Response)
        (w : InMemoryRepo)
        → seen (S.route (svr host port) m request (r, w)).1 ≡ answer (view w) r m request
    route_lem host port get request r w =
        rw (route_all host port get request (r, w)) (elim (Bool-cases (fits request.path)) [
          | inl b ↦ rw b (get_lem request r w)
          | inr b ↦ rw b
        ])
    route_lem host port put request r w =
        rw (route_all host port put request (r, w)) (elim (Bool-cases (fits request.path)) [
          | inl b ↦ rw b (put_lem request r w)
          | inr b ↦ rw b
        ])
    route_lem host port other request r w = rw (route_all host port other request (r, w))

    -- From any entities that the repository holds, and for any requests one after another, the
    -- service answers each as the table does that holds the entities, errors and requests without a
    -- route included, and the repository is in the end what the table has become.
    pub answer_all-spec_all :
        (host : String) (port : ℕ) (fresh : Response) (requests : List (Method × Request))
        (w : InMemoryRepo)
        → let served = answer_all J M S (svr host port) fresh requests w in
          (served.0 ≡ (spec_all (view w) fresh requests).0)
          × (view served.1 ≡ (spec_all (view w) fresh requests).1)
    unfolding answer_all Table.spec_all
    answer_all-spec_all host port fresh [] w = (refl, refl)
    answer_all-spec_all host port fresh ((m, request) ∷ requests) w =
        let step = route_lem host port m request fresh w in
        let (texts, table) =
          answer_all-spec_all host port fresh requests
            (S.route (svr host port) m request (fresh, w)).1.1 in
        let heads = ap (λ t. t.0) step in
        let moved = ap (λ t. t.1) step in
        (
          λ i. heads i ∷ (texts ∙ ap (λ (t : Table). (spec_all t fresh requests).0) moved) i,
          table ∙ ap (λ (t : Table). (spec_all t fresh requests).1) moved,
        )
