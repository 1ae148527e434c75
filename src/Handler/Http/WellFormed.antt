-- ===== src/Handler/Http/WellFormed.antt =====
-- What is true of the entities that the HTTP service holds, after any requests.
use mathlib.Core.Path.{subst}
use sapper_bricks.Prelude.{
  ℕ, String, ◌≡◌, ◌≢◌, refl, sym, ap, ◌∙◌, inl, inr, some, List, [], ◌∷◌, arith, ◌==◌, eq_iff, Bool,
  Bool-cases,
}
use sapper_bricks.Prelude.Int.{IsInt32}
use sapper_bricks.Effect.{Result, returns, throws}
use sapper_bricks.Effect.Laws.{Result-cases}
use sapper_bricks.Ports.{Entity}
use sapper_bricks.Ports.Contract.{updated}
use sapper_bricks.Json.{JsonLib, IsJson}
use sapper_bricks.Json.Codec.{decode, decode-IsInt32}
use sapper_bricks.Handler.{HandlerLib, IsHandler, read_entity}
use sapper_bricks.Handler.Http.Path.{extract_id}
use sapper_bricks.Handler.Http.{Request, Response}
use sapper_bricks.Handler.Http.Server.{Method, get, put, other, ServerLib, IsServer, answer_all}
use sapper_bricks.Handler.Http.Table
use sapper_bricks.Handler.Http.Table.{Table}
use sapper_bricks.Handler.Http.Service.{api, svr, answer_all-spec_all}
use sapper_bricks.Repo.InMemory.{InMemoryRepo}
use sapper_bricks.Repo.InMemory.Refines.{view}

-- An entity that stands under an id.
pub record IsEntry (id : String) (e : Entity) : Type 0 where
  pub named : e.id ≡ id
  pub id_is_set : id ≢ ""
  pub in_range : IsInt32 e.int_property

abbrev pub IsWellFormed : Table → Type 0
IsWellFormed table = (id : String) (e : Entity) → table id ≡ some e → IsEntry id e

module _ (J : JsonLib) (json : IsJson J) (M : HandlerLib) (laws : IsHandler M)
    (S : ServerLib InMemoryRepo) where
  read_entity-IsInt32 :
      (text : String) (e : Entity) → read_entity J text ≡ returns e → IsInt32 e.int_property
  unfolding read_entity
  read_entity-IsInt32 text e h = elim (Result-cases (decode J text)) [
    | inl (d, k) ↦
        let read : ◌≡◌ {A = Result Entity} (returns d) (returns e) = rw k at h in
        decode-IsInt32 J json text e (k ∙ read)
    | inr (x, k) ↦ absurd (ground (arith, k))
  ]

  updated-IsWellFormed :
      (e : Entity) (table : Table)
      → IsInt32 e.int_property
      → e.id ≢ ""
      → IsWellFormed table
      → IsWellFormed (updated e table)
  updated-IsWellFormed e table range named good id found h = elim (Bool-cases (e.id == id)) [
    | inl same ↦
        let same' : e.id ≡ id = (eq_iff e.id id).0 same in
        let own : e ≡ found = ground (arith, same) in
        record {
          named = ap (λ (t : Entity). t.id) (sym own) ∙ same';
          id_is_set = λ empty. named (same' ∙ empty);
          in_range = rw (← own) range;
        }
    | inr differs ↦ good id found (ground (arith, differs))
  ]

  write_answer-IsWellFormed :
      (table : Table) (read : Result Entity) (path : Result String) (r : Response)
      → ((e : Entity) → read ≡ returns e → IsInt32 e.int_property)
      → IsWellFormed table
      → IsWellFormed (Table.write_answer J M laws api S table read path r).1
  write_answer-IsWellFormed table (throws x) path r range good = good
  write_answer-IsWellFormed table (returns e) (throws x) r range good = good
  write_answer-IsWellFormed table (returns e) (returns id) r range good =
      elim (Bool-cases (e.id == id)) [
        | inr differs ↦ rw differs good
        | inl same ↦ elim (Bool-cases (e.id == "")) [
          | inl empty ↦ rw (same, empty) good
          | inr named ↦
              rw (same, named)
                (updated-IsWellFormed e table (range e refl)
                  (λ empty. ground (arith, eq_iff e.id "")) good)
        ]
      ]

  answer-IsWellFormed :
      (table : Table) (r : Response) (m : Method) (request : Request)
      → IsWellFormed table
      → IsWellFormed (Table.answer J M laws api S table r m request).1
  answer-IsWellFormed table r get request good =
      elim (Bool-cases (Table.fits J M laws api S request.path)) [
        | inl b ↦ elim (Result-cases (extract_id request.path)) [
          | inl (id, e) ↦ rw (b, e) good
          | inr (x, e) ↦ rw (b, e) good
        ]
        | inr b ↦ rw b good
      ]
  answer-IsWellFormed table r put request good =
      elim (Bool-cases (Table.fits J M laws api S request.path)) [
        | inl b ↦ rw b (
            write_answer-IsWellFormed table (read_entity J request.body) (extract_id request.path) r
              (read_entity-IsInt32 request.body) good)
        | inr b ↦ rw b good
      ]
  answer-IsWellFormed table r other request good = good

  spec_all-IsWellFormed :
      (requests : List (Method × Request)) (fresh : Response) (table : Table)
      → IsWellFormed table
      → IsWellFormed (Table.spec_all J M laws api S table fresh requests).1
  unfolding Table.spec_all
  spec_all-IsWellFormed [] fresh table good = good
  spec_all-IsWellFormed ((m, request) ∷ requests) fresh table good =
      spec_all-IsWellFormed requests fresh _ (answer-IsWellFormed table fresh m request good)

  -- Whatever requests a service gets, every entity that its repository holds stands under its own
  -- id, which is not empty, and its number is in the range of an int, if that was so before.
  pub answer_all-IsWellFormed :
      (routed : S.Server → Method → String → Bool) (server : IsServer S routed) (host : String)
      (port : ℕ) (fresh : Response) (requests : List (Method × Request)) (w : InMemoryRepo)
      → IsWellFormed (view w)
      → IsWellFormed
          (view (answer_all J M S (svr J M laws S routed server host port) fresh requests w).1)
  answer_all-IsWellFormed routed server host port fresh requests w good =
      let seen = (answer_all-spec_all J M laws S routed server host port fresh requests w).1 in
      subst IsWellFormed (sym seen) (spec_all-IsWellFormed requests fresh (view w) good)
