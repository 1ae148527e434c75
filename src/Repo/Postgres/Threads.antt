-- ===== src/Repo/Postgres/Threads.antt =====
-- Threads that share one repository. The connection manager locks its mutex for each attempt and not
-- between the retries, so the attempts of all threads form one sequence, in which each is a step.
use mathlib.Core.Path.{subst, fun_ext}
use sapper_bricks.Prelude.{
  zero, String, ◌≡◌, ◌≢◌, refl, ◌⊎◌, inl, inr, Option, none, some, List, [], ◌∷◌,
}
use sapper_bricks.Effect.{Status, status_ok, Result, returns, throws, continue, pure, on_left}
use sapper_bricks.Effect.Laws.{Result-cases}
use sapper_bricks.Ports.{Entity}
use sapper_bricks.Ports.Contract.{updated}
use sapper_bricks.Mse.{IssuerLib, IsIssuer}
use sapper_bricks.Repo.Postgres.Connection.{attempt, deref}
use sapper_bricks.Repo.Postgres.Connection.Rule.{attempt_rule}
use sapper_bricks.Repo.Postgres.{
  PqxxLib, IsDatabase, prepared_texts, create_connection, manager_for, widened, store_op,
  retrieve_op,
}
use sapper_bricks.Repo.Postgres.Table.{Same}
use sapper_bricks.Repo.Postgres.Storing.{OldOrUpdated, store-connects, store-keeps, store-reaches}
use sapper_bricks.Repo.Postgres.Retrieving.{
  OldAnd, MaybeFound, retrieve-connects, retrieve-keeps, retrieve-reaches,
}

-- An attempt of a Store or of a Retrieve.
pub data Request : Type 0 where
  stores : Entity → Request
  reads : String → Request

-- How an attempt ended, and the entity that an attempt of a Retrieve left in its local variable.
pub record Answer : Type 0 where
  pub outcome : Result Status
  pub found : Option Entity

abbrev pub Table : Type 0
Table = String → Option Entity

-- The answers and the table at the end are explained by the table before, if the attempts are taken
-- as single updates and lookups in their order: a store that ended ok was applied, one that did not
-- was applied or not, and a read that ended ok has found the row of its moment.
abbrev pub Explains : Table → List Request → List Answer → Table → Type 0
Explains t [] [] u = Same u t
Explains t (stores e ∷ requests) (a ∷ answers) u =
    Explains (updated e t) requests answers u
    ⊎ ((a.outcome ≢ returns status_ok) × Explains t requests answers u)
Explains t (reads id ∷ requests) (a ∷ answers) u =
    (a.outcome ≡ returns status_ok → a.found ≡ t id) × Explains t requests answers u
Explains t [] (a ∷ answers) u = ⊥
Explains t (r ∷ requests) [] u = ⊥

ends_ok :
    {V : Type 0} (r : Result (Unit {0})) (v : V) (status : Status)
    → (continue r (λ _. pure status_ok) v).0 ≡ returns status
    → (continue r (λ _. pure status_ok) v).0 ≡ returns status_ok
ends_ok (returns u) v status h = refl
ends_ok (throws x) v status h = absurd (cc h)

module _ {W : Type 0} (P : PqxxLib W) (connection_string : String) where
  -- One attempt under the lock, of a Store and of a Retrieve.
  abbrev pub store_attempt :
      Entity → Option P.Connection × W → Result Status × (Option P.Connection × W)
  store_attempt e = attempt (some (create_connection P connection_string)) (deref (store_op P e))

  abbrev pub read_attempt :
      String → Option P.Connection × W → Result Status × (Option P.Connection × (W × Option Entity))
  read_attempt id s =
      attempt (some (on_left (create_connection P connection_string))) (deref (retrieve_op P id))
        (s.0, (s.1, none))

  pub run_all : List Request → Option P.Connection × W → List Answer × (Option P.Connection × W)
  run_all [] s = ([], s)
  run_all (stores e ∷ requests) s =
      let a = store_attempt e s in
      let rest = run_all requests a.1 in (record { outcome = a.0; found = none } ∷ rest.0, rest.1)
  run_all (reads id ∷ requests) s =
      let a = read_attempt id s in
      let rest = run_all requests (a.1.0, a.1.1.0) in
      (record { outcome = a.0; found = a.1.1.1 } ∷ rest.0, rest.1)

  module _ {table : W → String → Option Entity} (db : IsDatabase P prepared_texts table)
      (M : IssuerLib) (hooks : IsIssuer M) where
    -- An attempt that returns gives the status ok.
    store_attempt-ok :
        (e : Entity) (s : Option P.Connection × W) (status : Status)
        → (store_attempt e s).0 ≡ returns status
        → (store_attempt e s).0 ≡ returns status_ok
    unfolding attempt
    store_attempt-ok e s status h = ends_ok _ _ status h

    store_step :
        (e : Entity) (s : Option P.Connection × W)
        → Same (table (store_attempt e s).1.1) (updated e (table s.1))
          ⊎ (((store_attempt e s).0 ≢ returns status_ok)
              × Same (table (store_attempt e s).1.1) (table s.1))
    store_step e s =
        let old = table s.1 in
        let (kept, reached) =
          attempt_rule M hooks (manager_for P connection_string zero zero) (deref (store_op P e)) ""
            (OldOrUpdated P db e old) (λ w. Same (table w) (updated e old))
            (store-connects P db connection_string e old) (store-keeps P db connection_string e old)
            (store-reaches P db connection_string e old) s (inl (λ id. refl)) in
        elim kept [
          | inr applied ↦ inl applied
          | inl same ↦ elim (Result-cases (store_attempt e s).0) [
            | inl (status, h) ↦ inl (reached (store_attempt-ok e s status h))
            | inr (x, h) ↦ inr (λ ok. absurd (cc (h, ok)), same)
          ]
        ]

    read_step :
        (id : String) (s : Option P.Connection × W)
        → ((read_attempt id s).0 ≡ returns status_ok → (read_attempt id s).1.1.1 ≡ table s.1 id)
          × Same (table (read_attempt id s).1.1.0) (table s.1)
    read_step id s =
        let old = table s.1 in
        let (kept, reached) =
          attempt_rule M hooks (widened (manager_for P connection_string zero zero))
            (deref (retrieve_op P id)) "" (OldAnd P db id old (MaybeFound P db id old))
            (OldAnd P db id old (λ v. v ≡ old id)) (retrieve-connects P db connection_string id old)
            (retrieve-keeps P db connection_string id old)
            (retrieve-reaches P db connection_string id old) (s.0, (s.1, none))
            (λ j. refl, inl refl) in
        (λ h. (reached h).1, kept.0)

    -- For every sequence of attempts that any threads make, retries and failed attempts included,
    -- and whatever connections break on the way, the answers and the table at the end are those of
    -- single updates and lookups in the order of the attempts. A store whose attempt ended ok is
    -- applied in its place, one whose attempt failed may be, and a read that ended ok has found the
    -- row that its id had at that moment.
    pub run_all-Explains :
        (requests : List Request) (s : Option P.Connection × W)
        → Explains (table s.1) requests (run_all requests s).0 (table (run_all requests s).1.1)
    unfolding run_all
    run_all-Explains [] s = λ id. refl
    run_all-Explains (stores e ∷ requests) s =
        let rest = run_all-Explains requests (store_attempt e s).1 in
        let end = table (run_all requests (store_attempt e s).1).1.1 in
        elim (store_step e s) [
          | inl applied ↦ inl (
              subst (λ t. Explains t requests (run_all requests (store_attempt e s).1).0 end)
                (fun_ext applied) rest)
          | inr (failed, same) ↦ inr (
            failed,
            subst (λ t. Explains t requests (run_all requests (store_attempt e s).1).0 end)
                (fun_ext same) rest,
          )
        ]
    run_all-Explains (reads id ∷ requests) s =
        let a = read_attempt id s in
        let (found, same) = read_step id s in
        let rest = run_all-Explains requests (a.1.0, a.1.1.0) in
        (
          found,
          subst
              (λ t.
                Explains t requests (run_all requests (a.1.0, a.1.1.0)).0
                  (table (run_all requests (a.1.0, a.1.1.0)).1.1))
              (fun_ext same) rest,
        )
