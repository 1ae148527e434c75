-- ===== src/Repo/Postgres.antt =====
-- repo/postgres/src/adapters/repo-postgres/repo-postgres.cpp. The client library (libpqxx) is the
-- parameter `PqxxLib`; `IsDatabase` states what statements of two SQL texts and a commit do to the
-- table of db/schema.sql, if the connections have prepared these texts. The connection manager is in `Postgres/Connection.antt`.
pub mod Connection
pub mod Table
pub mod Storing
pub mod Retrieving
pub mod Refines
pub mod Threads
use sapper_bricks.Prelude.{ℕ, String, ◌≡◌, refl, arith, ◌⊎◌, Option, none, some, List, [], ◌∷◌}
use sapper_bricks.Prelude.Int.{ℤ, pos}
use sapper_bricks.Effect.{
  Exn, Comp, Result, returns, throws, pure, lift, with_cleanup, on_left, on_right, ◌>>=◌, ◌>>◌,
}
use sapper_bricks.Dict.{Dict, find, assign}
use sapper_bricks.Ports.{Entity, EntityRepo}
use sapper_bricks.Ports.Contract.{updated}
use sapper_bricks.Mse.{IssuerLib}
use Connection.{PostgresConnectionManager, with_connection, create as create_manager}

pub data SqlValue : Type 0 where
  text : String → SqlValue
  integer : ℤ → SqlValue

pub record PqxxLib (W : Type 0) : Type 1 where
  pub Connection : Type 0
  pub Work : Type 0
  pub Row : Type 0
  pub connect : String → Comp W Connection
  pub prepare : Connection → String → String → Comp W (Unit {0})
  pub work : Connection → Comp W Work
  pub exec_prepared : Work → String → List SqlValue → Comp W (List Row)
  pub commit : Work → Comp W (Unit {0})
  -- the destructor, which aborts a transaction that is not committed
  pub destroy : Work → Comp W (Unit {0})
  -- row.as<std::string, std::string, int>()
  pub as_entity : Row → Result (String × String × ℤ)

-- Two texts whose meaning the SQL standard and the manual of Postgres describe: a row with a new id
-- is inserted, and one with an id that is there replaces the other two columns; and the row with
-- this id, the primary key, is selected.
abbrev pub upsert_sql : String
upsert_sql =
    "INSERT INTO entity.entity(id, string_property, int_property) VALUES ($1,$2,$3) ON CONFLICT (id) DO UPDATE SET string_property = EXCLUDED.string_property, int_property = EXCLUDED.int_property;"

abbrev pub select_sql : String
select_sql = "SELECT id, string_property, int_property FROM entity.entity WHERE id = $1"

abbrev pub row_of : Entity → List SqlValue
row_of e = text e.id ∷ text e.string_property ∷ integer e.int_property ∷ []

abbrev pub fields_of : Entity → String × String × ℤ
fields_of e = (e.id, e.string_property, e.int_property)

-- A local variable that an operation captures by reference stands beside the world.
abbrev assign_local : {V : Type 0} → V → Comp V (Unit {0})
assign_local value v = (returns tt, value)

abbrev pub result_of_local : {V : Type 0} → V → Result (Unit {0}) → Result V
result_of_local v (returns _) = returns v
result_of_local v (throws x) = throws x

pub result_of_local_inversion :
    {V : Type 0} (v : V) (r : Result (Unit {0})) (found : V)
    → result_of_local v r ≡ returns found
    → (r ≡ returns tt) × (found ≡ v)
result_of_local_inversion v (returns _) found h = (refl, ground arith)
result_of_local_inversion v (throws x) found h = absurd (cc h)

-- V v = init; m; return v;
abbrev pub with_local : {C W V : Type 0} → V → Comp (C × (W × V)) (Unit {0}) → Comp (C × W) V
with_local init m s =
    let (result, (c, (w, v))) = m (s.0, (s.1, init)) in (result_of_local v result, (c, w))

-- The same manager, in the world that has the local variable too.
abbrev pub widened :
    {C W V : Type 0} → PostgresConnectionManager C W → PostgresConnectionManager C (W × V)
widened manager = record {
  connection_factory = elim manager.connection_factory [ none ↦ none | some f ↦ some (on_left f) ];
  max_retry_count = manager.max_retry_count;
  first_retry_interval = manager.first_retry_interval;
}

module _ {W : Type 0} (P : PqxxLib W) where
  open P use {
    Connection, Work, Row, connect, prepare, work, exec_prepared, commit, destroy, as_entity,
  }

  -- The rows that a selection by a primary key gives.
  abbrev pub Selects : Option Entity → List Row → Type 0
  Selects none rows = rows ≡ []
  Selects (some e) rows = (row : Row) × (rows ≡ row ∷ []) × (as_entity row ≡ returns (fields_of e))

  -- `table w` are the committed rows, and `prepared` the texts that every connection has prepared,
  -- by their names.
  pub record IsDatabase (prepared : Dict String) (table : W → String → Option Entity) : Type 0 where
    pub connect_keeps : (s : String) (w : W) (id : String) → table (connect s w).1 id ≡ table w id
    pub prepare_keeps :
        (c : Connection) (name sql : String) (w : W) (id : String)
        → table (prepare c name sql w).1 id ≡ table w id
    pub work_keeps : (c : Connection) (w : W) (id : String) → table (work c w).1 id ≡ table w id
    pub exec_keeps :
        (t : Work) (name : String) (args : List SqlValue) (w : W) (id : String)
        → table (exec_prepared t name args w).1 id ≡ table w id
    pub destroy_keeps : (t : Work) (w : W) (id : String) → table (destroy t w).1 id ≡ table w id
    -- a commit after the upsert
    pub commit_done :
        (t : Work) (name : String) (e : Entity) (w : W) (rows : List Row)
        → find name prepared ≡ some upsert_sql
        → let w' = (exec_prepared t name (row_of e) w).1 in
          (exec_prepared t name (row_of e) w).0 ≡ returns rows
          → (commit t w').0 ≡ returns tt
          → (id : String) → table (commit t w').1 id ≡ updated e (table w') id
    -- a commit that throws may have reached the server or not
    pub commit_in_doubt :
        (t : Work) (name : String) (e : Entity) (w : W) (rows : List Row) (x : Exn)
        → find name prepared ≡ some upsert_sql
        → let w' = (exec_prepared t name (row_of e) w).1 in
          (exec_prepared t name (row_of e) w).0 ≡ returns rows
          → (commit t w').0 ≡ throws x
          → ((id : String) → table (commit t w').1 id ≡ table w' id)
            ⊎ ((id : String) → table (commit t w').1 id ≡ updated e (table w') id)
    -- the selection
    pub selected :
        (t : Work) (name id : String) (w : W) (rows : List Row)
        → find name prepared ≡ some select_sql
        → (exec_prepared t name (text id ∷ []) w).0 ≡ returns rows
        → Selects (table w id) rows

  -- CreateConnection
  unfoldable pub create_connection : String → Comp W (Option Connection)
  create_connection connection_string = do
    connection ← connect connection_string
    prepare connection "store_entity"
        "INSERT INTO entity.entity(id, string_property, int_property) VALUES ($1,$2,$3) ON CONFLICT (id) DO UPDATE SET string_property = EXCLUDED.string_property, int_property = EXCLUDED.int_property;"
    prepare connection "retrieve_entity"
        "SELECT id, string_property, int_property FROM entity.entity WHERE id = $1"
    pure (some connection)

  -- The manager of a repository.
  abbrev pub manager_for : String → ℕ → ℕ → PostgresConnectionManager Connection W
  manager_for connection_string max_retry_count first_retry_interval = record {
    connection_factory = some (create_connection connection_string);
    max_retry_count = max_retry_count;
    first_retry_interval = first_retry_interval;
  }

  -- The constructor.
  unfoldable pub create :
      String → ℕ → ℕ → Comp (Option Connection × W) (PostgresConnectionManager Connection W)
  create connection_string max_retry_count first_retry_interval =
      create_manager (some (create_connection connection_string)) max_retry_count
        first_retry_interval

  -- The operation that Store runs on a connection.
  unfoldable pub store_op : Entity → Connection → Comp W (Unit {0})
  store_op entity c = do
    t ← work c
    with_cleanup (destroy t) (do exec_prepared t "store_entity" (row_of entity); commit t)

  unfoldable pub store :
      IssuerLib
      → PostgresConnectionManager Connection W
      → Entity
      → Comp (Option Connection × W) (Unit {0})
  store M manager entity = with_connection M manager (store_op entity) "store"

  -- The part of Retrieve that reads the result: entity_opt = e;, only if there is just one row.
  read_rows : List Row → Comp (W × Option Entity) (Unit {0})
  read_rows (row ∷ []) = do
    (id, string_property, int_property) ← lift (as_entity row)
    on_right (
        assign_local (
          some
            (record { id = id; string_property = string_property; int_property = int_property })))
  read_rows _ = pure tt

  -- The operation that Retrieve runs on a connection, with the local entity_opt that it assigns.
  unfoldable pub retrieve_op : String → Connection → Comp (W × Option Entity) (Unit {0})
  unfolding read_rows
  retrieve_op id c = do
    t ← on_left (work c)
    with_cleanup (on_left (destroy t))
        (do rows ← on_left (exec_prepared t "retrieve_entity" (text id ∷ [])); read_rows rows)

  unfoldable pub retrieve :
      IssuerLib
      → PostgresConnectionManager Connection W
      → String
      → Comp (Option Connection × W) (Option Entity)
  retrieve M manager id =
      with_local none (with_connection M (widened manager) (retrieve_op id) "retrieve")

  abbrev pub postgres_repo :
      IssuerLib → PostgresConnectionManager Connection W → EntityRepo (Option Connection × W)
  postgres_repo M manager = record { store = store M manager; retrieve = retrieve M manager }

-- A client library that only records what is prepared.
abbrev recorder : PqxxLib (Dict String)
recorder = record {
  Connection = Unit {0};
  Work = Unit {0};
  Row = Unit {0};
  connect = λ s. pure tt;
  prepare = λ c name sql texts. (returns tt, assign name sql texts);
  work = λ c. pure tt;
  exec_prepared = λ t name args. pure [];
  commit = λ t. pure tt;
  destroy = λ t. pure tt;
  as_entity = λ row. returns ("", "", pos 0);
}

-- The texts that CreateConnection prepares, by their names.
abbrev pub prepared_texts : Dict String
prepared_texts = (create_connection recorder "" []).1
