-- ===== src/Tests/Servers.antt =====
-- The servers and client libraries for the tests: each keeps its values in an association list.
use mathlib.Core.Path.{subst}
use sapper_bricks.Prelude.{
  ℕ, zero, suc, String, ◌≡◌, refl, Bool, true, false, Option, none, some, List, [], ◌∷◌, ◌==◌,
  if◌then◌else◌, arith,
}
use sapper_bricks.Effect.{broken_connection, returns, throws, Comp, pure}
use sapper_bricks.Dict.{Dict, find, assign}
use sapper_bricks.Dict.Laws.{find-assign}
use sapper_bricks.Ports.{Entity}
use sapper_bricks.Repo.Redis.{RedisLib, IsRedis}
use sapper_bricks.Repo.CloudStorage.{StorageLib, IsStorage}
use sapper_bricks.Repo.Postgres.{
  PqxxLib, IsDatabase, prepared_texts, upsert_sql, SqlValue, text, integer, Selects, fields_of,
}

abbrev pub redis : RedisLib (Dict String)
redis = record {
  Connection = Unit {0};
  connect = λ s. pure tt;
  ping = λ c message. pure message;
  set = λ c key value w. (returns true, assign key value w);
  get = λ c key w. (returns (find key w), w);
}

abbrev pub redis_texts : Unit {0} → Dict String → String → Option String
redis_texts c w k = find k w

pub redis_laws : IsRedis redis redis_texts
redis_laws = record {
  set_done = λ c key value w h k. find-assign key k value w;
  get_found = λ c key w found h. let same : returns (find key w) ≡ returns found = h in cc;
  get_keeps = λ c key w k. refl;
}

-- The objects of a bucket, and the text that the open stream has got.
abbrev pub Bucket : Type 0
Bucket = Dict String × String

abbrev is_none : Option String → Bool
is_none none = true
is_none (some s) = false

abbrev text_of : Option String → String
text_of none = ""
text_of (some s) = s

-- A stream that is not bad delivers its object to the end.
abbrev pub Whole : Option String → Type 0
Whole none = ⊥
Whole (some s) = Unit {0}

abbrev pub storage : StorageLib Bucket
storage = record {
  Client = Unit {0};
  WriteStream = String;
  create_default_client = pure (some tt);
  write_object = λ c bucket name. pure name;
  write = λ stream value w. (returns tt, (w.0, value));
  close = λ stream w. (returns tt, (assign stream w.1 w.0, w.1));
  metadata_error = λ stream. pure none;
  destroy = λ stream. pure tt;
  ReadStream = Option String;
  read_object = λ c bucket name w. (returns (find name w.0), w);
  bad = λ stream. is_none stream;
  read_all = λ stream. pure (text_of stream);
}

abbrev pub bucket_texts : String → Bucket → String → Option String
bucket_texts bucket w k = find k w.0

found_whole :
    (o stream : Option String) (value : String)
    → returns o ≡ returns stream
    → Whole stream
    → returns (text_of stream) ≡ returns value
    → o ≡ some value
found_whole o none value h intact read = elim intact [ ]
found_whole o (some s) value h intact read = cc

pub storage_laws : IsStorage storage bucket_texts Whole
storage_laws = record {
  client_keeps = λ bucket w k. refl;
  opened_keeps = λ c bucket name w k. refl;
  uploaded = λ c bucket name value stream w h sent k.
      let same : returns name ≡ returns stream = h in
      let name_is : name ≡ stream = cc in rw name_is (find-assign stream k value w.0);
  read_found = λ c bucket name value stream w. found_whole (find name w.0) stream value;
  missing_bad = λ c bucket name stream w h missing.
      let same : returns (find name w.0) ≡ returns stream = h in
      let none_there : stream ≡ none = cc in rw none_there;
  read_all_keeps = λ stream bucket w k. refl;
  read_keeps = λ c bucket name w k. refl;
}

-- The committed rows, and the row of an open transaction.
abbrev pub Database : Type 0
Database = Dict Entity × Option Entity

abbrev upserted : List SqlValue → Option Entity
upserted (text id ∷ text s ∷ integer n ∷ []) =
    some (record { id = id; string_property = s; int_property = n })
upserted _ = none

abbrev rows_of : Option Entity → List Entity
rows_of none = []
rows_of (some e) = e ∷ []

abbrev selected_rows : List SqlValue → Dict Entity → List Entity
selected_rows (text id ∷ []) rows = rows_of (find id rows)
selected_rows _ rows = []

abbrev is_upsert : Option String → Bool
is_upsert none = false
is_upsert (some sql) = sql == upsert_sql

abbrev run_statement : String → List SqlValue → Comp Database (List Entity)
run_statement name args w =
    if is_upsert (find name prepared_texts)
    then (returns [], (w.0, upserted args))
    else (returns (selected_rows args w.0), w)

abbrev committed : Option Entity → Dict Entity → Dict Entity
committed none rows = rows
committed (some e) rows = assign e.id e rows

abbrev pub pqxx : PqxxLib Database
pqxx = record {
  Connection = Unit {0};
  Work = Unit {0};
  Row = Entity;
  connect = λ s. pure tt;
  prepare = λ c name sql. pure tt;
  work = λ c. pure tt;
  exec_prepared = λ t name args. run_statement name args;
  commit = λ t w. (returns tt, (committed w.1 w.0, none));
  destroy = λ t. pure tt;
  as_entity = λ e. returns (fields_of e);
}

abbrev pub table : Database → String → Option Entity
table w id = find id w.0

run_statement-keeps :
    (name : String) (args : List SqlValue) (w : Database) (id : String)
    → table (run_statement name args w).1 id ≡ table w id
run_statement-keeps name args w id = ground arith

selects : (o : Option Entity) → Selects pqxx o (rows_of o)
selects none = refl
selects (some e) = (e, refl, refl)

pub database_laws : IsDatabase pqxx prepared_texts table
database_laws = record {
  connect_keeps = λ s w id. refl;
  prepare_keeps = λ c name sql w id. refl;
  work_keeps = λ c w id. refl;
  exec_keeps = λ t name args w id. run_statement-keeps name args w id;
  destroy_keeps = λ t w id. refl;
  commit_done = λ t name e w rows is ran done id. rw is (find-assign e.id id e w.0);
  commit_in_doubt =
      λ t name e w rows x is ran lost. absurd (let l : returns tt ≡ throws x = lost in cc);
  selected = λ t name id w rows is ran.
      let same : returns (rows_of (find id w.0)) ≡ returns rows = rw is at ran in
      let rows_are : rows_of (find id w.0) ≡ rows = cc in
      subst (Selects pqxx (find id w.0)) rows_are (selects (find id w.0));
}

-- An operation on a server that breaks as often as the number says.
abbrev pub flaky : Option (Unit {0}) → Comp ℕ (Unit {0})
flaky c zero = (returns tt, zero)
flaky c (suc n) = (throws (broken_connection "lost"), n)

abbrev pub broken : Option (Unit {0}) → Comp ℕ (Unit {0})
broken c n = (throws (broken_connection "lost"), n)
