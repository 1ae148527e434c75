-- ===== src/Tests/Repos.antt =====
-- The repositories.
use sapper_bricks.Prelude.{ℕ, ◌≡◌, refl, Option, none, some, List, [], ◌∷◌, arith}
use sapper_bricks.Effect.{status_ok, unavailable, returns, pure}
use sapper_bricks.Mse.{Forwards}
use sapper_bricks.Mse.Issuer.{after}
use sapper_bricks.Ports.Contract.{IsRepo, updated}
use sapper_bricks.Repo.Redis.{RedisRepo, redis_repo}
use sapper_bricks.Repo.Redis.Refines.{redis_repo-IsRepo}
use sapper_bricks.Repo.Redis.Refines
use sapper_bricks.Repo.CloudStorage.{CloudStorageRepo}
use sapper_bricks.Repo.CloudStorage.Refines as Cloud
use sapper_bricks.Repo.Postgres.{postgres_repo, manager_for, store}
use sapper_bricks.Repo.Postgres.Table.{Same}
use sapper_bricks.Repo.Postgres.Storing.{OldOrUpdated, store-refines}
use sapper_bricks.Repo.Postgres.Threads.{
  Request, stores, reads, Explains, run_all, run_all-Explains,
}
use sapper_bricks.Repo.Postgres.Refines.{postgres_repo-IsRepo}
use sapper_bricks.Repo.Postgres.Connection.{
  PostgresConnectionManager, attempt, with_connection_ptr, create_connection,
}
use sapper_bricks.Repo.Postgres.Connection.Attempts.{BreaksFor, attempts, with_connection_recovers}
use sapper_bricks.Repo.Postgres.Connection.Calls.{counted, counted_manager, with_connection-calls}
use sapper_bricks.Tests.Json.{json}
use sapper_bricks.Tests.Json.Laws.{json_laws}
use sapper_bricks.Tests.Requests.{hooks, hook_laws}
use sapper_bricks.Tests.Samples.{blue}
use sapper_bricks.Tests.Servers.{
  redis, redis_laws, Bucket, pqxx, table, database_laws, Database, flaky, broken,
}

abbrev redis_sample : RedisRepo redis json
redis_sample = record { connection = tt }

redis_repo-IsRepo_example :
    IsRepo
      (redis_repo redis json redis_sample)
      (Refines.view redis json json_laws redis_laws redis_sample)
redis_repo-IsRepo_example = redis_repo-IsRepo redis json json_laws redis_laws redis_sample

abbrev bucket_sample : CloudStorageRepo
bucket_sample = record { bucket = "entities" }

abbrev full_bucket : Bucket
full_bucket = (("a1", "entity") ∷ [], "")

abbrev empty_database : Option (Unit {0}) × Database
empty_database = (none, ([], none))

postgres_repo-IsRepo_example :
    IsRepo (postgres_repo pqxx hooks (manager_for pqxx "db" 2 5)) (λ s. table s.1)
postgres_repo-IsRepo_example = postgres_repo-IsRepo pqxx database_laws hooks hook_laws "db" 2 5

store-refines_example :
    let left = store pqxx hooks (manager_for pqxx "db" 2 5) blue empty_database in
    OldOrUpdated pqxx database_laws blue (table empty_database.1) left.1.1
    × (left.0 ≡ returns tt → Same (table left.1.1) (updated blue (table empty_database.1)))
store-refines_example =
    store-refines pqxx database_laws hooks hook_laws "db" 2 5 blue empty_database

abbrev manager : PostgresConnectionManager (Unit {0}) ℕ
manager = record {
  connection_factory = some (pure (some tt));
  max_retry_count = 3;
  first_retry_interval = 5;
}

flaky_breaks_twice : BreaksFor manager.connection_factory flaky 2 (some tt, 2)
unfolding attempt create_connection
flaky_breaks_twice = (("lost", refl), (("lost", refl), tt))

with_connection_recovers_example : with_connection_ptr hooks manager flaky "store" (some tt, 2) ≡ (
  returns tt,
  (attempts hooks hook_laws manager flaky "store"
      (after 2 (attempts hooks hook_laws manager flaky "store") (some tt, 2))).1,
)
with_connection_recovers_example =
    with_connection_recovers hooks hook_laws manager flaky "store" 2 1 (some tt, 2) status_ok
      (omega arith) flaky_breaks_twice (unfold attempt in unfold create_connection in refl)

abbrev counting : PostgresConnectionManager (Unit {0}) (ℕ × ℕ)
counting = counted_manager (record {
  connection_factory = some (pure (some tt));
  max_retry_count = 3;
  first_retry_interval = 5;
})

with_connection-calls_example :
    Forwards unavailable
      (with_connection_ptr hooks counting (counted broken) "store" (none, (0, 0))).0
    × ((with_connection_ptr hooks counting (counted broken) "store" (none, (0, 0))).1.1.1 ≡ 4)
with_connection-calls_example =
    with_connection-calls hooks hook_laws (pure (some tt)) broken 3 5 "store" none 0
      (λ w. (some tt, refl)) (λ c w. ("lost", refl))

abbrev requests : List Request
requests = stores blue ∷ reads "a1" ∷ []

run_all-Explains_example :
    let left = run_all pqxx "db" requests empty_database in
    Explains (table empty_database.1) requests left.0 (table left.1.1)
run_all-Explains_example =
    run_all-Explains pqxx "db" database_laws hooks hook_laws requests empty_database
