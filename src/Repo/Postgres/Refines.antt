-- ===== src/Repo/Postgres/Refines.antt =====
-- The Postgres repository keeps the contract of the port.
use sapper_bricks.Prelude.{ℕ, String, Option}
use sapper_bricks.Ports.{Entity}
use sapper_bricks.Ports.Contract.{IsRepo}
use sapper_bricks.Mse.{IssuerLib, IsIssuer}
use sapper_bricks.Repo.Postgres.{PqxxLib, IsDatabase, prepared_texts, manager_for, postgres_repo}
use sapper_bricks.Repo.Postgres.Storing.{store-refines}
use sapper_bricks.Repo.Postgres.Retrieving.{retrieve-refines}

-- Over a database the repository refines the table of the committed rows, whatever breaks on the
-- way: a store that returns replaces one row, a retrieval answers from the table.
pub postgres_repo-IsRepo :
    {W : Type 0} (P : PqxxLib W) {table : W → String → Option Entity}
    (db : IsDatabase P prepared_texts table) (M : IssuerLib) (hooks : IsIssuer M)
    (connection_string : String) (retries interval : ℕ)
    → IsRepo (postgres_repo P M (manager_for P connection_string retries interval)) (λ s. table s.1)
postgres_repo-IsRepo P db M hooks connection_string retries interval = record {
  stored = λ e s _ done. (store-refines P db M hooks connection_string retries interval e s).1 done;
  retrieved = λ id s. (retrieve-refines P db M hooks connection_string retries interval id s).1;
  kept = λ id s. (retrieve-refines P db M hooks connection_string retries interval id s).0;
}
