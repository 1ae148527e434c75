-- ===== src/Repo/Postgres/Connection.antt =====
-- repo/postgres/src/adapters/repo-postgres/impl/postgres-connection-manager.cpp. The manager's
-- one mutable field, the connection, stands beside the world; the lock makes an attempt one step.
pub mod Attempts
pub mod Rule
pub mod Calls
use Prim.Native.String
use sapper_bricks.Prelude.{ℕ, String, Option, none, some}
use sapper_bricks.Effect.{
  Status, status_ok, Exn, runtime_error, broken_connection, Comp, returns, throws, pure, raise,
  try_catch, on_right, ◌>>=◌, ◌>>◌,
}
use sapper_bricks.Mse.{IssuerLib}

-- A factory returns a pointer, which may be null; an empty std::function is no factory.
abbrev pub ConnectionFactory : Type 0 → Type 0 → Type 0
ConnectionFactory C W = Option (Comp W (Option C))

pub record PostgresConnectionManager (C W : Type 0) : Type 0 where
  pub connection_factory : ConnectionFactory C W
  pub max_retry_count : ℕ
  pub first_retry_interval : ℕ

module _ {C W : Type 0} where
  unfoldable pub create_connection : ConnectionFactory C W → Comp W (Option C)
  create_connection none = raise (runtime_error "invalid connection factory")
  create_connection (some factory) = factory

  -- _connection = value;
  abbrev assign_connection : Option C → Comp (Option C × W) (Unit {0})
  assign_connection value s = (returns tt, (value, s.1))

  -- The constructor connects at once.
  unfoldable pub create :
      ConnectionFactory C W → ℕ → ℕ → Comp (Option C × W) (PostgresConnectionManager C W)
  unfolding create_connection
  create connection_factory max_retry_count first_retry_interval = do
    connection ← on_right (create_connection connection_factory)
    assign_connection connection
    pure (record {
      connection_factory = connection_factory;
      max_retry_count = max_retry_count;
      first_retry_interval = first_retry_interval;
    })

  -- if(!_connection) { _connection = createConnection(); }
  ensure_connection : ConnectionFactory C W → Option C → Comp (Option C × W) (Unit {0})
  ensure_connection factory (some c) = pure tt
  ensure_connection factory none = do
    connection ← on_right (create_connection factory)
    assign_connection connection

  -- op(_connection.get());
  abbrev run_op : (Option C → Comp W (Unit {0})) → Comp (Option C × W) (Unit {0})
  run_op op s = on_right (op s.0) s

  -- catch(const pqxx::broken_connection&) { _connection = nullptr; throw; }
  abbrev on_broken : {A : Type 0} → Exn → Comp (Option C × W) A
  on_broken (broken_connection what) = do assign_connection none; raise (broken_connection what)
  on_broken x = raise x

  -- The request that Process is given.
  unfoldable pub attempt :
      ConnectionFactory C W → (Option C → Comp W (Unit {0})) → Comp (Option C × W) Status
  unfolding ensure_connection
  attempt factory op s =
      (do try_catch (do ensure_connection factory s.0; run_op op) on_broken; pure status_ok) s

  -- WithConnection over an operation that may get a null pointer. Process returns a status, which
  -- the source drops.
  unfoldable pub with_connection_ptr :
      IssuerLib
      → PostgresConnectionManager C W
      → (Option C → Comp W (Unit {0}))
      → String
      → Comp (Option C × W) (Unit {0})
  with_connection_ptr M manager op op_name = do
    M.process (Prim.Native.String.◌++◌ "postgres:" op_name) (
        M.forward_errors (
          M.retry manager.max_retry_count manager.first_retry_interval
            (M.map_broken (attempt manager.connection_factory op))))
    pure tt

  -- if(c == nullptr) { throw … } op(*c);
  abbrev pub deref : (C → Comp W (Unit {0})) → Option C → Comp W (Unit {0})
  deref op none = raise (runtime_error "invalid connection")
  deref op (some c) = op c

  unfoldable pub with_connection :
      IssuerLib
      → PostgresConnectionManager C W
      → (C → Comp W (Unit {0}))
      → String
      → Comp (Option C × W) (Unit {0})
  unfolding with_connection_ptr
  with_connection M manager op op_name = with_connection_ptr M manager (deref op) op_name
