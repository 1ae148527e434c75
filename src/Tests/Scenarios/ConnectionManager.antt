-- ===== src/Tests/Scenarios/ConnectionManager.antt =====
-- repo/postgres/tests/adapters/repo-postgres/impl/postgres-connection-manager_test.cpp. The lock of
-- the manager makes each WithConnection of the two threads one step.
use sapper_bricks.Prelude.{ℕ, suc, ◌≡◌, refl, Bool, true, false, Option, none, some, List, [], ◌∷◌}
use sapper_bricks.Effect.{
  runtime_error, broken_connection, error_forwarding, Result, returns, throws, Comp, pure, raise,
  throw_if, ◌>>=◌, ◌>>◌,
}
use sapper_bricks.Repo.Postgres.Connection.{
  PostgresConnectionManager, ConnectionFactory, create, create_connection, attempt,
  with_connection_ptr,
}
use sapper_bricks.Tests.Json.{nat_eq}
use sapper_bricks.Tests.Requests.{hooks, retried}
use sapper_bricks.Tests.Scenarios.{all_hold}

-- The variables of the test.
pub record Counters : Type 0 where
  pub create_counter : ℕ
  pub operation_called_counter : ℕ
  pub operation_active : Bool

abbrev zeros : Counters
zeros = record { create_counter = 0; operation_called_counter = 0; operation_active = false }

-- The factory returns always nullptr.
abbrev connection_factory : ConnectionFactory (Unit {0}) Counters
connection_factory = some (λ w. (returns none, record w { create_counter = suc w.create_counter }))

abbrev Managed : Type 0 → Type 0
Managed A = Comp (Option (Unit {0}) × Counters) A

abbrev cmngr : Managed (PostgresConnectionManager (Unit {0}) Counters)
cmngr = create connection_factory 3 1

abbrev count_call : Comp Counters (Unit {0})
count_call w = (returns tt, record w { operation_called_counter = suc w.operation_called_counter })

abbrev set_active : Bool → Comp Counters (Unit {0})
set_active active w = (returns tt, record w { operation_active = active })

abbrev some_operation : Managed (Unit {0})
some_operation = do
  manager ← cmngr
  with_connection_ptr hooks manager (λ c. count_call) "some operation"

abbrev exception_op : Managed (Unit {0})
exception_op = do
  manager ← cmngr
  with_connection_ptr hooks manager (λ c. (do count_call; raise (broken_connection "")))
      "exception op"

abbrev throws_error_forwarding : Result (Unit {0}) → Bool
throws_error_forwarding (throws (error_forwarding status what)) = true
throws_error_forwarding _ = false

-- The turns of the two threads: the background thread checks that it is alone, the other one is
-- active during its operation.
abbrev operation : Bool → Comp Counters (Unit {0})
operation true w = throw_if w.operation_active (runtime_error "simultaneous access") w
operation false w = (do set_active true; set_active false) w

two_threads : PostgresConnectionManager (Unit {0}) Counters → List Bool → Managed (Unit {0})
two_threads manager [] = pure tt
two_threads manager (background ∷ turns) = do
  with_connection_ptr hooks manager (λ c. operation background) "op"
  two_threads manager turns

abbrev manager_requirements : List Bool
manager_requirements =
    let (made, (connection, after_create)) = cmngr (none, zeros) in
    let (done, (connection_after, after_operation)) = some_operation (none, zeros) in
    let (failed, (connection_failed, after_failure)) = exception_op (none, zeros) in
    nat_eq after_create.create_counter 1
    ∷ nat_eq after_operation.create_counter 2
    ∷ nat_eq after_operation.operation_called_counter 1
    ∷ throws_error_forwarding failed
    ∷ nat_eq after_failure.operation_called_counter 4
    ∷ []

connection_manager_test : all_hold manager_requirements ≡ true
unfolding create create_connection with_connection_ptr attempt retried
connection_manager_test = refl

abbrev test_manager : PostgresConnectionManager (Unit {0}) Counters
test_manager = record {
  connection_factory = connection_factory;
  max_retry_count = 3;
  first_retry_interval = 1;
}

abbrev inactive : ℕ → ℕ → Counters
inactive created called = record {
  create_counter = created;
  operation_called_counter = called;
  operation_active = false;
}

-- No order of the turns makes an operation throw.
two_threads_test :
    (turns : List Bool) (connection : Option (Unit {0})) (created called : ℕ)
    → (two_threads test_manager turns (connection, inactive created called)).0 ≡ returns tt
unfolding two_threads create_connection with_connection_ptr attempt retried
two_threads_test [] connection created called = refl
two_threads_test (true ∷ turns) none created called =
    two_threads_test turns none (suc created) called
two_threads_test (true ∷ turns) (some c) created called =
    two_threads_test turns (some c) created called
two_threads_test (false ∷ turns) none created called =
    two_threads_test turns none (suc created) called
two_threads_test (false ∷ turns) (some c) created called =
    two_threads_test turns (some c) created called
