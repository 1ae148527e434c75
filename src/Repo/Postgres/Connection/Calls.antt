-- ===== src/Repo/Postgres/Connection/Calls.antt =====
-- How often an operation runs on a database that cannot be reached.
use sapper_bricks.Prelude.{ℕ, zero, suc, ◌+◌, String, ◌≡◌, ap, ◌∙◌, Option, none, some, arith}
use sapper_bricks.Effect.{Status, unavailable, Comp, returns, on_left}
use sapper_bricks.Mse.{IssuerLib, IsIssuer, Forwards}
use sapper_bricks.Mse.Issuer.{after}
use sapper_bricks.Repo.Postgres.Connection.{
  PostgresConnectionManager, create_connection, attempt, with_connection_ptr,
}
use sapper_bricks.Repo.Postgres.Connection.Attempts.{IsBroken, BreaksFor, with_connection_exhausted}

module _ {C W : Type 0} where
  -- The same operation, which also counts its calls.
  abbrev pub counted : (Option C → Comp W (Unit {0})) → Option C → Comp (W × ℕ) (Unit {0})
  counted op c s = ((op c s.0).0, ((op c s.0).1, suc s.1))

  abbrev pub counted_manager : PostgresConnectionManager C W → PostgresConnectionManager C (W × ℕ)
  counted_manager m = record {
    connection_factory = elim m.connection_factory [ none ↦ none | some f ↦ some (on_left f) ];
    max_retry_count = m.max_retry_count;
    first_retry_interval = m.first_retry_interval;
  }

module _ {C W : Type 0} (f : Comp W (Option C)) (op : Option C → Comp W (Unit {0}))
    (connects : (w : W) → (c : Option C) × ((f w).0 ≡ returns c))
    (breaks : (c : Option C) (w : W) → IsBroken (op c w).0) where
  abbrev counted_attempt : Comp (Option C × (W × ℕ)) Status
  counted_attempt = attempt (some (on_left f)) (counted op)

  attempt_counted :
      (s : Option C × (W × ℕ))
      → IsBroken (counted_attempt s).0 × ((counted_attempt s).1.1.1 ≡ suc s.1.1)
  unfolding attempt create_connection
  attempt_counted (none, (w, n)) =
      let (c, made) = connects w in
      let (what, broke) = breaks c (f w).1 in ((what, ground arith), ground arith)
  attempt_counted (some c, (w, n)) =
      let (what, broke) = breaks (some c) w in ((what, ground arith), ground arith)

  attempts_counted :
      (k : ℕ) (s : Option C × (W × ℕ))
      → BreaksFor (some (on_left f)) (counted op) k s
        × ((after k counted_attempt s).1.1 ≡ s.1.1 + k)
  attempts_counted zero s = (tt, omega arith)
  attempts_counted (suc k) s =
      let (broke, once) = attempt_counted s in
      let (rest, total) = attempts_counted k (counted_attempt s).1 in
      ((broke, rest), omega (arith, once, total))

-- On a database whose connections can be made and always break, WithConnection runs the operation
-- `max_retry_count` times more than once, and then throws the exception that forwards the status
-- unavailable.
pub with_connection-calls :
    (M : IssuerLib) (laws : IsIssuer M) {C W : Type 0} (f : Comp W (Option C))
    (op : Option C → Comp W (Unit {0})) (retries interval : ℕ) (name : String) (c : Option C)
    (w : W)
    → ((w : W) → (c : Option C) × ((f w).0 ≡ returns c))
    → ((c : Option C) (w : W) → IsBroken (op c w).0)
    → let manager = counted_manager (record {
      connection_factory = some f;
      max_retry_count = retries;
      first_retry_interval = interval;
    }) in
      let (result, end) = with_connection_ptr M manager (counted op) name (c, (w, 0)) in
      Forwards unavailable result × (end.1.1 ≡ suc retries)
with_connection-calls M laws f op retries interval name c w connects breaks =
    let manager : PostgresConnectionManager _ _ = counted_manager (record {
      connection_factory = some f;
      max_retry_count = retries;
      first_retry_interval = interval;
    }) in
    let (broke, total) = attempts_counted f op connects breaks (suc retries) (c, (w, 0)) in
    let (thrown, final) =
      with_connection_exhausted M laws manager (counted op) name (c, (w, 0)) broke in
    (thrown, ap (λ s. s.1.1) final ∙ total ∙ omega arith)
