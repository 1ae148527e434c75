-- ===== src/Repo/Postgres/Connection/Rule.antt =====
-- The rule by which the operations of the repository are proved: what connections and an operation
-- keep, and what the operation brings about, holds of WithConnection.
use sapper_bricks.Prelude.{ℕ, zero, suc, String, ◌≡◌, inl, inr, Option, none, some}
use sapper_bricks.Effect.{Status, status_ok, Comp, returns}
use sapper_bricks.Effect.Laws.{Result-cases}
use sapper_bricks.Mse.{IssuerLib, IsIssuer}
use sapper_bricks.Mse.Issuer.{after}
use sapper_bricks.Repo.Postgres.Connection.{
  PostgresConnectionManager, create_connection, attempt, with_connection_ptr,
}
use sapper_bricks.Repo.Postgres.Connection.Attempts.{
  attempt_on, attempt_connecting, attempt_unconnected, with_connection_attempts,
}

module _ (M : IssuerLib) (laws : IsIssuer M) {C W : Type 0}
    (manager : PostgresConnectionManager C W) (op : Option C → Comp W (Unit {0}))
    (name : String) where
  open manager use {connection_factory, max_retry_count}

  abbrev attempts : Comp (Option C × W) Status
  attempts = attempt connection_factory op

  -- A rule for WithConnection: `P` is kept by new connections and by the operation, which brings
  -- about `Q` when it returns.
  module _ (P Q : W → Type 0)
      (connects : (w : W) → P w → P (create_connection connection_factory w).1)
      (keeps : (c : Option C) (w : W) → P w → P (op c w).1)
      (reaches : (c : Option C) (w : W) → P w → (op c w).0 ≡ returns tt → Q (op c w).1) where
    pub attempt_rule :
        (s : Option C × W)
        → P s.1
        → P (attempts s).1.1 × ((attempts s).0 ≡ returns status_ok → Q (attempts s).1.1)
    attempt_rule (some c, w) p =
        let (world, ended) = attempt_on connection_factory op c w in
        (rw world (keeps (some c) w p), λ h. rw world (reaches (some c) w p (ended h)))
    attempt_rule (none, w) p = elim (Result-cases (create_connection connection_factory w).0) [
      | inl (c, e) ↦
          let (world, ended) = attempt_connecting connection_factory op w c e in
          let p' = connects w p in
          (rw world (keeps c _ p'), λ h. rw world (reaches c _ p' (ended h)))
      | inr (x, e) ↦
          let (world, failed) = attempt_unconnected connection_factory op w x e in
          (rw world (connects w p), λ h. absurd (failed h))
    ]

    after_rule : (k : ℕ) (s : Option C × W) → P s.1 → P (after k attempts s).1
    after_rule zero s p = p
    after_rule (suc k) s p = after_rule k (attempts s).1 (attempt_rule s p).0

    pub with_connection_rule :
        (s : Option C × W)
        → P s.1
        → P (with_connection_ptr M manager op name s).1.1
          × ((with_connection_ptr M manager op name s).0 ≡ returns tt
              → Q (with_connection_ptr M manager op name s).1.1)
    with_connection_rule s p =
        let (k, _, final, ended) = with_connection_attempts M laws manager op name s in
        let (kept, reached) = attempt_rule (after k attempts s) (after_rule k s p) in
        (rw final kept, λ h. rw final (reached (ended h)))
