-- ===== src/Repo/Postgres/Connection/Attempts.antt =====
-- Broken connections, retries and reconnection.
use Prim.Native.String
use mathlib.Core.Path.{subst}
use sapper_bricks.Prelude.{
  ℕ, zero, suc, ◌+◌, ◌≤◌, true, String, ◌≡◌, ◌≢◌, refl, ◌∙◌, ap, sym, inl, inr, Option, none, some,
  arith,
}
use sapper_bricks.Effect.{
  Status, status_ok, unavailable, Exn, broken_connection, Comp, Result, returns, throws, pure,
  is_ok,
}
use sapper_bricks.Effect.Laws.{Result-cases, >>=_inversion}
use sapper_bricks.Mse.{IssuerLib, IsIssuer, Forwards, HasFailed}
use sapper_bricks.Mse.Forward.{forward_errors_lem}
use sapper_bricks.Mse.Issuer.{after, FailsFor, retry_recovers, retry_exhausted, retry_attempts}
use sapper_bricks.Repo.Postgres.Connection.{
  ConnectionFactory, PostgresConnectionManager, create_connection, attempt, with_connection_ptr,
}

abbrev pub IsBroken : {A : Type 0} → Result A → Type 0
IsBroken r = (what : String) × (r ≡ throws (broken_connection what))

module _ {C W : Type 0} (factory : ConnectionFactory C W) (op : Option C → Comp W (Unit {0})) where
  -- The next attempt after a broken one starts without the connection that broke.
  pub attempt_broken_resets :
      (s : Option C × W) → IsBroken (attempt factory op s).0 → (attempt factory op s).1.0 ≡ none
  unfolding attempt
  attempt_broken_resets (none, w) (what, e) = ground arith
  attempt_broken_resets (some c, w) (what, e) = ground arith

  -- An attempt that returns has run the operation on the connection that is kept.
  attempt_returned :
      (s : Option C × W) (st : Status) → (attempt factory op s).0 ≡ returns st → st ≡ status_ok
  unfolding attempt
  attempt_returned (none, w) st e = ground arith
  attempt_returned (some c, w) st e = ground arith

  -- The world that an attempt leaves, and what its operation returned.
  pub attempt_on :
      (c : C) (w : W)
      → ((attempt factory op (some c, w)).1.1 ≡ (op (some c) w).1)
        × ((attempt factory op (some c, w)).0 ≡ returns status_ok → (op (some c) w).0 ≡ returns tt)
  unfolding attempt
  attempt_on c w = (ground arith, λ h. ground arith)

  pub attempt_connecting :
      (w : W) (c : Option C)
      → (create_connection factory w).0 ≡ returns c
      → let w' = (create_connection factory w).1 in
        ((attempt factory op (none, w)).1.1 ≡ (op c w').1)
        × ((attempt factory op (none, w)).0 ≡ returns status_ok → (op c w').0 ≡ returns tt)
  unfolding attempt
  attempt_connecting w c e = (ground arith, λ h. ground arith)

  pub attempt_unconnected :
      (w : W) (x : Exn)
      → (create_connection factory w).0 ≡ throws x
      → ((attempt factory op (none, w)).1.1 ≡ (create_connection factory w).1)
        × ((attempt factory op (none, w)).0 ≢ returns status_ok)
  unfolding attempt
  attempt_unconnected w x e = (ground arith, λ h. ground arith)

  -- The first `k` attempts end with a broken connection.
  abbrev pub BreaksFor : ℕ → Option C × W → Type 0
  BreaksFor zero s = Unit
  BreaksFor (suc k) s = IsBroken (attempt factory op s).0 × BreaksFor k (attempt factory op s).1

module _ (M : IssuerLib) (laws : IsIssuer M) {C W : Type 0}
    (manager : PostgresConnectionManager C W) (op : Option C → Comp W (Unit {0}))
    (name : String) where
  open manager use {connection_factory, max_retry_count}

  abbrev pub attempts : Comp (Option C × W) Status
  attempts = attempt connection_factory op

  -- What the retry hook sees of an attempt.
  abbrev request : Comp (Option C × W) Status
  request = M.map_broken attempts

  BreaksFor-FailsFor :
      (k : ℕ) (s : Option C × W)
      → BreaksFor connection_factory op k s
      → FailsFor k request s × (after k request s ≡ after k attempts s)
  BreaksFor-FailsFor zero s h = (tt, refl)
  BreaksFor-FailsFor (suc k) s ((what, e), h) =
      let (st, code, broke) = laws.map_broken_lem attempts s what e in
      let (fails, same) = BreaksFor-FailsFor k (attempts s).1 h in
      rw broke (((st, refl, code), fails), same)

  abbrev retried : Comp (Option C × W) Status
  retried = M.retry max_retry_count manager.first_retry_interval request

  abbrev issued : Comp (Option C × W) Status
  issued = M.process (Prim.Native.String.◌++◌ "postgres:" name) (M.forward_errors retried)

  -- If at most `max_retry_count` attempts break and the next one returns, WithConnection returns
  -- in the state that this attempt left, after just those attempts.
  pub with_connection_recovers :
      (k extra : ℕ) (s : Option C × W) (st : Status)
      → k + extra ≡ max_retry_count
      → BreaksFor connection_factory op k s
      → (attempts (after k attempts s)).0 ≡ returns st
      → with_connection_ptr M manager op name s ≡ (returns tt, (attempts (after k attempts s)).1)
  unfolding with_connection_ptr
  with_connection_recovers k extra s st enough broke got =
      let (fails, same) = BreaksFor-FailsFor k s broke in
      let s' = after k attempts s in
      let good = attempt_returned connection_factory op s' st got in
      let there : request (after k request s) ≡ attempts s' =
        rw same (laws.map_returned attempts s' st got) in
      let there_ok : (request (after k request s)).0 ≡ returns st = rw there got in
      let ends : retried s ≡ attempts s' =
        ap (λ n. M.retry n manager.first_retry_interval request s) (sym enough)
        ∙ retry_recovers M laws request k extra manager.first_retry_interval s st fails there_ok
            (rw good)
        ∙ there in
      let forwarded = laws.forwards_ok retried s st (rw ends got) (rw good) in
      let whole : issued s ≡ attempts s' = laws.process_lem _ _ s ∙ forwarded ∙ ends in
      ground (arith, whole)

  -- If every attempt breaks, there are `max_retry_count` retries after the first, and then the
  -- exception that forwards the status unavailable.
  pub with_connection_exhausted :
      (s : Option C × W)
      → BreaksFor connection_factory op (suc max_retry_count) s
      → Forwards unavailable (with_connection_ptr M manager op name s).0
        × ((with_connection_ptr M manager op name s).1 ≡ after (suc max_retry_count) attempts s)
  unfolding with_connection_ptr
  with_connection_exhausted s broke =
      let (fails, same) = BreaksFor-FailsFor (suc max_retry_count) s broke in
      let (st, code, ends) =
        retry_exhausted M laws request max_retry_count manager.first_retry_interval s fails in
      let (forwarded, final) = laws.forwards_error retried s st (ap (λ p. p.0) ends) (rw code) in
      let (t, what, tcode, thrown) = forwarded in
      let process =
        laws.process_lem (Prim.Native.String.◌++◌ "postgres:" name) (M.forward_errors retried) s in
      (
        (t, what, tcode ∙ code, ground (arith, process, thrown)),
        ground (arith, process, thrown, final, ap (λ p. p.1) ends, same),
      )

  -- The mapping of exceptions to statuses leaves the state of the attempt.
  request-state : (s : Option C × W) → (request s).1 ≡ (attempts s).1
  request-state s = elim (Result-cases (attempts s).0) [
    | inl (st, e) ↦ ap (λ p. p.1) (laws.map_returned attempts s st e)
    | inr (x, e) ↦ (laws.map_other attempts s x e).1
  ]

  after-request : (k : ℕ) (s : Option C × W) → after k request s ≡ after k attempts s
  after-request zero s = refl
  after-request (suc k) s = rw request-state (after-request k (attempts s).1)

  -- A request that succeeded is an attempt that returned.
  request_succeeded :
      (s : Option C × W) (st : Status)
      → (request s).0 ≡ returns st
      → is_ok st.code ≡ true
      → (attempts s).0 ≡ returns status_ok
  request_succeeded s st h good = elim (Result-cases (attempts s).0) [
    | inl (t, e) ↦ rw (attempt_returned connection_factory op s t e) at e
    | inr (x, e) ↦ absurd (cc (good, subst HasFailed h (laws.map_other attempts s x e).0))
  ]

  -- After at most `max_retry_count` attempts WithConnection ends in the state that the next
  -- attempt left; and if it returns, that attempt returned.
  pub with_connection_attempts :
      (s : Option C × W)
      → (k : ℕ) × (k ≤ max_retry_count)
        × ((with_connection_ptr M manager op name s).1 ≡ (attempts (after k attempts s)).1)
        × ((with_connection_ptr M manager op name s).0 ≡ returns tt
            → (attempts (after k attempts s)).0 ≡ returns status_ok)
  unfolding with_connection_ptr
  with_connection_attempts s =
      let process =
        laws.process_lem (Prim.Native.String.◌++◌ "postgres:" name) (M.forward_errors retried) s in
      let (kept, ended) = forward_errors_lem M laws retried s in
      let (k, within, same, _) =
        retry_attempts M laws request max_retry_count manager.first_retry_interval s in
      let s' = after k attempts s in
      (
        k,
        within,
        ground (arith, process, kept, same, after-request k s, request-state s'),
        λ h.
            let (t, issued_ok, _, _) = >>=_inversion issued (λ _. pure tt) s h in
            let (st, got, good) = ended t (rw process at issued_ok) in
            request_succeeded s' st (ground (arith, same, after-request k s)) good,
      )
