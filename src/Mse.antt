-- ===== src/Mse.antt =====
-- The request library (microservice-essentials) that every handler, every notifier and the
-- connection manager call, as a parameter. A request hook turns a request into a request and works
-- for any world, so it cannot touch the state of the code that it wraps but by running it.
pub mod Issuer
pub mod Forward
use sapper_bricks.Prelude.{ℕ, zero, suc, String, ◌≡◌, ◌⊎◌, true, false}
use sapper_bricks.Effect.{
  StatusCode, Status, unavailable, is_ok, Exn, broken_connection, error_forwarding, Result, returns,
  throws, Comp,
}

pub record IssuerLib : Type 1 where
  -- RequestIssuer(name, Context()).Process(request), with the hooks that are installed globally
  pub process : {W : Type 0} → String → Comp W Status → Comp W Status
  -- ErrorForwardingRequestHook::Parameters().IncludeAllErrorCodes()
  pub forward_errors : {W : Type 0} → Comp W Status → Comp W Status
  -- RetryRequestHook with ExponentialRetryBackoff(count, first interval) and a jitter of a tenth
  pub retry : {W : Type 0} → ℕ → ℕ → Comp W Status → Comp W Status
  -- ExceptionHandlingRequestHook that maps pqxx::broken_connection to unavailable
  pub map_broken : {W : Type 0} → Comp W Status → Comp W Status

-- A request that ended with the exception that forwards a status of this code.
abbrev pub Forwards : {A : Type 0} → StatusCode → Result A → Type 0
Forwards code r =
    (s : Status) × (what : String) × (s.code ≡ code) × (r ≡ throws (error_forwarding s what))

-- A request that did not succeed: it threw, or its status is not ok.
abbrev pub HasFailed : Result Status → Type 0
HasFailed (returns s) = is_ok s.code ≡ false
HasFailed (throws x) = Unit

-- What the documentation of the library says of these hooks. It is left open which statuses other
-- than unavailable are tried again, and what becomes of an exception that is not broken_connection
-- but that it is no success.
pub record IsIssuer (M : IssuerLib) : Type 1 where
  -- a service without further hooks: the issuer runs the request
  pub process_lem :
      {W : Type 0} (name : String) (m : Comp W Status) (w : W) → M.process name m w ≡ m w
  pub forwards_ok :
      {W : Type 0} (m : Comp W Status) (w : W) (s : Status)
      → (m w).0 ≡ returns s
      → is_ok s.code ≡ true
      → M.forward_errors m w ≡ m w
  pub forwards_error :
      {W : Type 0} (m : Comp W Status) (w : W) (s : Status)
      → (m w).0 ≡ returns s
      → is_ok s.code ≡ false
      → Forwards s.code (M.forward_errors m w).0 × ((M.forward_errors m w).1 ≡ (m w).1)
  pub forwards_throw :
      {W : Type 0} (m : Comp W Status) (w : W) (x : Exn)
      → (m w).0 ≡ throws x
      → M.forward_errors m w ≡ m w
  pub retry_ok :
      {W : Type 0} (n i : ℕ) (m : Comp W Status) (w : W) (s : Status)
      → (m w).0 ≡ returns s
      → is_ok s.code ≡ true
      → M.retry n i m w ≡ m w
  -- the waiting time is no part of the state, and the next interval is the library's
  pub retry_again :
      {W : Type 0} (n i : ℕ) (m : Comp W Status) (w : W) (s : Status)
      → (m w).0 ≡ returns s
      → s.code ≡ unavailable
      → (j : ℕ) × (M.retry (suc n) i m w ≡ M.retry n j m (m w).1)
  pub retry_last :
      {W : Type 0} (i : ℕ) (m : Comp W Status) (w : W)
      → HasFailed (m w).0
      → M.retry zero i m w ≡ m w
  pub retry_other :
      {W : Type 0} (n i : ℕ) (m : Comp W Status) (w : W)
      → HasFailed (m w).0
      → (M.retry (suc n) i m w ≡ m w) ⊎ ((j : ℕ) × (M.retry (suc n) i m w ≡ M.retry n j m (m w).1))
  pub map_returned :
      {W : Type 0} (m : Comp W Status) (w : W) (s : Status)
      → (m w).0 ≡ returns s
      → M.map_broken m w ≡ m w
  pub map_broken_lem :
      {W : Type 0} (m : Comp W Status) (w : W) (what : String)
      → (m w).0 ≡ throws (broken_connection what)
      → (s : Status) × (s.code ≡ unavailable) × (M.map_broken m w ≡ (returns s, (m w).1))
  pub map_other :
      {W : Type 0} (m : Comp W Status) (w : W) (x : Exn)
      → (m w).0 ≡ throws x
      → HasFailed (M.map_broken m w).0 × ((M.map_broken m w).1 ≡ (m w).1)
