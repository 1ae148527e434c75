-- ===== src/Effect.antt =====
-- Exceptions and state. A method of the source is an action of `Comp W`: it reads and changes the
-- world `W` and either returns a value or throws; what it wrote before a throw stays written.
-- The exception classes and the status codes are the ones that the source names; `Exn.other` and
-- `StatusCode.other` stand for the rest.
pub mod Laws
pub mod Fail
use sapper_bricks.Prelude.{ℕ, String, Bool, true, false, if◌then◌else◌}

pub data StatusCode : Type 0 where
  ok not_found unavailable : StatusCode
  other : ℕ → StatusCode

-- mse::Status
pub record Status : Type 0 where
  pub code : StatusCode
  pub details : String

-- mse::Status::OK
abbrev pub status_ok : Status
status_ok = record { code = ok; details = "" }

abbrev pub is_ok : StatusCode → Bool
is_ok ok = true
is_ok not_found = false
is_ok unavailable = false
is_ok (other n) = false

-- std::runtime_error, std::invalid_argument, nlohmann::json::exception and pqxx::broken_connection
-- with what(), mse::ErrorForwardingException with its status and what(), and any other class.
pub data Exn : Type 0 where
  runtime_error invalid_argument json_error broken_connection : String → Exn
  bad_optional_access : Exn
  error_forwarding : Status → String → Exn
  other : ℕ → Exn

pub data Result (A : Type 0) : Type 0 where
  returns : A → Result A
  throws : Exn → Result A

abbrev pub Comp : Type 0 → Type 0 → Type 0
Comp W A = W → Result A × W

module _ {W A : Type 0} where
  abbrev pub pure : A → Comp W A
  pure a w = (returns a, w)

  abbrev pub raise : Exn → Comp W A
  raise x w = (throws x, w)

  abbrev pub lift : Result A → Comp W A
  lift r w = (r, w)

  -- try { m } catch(...) { handler }
  abbrev pub recover : (Exn → Comp W A) → Result A → Comp W A
  recover handler (returns a) w = (returns a, w)
  recover handler (throws x) w = handler x w

  abbrev pub try_catch : Comp W A → (Exn → Comp W A) → Comp W A
  try_catch m handler w = recover handler (m w).0 (m w).1

module _ {W A B : Type 0} where
  abbrev pub continue : Result A → (A → Comp W B) → Comp W B
  continue (returns a) f w = f a w
  continue (throws x) f w = (throws x, w)

  infixl 10 ◌>>=◌ ◌>>◌
  abbrev pub ◌>>=◌ : Comp W A → (A → Comp W B) → Comp W B
  ◌>>=◌ m f w = continue (m w).0 f (m w).1

  abbrev pub ◌>>◌ : Comp W A → Comp W B → Comp W B
  m >> n = m >>= λ _. n

-- if(test) { throw x; }
abbrev pub throw_if : {W : Type 0} → Bool → Exn → Comp W (Unit {0})
throw_if true x w = (throws x, w)
throw_if false x w = (returns tt, w)

-- Runs the destructor of a local object when the block ends, by a return or by a throw.
abbrev pub with_cleanup : {W A : Type 0} → Comp W (Unit {0}) → Comp W A → Comp W A
with_cleanup destroy m w = ((m w).0, (destroy (m w).1).1)

-- An action on one part of a larger world.
module _ {W V A : Type 0} where
  abbrev pub on_left : Comp W A → Comp (W × V) A
  on_left m w = ((m w.0).0, ((m w.0).1, w.1))

  abbrev pub on_right : Comp V A → Comp (W × V) A
  on_right m w = ((m w.1).0, (w.0, (m w.1).1))
