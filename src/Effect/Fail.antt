-- ===== src/Effect/Fail.antt =====
-- Code that may throw and changes no state: a result alone, in the order of the source's calls.
use sapper_bricks.Prelude.{◌≡◌, refl, inl, inr, arith}
use sapper_bricks.Effect.{Exn, Result, returns, throws}
use sapper_bricks.Effect.Laws.{Result-cases}

infixl 10 ◌>>=◌ ◌>>◌
abbrev pub ◌>>=◌ : {A B : Type 0} → Result A → (A → Result B) → Result B
returns a >>= f = f a
throws x >>= f = throws x

abbrev pub ◌>>◌ : {A B : Type 0} → Result A → Result B → Result B
m >> n = m >>= λ _. n

-- try { m } catch(const E& e) { throw handler(e); }, over every exception
abbrev pub map_throw : {A : Type 0} → (Exn → Exn) → Result A → Result A
map_throw f (returns a) = returns a
map_throw f (throws x) = throws (f x)

-- The inversion of a successful bind.
pub >>=-eq-returns :
    {A B : Type 0} (m : Result A) (f : A → Result B) {b : B}
    → (m >>= f) ≡ returns b
    → (a : A) × (m ≡ returns a) × (f a ≡ returns b)
>>=-eq-returns (returns a) f h = (a, refl, h)
>>=-eq-returns (throws x) f h = cc

-- Rules for what a sequence of steps returns, and for what it throws.
module _ {A B : Type 0} (m : Result A) (f : A → Result B) where
  pub >>=_returns :
      (Q : B → Type 0)
      → ((a : A) → m ≡ returns a → (b : B) → f a ≡ returns b → Q b)
      → (b : B) → (m >>= f) ≡ returns b
      → Q b
  >>=_returns Q k b h = let (a, here, later) = >>=-eq-returns m f h in k a here b later

  pub >>=_throws :
      (Q : Exn → Type 0)
      → ((x : Exn) → m ≡ throws x → Q x)
      → ((a : A) (x : Exn) → f a ≡ throws x → Q x)
      → (x : Exn) → (m >>= f) ≡ throws x
      → Q x
  >>=_throws Q here later x h = elim (Result-cases m) [
    | inl (a, e) ↦ later a x (rw e at h)
    | inr (y, e) ↦ here x (ground arith)
  ]
