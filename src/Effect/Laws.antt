-- ===== src/Effect/Laws.antt =====
-- Inversion of results and of binds, for proofs where the actions stay shut.
use sapper_bricks.Prelude.{◌≡◌, refl, ◌⊎◌, inl, inr, arith}
use sapper_bricks.Effect.{Exn, Result, returns, throws, Comp, ◌>>=◌}

pub Result-cases :
    {A : Type 0} (r : Result A) → ((a : A) × (r ≡ returns a)) ⊎ ((x : Exn) × (r ≡ throws x))
Result-cases (returns a) = inl (a, refl)
Result-cases (throws x) = inr (x, refl)

module _ {W A B : Type 0} where
  -- A block that returned: its first step returned, and the rest ran from there.
  pub >>=_inversion :
      (m : Comp W A) (f : A → Comp W B) (w : W) {b : B}
      → ((m >>= f) w).0 ≡ returns b
      → (a : A) × ((m w).0 ≡ returns a)
        × ((m >>= f) w ≡ f a (m w).1)
        × ((f a (m w).1).0 ≡ returns b)
  >>=_inversion m f w h = elim (Result-cases (m w).0) [
    | inl (a, e) ↦ (a, e, rw e, rw e at h)
    | inr (x, e) ↦ absurd (ground arith)
  ]

  -- What a block leaves behind, whether it returns or throws.
  pub >>=_keeps :
      (P : W → Type 0) (m : Comp W A) (f : A → Comp W B) (w : W)
      → P (m w).1
      → ((a : A) → (m w).0 ≡ returns a → P (m w).1 → P (f a (m w).1).1)
      → P ((m >>= f) w).1
  >>=_keeps P m f w p k = elim (Result-cases (m w).0) [
    | inl (a, e) ↦ rw e (k a e p)
    | inr (x, e) ↦ rw e p
  ]
