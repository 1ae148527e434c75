-- ===== src/Mse/Issuer.antt =====
-- Requests that are tried again until they do not end as unavailable.
use sapper_bricks.Prelude.{
  ℕ, zero, suc, ◌+◌, ◌≤◌, true, refl, ◌⊎◌, inl, inr, Bool-cases, ◌≡◌, arith, ◌∙◌,
}
use sapper_bricks.Effect.{Status, unavailable, is_ok, Result, returns, throws, Comp}
use sapper_bricks.Mse.{IssuerLib, IsIssuer, HasFailed}

-- The world after a number of attempts.
abbrev pub after : {W : Type 0} → ℕ → Comp W Status → W → W
after zero m w = w
after (suc k) m w = after k m (m w).1

-- The first `k` attempts end as unavailable.
abbrev pub FailsFor : {W : Type 0} → ℕ → Comp W Status → W → Type 0
FailsFor zero m w = Unit
FailsFor (suc k) m w =
    ((s : Status) × ((m w).0 ≡ returns s) × (s.code ≡ unavailable)) × FailsFor k m (m w).1

-- The first `k` attempts fail.
abbrev pub FailedFor : {W : Type 0} → ℕ → Comp W Status → W → Type 0
FailedFor zero m w = Unit
FailedFor (suc k) m w = HasFailed (m w).0 × FailedFor k m (m w).1

pub HasFailed-cases :
    (r : Result Status) → ((s : Status) × (r ≡ returns s) × (is_ok s.code ≡ true)) ⊎ HasFailed r
HasFailed-cases (returns s) = elim (Bool-cases (is_ok s.code)) [
  | inl good ↦ inl (s, refl, good)
  | inr bad ↦ inr bad
]
HasFailed-cases (throws x) = inr tt

suc-add : (k n : ℕ) → suc k + n ≡ suc (k + n)
suc-add k n = omega arith

module _ (M : IssuerLib) (laws : IsIssuer M) {W : Type 0} (m : Comp W Status) where
  -- A request that fails for `k` attempts and then succeeds, with at least `k` retries allowed.
  pub retry_recovers :
      (k extra i : ℕ) (w : W) (s : Status)
      → FailsFor k m w
      → (m (after k m w)).0 ≡ returns s
      → is_ok s.code ≡ true
      → M.retry (k + extra) i m w ≡ m (after k m w)
  retry_recovers zero extra i w s h got good = laws.retry_ok (zero + extra) i m w s got good
  retry_recovers (suc k) extra i w s ((t, failed, code), h) got good =
      let (j, again) = laws.retry_again (k + extra) i m w t failed code in
      rw (suc-add k extra) (again ∙ retry_recovers k extra j (m w).1 s h got good)

  -- A request that fails for all its attempts: it is made once more than it is retried.
  pub retry_exhausted :
      (n i : ℕ) (w : W)
      → FailsFor (suc n) m w
      → (s : Status) × (s.code ≡ unavailable) × (M.retry n i m w ≡ (returns s, after (suc n) m w))
  retry_exhausted zero i w ((s, failed, code), h) =
      (s, code, ground (arith, laws.retry_last i m w (rw failed (rw code)), failed))
  retry_exhausted (suc n) i w ((s, failed, code), h) =
      let (j, again) = laws.retry_again n i m w s failed code in
      let (t, last, rest) = retry_exhausted n j (m w).1 h in (t, last, again ∙ rest)

  -- The outcome of a retried request is that of one attempt, at most the last one that is
  -- allowed; the attempts before it failed, and none ran after it.
  pub retry_attempts :
      (n i : ℕ) (w : W) → (k : ℕ) × (k ≤ n) × (M.retry n i m w ≡ m (after k m w)) × FailedFor k m w
  retry_attempts zero i w = elim (HasFailed-cases (m w).0) [
    | inl (t, got, fine) ↦ (zero, omega arith, laws.retry_ok zero i m w t got fine, tt)
    | inr failed ↦ (zero, omega arith, laws.retry_last i m w failed, tt)
  ]
  retry_attempts (suc n) i w = elim (HasFailed-cases (m w).0) [
    | inl (t, got, fine) ↦ (zero, omega arith, laws.retry_ok (suc n) i m w t got fine, tt)
    | inr failed ↦ elim (laws.retry_other n i m w failed) [
      | inl once ↦ (zero, omega arith, once, tt)
      | inr (j, again) ↦
          let (k, within, same, earlier) = retry_attempts n j (m w).1 in
          (suc k, omega arith, again ∙ same, (failed, earlier))
    ]
  ]
