-- ===== src/Mse/Forward.antt =====
-- A request that is retried and whose errors are then forwarded by an exception, as the notifiers
-- and the connection manager issue it.
use mathlib.Core.Path.{subst}
use sapper_bricks.Prelude.{ℕ, suc, ◌+◌, ◌≤◌, true, String, sym, ap, inl, inr, ◌≡◌, arith, ◌∙◌}
use sapper_bricks.Effect.{Status, unavailable, is_ok, returns, Comp}
use sapper_bricks.Effect.Laws.{Result-cases}
use sapper_bricks.Mse.{IssuerLib, IsIssuer, Forwards, HasFailed}
use sapper_bricks.Mse.Issuer.{
  after, FailsFor, FailedFor, HasFailed-cases, retry_recovers, retry_exhausted, retry_attempts,
}

module _ (M : IssuerLib) (laws : IsIssuer M) {W : Type 0} where
  -- Error forwarding leaves the state, and lets a request return only if it ended well.
  pub forward_errors_lem :
      (m : Comp W Status) (w : W)
      → ((M.forward_errors m w).1 ≡ (m w).1)
        × ((t : Status)
            → (M.forward_errors m w).0 ≡ returns t
            → (st : Status) × ((m w).0 ≡ returns st) × (is_ok st.code ≡ true))
  forward_errors_lem m w = elim (HasFailed-cases (m w).0) [
    | inl (st, got, good) ↦
        (ap (λ p. p.1) (laws.forwards_ok m w st got good), λ t h. (st, got, good))
    | inr failed ↦ elim (Result-cases (m w).0) [
      | inl (st, e) ↦
          let ((_, _, _, thrown), kept) = laws.forwards_error m w st e (subst HasFailed e failed) in
          (kept, λ t h. absurd (cc (thrown, h)))
      | inr (x, e) ↦
          let same = laws.forwards_throw m w x e in
          (ap (λ p. p.1) same, λ t h. absurd (cc (same, e, h)))
    ]
  ]

  module _ (name : String) (n i : ℕ) (m : Comp W Status) where
    abbrev pub issued : Comp W Status
    issued = M.process name (M.forward_errors (M.retry n i m))

    pub issued_recovers :
        (k extra : ℕ) (w : W) (s : Status)
        → k + extra ≡ n
        → FailsFor k m w
        → (m (after k m w)).0 ≡ returns s
        → is_ok s.code ≡ true
        → issued w ≡ m (after k m w)
    issued_recovers k extra w s enough fails got good =
        let ends : M.retry n i m w ≡ m (after k m w) =
          ap (λ c. M.retry c i m w) (sym enough)
          ∙ retry_recovers M laws m k extra i w s fails got good in
        laws.process_lem name _ w ∙ laws.forwards_ok (M.retry n i m) w s (rw ends got) good ∙ ends

    pub issued_exhausted :
        (w : W)
        → FailsFor (suc n) m w
        → Forwards unavailable (issued w).0 × ((issued w).1 ≡ after (suc n) m w)
    issued_exhausted w fails =
        let (st, code, ends) = retry_exhausted M laws m n i w fails in
        let ((t, what, tcode, thrown), final) =
          laws.forwards_error (M.retry n i m) w st (ap (λ p. p.0) ends) (rw code) in
        let process = laws.process_lem name (M.forward_errors (M.retry n i m)) w in
        (
          (t, what, tcode ∙ code, ground (arith, process, thrown)),
          ground (arith, process, final, ap (λ p. p.1) ends),
        )

    pub issued_attempts :
        (w : W)
        → (k : ℕ) × (k ≤ n)
          × FailedFor k m w
          × ((issued w).1 ≡ (m (after k m w)).1)
          × ((t : Status)
              → (issued w).0 ≡ returns t
              → (st : Status) × ((m (after k m w)).0 ≡ returns st) × (is_ok st.code ≡ true))
    issued_attempts w =
        let process = laws.process_lem name (M.forward_errors (M.retry n i m)) w in
        let (kept, ended) = forward_errors_lem (M.retry n i m) w in
        let (k, within, same, failed) = retry_attempts M laws m n i w in
        (
          k,
          within,
          failed,
          ground (arith, process, kept, same),
          λ t h. let (st, got, good) = ended t (rw process at h) in (st, rw same at got, good),
        )
