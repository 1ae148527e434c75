-- ===== src/Security/KeyProvider/Schedule.antt =====
-- Schedules of calls of the provider: a schedule names the thread of each step, and each call is a
-- thread of its own, which covers threads that make their calls one after another.
use sapper_bricks.Prelude.{
  ℕ, zero, suc, ◌+◌, ◌≤◌, String, ◌≡◌, refl, ◌∙◌, inl, inr, List, [], ◌∷◌, arith, Option-cases,
}
use sapper_bricks.Effect.{Result}
use sapper_bricks.Dict.{Dict, find}
use sapper_bricks.Security.KeyProvider.{KeyProvider}
use sapper_bricks.Security.KeyProvider.Threads.{Phase, asking, missed, done, advance}

abbrev pub calls : List String → List Phase
calls [] = []
calls (id ∷ ids) = asking id ∷ calls ids

-- The ids of the calls.
unfoldable pub ids_of : List Phase → List String
ids_of [] = []
ids_of (asking id ∷ threads) = id ∷ ids_of threads
ids_of (missed id ∷ threads) = id ∷ ids_of threads
ids_of (done id answer ∷ threads) = id ∷ ids_of threads

ids_of-calls : (ids : List String) → ids_of (calls ids) ≡ ids
unfolding ids_of
ids_of-calls [] = refl
ids_of-calls (id ∷ ids) = rw (ids_of-calls ids)

-- The steps that the thread with this number still makes.
abbrev pub steps_left : Phase → ℕ
steps_left (asking id) = 2
steps_left (missed id) = 1
steps_left (done id answer) = 0

unfoldable pub steps_at : ℕ → List Phase → ℕ
steps_at n [] = 0
steps_at zero (p ∷ threads) = steps_left p
steps_at (suc n) (p ∷ threads) = steps_at n threads

-- How often a schedule names a thread.
unfoldable pub hit : ℕ → ℕ → ℕ
hit zero zero = 1
hit zero (suc n) = 0
hit (suc m) zero = 0
hit (suc m) (suc n) = hit m n

unfoldable pub picks : ℕ → List ℕ → ℕ
unfolding hit
picks m [] = 0
picks m (n ∷ schedule) = hit m n + picks m schedule

-- Every thread is named as often as it has steps to make.
abbrev pub IsFair : List ℕ → List Phase → Type 0
IsFair schedule threads = (m : ℕ) → steps_at m threads ≤ picks m schedule

module _ {W : Type 0} (extract : String → Result (Dict String)) (provider : KeyProvider W) where
  -- The next step of the thread with this number; a number beyond the threads does nothing.
  unfoldable pub advance_at : ℕ → List Phase → Dict String × W → List Phase × (Dict String × W)
  advance_at n [] s = ([], s)
  advance_at zero (p ∷ threads) s = let (q, s') = advance extract provider p s in (q ∷ threads, s')
  advance_at (suc n) (p ∷ threads) s = let (later, s') = advance_at n threads s in (p ∷ later, s')

  unfoldable pub run : List ℕ → List Phase × (Dict String × W) → List Phase × (Dict String × W)
  unfolding advance_at
  run [] s = s
  run (n ∷ schedule) s = run schedule (advance_at n s.0 s.1)

  advance-steps_left :
      (p : Phase) (s : Dict String × W) (k : ℕ)
      → steps_left p ≤ suc k
      → steps_left (advance extract provider p s).0 ≤ k
  advance-steps_left (asking id) s k h = elim (Option-cases (find id s.0)) [
    | inl e ↦ rw e (omega arith)
    | inr (pem, e) ↦ rw e (omega arith)
  ]
  advance-steps_left (missed id) s k h = omega arith
  advance-steps_left (done id answer) s k h = omega arith

  advance_at-steps_at :
      (n m : ℕ) (threads : List Phase) (s : Dict String × W) (k : ℕ)
      → steps_at m threads ≤ hit m n + k
      → steps_at m (advance_at n threads s).0 ≤ k
  unfolding steps_at hit advance_at
  advance_at-steps_at n m [] s k h = omega arith
  advance_at-steps_at zero zero (p ∷ threads) s k h = advance-steps_left p s k (omega arith)
  advance_at-steps_at zero (suc m) (p ∷ threads) s k h = omega arith
  advance_at-steps_at (suc n) zero (p ∷ threads) s k h = omega arith
  advance_at-steps_at (suc n) (suc m) (p ∷ threads) s k h = advance_at-steps_at n m threads s k h

  run-steps_at :
      (schedule : List ℕ) (m : ℕ) (threads : List Phase) (s : Dict String × W)
      → steps_at m threads ≤ picks m schedule
      → steps_at m (run schedule (threads, s)).0 ≡ 0
  unfolding picks run steps_at
  run-steps_at [] m threads s h = omega arith
  run-steps_at (n ∷ schedule) m threads s h =
      let step = advance_at n threads s in
      run-steps_at schedule m step.0 step.1 (advance_at-steps_at n m threads s (picks m schedule) h)

  ids_of-advance_at :
      (n : ℕ) (threads : List Phase) (s : Dict String × W)
      → ids_of (advance_at n threads s).0 ≡ ids_of threads
  unfolding ids_of advance_at
  ids_of-advance_at n [] s = refl
  ids_of-advance_at zero (asking id ∷ threads) s = elim (Option-cases (find id s.0)) [
    | inl e ↦ rw e refl
    | inr (pem, e) ↦ rw e refl
  ]
  ids_of-advance_at zero (missed id ∷ threads) s = refl
  ids_of-advance_at zero (done id answer ∷ threads) s = refl
  ids_of-advance_at (suc n) (asking id ∷ threads) s = rw (ids_of-advance_at n threads s)
  ids_of-advance_at (suc n) (missed id ∷ threads) s = rw (ids_of-advance_at n threads s)
  ids_of-advance_at (suc n) (done id answer ∷ threads) s = rw (ids_of-advance_at n threads s)

  ids_of-run :
      (schedule : List ℕ) (threads : List Phase) (s : Dict String × W)
      → ids_of (run schedule (threads, s)).0 ≡ ids_of threads
  unfolding run
  ids_of-run [] threads s = refl
  ids_of-run (n ∷ schedule) threads s =
      let step = advance_at n threads s in
      ids_of-run schedule step.0 step.1 ∙ ids_of-advance_at n threads s

  -- A fair schedule ends every call, and no call changes its id.
  pub run-IsFair :
      (schedule : List ℕ) (ids : List String) (s : Dict String × W)
      → IsFair schedule (calls ids)
      → let threads = (run schedule (calls ids, s)).0 in
        ((m : ℕ) → steps_at m threads ≡ 0) × (ids_of threads ≡ ids)
  run-IsFair schedule ids s fair = (
    λ m. run-steps_at schedule m (calls ids) s (fair m),
    ids_of-run schedule (calls ids) s ∙ ids_of-calls ids,
  )
