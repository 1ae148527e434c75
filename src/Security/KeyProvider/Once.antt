-- ===== src/Security/KeyProvider/Once.antt =====
-- What the second look under the exclusive lock is for: threads that all miss in an empty cache make
-- one request of the JWKS, and not one each.
use mathlib.Core.Path.{subst}
use sapper_bricks.Prelude.{
  ℕ, zero, suc, String, ◌≡◌, refl, sym, ap, ◌∙◌, ◌⊎◌, inl, inr, some, List, [], ◌∷◌, arith, false,
}
use sapper_bricks.Effect.{Result, returns}
use sapper_bricks.Dict.{Dict, find}
use sapper_bricks.Security.KeyProvider.{
  KeyProvider, is_empty, shared_lookup, exclusive_lookup, or_empty,
}
use sapper_bricks.Security.KeyProvider.Lookup.{asked, update_key_cache_lem}
use sapper_bricks.Security.KeyProvider.Threads.{Phase, asking, missed, done, advance}
use sapper_bricks.Security.KeyProvider.Schedule.{
  calls, ids_of, steps_at, IsFair, advance_at, run, run-IsFair,
}
use sapper_bricks.Security.KeyProvider.Requests.{AllExact, answered, answered_lem}

module _ (keys : Dict String) where
  abbrev pub HasKey : String → Type 0
  HasKey id = (pem : String) × (find id keys ≡ some pem)

  abbrev pub AllHaveKeys : List String → Type 0
  AllHaveKeys [] = Unit
  AllHaveKeys (id ∷ ids) = HasKey id × AllHaveKeys ids

  -- A call for an id with a key that is not done yet.
  abbrev IsPending : Phase → Type 0
  IsPending (asking id) = HasKey id
  IsPending (missed id) = HasKey id
  IsPending (done id answer) = ⊥

  -- The same, or a call that got its key.
  abbrev IsServed : Phase → Type 0
  IsServed (asking id) = HasKey id
  IsServed (missed id) = HasKey id
  IsServed (done id answer) = answer ≡ returns (or_empty (find id keys))

  abbrev AllPending : List Phase → Type 0
  AllPending [] = Unit
  AllPending (p ∷ threads) = IsPending p × AllPending threads

  abbrev AllServed : List Phase → Type 0
  AllServed [] = Unit
  AllServed (p ∷ threads) = IsServed p × AllServed threads

  pending-IsServed : (p : Phase) → IsPending p → IsServed p
  pending-IsServed (asking id) h = h
  pending-IsServed (missed id) h = h
  pending-IsServed (done id answer) h = elim h [ ]

  pending-AllServed : (threads : List Phase) → AllPending threads → AllServed threads
  pending-AllServed [] h = tt
  pending-AllServed (p ∷ threads) (h, hs) = (pending-IsServed p h, pending-AllServed threads hs)

  calls-AllPending : (ids : List String) → AllHaveKeys ids → AllPending (calls ids)
  calls-AllPending [] h = tt
  calls-AllPending (id ∷ ids) (h, hs) = (h, calls-AllPending ids hs)

  -- Threads that are served and have no step to make have their answers.
  served-AllExact :
      (threads : List Phase)
      → ((m : ℕ) → steps_at m threads ≡ 0)
      → AllServed threads
      → AllExact keys threads
  unfolding steps_at
  served-AllExact [] ended h = tt
  served-AllExact (asking id ∷ threads) ended h = absurd (omega (arith, ended 0))
  served-AllExact (missed id ∷ threads) ended h = absurd (omega (arith, ended 0))
  served-AllExact (done id answer ∷ threads) ended (h, hs) =
      (h, served-AllExact threads (λ m. ended (suc m)) hs)

  module _ {W : Type 0} (extract : String → Result (Dict String)) (jwks : String)
      (good : extract jwks ≡ returns keys) (filled : is_empty keys ≡ false) (count : W → ℕ)
      (provider : KeyProvider W) (given : (w : W) → (provider.jwks_provider w).0 ≡ returns jwks)
      (counted : (w : W) → count (provider.jwks_provider w).1 ≡ suc (count w)) where
    -- Before the request the cache is empty and no call is done; after it the cache has the keys.
    abbrev Early : ℕ → List Phase → Dict String × W → Type 0
    Early n threads s = (s.0 ≡ []) × (count s.1 ≡ n) × AllPending threads

    abbrev Late : ℕ → List Phase → Dict String × W → Type 0
    Late n threads s = (s.0 ≡ keys) × (count s.1 ≡ suc n) × AllServed threads

    advance-Late :
        (p : Phase) (n : ℕ) (w : W)
        → count w ≡ suc n
        → IsServed p
        → let (q, t) = advance extract provider p (keys, w) in Late n (q ∷ []) t
    unfolding exclusive_lookup shared_lookup
    advance-Late (asking id) n w c (pem, e) = rw e (refl, c, (rw e refl, tt))
    advance-Late (missed id) n w c (pem, e) = rw e (refl, c, (refl, tt))
    advance-Late (done id answer) n w c h = (refl, c, (h, tt))

    first_lem :
        (id : String) (w : W)
        → exclusive_lookup extract provider id ([], w)
          ≡ (returns (or_empty (find id keys)), (keys, asked extract provider w))
    unfolding exclusive_lookup shared_lookup find
    first_lem id w =
        ground (arith, given w, good, filled, update_key_cache_lem extract provider [] w)

    advance-Early :
        (p : Phase) (n : ℕ) (w : W)
        → count w ≡ n
        → IsPending p
        → let (q, t) = advance extract provider p ([], w) in Early n (q ∷ []) t ⊎ Late n (q ∷ []) t
    unfolding find
    advance-Early (asking id) n w c h = inl (refl, c, (h, tt))
    advance-Early (missed id) n w c h =
        rw (first_lem id w) (inr (refl, omega (arith, counted w), (refl, tt)))
    advance-Early (done id answer) n w c h = elim h [ ]

    -- The same of one thread among others.
    advance_at-Late :
        (m : ℕ) (threads : List Phase) (n : ℕ) (w : W)
        → count w ≡ suc n
        → AllServed threads
        → let (later, t) = advance_at extract provider m threads (keys, w) in Late n later t
    unfolding advance_at
    advance_at-Late m [] n w c h = (refl, c, tt)
    advance_at-Late zero (p ∷ threads) n w c (h, hs) =
        let (cached, c', (one, _)) = advance-Late p n w c h in (cached, c', (one, hs))
    advance_at-Late (suc m) (p ∷ threads) n w c (h, hs) =
        let (cached, c', rest) = advance_at-Late m threads n w c hs in (cached, c', (h, rest))

    advance_at-Early :
        (m : ℕ) (threads : List Phase) (n : ℕ) (w : W)
        → count w ≡ n
        → AllPending threads
        → let (later, t) = advance_at extract provider m threads ([], w) in
          Early n later t ⊎ Late n later t
    unfolding advance_at
    advance_at-Early m [] n w c h = inl (refl, c, tt)
    advance_at-Early zero (p ∷ threads) n w c (h, hs) = elim (advance-Early p n w c h) [
      | inl (cached, c', (one, _)) ↦ inl (cached, c', (one, hs))
      | inr (cached, c', (one, _)) ↦ inr (cached, c', (one, pending-AllServed threads hs))
    ]
    advance_at-Early (suc m) (p ∷ threads) n w c (h, hs) =
        elim (advance_at-Early m threads n w c hs) [
          | inl (cached, c', rest) ↦ inl (cached, c', (h, rest))
          | inr (cached, c', rest) ↦ inr (cached, c', (pending-IsServed p h, rest))
        ]

    abbrev Stage : ℕ → List Phase → Dict String × W → Type 0
    Stage n threads s = Early n threads s ⊎ Late n threads s

    advance_at-Stage :
        (m : ℕ) (threads : List Phase) (n : ℕ) (s : Dict String × W)
        → Stage n threads s
        → let (later, t) = advance_at extract provider m threads s in Stage n later t
    advance_at-Stage m threads n s (inl (cached, c, h)) =
        subst
          (λ cache.
            let (later, t) = advance_at extract provider m threads (cache, s.1) in Stage n later t)
          (sym cached) (advance_at-Early m threads n s.1 c h)
    advance_at-Stage m threads n s (inr (cached, c, h)) =
        subst
          (λ cache.
            let (later, t) = advance_at extract provider m threads (cache, s.1) in Stage n later t)
          (sym cached) (inr (advance_at-Late m threads n s.1 c h))

    run-Stage :
        (schedule : List ℕ) (threads : List Phase) (n : ℕ) (s : Dict String × W)
        → Stage n threads s
        → let (later, t) = run extract provider schedule (threads, s) in Stage n later t
    unfolding run
    run-Stage [] threads n s h = h
    run-Stage (m ∷ schedule) threads n s h =
        let step = advance_at extract provider m threads s in
        run-Stage schedule step.0 n step.1 (advance_at-Stage m threads n s h)

    -- An early stage in which nothing is left to do has no calls.
    early-no_calls :
        (threads : List Phase)
        → ((m : ℕ) → steps_at m threads ≡ 0)
        → AllPending threads
        → threads ≡ []
    unfolding steps_at
    early-no_calls [] ended h = refl
    early-no_calls (asking id ∷ threads) ended h = absurd (omega (arith, ended 0))
    early-no_calls (missed id ∷ threads) ended h = absurd (omega (arith, ended 0))
    early-no_calls (done id answer ∷ threads) ended (h, hs) = elim h [ ]

    -- Over an identity provider that always gives the same document, from an empty cache, and for
    -- any calls for ids that the document has keys for, at least one, and any interleaving of their
    -- steps that lets each make its two: however many of them miss in the empty cache, the document
    -- is asked for once, every call gets its key, and the cache holds the keys of the document.
    pub one_request :
        (id : String) (ids : List String) (schedule : List ℕ) (w : W)
        → AllHaveKeys (id ∷ ids)
        → IsFair schedule (calls (id ∷ ids))
        → let (threads, left) = run extract provider schedule (calls (id ∷ ids), ([], w)) in
          (threads ≡ answered keys (id ∷ ids)) × (left.0 ≡ keys) × (count left.1 ≡ suc (count w))
    unfolding ids_of
    one_request id ids schedule w have fair =
        let all = id ∷ ids in
        let start : Dict String × W = ([], w) in
        let threads = (run extract provider schedule (calls all, start)).0 in
        let (ended, same) = run-IsFair extract provider schedule all start fair in
        elim (run-Stage schedule (calls all) (count w) start
          (inl (refl, refl, calls-AllPending all have))) [
            | inl (cached, c, pending) ↦
                let none_left : threads ≡ [] = early-no_calls threads ended pending in
                absurd (let e : ids_of threads ≡ all = same in cc (e, ap ids_of none_left))
            | inr (cached, c, served) ↦ (
              answered_lem keys threads ended (served-AllExact threads ended served)
                  ∙ ap (answered keys) same,
              cached,
              c,
            )
          ]
