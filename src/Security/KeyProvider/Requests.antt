-- ===== src/Security/KeyProvider/Requests.antt =====
-- How often threads that share one cache ask for the JWKS, if the identity provider always gives
-- the same document.
use mathlib.Core.Path.{subst}
use sapper_bricks.Prelude.{
  ℕ, zero, suc, ◌+◌, String, ◌≡◌, refl, sym, ap, ◌∙◌, false, inl, inr, Option, none, some, List, [],
  ◌∷◌, arith, Option-cases,
}
use sapper_bricks.Effect.{Result, returns}
use sapper_bricks.Dict.{Dict, find}
use sapper_bricks.Security.KeyProvider.{
  KeyProvider, is_empty, create_with, shared_lookup, exclusive_lookup, or_empty,
}
use sapper_bricks.Security.KeyProvider.Lookup.{fetched, asked, update_key_cache_lem}
use sapper_bricks.Security.KeyProvider.Threads.{Phase, asking, missed, done, advance}
use sapper_bricks.Security.KeyProvider.Schedule.{
  calls, ids_of, steps_at, IsFair, advance_at, run, run-IsFair,
}

module _ (keys : Dict String) where
  abbrev pub lack : Option String → ℕ
  lack none = 1
  lack (some pem) = 0

  -- Whether a call is done that was for an id without a key, and how many are.
  abbrev pub cost : Phase → ℕ
  cost (asking id) = 0
  cost (missed id) = 0
  cost (done id answer) = lack (find id keys)

  pub lacking : List Phase → ℕ
  lacking [] = 0
  lacking (p ∷ threads) = cost p + lacking threads

  -- A call that is done was answered with the key of its id, or with the empty text.
  abbrev pub IsExact : Phase → Type 0
  IsExact (asking id) = Unit
  IsExact (missed id) = find id keys ≡ none
  IsExact (done id answer) = answer ≡ returns (or_empty (find id keys))

  abbrev pub AllExact : List Phase → Type 0
  AllExact [] = Unit
  AllExact (p ∷ threads) = IsExact p × AllExact threads

  calls-AllExact : (ids : List String) → AllExact (calls ids)
  calls-AllExact [] = tt
  calls-AllExact (id ∷ ids) = (tt, calls-AllExact ids)

  lacking-calls : (ids : List String) → lacking (calls ids) ≡ 0
  unfolding lacking
  lacking-calls [] = refl
  lacking-calls (id ∷ ids) = omega (arith, lacking-calls ids)

  -- Every call with the answer that these keys have for it.
  unfoldable pub answered : List String → List Phase
  answered [] = []
  answered (id ∷ ids) = done id (returns (or_empty (find id keys))) ∷ answered ids

  -- How many ids have no key.
  unfoldable pub lacking_ids : List String → ℕ
  lacking_ids [] = 0
  lacking_ids (id ∷ ids) = lack (find id keys) + lacking_ids ids

  lacking-answered : (ids : List String) → lacking (answered ids) ≡ lacking_ids ids
  unfolding lacking answered lacking_ids
  lacking-answered [] = refl
  lacking-answered (id ∷ ids) = rw (lacking-answered ids)

  -- Threads without a step to make have their answers.
  pub answered_lem :
      (threads : List Phase)
      → ((m : ℕ) → steps_at m threads ≡ 0)
      → AllExact threads
      → threads ≡ answered (ids_of threads)
  unfolding answered ids_of steps_at
  answered_lem [] ended h = refl
  answered_lem (asking id ∷ threads) ended h = absurd (omega (arith, ended 0))
  answered_lem (missed id ∷ threads) ended h = absurd (omega (arith, ended 0))
  answered_lem (done id answer ∷ threads) ended (h, hs) =
      rw (h, ← answered_lem threads (λ m. ended (suc m)) hs)

  module _ {W : Type 0} (extract : String → Result (Dict String)) (jwks : String)
      (good : extract jwks ≡ returns keys) (filled : is_empty keys ≡ false) (count : W → ℕ)
      (provider : KeyProvider W) (given : (w : W) → (provider.jwks_provider w).0 ≡ returns jwks)
      (counted : (w : W) → count (provider.jwks_provider w).1 ≡ suc (count w)) where
    fetched-keys : (w : W) → fetched extract provider w ≡ returns keys
    fetched-keys w = ground (arith, given w, good, filled)

    missed_lem :
        (id : String) (w : W)
        → find id keys ≡ none
        → exclusive_lookup extract provider id (keys, w)
          ≡ (returns "", (keys, asked extract provider w))
    unfolding exclusive_lookup shared_lookup
    missed_lem id w h =
        ground (arith, h, fetched-keys w, update_key_cache_lem extract provider keys w)

    -- What the steps between two states of the threads keep: the JWKS is asked for exactly as often
    -- as a call ends for an id without a key.
    pub record Counts (before after : List Phase) (s t : Dict String × W) : Type 0 where
      pub cached : t.0 ≡ keys
      pub exact : AllExact after
      pub requests : count t.1 + lacking before ≡ count s.1 + lacking after

    -- A step of one thread does that.
    advance-Counts :
        (p : Phase) (w : W)
        → IsExact p
        → let (q, t) = advance extract provider p (keys, w) in Counts (p ∷ []) (q ∷ []) (keys, w) t
    unfolding lacking
    advance-Counts (asking id) w h = elim (Option-cases (find id keys)) [
      | inl e ↦ rw e (record { cached = refl; exact = (e, tt); requests = refl })
      | inr (pem, e) ↦
          rw e (record { cached = refl; exact = (rw e refl, tt); requests = ground (arith, e) })
    ]
    advance-Counts (missed id) w h =
        rw (missed_lem id w h) (record {
          cached = refl;
          exact = (rw h refl, tt);
          requests = ground (arith, h, counted w);
        })
    advance-Counts (done id answer) w h = record { cached = refl; exact = (h, tt); requests = refl }

    -- The same of a step of one thread among others.
    advance_at-Counts :
        (n : ℕ) (threads : List Phase) (w : W)
        → AllExact threads
        → let (later, t) = advance_at extract provider n threads (keys, w) in
          Counts threads later (keys, w) t
    unfolding advance_at lacking
    advance_at-Counts n [] w h = record { cached = refl; exact = tt; requests = refl }
    advance_at-Counts zero (p ∷ threads) w (h, hs) =
        let one = advance-Counts p w h in
        record {
          cached = one.cached;
          exact = (one.exact.0, hs);
          requests = omega (arith, one.requests);
        }
    advance_at-Counts (suc n) (p ∷ threads) w (h, hs) =
        let rest = advance_at-Counts n threads w hs in
        record {
          cached = rest.cached;
          exact = (h, rest.exact);
          requests = omega (arith, rest.requests);
        }

    run-Counts :
        (schedule : List ℕ) (threads : List Phase) (s : Dict String × W)
        → s.0 ≡ keys
        → AllExact threads
        → let (later, t) = run extract provider schedule (threads, s) in Counts threads later s t
    unfolding run
    run-Counts [] threads s cached h = record { cached = cached; exact = h; requests = refl }
    run-Counts (n ∷ schedule) threads s cached h =
        let step = advance_at extract provider n threads s in
        let one : Counts threads step.0 s step.1 =
          subst
            (λ c.
              let (later, t) = advance_at extract provider n threads (c, s.1) in
              Counts threads later (c, s.1) t)
            (sym cached) (advance_at-Counts n threads s.1 h) in
        let rest = run-Counts schedule step.0 step.1 one.cached one.exact in
        record {
          cached = rest.cached;
          exact = rest.exact;
          requests = omega (arith, one.requests, rest.requests);
        }

    -- The constructor asks once and keeps the keys.
    create_with-keys :
        (cache : Dict String) (w : W)
        → create_with extract provider.jwks_provider provider.throw_on_error (cache, w)
          ≡ (returns provider, (keys, asked extract provider w))
    unfolding create_with
    create_with-keys cache w =
        ground (arith, fetched-keys w, update_key_cache_lem extract provider [] w)

    -- Over an identity provider that always gives the same document, with a key in it, and for any
    -- calls and any interleaving of their steps that lets each make its two: every call is answered,
    -- with the key of its id or else with the empty text, the cache holds the keys of the document,
    -- and the document was asked for once by the constructor and once by each call for an id that it
    -- has no key for.
    pub requests_lem :
        (ids : List String) (schedule : List ℕ) (cache : Dict String) (w : W)
        → IsFair schedule (calls ids)
        → let created =
            create_with extract provider.jwks_provider provider.throw_on_error (cache, w) in
          let (threads, left) = run extract provider schedule (calls ids, created.1) in
          (created.0 ≡ returns provider)
          × (threads ≡ answered ids)
          × (left.0 ≡ keys)
          × (count left.1 ≡ suc (count w + lacking_ids ids))
    requests_lem ids schedule cache w fair =
        let start : Dict String × W = (keys, asked extract provider w) in
        let threads = (run extract provider schedule (calls ids, start)).0 in
        let counts = run-Counts schedule (calls ids) start refl (calls-AllExact ids) in
        let (ended, same) = run-IsFair extract provider schedule ids start fair in
        let done : threads ≡ answered ids =
          answered_lem threads ended counts.exact ∙ ap answered same in
        let lacks : lacking threads ≡ lacking_ids ids = ap lacking done ∙ lacking-answered ids in
        rw (create_with-keys cache w) (
          refl,
          done,
          counts.cached,
          omega (arith, counts.requests, lacks, lacking-calls ids, counted w),
        )
