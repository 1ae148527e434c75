-- ===== src/Security/KeyProvider/Threads.antt =====
-- Threads that share one cache. A call of the provider is two steps, a look under the shared lock
-- and, after a miss, the block under the exclusive lock; the steps of the threads interleave in any
-- order, and the world changes between them.
use mathlib.Core.Path.{subst}
use sapper_bricks.Prelude.{
  String, ◌≡◌, ◌⊎◌, inl, inr, Option, none, some, List, [], ◌∷◌, ◌++◌, arith, Option-cases,
  Bool-cases,
}
use sapper_bricks.Effect.{Result, returns}
use sapper_bricks.Effect.Laws.{Result-cases}
use sapper_bricks.Dict.{Dict, find}
use sapper_bricks.Security.KeyProvider.{KeyProvider, shared_lookup, exclusive_lookup, or_empty}
use sapper_bricks.Security.KeyProvider.Lookup.{
  IsKeySet, fetched, update_key_cache_lem, fetched-IsKeySet,
}

-- Where a thread is in its call for a key id.
pub data Phase : Type 0 where
  asking missed : String → Phase
  done : String → Result String → Phase

pub record System (W : Type 0) : Type 0 where
  pub cache : Dict String
  pub world : W
  pub threads : List Phase

module _ {W : Type 0} (extract : String → Result (Dict String)) (provider : KeyProvider W) where
  abbrev after_shared : String → Option String → Phase
  after_shared key_id (some pem) = done key_id (returns pem)
  after_shared key_id none = missed key_id

  -- The next locked block of a thread, on the cache and the world that it finds.
  abbrev pub advance : Phase → Dict String × W → Phase × (Dict String × W)
  advance (asking key_id) s = (after_shared key_id (find key_id s.0), s)
  advance (missed key_id) s =
      let (answer, s') = exclusive_lookup extract provider key_id s in (done key_id answer, s')
  advance (done key_id answer) s = (done key_id answer, s)

  pub data Step (t u : System W) : Type 0 where
    runs :
        (before : List Phase) (p : Phase) (later : List Phase)
        → t.threads ≡ before ++ p ∷ later
        → u.cache ≡ (advance p (t.cache, t.world)).1.0
        → u.world ≡ (advance p (t.cache, t.world)).1.1
        → u.threads ≡ before ++ (advance p (t.cache, t.world)).0 ∷ later
        → Step t u
    -- the identity provider, or anything else, changes the world
    changes : (w : W) → u ≡ record t { world = w } → Step t u

  pub data Reach (t : System W) : System W → Type 0 where
    here : Reach t t
    next : {u v : System W} → Reach t u → Step u v → Reach t v

  -- A key that a thread got is the empty text, or was under its id in one whole set of keys.
  abbrev pub IsAnswered : Phase → Type 0
  IsAnswered (done key_id (returns pem)) =
      (pem ≡ "")
      ⊎ ((keys : Dict String) × IsKeySet extract provider keys × (find key_id keys ≡ some pem))
  IsAnswered _ = Unit

  abbrev pub AllAnswered : List Phase → Type 0
  AllAnswered [] = Unit
  AllAnswered (p ∷ ps) = IsAnswered p × AllAnswered ps

  -- The cache is empty, as a failing constructor without `throw_on_error` leaves it, or one whole set.
  abbrev pub IsCache : Dict String → Type 0
  IsCache cache = (cache ≡ []) ⊎ IsKeySet extract provider cache

  pub record IsConsistent (t : System W) : Type 0 where
    pub cached : IsCache t.cache
    pub answers : AllAnswered t.threads

  found-IsAnswered :
      (key_id pem : String) (cache : Dict String)
      → IsCache cache
      → find key_id cache ≡ some pem
      → IsAnswered (done key_id (returns pem))
  unfolding find
  found-IsAnswered key_id pem cache (inl e) h =
      absurd (let h' : find key_id [] ≡ some pem = rw e at h in cc)
  found-IsAnswered key_id pem cache (inr set) h = inr (cache, set, h)

  or_empty-IsAnswered :
      (key_id : String) (keys : Dict String)
      → IsCache keys
      → IsAnswered (done key_id (returns (or_empty (find key_id keys))))
  or_empty-IsAnswered key_id keys good = elim (Option-cases (find key_id keys)) [
    | inl e ↦ inl (ground (arith, e))
    | inr (pem, e) ↦ rw e (found-IsAnswered key_id pem keys good e)
  ]

  abbrev Sound : String → Result String × (Dict String × W) → Type 0
  Sound key_id r = IsCache r.1.0 × IsAnswered (done key_id r.0)

  miss-Sound :
      (key_id : String) (cache : Dict String) (w : W)
      → IsCache cache
      → find key_id cache ≡ none
      → Sound key_id (exclusive_lookup extract provider key_id (cache, w))
  unfolding exclusive_lookup shared_lookup
  miss-Sound key_id cache w good h = rw h (
      rw (update_key_cache_lem extract provider cache w)
        (elim (Result-cases (fetched extract provider w)) [
          | inl (keys, e) ↦
              let set = inr (fetched-IsKeySet extract provider w keys e) in
              rw e (set, or_empty-IsAnswered key_id keys set)
          | inr (x, e) ↦ elim (Bool-cases provider.throw_on_error) [
            | inl b ↦ rw e (rw b (good, tt))
            | inr b ↦ rw e (rw b (good, or_empty-IsAnswered key_id cache good))
          ]
        ]))

  exclusive_lookup-Sound :
      (key_id : String) (cache : Dict String) (w : W)
      → IsCache cache
      → Sound key_id (exclusive_lookup extract provider key_id (cache, w))
  unfolding exclusive_lookup shared_lookup
  exclusive_lookup-Sound key_id cache w good = elim (Option-cases (find key_id cache)) [
    | inl e ↦ miss-Sound key_id cache w good e
    | inr (pem, e) ↦ rw e (good, found-IsAnswered key_id pem cache good e)
  ]

  advance-IsConsistent :
      (p : Phase) (s : Dict String × W)
      → IsCache s.0
      → IsAnswered p
      → IsCache (advance p s).1.0 × IsAnswered (advance p s).0
  advance-IsConsistent (asking key_id) s good h = elim (Option-cases (find key_id s.0)) [
    | inl e ↦ rw e (good, tt)
    | inr (pem, e) ↦ rw e (good, found-IsAnswered key_id pem s.0 good e)
  ]
  advance-IsConsistent (missed key_id) s good h = exclusive_lookup-Sound key_id s.0 s.1 good
  advance-IsConsistent (done key_id answer) s good h = (good, h)

  -- the phase of one thread, taken out of all
  AllAnswered-middle :
      (before : List Phase) (p : Phase) (later : List Phase)
      → AllAnswered (before ++ p ∷ later)
      → IsAnswered p × ((q : Phase) → IsAnswered q → AllAnswered (before ++ q ∷ later))
  AllAnswered-middle [] p later (h, hs) = (h, λ q k. (k, hs))
  AllAnswered-middle (b ∷ before) p later (h, hs) =
      let (one, rest) = AllAnswered-middle before p later hs in (one, λ q k. (h, rest q k))

  Step-IsConsistent : {t u : System W} → Step t u → IsConsistent t → IsConsistent u
  Step-IsConsistent {t} {u} (runs before p later there cached' world' threads') c =
      let (one, rest) = AllAnswered-middle before p later (subst AllAnswered there c.answers) in
      let (good, answered) = advance-IsConsistent p (t.cache, t.world) c.cached one in
      record { cached = rw cached' good; answers = rw threads' (rest _ answered) }
  Step-IsConsistent {t} {u} (changes w e) c =
      rw e (record { cached = c.cached; answers = c.answers })

  -- From a cache that is empty or one whole set of keys, and threads with no wrong answer, every
  -- interleaving of their locked blocks leads to such a cache and such threads: a key that a thread
  -- got is the empty text, or stood under its id in one whole set of keys that a document gave.
  pub Reach-IsConsistent : {t u : System W} → Reach t u → IsConsistent t → IsConsistent u
  Reach-IsConsistent here c = c
  Reach-IsConsistent (next r s) c = Step-IsConsistent s (Reach-IsConsistent r c)
