-- ===== src/Tracing/Carrier.antt =====
-- impl/mse-context-carrier.cpp of the tracing brick: how a propagator reads and writes the headers
-- of a trace in the metadata of a context. The context (microservice-essentials) is a parameter.
use sapper_bricks.Prelude.{
  String, ◌≡◌, ◌≢◌, refl, ◌∙◌, inl, inr, Option, none, some, List, [], ◌∷◌, ◌==◌, eq_iff, eq_refl,
  if◌then◌else◌, arith, Bool-cases,
}
use sapper_bricks.Dict.{Dict}

pub record ContextLib : Type 1 where
  pub Context : Type 0
  -- context.AtOr(key, default), which also asks the contexts around it
  pub at_or : Context → String → String → String
  -- context.GetMetadata().erase(key)
  pub erase : String → Context → Context
  -- context.GetMetadata().insert({ key, value })
  pub insert : String → String → Context → Context

module _ (X : ContextLib) where
  open X use {Context}

  -- MSEContextCarrier::Get
  unfoldable pub get : Context → String → String
  get context key = X.at_or context key ""

  -- MSEContextCarrier::Set
  unfoldable pub set : String → String → Context → Context
  set key value context = X.insert key value (X.erase key context)

  -- The calls of Set that an injection makes, one for each header.
  pub inject_headers : Dict String → Context → Context
  inject_headers [] context = context
  inject_headers ((key, value) ∷ headers) context = inject_headers headers (set key value context)

-- What the documentation says of the metadata: `entries c k` are the values that the context itself
-- has for a key, which may be several, since an insertion does not replace.
pub record IsContext (X : ContextLib) (entries : X.Context → String → List String) : Type 0 where
  pub erased : (k : String) (c : X.Context) → entries (X.erase k c) k ≡ []
  pub inserted : (k v : String) (c : X.Context) → entries (X.insert k v c) k ≡ v ∷ entries c k
  -- a single value of the context's own is the one that is found
  pub found :
      (k v default : String) (c : X.Context) → entries c k ≡ v ∷ [] → X.at_or c k default ≡ v
  pub other_entries :
      (k j v : String) (c : X.Context)
      → k ≢ j
      → (entries (X.erase k c) j ≡ entries c j) × (entries (X.insert k v c) j ≡ entries c j)
  pub other_found :
      (k j v default : String) (c : X.Context)
      → k ≢ j
      → (X.at_or (X.erase k c) j default ≡ X.at_or c j default)
        × (X.at_or (X.insert k v c) j default ≡ X.at_or c j default)

-- The value that the last header with this key has.
abbrev pub last_value : String → Dict String → Option String
last_value key [] = none
last_value key ((j, value) ∷ headers) = elim (last_value key headers) [
  | some later ↦ some later
  | none ↦ if j == key then some value else none
]

abbrev pub value_or : String → Option String → String
value_or before none = before
value_or before (some value) = value

abbrev pub entries_or : List String → Option String → List String
entries_or before none = before
entries_or before (some value) = value ∷ []

module _ (X : ContextLib) (entries : X.Context → String → List String)
    (laws : IsContext X entries) where
  entries-set :
      (k v j : String) (c : X.Context)
      → entries (set X k v c) j ≡ (if k == j then v ∷ [] else entries c j)
  unfolding set
  entries-set k v j c = elim (Bool-cases (k == j)) [
    | inl same ↦
        let e : k ≡ j = (eq_iff k j).0 same in
        rw (← e) (rw (eq_refl k, laws.inserted k v (X.erase k c), laws.erased k c))
    | inr differs ↦
        let n : k ≢ j = ground (arith, eq_iff k j) in
        rw differs ((laws.other_entries k j v (X.erase k c) n).1 ∙ (laws.other_entries k j v c n).0)
  ]

  get-set :
      (k v j : String) (c : X.Context) → get X (set X k v c) j ≡ (if k == j then v else get X c j)
  unfolding get set
  get-set k v j c = elim (Bool-cases (k == j)) [
    | inl same ↦
        let e : k ≡ j = (eq_iff k j).0 same in
        let only : entries (X.insert k v (X.erase k c)) k ≡ v ∷ [] =
          rw (laws.inserted k v (X.erase k c), laws.erased k c) in
        rw (← e) (rw (eq_refl k) (laws.found k v "" (X.insert k v (X.erase k c)) only))
    | inr differs ↦
        let n : k ≢ j = ground (arith, eq_iff k j) in
        rw differs
          ((laws.other_found k j v "" (X.erase k c) n).1 ∙ (laws.other_found k j v "" c n).0)
  ]

  -- After the headers of a trace were written, in any order and over whatever was there, reading a
  -- key gives the last value written for it, and the metadata of the context holds that value alone
  -- for the key; a key that was not written reads as before and keeps its entries.
  pub get-inject_headers :
      (headers : Dict String) (c : X.Context) (key : String)
      → (get X (inject_headers X headers c) key ≡ value_or (get X c key) (last_value key headers))
        × (entries (inject_headers X headers c) key
            ≡ entries_or (entries c key) (last_value key headers))
  unfolding inject_headers
  get-inject_headers [] c key = (refl, refl)
  get-inject_headers ((j, v) ∷ headers) c key =
      let gets = (get-inject_headers headers (set X j v c) key).0 in
      let holds = (get-inject_headers headers (set X j v c) key).1 in
      (ground (arith, gets, get-set j v key c), ground (arith, holds, entries-set j v key c))
