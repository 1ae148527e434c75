-- ===== src/Security/Jwks/PubKeys.antt =====
-- The map from key ids to PEM texts that extractPubKeysPEM makes.
use sapper_bricks.Prelude.{
  String, ◌≡◌, refl, Bool, true, false, Option, none, some, List, [], ◌∷◌, ◌++◌, ◌||◌, arith, ◌==◌,
  if◌then◌else◌, Bool-cases, inl, inr,
}
use sapper_bricks.Effect.{Result, returns, throws}
use sapper_bricks.Effect.Fail.{>>=-eq-returns}
use sapper_bricks.Dict.{Dict, find, assign}
use sapper_bricks.Dict.Laws.{find-assign}
use sapper_bricks.Json.{JsonLib, IsJson}
use sapper_bricks.Json.Fields.{text_field}
use sapper_bricks.Security.Jwks.Selection.{
  key_of, selected, is_candidate, all_selected, document_keys, parse_rs256_keys_lem,
  parse_rs256_keys_inversion,
}
use sapper_bricks.Security.Jwks.{Rs256Key, parse_rs256_keys, collect_pem, extract_pub_keys_pem}

-- The last key with an id.
abbrev pub last_or : Option Rs256Key → Rs256Key → String → Option Rs256Key
last_or (some later) key id = some later
last_or none key id = if key.id == id then some key else none

abbrev pub last_with : String → List Rs256Key → Option Rs256Key
last_with id [] = none
last_with id (key ∷ keys) = last_or (last_with id keys) key id

module _ (to_pem : Rs256Key → Result String) where
  -- The entry of the map for a key, over what was there before.
  abbrev pub IsEntry : Option String → Option Rs256Key → Option String → Type 0
  IsEntry before none entry = entry ≡ before
  IsEntry before (some key) entry = (pem : String) × (to_pem key ≡ returns pem) × (entry ≡ some pem)

  IsEntry-cons :
      (id pem : String) (key : Rs256Key) (before : Dict String) (last : Option Rs256Key)
      (entry : Option String)
      → to_pem key ≡ returns pem
      → IsEntry (find id (assign key.id pem before)) last entry
      → IsEntry (find id before) (last_or last key id) entry
  IsEntry-cons id pem key before (some later) entry made h = h
  IsEntry-cons id pem key before none entry made h = elim (Bool-cases (key.id == id)) [
    | inl same ↦ rw same (pem, made, ground (arith, same, find-assign key.id id pem before))
    | inr other ↦ rw other (ground (arith, other, find-assign key.id id pem before))
  ]

  collect_pem_lem :
      (id : String) (before after : Dict String) (keys : List Rs256Key)
      → collect_pem to_pem before keys ≡ returns after
      → IsEntry (find id before) (last_with id keys) (find id after)
  unfolding collect_pem
  collect_pem_lem id before after [] h = ground arith
  collect_pem_lem id before after (key ∷ keys) h =
      let (pem, made, h') = >>=-eq-returns (to_pem key) _ h in
      IsEntry-cons id pem key before _ _ made
        (collect_pem_lem id (assign key.id pem before) after keys h')

-- If extractPubKeysPEM returns, the document was parsed, and the map holds for each id the PEM
-- text of the last selected key with that id, and no entry for an id that no selected key has.
pub extract_pub_keys_pem_lem :
    (J : JsonLib) (to_pem : Rs256Key → Result String) (text : String) (m : Dict String)
    → extract_pub_keys_pem J to_pem text ≡ returns m
    → (keys : List Rs256Key) × (parse_rs256_keys J text ≡ returns keys)
      × ((id : String) → IsEntry to_pem none (last_with id keys) (find id m))
unfolding extract_pub_keys_pem find
extract_pub_keys_pem_lem J to_pem text m h =
    let (keys, parsed, h') = >>=-eq-returns (parse_rs256_keys J text) _ h in
    (keys, parsed, λ id. collect_pem_lem to_pem id [] m keys h')

abbrev HasIds : List Rs256Key → Type 0
HasIds [] = Unit
HasIds (key ∷ keys) = ((key.id == "") ≡ false) × HasIds keys

HasIds-append : (xs ys : List Rs256Key) → HasIds xs → HasIds ys → HasIds (xs ++ ys)
HasIds-append [] ys hx hy = hy
HasIds-append (x ∷ xs) ys (h, hx) hy = (h, HasIds-append xs ys hx hy)

last_with_empty : (keys : List Rs256Key) → HasIds keys → last_with "" keys ≡ none
last_with_empty [] h = refl
last_with_empty (key ∷ keys) (h, hs) = rw (last_with_empty keys hs, h)

key_of-HasIds : (kid n e : Option String) → HasIds (key_of kid n e)
key_of-HasIds (some kid) (some n) (some e) = elim (Bool-cases (kid == "" || n == "" || e == "")) [
  | inl empty ↦ rw empty tt
  | inr full ↦ rw full (ground arith, tt)
]
key_of-HasIds _ _ _ = tt

module _ (J : JsonLib) (laws : IsJson J) where
  selected-HasIds : (key : J.Json) → HasIds (selected J key)
  selected-HasIds key = elim (Bool-cases (is_candidate J key)) [
    | inl chosen ↦
        rw chosen
          (key_of-HasIds (text_field J key "kid") (text_field J key "n") (text_field J key "e"))
    | inr other ↦ rw other tt
  ]

  all_selected-HasIds : (keys : List J.Json) → HasIds (all_selected J keys)
  all_selected-HasIds [] = tt
  all_selected-HasIds (key ∷ keys) =
      HasIds-append (selected J key) _ (selected-HasIds key) (all_selected-HasIds keys)

  document_keys-HasIds :
      (j : J.Json) (there : Bool) (keys : Result J.Json) → HasIds (document_keys J j there keys)
  document_keys-HasIds j true (returns keys) = all_selected-HasIds (J.elements keys)
  document_keys-HasIds j true (throws x) = tt
  document_keys-HasIds j false keys = tt

  parse_rs256_keys-HasIds :
      (text : String) (keys : List Rs256Key) → parse_rs256_keys J text ≡ returns keys → HasIds keys
  parse_rs256_keys-HasIds text keys h =
      let (j, parsed) = parse_rs256_keys_inversion J text keys h in
      let same : keys ≡ document_keys J j (J.contains j "keys") (J.at j "keys") =
        ground (arith, h, parse_rs256_keys_lem J laws text j parsed) in
      rw same (document_keys-HasIds j (J.contains j "keys") (J.at j "keys"))

  -- The map never holds the empty key id.
  pub extract_pub_keys_pem-empty_id :
      (to_pem : Rs256Key → Result String) (text : String) (m : Dict String)
      → extract_pub_keys_pem J to_pem text ≡ returns m
      → find "" m ≡ none
  extract_pub_keys_pem-empty_id to_pem text m h =
      let (keys, parsed, entries) = extract_pub_keys_pem_lem J to_pem text m h in
      rw (last_with_empty keys (parse_rs256_keys-HasIds text keys parsed)) at (entries "")
