-- ===== src/Dict.antt =====
-- std::map<std::string, V> as an association list. No code of the program iterates over a map
-- except to hand all of it on, so the order of the entries is not part of the model.
pub mod Laws
use sapper_bricks.Prelude.{String, Option, none, some, List, [], ◌∷◌, ◌==◌, if◌then◌else◌}

abbrev pub Dict : Type 0 → Type 0
Dict V = List (String × V)

module _ {V : Type 0} where
  -- m.find(k), with `none` for m.end()
  unfoldable pub find : String → Dict V → Option V
  find k [] = none
  find k ((j, v) ∷ m) = if j == k then some v else find k m

  -- m[k] = v
  unfoldable pub assign : String → V → Dict V → Dict V
  assign k v [] = (k, v) ∷ []
  assign k v ((j, w) ∷ m) = if j == k then (k, v) ∷ m else (j, w) ∷ assign k v m
