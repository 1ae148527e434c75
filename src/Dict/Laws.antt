-- ===== src/Dict/Laws.antt =====
-- Lookup after insertion.
use sapper_bricks.Prelude.{String, ◌≡◌, refl, some, [], ◌∷◌, arith, ◌==◌, eq_iff, if◌then◌else◌}
use sapper_bricks.Dict.{Dict, find, assign}

module _ {V : Type 0} where
  -- An assignment replaces the value at its key and no other.
  pub find-assign :
      (k j : String) (v : V) (m : Dict V)
      → find j (assign k v m) ≡ (if k == j then some v else find j m)
  unfolding find assign
  find-assign k j v [] = refl
  find-assign k j v ((i, w) ∷ m) =
      ground (arith, eq_iff k j, eq_iff i k, eq_iff i j, find-assign k j v m)
