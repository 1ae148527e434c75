-- ===== src/Handler/Http/Path.antt =====
-- extractId of handler/http/src/adapters/handler-http/handler-http.cpp: the whole path against the
-- regular expression "/(.*)/(.*)", where a dot is any character but a line break and the first star
-- takes as much as it can.
pub mod Segments
use Prim.Native.Char.{Char, code}
use Prim.Native.String
use sapper_bricks.Prelude.{
  ℕ, String, ◌≡◌, refl, Bool, true, false, not, ◌&&◌, ◌||◌, Option, none, some, if◌then◌else◌,
  arith,
}
use sapper_bricks.Effect.{Exn, invalid_argument, Result, returns, throws}

infix 50 ◌is◌
abbrev ◌is◌ : Char → ℕ → Bool
c is n = elim (Prim.Native.Nat.compare (code c) n) [
  | Prim.Native.Nat.Ordering.eq ↦ true
  | _ ↦ false
]

-- What the dot of the regular expression does not match.
abbrev is_line_break : Char → Bool
is_line_break c = c is 10 || c is 13

unfoldable pub one_line : String → Bool
one_line String.[] = true
one_line (String.◌∷◌ c s) = not (is_line_break c) && one_line s

abbrev later_or : Option String → Char → String → Option String
later_or (some t) c s = some t
later_or none c s = if c is b'/' then some s else none

-- The text behind the last slash.
unfoldable pub after_slash : String → Option String
after_slash String.[] = none
after_slash (String.◌∷◌ c s) = later_or (after_slash s) c s

-- The second group of a match of the whole path.
unfoldable pub second_group : String → Option String
second_group String.[] = none
second_group (String.◌∷◌ c s) = if c is b'/' && one_line s then after_slash s else none

abbrev or_invalid : Option String → Result String
or_invalid none = throws (invalid_argument "invalid URL")
or_invalid (some id) = returns id

unfoldable pub extract_id : String → Result String
extract_id path = or_invalid (second_group path)

extract_entity : extract_id "/Entity/a1" ≡ returns "a1"
unfolding extract_id second_group after_slash one_line
extract_entity = refl

extract_nested : extract_id "/Entity/a/b" ≡ returns "b"
unfolding extract_id second_group after_slash one_line
extract_nested = refl
