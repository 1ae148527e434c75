-- ===== src/Handler/Http/Path/Segments.antt =====
-- The id that is extracted of the path "/Entity/" + id, with which notifiers and clients address an
-- entity.
use Prim.Native.String
use Prim.Native.String.{count}
use text.Mathlib.TextLemmas.{nil-append, cons-append, length-cons}
use sapper_bricks.Prelude.{
  ◌<◌, String, ◌≡◌, ◌↔◌, refl, ap, inl, inr, Bool, false, ◌&&◌, ◌||◌, Option, none, some,
  if◌then◌else◌, arith, Option-cases, is_some,
}
use sapper_bricks.Effect.{invalid_argument, returns, throws}
use sapper_bricks.Handler.Http.Path.{one_line, after_slash, second_group, extract_id, ◌is◌}

infixr 65 ◌++◌
abbrev ◌++◌ : String → String → String
◌++◌ = Prim.Native.String.◌++◌

-- What stands behind the last slash of an id, or the id itself.
abbrev pub segment_or : Option String → String → String
segment_or none id = id
segment_or (some t) id = t

unfoldable pub last_segment : String → String
last_segment id = segment_or (after_slash id) id

unfoldable pub has_slash : String → Bool
has_slash String.[] = false
has_slash (String.◌∷◌ c s) = c is b'/' || has_slash s

one_line-append : (s t : String) → one_line (s ++ t) ≡ (one_line s && one_line t)
unfolding one_line
one_line-append String.[] t = rw (nil-append t)
one_line-append (String.◌∷◌ c s) t = rw (cons-append c s t) (ground (arith, one_line-append s t))

abbrev joined_slash : Option String → Option String → String → Option String
joined_slash (some u) o t = some u
joined_slash none none t = none
joined_slash none (some u) t = some (u ++ t)

after_slash-append :
    (s t : String) → after_slash (s ++ t) ≡ joined_slash (after_slash t) (after_slash s) t
unfolding after_slash
after_slash-append String.[] t =
    rw (nil-append t) (elim (Option-cases (after_slash t)) [ inl e ↦ rw e | inr (u, e) ↦ rw e ])
after_slash-append (String.◌∷◌ c s) t =
    rw (cons-append c s t) (ground (arith, after_slash-append s t))

after_slash-shorter : (s t : String) → after_slash s ≡ some t → count t < count s
unfolding after_slash
after_slash-shorter String.[] t h = cc
after_slash-shorter (String.◌∷◌ c s) t h = elim (Option-cases (after_slash s)) [
  | inl e ↦ ground (arith, e, length-cons c s)
  | inr (u, e) ↦ ground (arith, e, length-cons c s, after_slash-shorter s u e)
]

-- There is a last slash exactly when there is a slash.
after_slash-some : (s : String) → is_some (after_slash s) ≡ has_slash s
unfolding after_slash has_slash
after_slash-some String.[] = refl
after_slash-some (String.◌∷◌ c s) = ground (arith, after_slash-some s)

after_slash-no_slash : (s t : String) → after_slash s ≡ some t → has_slash t ≡ false
unfolding after_slash
after_slash-no_slash String.[] t h = absurd (cc h)
after_slash-no_slash (String.◌∷◌ c s) t h = elim (Option-cases (after_slash s)) [
  | inl e ↦ ground (arith, e, h, after_slash-some s)
  | inr (u, e) ↦ ground (arith, e, h, after_slash-no_slash s u e)
]

-- Whatever the path, the id that is extracted of it has no slash.
pub extract_id-no_slash : (path id : String) → extract_id path ≡ returns id → has_slash id ≡ false
unfolding extract_id second_group
extract_id-no_slash String.[] id h = absurd (cc h)
extract_id-no_slash (String.◌∷◌ c s) id h =
    let found : after_slash s ≡ some id = ground (arith, h) in after_slash-no_slash s id found

-- The path of an id without a line break gives the last segment of the id, and the path of an id
-- with one is refused as an invalid URL. The segment is the id itself exactly when the id has no
-- slash.
pub extract_id-entity :
    (id : String)
    → (extract_id ("/Entity/" ++ id) ≡ (
        if one_line id then returns (last_segment id) else throws (invalid_argument "invalid URL")))
      × ((last_segment id ≡ id) ↔ (has_slash id ≡ false))
unfolding extract_id second_group last_segment one_line after_slash
extract_id-entity id =
    let found = after_slash-some id in
    (
      rw (cons-append "/" "Entity/" id) (
          ground
            (arith, after_slash-append "Entity/" id, one_line-append "Entity/" id, nil-append id)),
      elim (Option-cases (after_slash id)) [
        | inl e ↦ (λ same. ground (arith, e), λ none_there. ground (arith, e))
        | inr (t, e) ↦ (
          λ same.
              let shorter = after_slash-shorter id t e in
              let eq : t ≡ id = ground (arith, e, same) in
              absurd (omega (arith, shorter, ap count eq)),
          λ none_there. absurd (ground (arith, e)),
        )
      ],
    )
