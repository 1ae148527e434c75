-- ===== src/Tests/Json/Laws.antt =====
-- The laws of the small JSON library.
use mathlib.Core.Path.{subst}
use native.Mathlib.Decide.{dec_lt}
use sapper_bricks.Prelude.{
  ◌^◌, String, ◌≡◌, refl, Bool, true, false, some, [], ◌∷◌, arith, ◌==◌, eq_iff, Bool-cases, ap,
  inl, inr,
}
use sapper_bricks.Prelude.Int.{ℤ, pos, negsuc, IsInt32}
use sapper_bricks.Effect.{Exn, json_error, returns, throws}
use sapper_bricks.Dict.{Dict, find}
use sapper_bricks.Json.{IsJson, IsJsonError}
use sapper_bricks.Tests.Json.{
  Value, text, number, flag, nil, item, empty, field, int_eq, bool_eq, equal, fails, has_key,
  value_at, is_text, is_flag, text_of, flag_of, bounded, int_of, number_of, is_the_text, fields_of,
  entity_doc, slash_doc, parse_text, dump_value, json,
}

int_eq_sound : (m n : ℤ) → int_eq m n ≡ true → m ≡ n
int_eq_sound (pos m) (pos n) h = ap pos (ground arith)
int_eq_sound (negsuc m) (negsuc n) h = ap negsuc (ground arith)
int_eq_sound _ _ h = cc

bool_eq_sound : (m n : Bool) → bool_eq m n ≡ true → m ≡ n
bool_eq_sound true true h = refl
bool_eq_sound false false h = refl
bool_eq_sound _ _ h = cc

equal_sound : (u v : Value) → equal u v ≡ true → u ≡ v
equal_sound (text s) (text t) h = ap text ((eq_iff s t).0 h)
equal_sound (number m) (number n) h = ap number (int_eq_sound m n h)
equal_sound (flag a) (flag b) h = ap flag (bool_eq_sound a b h)
equal_sound nil nil h = refl
equal_sound (item u v) (item x y) h = ground (arith, equal_sound u x, equal_sound v y)
equal_sound empty empty h = refl
equal_sound (field k u v) (field j x y) h =
    ground (arith, eq_iff k j, equal_sound u x, equal_sound v y)
equal_sound _ _ h = cc

json_fails : {A : Type 0} (x : Exn) → fails {A = A} ≡ throws x → IsJsonError x
json_fails x h = let same : json_error "no such value" ≡ x = cc in subst IsJsonError same tt

parse-dump : (j : Value) (t : String) → dump_value j ≡ returns t → parse_text t ≡ returns j
parse-dump j t h = elim (Bool-cases (equal j entity_doc)) [
  | inl e ↦ let same : t ≡ "entity" = cc (e, h) in rw same (rw (equal_sound j entity_doc e))
  | inr e ↦ elim (Bool-cases (equal j slash_doc)) [
    | inl e' ↦
        let same : t ≡ "slash" = ground (arith, e, e', h) in
        rw same (rw (equal_sound j slash_doc e'))
    | inr e' ↦ absurd (ground (arith, e, e', h))
  ]
]

at-object :
    (fields : Dict Value) (key : String) (j : Value)
    → find key fields ≡ some j
    → value_at (fields_of fields) key ≡ returns j
unfolding find
at-object [] key j h = cc
at-object ((k, v) ∷ fields) key j h = ground (arith, at-object fields key j)

contains-at :
    (j : Value) (key : String) → has_key j key ≡ true → (v : Value) × (value_at j key ≡ returns v)
contains-at (field k v rest) key h = elim (Bool-cases (k == key)) [
  | inl e ↦ (v, rw e)
  | inr e ↦ rw e (contains-at rest key (rw e at h))
]
contains-at _ key h = absurd (cc h)

bounded-IsInt32 : (m n : ℤ) (d : Dec (IsInt32 m)) → bounded m d ≡ returns n → IsInt32 n
bounded-IsInt32 m n (yes p) h = subst IsInt32 (cc h) p
bounded-IsInt32 m n (no p) h = absurd (cc h)

bounded_lem : (n : ℤ) (d : Dec (IsInt32 n)) → IsInt32 n → bounded n d ≡ returns n
bounded_lem n (yes p) h = refl
bounded_lem n (no p) h = absurd (p h)

bounded-throws : (n : ℤ) (x : Exn) (d : Dec (IsInt32 n)) → bounded n d ≡ throws x → IsJsonError x
bounded-throws n x (yes p) h = absurd (cc h)
bounded-throws n x (no p) h = json_fails x h

int_of_lem : (n : ℤ) → IsInt32 n → int_of n ≡ returns n
int_of_lem (pos n) h = bounded_lem (pos n) _ h
int_of_lem (negsuc n) h = bounded_lem (negsuc n) _ h

number_of-IsInt32 : (j : Value) (n : ℤ) → number_of j ≡ returns n → IsInt32 n
number_of-IsInt32 (number (pos m)) n h = bounded-IsInt32 (pos m) n (dec_lt m (2 ^ 31)) h
number_of-IsInt32 (number (negsuc m)) n h = bounded-IsInt32 (negsuc m) n (dec_lt m (2 ^ 31)) h
number_of-IsInt32 _ n h = absurd (cc h)

parse-throws : (t : String) (x : Exn) → parse_text t ≡ throws x → IsJsonError x
parse-throws t x h = json_fails {A = Value} x (ground (arith, h))

at-throws : (j : Value) (key : String) (x : Exn) → value_at j key ≡ throws x → IsJsonError x
at-throws (field k v rest) key x h = elim (Bool-cases (k == key)) [
  | inl e ↦ absurd (ground (arith, e, h))
  | inr e ↦ at-throws rest key x (rw e at h)
]
at-throws _ key x h = json_fails x h

text_of-throws : (j : Value) (x : Exn) → text_of j ≡ throws x → IsJsonError x
text_of-throws (text s) x h = absurd (cc h)
text_of-throws _ x h = json_fails x h

number_of-throws : (j : Value) (x : Exn) → number_of j ≡ throws x → IsJsonError x
number_of-throws (number (pos m)) x h = bounded-throws (pos m) x (dec_lt m (2 ^ 31)) h
number_of-throws (number (negsuc m)) x h = bounded-throws (negsuc m) x (dec_lt m (2 ^ 31)) h
number_of-throws _ x h = json_fails x h

is_text-get : (j : Value) → is_text j ≡ true → (s : String) × (text_of j ≡ returns s)
is_text-get (text s) h = (s, refl)
is_text-get _ h = absurd (cc h)

is_flag-get : (j : Value) → is_flag j ≡ true → (b : Bool) × (flag_of j ≡ returns b)
is_flag-get (flag b) h = (b, refl)
is_flag-get _ h = absurd (cc h)

is_the_text-get : (j : Value) (s t : String) → text_of j ≡ returns s → is_the_text j t ≡ (s == t)
is_the_text-get (text r) s t h = ground (arith, h)
is_the_text-get _ s t h = absurd (cc h)

pub json_laws : IsJson json
json_laws = record {
  parse-dump = parse-dump;
  at-object = at-object;
  get_string-string_value = λ s. refl;
  get_int-int_value = int_of_lem;
  contains-at = contains-at;
  is_string-get = is_text-get;
  is_boolean-get = is_flag-get;
  equals_text-get = is_the_text-get;
  get_int-IsInt32 = number_of-IsInt32;
  parse-throws = parse-throws;
  at-throws = at-throws;
  get_string-throws = text_of-throws;
  get_int-throws = number_of-throws;
}
