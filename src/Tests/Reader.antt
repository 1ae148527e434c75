-- ===== src/Tests/Reader.antt =====
-- A reader of JSON texts for the tests: without numbers, and without escapes in texts.
use Prim.Native.Char.{Char, code}
use Prim.Native.String
use sapper_bricks.Prelude.{
  ℕ, String, Bool, true, false, List, [], ◌∷◌, ◌++◌, ◌≡◌, refl, ◌==◌, if◌then◌else◌,
}
use sapper_bricks.Effect.{json_error, Result, returns, throws}
use sapper_bricks.Json.{JsonLib}
use sapper_bricks.Tests.Json.{Value, text, flag, nil, item, empty, field, nat_eq, json}

chars_of : String → List Char
chars_of Prim.Native.String.[] = []
chars_of (Prim.Native.String.◌∷◌ c s) = c ∷ chars_of s

text_of : List Char → String
text_of [] = ""
text_of (c ∷ cs) = Prim.Native.String.◌∷◌ c (text_of cs)

pub data Token : Type 0 where
  open_object close_object open_array close_array colon comma unknown : Token
  quoted word : String → Token

-- Inside a text or a word, with its characters so far, the last one first.
pub data Mode : Type 0 where
  between : Mode
  in_text in_word : List Char → Mode

reversed : List Char → List Char → List Char
reversed [] seen = seen
reversed (c ∷ cs) seen = reversed cs (c ∷ seen)

is_code : ℕ → Char → Bool
is_code n c = nat_eq (code c) n

is_space : Char → Bool
unfolding is_code
is_space c =
    if is_code 32 c
    then true
    else if is_code 10 c
    then true
    else if is_code 13 c
    then true
    else is_code 9 c

-- The token of a character that is one by itself, or else the mode that it starts.
start : Char → Mode × List Token
unfolding is_code is_space
start c =
    if is_space c
    then (between, [])
    else if is_code 34 c
    then (in_text [], [])
    else if is_code 123 c
    then (between, open_object ∷ [])
    else if is_code 125 c
    then (between, close_object ∷ [])
    else if is_code 91 c
    then (between, open_array ∷ [])
    else if is_code 93 c
    then (between, close_array ∷ [])
    else if is_code 58 c
    then (between, colon ∷ [])
    else if is_code 44 c
    then (between, comma ∷ [])
    else (in_word (c ∷ []), [])

is_letter : Char → Bool
unfolding start
is_letter c = elim (start c).0 [ in_word cs ↦ true | _ ↦ false ]

next : Mode → Char → Mode × List Token
unfolding start is_letter text_of reversed is_code
next between c = start c
next (in_text cs) c =
    if is_code 34 c
    then (between, quoted (text_of (reversed cs [])) ∷ [])
    else (in_text (c ∷ cs), [])
next (in_word cs) c =
    if is_letter c
    then (in_word (c ∷ cs), [])
    else ((start c).0, word (text_of (reversed cs [])) ∷ (start c).1)

-- A text that does not end is no token.
finish : Mode → List Token
unfolding text_of reversed
finish between = []
finish (in_text cs) = unknown ∷ []
finish (in_word cs) = word (text_of (reversed cs [])) ∷ []

tokens : Mode → List Char → List Token
unfolding next finish
tokens mode [] = finish mode
tokens mode (c ∷ cs) = let (later, found) = next mode c in found ++ tokens later cs

-- The objects and arrays around a place, the innermost first, with the entries so far, the last one
-- first, and the key of an object whose value comes next.
pub data Frame : Type 0 where
  object : String → List (String × Value) → Frame
  array : List Value → Frame

-- What may come there.
pub data Want : Type 0 where
  a_value value_or_end key_or_end a_key more failed : Want
  a_colon : String → Want
  finished : Value → Want

abbrev Place : Type 0
Place = List Frame × Want

fields_of : List (String × Value) → Value → Value
fields_of [] fields = fields
fields_of ((k, v) ∷ entries) fields = fields_of entries (field k v fields)

items_of : List Value → Value → Value
items_of [] items = items
items_of (v ∷ values) items = items_of values (item v items)

-- After a value.
put_value : Value → List Frame → Place
put_value v [] = ([], finished v)
put_value v (array vs ∷ frames) = (array (v ∷ vs) ∷ frames, more)
put_value v (object k entries ∷ frames) = (object "" ((k, v) ∷ entries) ∷ frames, more)

takes_value : Want → Bool
takes_value a_value = true
takes_value value_or_end = true
takes_value want = false

put_word : String → List Frame → Place
unfolding put_value
put_word w frames =
    if w == "true"
    then put_value (flag true) frames
    else if w == "false"
    then put_value (flag false) frames
    else (frames, failed)

put_text : String → List Frame → Want → Place
unfolding put_value
put_text s frames a_value = put_value (text s) frames
put_text s frames value_or_end = put_value (text s) frames
put_text s frames a_key = (frames, a_colon s)
put_text s frames key_or_end = (frames, a_colon s)
put_text s frames want = (frames, failed)

end_object : List Frame → Want → Place
unfolding put_value fields_of
end_object (object k entries ∷ frames) more = put_value (fields_of entries empty) frames
end_object (object k entries ∷ frames) key_or_end = put_value (fields_of entries empty) frames
end_object frames want = (frames, failed)

end_array : List Frame → Want → Place
unfolding put_value items_of
end_array (array vs ∷ frames) more = put_value (items_of vs nil) frames
end_array (array vs ∷ frames) value_or_end = put_value (items_of vs nil) frames
end_array frames want = (frames, failed)

after_colon : List Frame → Want → Place
after_colon (object k entries ∷ frames) (a_colon key) = (object key entries ∷ frames, a_value)
after_colon frames want = (frames, failed)

after_comma : List Frame → Want → Place
after_comma (object k entries ∷ frames) more = (object k entries ∷ frames, a_key)
after_comma (array vs ∷ frames) more = (array vs ∷ frames, a_value)
after_comma frames want = (frames, failed)

step : Token → List Frame → Want → Place
unfolding takes_value put_word put_text end_object end_array after_colon after_comma
step open_object frames want =
    if takes_value want then (object "" [] ∷ frames, key_or_end) else (frames, failed)
step open_array frames want =
    if takes_value want then (array [] ∷ frames, value_or_end) else (frames, failed)
step (word w) frames want = if takes_value want then put_word w frames else (frames, failed)
step (quoted s) frames want = put_text s frames want
step close_object frames want = end_object frames want
step close_array frames want = end_array frames want
step colon frames want = after_colon frames want
step comma frames want = after_comma frames want
step unknown frames want = (frames, failed)

steps : List Token → List Frame → Want → Want
unfolding step
steps [] frames want = want
steps (token ∷ rest) frames want =
    let (inner, wanted) = step token frames want in steps rest inner wanted

abbrev result_of : Want → Result Value
result_of (finished v) = returns v
result_of want = throws (json_error "parse_error")

unfoldable pub read_json : String → Result Value
unfolding chars_of tokens steps
read_json s = result_of (steps (tokens between (chars_of s)) [] a_value)

-- The library of the tests, with this reader.
abbrev pub reading_json : JsonLib
reading_json = record json { parse = read_json }

reads_nested :
    read_json "{\"a\": [true, \"b\" ], \"c\": {}}"
    ≡ returns (field "a" (item (flag true) (item (text "b") nil)) (field "c" empty empty))
unfolding read_json
reads_nested = refl
