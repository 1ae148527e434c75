-- ===== src/Json.antt =====
-- The JSON library that the bricks call (nlohmann::json), as a parameter: the operations that the
-- sources use, and in `IsJson` what its documentation says of them. `at` also stands for
-- `operator[]` with a key that is present.
pub mod Codec
pub mod Fields
use sapper_bricks.Prelude.{String, ◌≡◌, Bool, true, List, some, ◌==◌}
use sapper_bricks.Prelude.Int.{ℤ, IsInt32}
use sapper_bricks.Effect.{Exn, Result, returns, throws, json_error}
use sapper_bricks.Dict.{Dict, find}

pub record JsonLib : Type 1 where
  pub Json : Type 0
  pub parse : String → Result Json
  pub dump : Json → Result String
  pub contains : Json → String → Bool
  pub at : Json → String → Result Json
  pub is_string : Json → Bool
  pub is_boolean : Json → Bool
  pub is_array : Json → Bool
  pub get_string : Json → Result String
  pub get_int : Json → Result ℤ
  pub get_bool : Json → Result Bool
  -- what a range-based for loop visits
  pub elements : Json → List Json
  -- json == "text"
  pub equals_text : Json → String → Bool
  -- the conversions from std::string and int, and the initializer list of an object
  pub string_value : String → Json
  pub int_value : ℤ → Json
  pub object : Dict Json → Json

-- The exceptions of the library derive from json::exception.
abbrev pub IsJsonError : Exn → Type 0
IsJsonError (json_error what) = Unit
IsJsonError _ = ⊥

pub record IsJson (J : JsonLib) : Type 0 where
  -- What was dumped parses back.
  pub parse-dump : (j : J.Json) (text : String) → J.dump j ≡ returns text → J.parse text ≡ returns j
  -- The first entry with a key is the one that an initializer list keeps.
  pub at-object :
      (fields : Dict J.Json) (key : String) (j : J.Json)
      → find key fields ≡ some j
      → J.at (J.object fields) key ≡ returns j
  pub get_string-string_value : (s : String) → J.get_string (J.string_value s) ≡ returns s
  pub get_int-int_value : (n : ℤ) → IsInt32 n → J.get_int (J.int_value n) ≡ returns n
  -- A key that is contained can be read.
  pub contains-at :
      (j : J.Json) (key : String)
      → J.contains j key ≡ true
      → (v : J.Json) × (J.at j key ≡ returns v)
  -- The type tests say which conversions succeed.
  pub is_string-get :
      (j : J.Json) → J.is_string j ≡ true → (s : String) × (J.get_string j ≡ returns s)
  pub is_boolean-get :
      (j : J.Json) → J.is_boolean j ≡ true → (b : Bool) × (J.get_bool j ≡ returns b)
  pub equals_text-get :
      (j : J.Json) (s t : String) → J.get_string j ≡ returns s → J.equals_text j t ≡ (s == t)
  -- An int is in its range.
  pub get_int-IsInt32 : (j : J.Json) (n : ℤ) → J.get_int j ≡ returns n → IsInt32 n
  -- Failures are exceptions of the library.
  pub parse-throws : (text : String) (x : Exn) → J.parse text ≡ throws x → IsJsonError x
  pub at-throws : (j : J.Json) (key : String) (x : Exn) → J.at j key ≡ throws x → IsJsonError x
  pub get_string-throws : (j : J.Json) (x : Exn) → J.get_string j ≡ throws x → IsJsonError x
  pub get_int-throws : (j : J.Json) (x : Exn) → J.get_int j ≡ throws x → IsJsonError x
