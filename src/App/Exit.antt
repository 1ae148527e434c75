-- ===== src/App/Exit.antt =====
-- The exit code of main.
use sapper_bricks.Prelude.{ℕ, String, ◌≡◌, inl, inr, List, [], ◌∷◌}
use sapper_bricks.Effect.{Exn, Result, returns, throws}
use sapper_bricks.Effect.Laws.{Result-cases}
use sapper_bricks.App.{AppLib, Main, run, main_of}

module _ {W : Type 0} (A : AppLib W) (m : Main W) where
  -- The library calls of main that the block under try does not make.
  pub record IsQuiet : Type 0 where
    pub gets :
        (name default : String) (w : W)
        → (s : String) × ((A.getenv_or name default w).0 ≡ returns s)
    pub inserts :
        (entries : List (String × String)) (w : W) → (A.insert_global entries w).0 ≡ returns tt
    pub prints : (x : Exn) (w : W) → (m.exception_handler x w).0 ≡ returns tt

  -- How main ends with what the block under try came to: its code, or 1 after the report.
  abbrev pub ended : Result ℕ × W → Result ℕ × W
  ended (returns n, v) = (returns n, v)
  ended (throws x, v) = (returns 1, (m.exception_handler x v).1)

  abbrev text_or_empty : Result String → String
  text_or_empty (returns s) = s
  text_or_empty (throws x) = ""

  abbrev after_app : W → W
  after_app w = (A.getenv_or "APP" "<<<NAME>>>" w).1

  -- The world in which the block under try begins.
  abbrev pub prepared : W → W
  prepared w =
      let version = A.getenv_or "VERSION" "<<<VERSION>>>" (after_app w) in
      let app = A.getenv_or "APP" "<<<NAME>>>" w in
      (A.insert_global (("app", text_or_empty app.0) ∷ ("version", text_or_empty version.0) ∷ [])
        version.1).1

  -- If the environment can be read and the output written, main returns, whatever is thrown under
  -- try: with the code of the block if the block returns, and with 1 after the exception handler of
  -- the catch block if it throws.
  pub main_of_lem : (quiet : IsQuiet) (w : W) → main_of A m w ≡ ended (run A m (prepared w))
  unfolding main_of
  main_of_lem quiet w =
      let (app, got) = quiet.gets "APP" "<<<NAME>>>" w in
      let (version, got') = quiet.gets "VERSION" "<<<VERSION>>>" (after_app w) in
      let w₂ = (A.getenv_or "VERSION" "<<<VERSION>>>" (after_app w)).1 in
      let metadata = ("app", app) ∷ ("version", version) ∷ [] in
      let v = (A.insert_global metadata w₂).1 in
      let named : text_or_empty (A.getenv_or "APP" "<<<NAME>>>" w).0 ≡ app = rw got in
      let dated : text_or_empty (A.getenv_or "VERSION" "<<<VERSION>>>" (after_app w)).0 ≡ version =
        rw got' in
      let same : prepared w ≡ v =
        λ i. (A.insert_global (("app", named i) ∷ ("version", dated i) ∷ []) w₂).1 in
      rw same (
        rw (got, got', quiet.inserts metadata w₂)
          (elim (Result-cases (run A m v).0) [
            | inl (n, e) ↦ rw e
            | inr (x, e) ↦ rw (e, quiet.prints x (run A m v).1)
          ]))
