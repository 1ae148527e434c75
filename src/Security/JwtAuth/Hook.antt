-- ===== src/Security/JwtAuth/Hook.antt =====
-- The hook as a whole: JwtAuthRequestHook overrides the three functions of its base class,
-- mse::TokenAuthRequestHook, which is a parameter here, as is the context of a request by its
-- metadata.
use sapper_bricks.Prelude.{String, ◌≡◌, Bool, true, false, Option, none, some, List, [], ◌∷◌}
use sapper_bricks.Effect.{Status, Exn, Result, returns, throws, Comp, pure, ◌>>=◌}
use sapper_bricks.Effect.Fail
use sapper_bricks.Mse.{HasFailed}
use sapper_bricks.Dict.{Dict, find, assign}
use sapper_bricks.Json.{JsonLib}
use sapper_bricks.Security.JwtAuth.{
  JwtLib, Parameters, TokenImpl, Decoded, rejected, accepted, decode_token, verify_token,
  extract_claim,
}

-- The functions that a token hook overrides; decode_token gives none for false.
pub record TokenFunctions (W D : Type 0) : Type 0 where
  pub decode : String → Comp W (Option D)
  pub verify : D → Bool
  pub claim : D → String → Result (Option String)

abbrev pub Metadata : Type 0
Metadata = Dict String

pub record TokenAuthLib : Type 1 where
  -- TokenAuthRequestHook(name, metadata key, required claims).Process(func, context)
  pub process :
      {W D : Type 0}
      → String
      → String
      → List String
      → TokenFunctions W D
      → Comp (Metadata × W) Status
      → Comp (Metadata × W) Status

abbrev add_claim : String → Option String → Option Metadata → Option Metadata
add_claim name (some value) (some claims) = some ((name, value) ∷ claims)
add_claim name _ _ = none

-- The values of the required claims, none if one of them is missing.
unfoldable pub claims_of :
    (String → Result (Option String)) → List String → Result (Option Metadata)
claims_of claim [] = returns (some [])
claims_of claim (name ∷ names) =
    Fail.◌>>=◌ (claim name)
      λ value. Fail.◌>>=◌ (claims_of claim names) λ claims. returns (add_claim name value claims)

-- The context with the claims, each in place of what was there under its name.
unfoldable pub insert_claims : Metadata → Metadata → Metadata
insert_claims [] context = context
insert_claims ((name, value) ∷ claims) context = insert_claims claims (assign name value context)

module _ {W : Type 0} where
  -- A request that is not run: whatever it is, the answer is the same, and no success, the context
  -- is kept, and the world is the one that is left.
  pub record Refuses (process : Comp (Metadata × W) Status → Comp (Metadata × W) Status)
      (s : Metadata × W) (left : W) : Type 0 where
    pub answer : Result Status
    pub is_failure : HasFailed answer
    pub ignores : (request : Comp (Metadata × W) Status) → process request s ≡ (answer, (s.0, left))

-- What the base class does with the three functions.
pub record IsTokenAuth (L : TokenAuthLib) : Type 1 where
  pub no_token :
      {W D : Type 0} (name key : String) (claims : List String) (f : TokenFunctions W D)
      (s : Metadata × W)
      → find key s.0 ≡ none
      → Refuses (L.process name key claims f) s s.1
  pub decode_threw :
      {W D : Type 0} (name key : String) (claims : List String) (f : TokenFunctions W D)
      (s : Metadata × W) (token : String) (x : Exn)
      → find key s.0 ≡ some token
      → (f.decode token s.1).0 ≡ throws x
      → Refuses (L.process name key claims f) s (f.decode token s.1).1
  pub not_decoded :
      {W D : Type 0} (name key : String) (claims : List String) (f : TokenFunctions W D)
      (s : Metadata × W) (token : String)
      → find key s.0 ≡ some token
      → (f.decode token s.1).0 ≡ returns none
      → Refuses (L.process name key claims f) s (f.decode token s.1).1
  pub not_verified :
      {W D : Type 0} (name key : String) (claims : List String) (f : TokenFunctions W D)
      (s : Metadata × W) (token : String) (d : D)
      → find key s.0 ≡ some token
      → (f.decode token s.1).0 ≡ returns (some d)
      → f.verify d ≡ false
      → Refuses (L.process name key claims f) s (f.decode token s.1).1
  pub no_claim :
      {W D : Type 0} (name key : String) (claims : List String) (f : TokenFunctions W D)
      (s : Metadata × W) (token : String) (d : D)
      → find key s.0 ≡ some token
      → (f.decode token s.1).0 ≡ returns (some d)
      → f.verify d ≡ true
      → ((found : Metadata) → claims_of (f.claim d) claims ≡ returns (some found) → ⊥)
      → Refuses (L.process name key claims f) s (f.decode token s.1).1
  pub passed :
      {W D : Type 0} (name key : String) (claims : List String) (f : TokenFunctions W D)
      (s : Metadata × W) (token : String) (d : D) (found : Metadata)
      → find key s.0 ≡ some token
      → (f.decode token s.1).0 ≡ returns (some d)
      → f.verify d ≡ true
      → claims_of (f.claim d) claims ≡ returns (some found)
      → (request : Comp (Metadata × W) Status)
      → L.process name key claims f request s
        ≡ request (insert_claims found s.0, (f.decode token s.1).1)

pub record JwtAuthRequestHook (W : Type 0) : Type 0 where
  pub parameters : Parameters W

-- JwtAuthRequestHook::JwtAuthRequestHook
unfoldable pub create : {W : Type 0} → Parameters W → JwtAuthRequestHook W
create parameters = record { parameters = parameters }

module _ {J : JsonLib} (T : JwtLib J) where
  abbrev taken : Decoded T → Option (TokenImpl T)
  taken (rejected details) = none
  taken (accepted t) = some t

  module _ {W : Type 0} where
    -- The three functions with what they get from _parameters.
    abbrev pub functions : JwtAuthRequestHook W → TokenFunctions W (TokenImpl T)
    functions hook = record {
      decode = λ token. (do decoded ← decode_token T hook.parameters token; pure (taken decoded));
      verify = λ t. (verify_token T t).0;
      claim = extract_claim T;
    }

    -- Process of the hook, by its base class.
    unfoldable pub process :
        TokenAuthLib
        → JwtAuthRequestHook W
        → Comp (Metadata × W) Status
        → Comp (Metadata × W) Status
    process L hook =
        L.process "jwt auth" hook.parameters.metadata_key hook.parameters.required_claims
          (functions hook)
