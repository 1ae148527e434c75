-- ===== src/Tests/Hooks.antt =====
-- A base class of token hooks, and a request that brings a token.
use sapper_bricks.Prelude.{String, refl, inl, inr, Bool, true, false, Option, none, some, List}
use sapper_bricks.Effect.{StatusCode, Status, Result, returns, throws, Comp}
use sapper_bricks.Effect.Laws.{Result-cases}
use sapper_bricks.Dict.{find}
use sapper_bricks.Security.JwtAuth.Hook.{
  Metadata, TokenFunctions, TokenAuthLib, IsTokenAuth, claims_of, insert_claims,
}

-- The status code unauthenticated.
abbrev pub unauthenticated : StatusCode
unauthenticated = StatusCode.other 16

abbrev unauthenticated_status : Result Status
unauthenticated_status = returns (record { code = unauthenticated; details = "" })

module _ {W : Type 0} (request : Comp (Metadata × W) Status) (context : Metadata) where
  abbrev on_claims : W → Result (Option Metadata) → Result Status × (Metadata × W)
  on_claims w (throws x) = (throws x, (context, w))
  on_claims w (returns none) = (unauthenticated_status, (context, w))
  on_claims w (returns (some found)) = request (insert_claims found context, w)

  module _ {D : Type 0} (claims : List String) (f : TokenFunctions W D) where
    abbrev on_verified : W → D → Bool → Result Status × (Metadata × W)
    on_verified w d false = (unauthenticated_status, (context, w))
    on_verified w d true = on_claims w (claims_of (f.claim d) claims)

    abbrev on_decoded : Result (Option D) × W → Result Status × (Metadata × W)
    on_decoded (throws x, w) = (throws x, (context, w))
    on_decoded (returns none, w) = (unauthenticated_status, (context, w))
    on_decoded (returns (some d), w) = on_verified w d (f.verify d)

    abbrev on_token : W → Option String → Result Status × (Metadata × W)
    on_token w none = (unauthenticated_status, (context, w))
    on_token w (some token) = on_decoded (f.decode token w)

abbrev pub token_auth : TokenAuthLib
token_auth = record {
  process = λ name key claims f request s. on_token request s.0 claims f s.1 (find key s.0);
}

pub token_auth-IsTokenAuth : IsTokenAuth token_auth
token_auth-IsTokenAuth = record {
  no_token = λ name key claims f s e. record {
    answer = unauthenticated_status;
    is_failure = refl;
    ignores = λ request. rw e;
  };
  decode_threw = λ name key claims f s token x e d. record {
    answer = throws x;
    is_failure = tt;
    ignores = λ request. rw (e, d);
  };
  not_decoded = λ name key claims f s token e d. record {
    answer = unauthenticated_status;
    is_failure = refl;
    ignores = λ request. rw (e, d);
  };
  not_verified = λ name key claims f s token t e d v. record {
    answer = unauthenticated_status;
    is_failure = refl;
    ignores = λ request. rw (e, d, v);
  };
  no_claim = λ name key claims f s token t e d v missing.
      elim (Result-cases (claims_of (f.claim t) claims)) [
        | inr (x, c) ↦ record {
          answer = throws x;
          is_failure = tt;
          ignores = λ request. rw (e, d, v, c);
        }
        | inl (none, c) ↦ record {
          answer = unauthenticated_status;
          is_failure = refl;
          ignores = λ request. rw (e, d, v, c);
        }
        | inl (some found, c) ↦ absurd (missing found c)
      ];
  passed = λ name key claims f s token t found e d v c request. rw (e, d, v, c);
}
