-- ===== src/Security/JwtAuth/Guards.antt =====
-- Which requests the hook lets run.
use mathlib.Core.Path.{subst}
use sapper_bricks.Prelude.{
  String, ◌≡◌, ◌⊎◌, refl, inl, inr, true, Option, none, some, arith, Bool-cases, Option-cases, ap,
  ◌∙◌,
}
use sapper_bricks.Effect.{Status, returns, Comp}
use sapper_bricks.Effect.Laws.{Result-cases}
use sapper_bricks.Dict.{find}
use sapper_bricks.Json.{JsonLib}
use sapper_bricks.Security.JwtAuth.{
  JwtLib, Parameters, TokenImpl, rejected, accepted, decode_token, verify_token, extract_claim,
}
use sapper_bricks.Security.JwtAuth.Tokens.{Authenticates, decode_token_iff}
use sapper_bricks.Security.JwtAuth.Hook.{
  Metadata, TokenAuthLib, IsTokenAuth, Refuses, claims_of, insert_claims, create, functions,
  process,
}

module _ {J : JsonLib} (T : JwtLib J) {W : Type 0} (L : TokenAuthLib) (base : IsTokenAuth L)
    (parameters : Parameters W) where
  abbrev pub run : Comp (Metadata × W) Status → Comp (Metadata × W) Status
  run = process T L (create parameters)

  -- A context whose token is authentic and has the required claims, with these values.
  pub record IsAllowed (s : Metadata × W) (left : W) (claims : Metadata) : Type 0 where
    pub token : String
    pub brings : find parameters.metadata_key s.0 ≡ some token
    pub t : TokenImpl T
    pub authentic : Authenticates T parameters token s.1 t left
    pub no_error : t.ec ≡ none
    pub has_claims :
        claims_of (extract_claim T t) parameters.required_claims ≡ returns (some claims)

  verified_lem : (t : TokenImpl T) → t.ec ≡ none → (verify_token T t).0 ≡ true
  unfolding verify_token
  verified_lem t e = rw e

  verified_inversion : (t : TokenImpl T) → (verify_token T t).0 ≡ true → t.ec ≡ none
  unfolding verify_token
  verified_inversion t v = elim (Option-cases t.ec) [
    | inl e ↦ e
    | inr (error, e) ↦ absurd (ground (arith, e))
  ]

  allowed-passes :
      (s : Metadata × W) (left : W) (claims : Metadata)
      → IsAllowed s left claims
      → (request : Comp (Metadata × W) Status)
      → run request s ≡ request (insert_claims claims s.0, left)
  unfolding process create
  allowed-passes s left claims a request =
      let decoded = (decode_token_iff T parameters a.token s.1 left a.t).1 a.authentic in
      base.passed "jwt auth" parameters.metadata_key parameters.required_claims
        (functions T (create parameters)) s a.token a.t claims a.brings (rw decoded)
        (verified_lem a.t a.no_error) a.has_claims request
      ∙ rw decoded

  -- The world after the token was decoded, if there is one.
  abbrev after_token : W → Option String → W
  after_token w none = w
  after_token w (some token) = (decode_token T parameters token w).1

  abbrev pub decoding_left : Metadata × W → W
  decoding_left s = after_token s.1 (find parameters.metadata_key s.0)

  abbrev Decides : Metadata × W → W → Type 0
  Decides s after =
      Refuses run s after ⊎ ((left : W) × (claims : Metadata) × IsAllowed s left claims)

  -- The virtual function leaves the world that decode_token leaves.
  decode-left :
      (token : String) (w : W)
      → ((functions T (create parameters)).decode token w).1 ≡ (decode_token T parameters token w).1
  unfolding create
  decode-left token w = elim (Result-cases (decode_token T parameters token w).0) [
    | inr (x, e) ↦ rw e refl
    | inl (d, e) ↦ rw e refl
  ]

  refused :
      (s : Metadata × W) (token : String)
      → Refuses run s ((functions T (create parameters)).decode token s.1).1
      → Decides s (decode_token T parameters token s.1).1
  refused s token r = inl (subst (λ after. Refuses run s after) (decode-left token s.1) r)

  verified-Decides :
      (s : Metadata × W) (token : String) (t : TokenImpl T)
      → find parameters.metadata_key s.0 ≡ some token
      → (decode_token T parameters token s.1).0 ≡ returns (accepted t)
      → (verify_token T t).0 ≡ true
      → Decides s (decode_token T parameters token s.1).1
  unfolding process create
  verified-Decides s token t brings decoded verified =
      let missing =
        base.no_claim "jwt auth" parameters.metadata_key parameters.required_claims
          (functions T (create parameters)) s token t brings (rw decoded) verified in
      elim (Result-cases (claims_of (extract_claim T t) parameters.required_claims)) [
        | inr (x, e) ↦ refused s token (missing (λ found h. cc (e, h)))
        | inl (none, e) ↦ refused s token (missing (λ found h. cc (e, h)))
        | inl (some claims, e) ↦
            let left = (decode_token T parameters token s.1).1 in
            let whole : decode_token T parameters token s.1 ≡ (returns (accepted t), left) =
              ap (λ r. (r, left)) decoded in
            inr (
              left,
              claims,
              record {
                token = token;
                brings = brings;
                t = t;
                authentic = (decode_token_iff T parameters token s.1 left t).0 whole;
                no_error = verified_inversion t verified;
                has_claims = e;
              },
            )
      ]

  token-Decides :
      (s : Metadata × W) (token : String)
      → find parameters.metadata_key s.0 ≡ some token
      → Decides s (decode_token T parameters token s.1).1
  unfolding process create
  token-Decides s token brings =
      let key = parameters.metadata_key in
      let claims = parameters.required_claims in
      let f = functions T (create parameters) in
      elim (Result-cases (decode_token T parameters token s.1).0) [
        | inr (x, e) ↦
            refused s token (base.decode_threw "jwt auth" key claims f s token x brings (rw e refl))
        | inl (rejected details, e) ↦
            refused s token (base.not_decoded "jwt auth" key claims f s token brings (rw e refl))
        | inl (accepted t, e) ↦ elim (Bool-cases (verify_token T t).0) [
          | inl v ↦ verified-Decides s token t brings e v
          | inr v ↦
              refused s token
                (base.not_verified "jwt auth" key claims f s token t brings (rw e refl) v)
        ]
      ]

  -- The hook lets a request run exactly if its context brings an authentic token: one that
  -- decode_token takes, that the library reports no error for, and that has the required claims.
  -- The request then runs on the context with the values of these claims, in the world that the
  -- decoding left. In every other case, exceptions included, the request is not run at all: the
  -- answer does not depend on it and is no success, and nothing has changed but what the key
  -- provider did.
  pub process_lem :
      (s : Metadata × W)
      → (Refuses run s (decoding_left s)
          ⊎ ((left : W) × (claims : Metadata) × IsAllowed s left claims))
        × ((left : W) (claims : Metadata)
            → IsAllowed s left claims
            → (request : Comp (Metadata × W) Status)
            → run request s ≡ request (insert_claims claims s.0, left))
  unfolding process create
  process_lem s = (
    elim (Option-cases (find parameters.metadata_key s.0)) [
      | inl e ↦
          let stopped : Refuses run s s.1 =
            base.no_token "jwt auth" parameters.metadata_key parameters.required_claims
              (functions T (create parameters)) s e in
          rw e (inl stopped)
      | inr (token, e) ↦ let decides = token-Decides s token e in rw e decides
    ],
    λ left claims a. allowed-passes s left claims a,
  )
