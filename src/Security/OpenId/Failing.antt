-- ===== src/Security/OpenId/Failing.antt =====
-- What goes wrong when a configuration is read or requested.
use Prim.Native.String
use mathlib.Core.Path.{subst}
use sapper_bricks.Prelude.{ℕ, suc, String, ◌≡◌, ◌≢◌, ◌⊎◌, inl, inr, arith}
use sapper_bricks.Effect.{Exn, runtime_error, bad_optional_access, returns, throws}
use sapper_bricks.Effect.Laws.{Result-cases}
use sapper_bricks.Json.{JsonLib, IsJson, IsJsonError}
use sapper_bricks.Security.OpenId.{create_from_url}
use sapper_bricks.Security.OpenId.Json.{create_from_json}
use sapper_bricks.Security.OpenId.Reading.{create_from_json_lem}
use sapper_bricks.Http.{HttpLib, failed, answered}

module _ (J : JsonLib) (laws : IsJson J) where
  open J use {parse}

  create_from_json-throws :
      (text : String) (x : Exn)
      → create_from_json J text ≡ throws x
      → IsJsonError x ⊎ (x ≡ bad_optional_access)
  unfolding create_from_json
  create_from_json-throws text x h =
      let same : (y : Exn) → parse text ≡ throws y → y ≡ x = λ y e. ground (arith, e, h) in
      elim (Result-cases (parse text)) [
        | inr (y, e) ↦ inl (subst IsJsonError (same y e) (laws.parse-throws text y e))
        | inl (j, e) ↦ elim (create_from_json_lem J laws text j e) [
          | inl (q, _, k) ↦ absurd (ground (arith, k))
          | inr (_, k) ↦ inr (ground (arith, k))
        ]
      ]

  -- CreateFromJson never throws std::runtime_error: what it throws is a json::exception of the
  -- parser, or bad_optional_access.
  pub create_from_json-no_runtime_error :
      (text what : String) → create_from_json J text ≢ throws (runtime_error what)
  create_from_json-no_runtime_error text what h =
      elim (create_from_json-throws text (runtime_error what) h) [ inl e ↦ e | inr e ↦ cc e ]

  -- CreateFromUrl makes one request. A request that fails throws a runtime_error, and a response
  -- is read with no regard to its status, unless the status is zero: an error page whose body is
  -- a configuration is taken.
  pub create_from_url_lem :
      {W : Type 0} (H : HttpLib W) (url : String) (w left : W)
      → ((error : String)
          → H.get url w ≡ (returns (failed error), left)
          → (what : String) × (create_from_url J H url w ≡ (throws (runtime_error what), left)))
        × ((status : ℕ) (body : String)
            → H.get url w ≡ (returns (answered (suc status) body), left)
            → create_from_url J H url w ≡ (create_from_json J body, left))
  unfolding create_from_url
  create_from_url_lem H url w left = (
    λ error e.
        (Prim.Native.String.◌++◌ "requesting openid configuration resulted in error: " error, rw e),
    λ status body e. rw e,
  )
