-- ===== src/Tests/Requests.antt =====
-- The request library for the tests: exceptions become the status 13, and every failed request is
-- tried again while a retry is left.
use sapper_bricks.Prelude.{ℕ, zero, suc, String, ◌≡◌, refl, inr, true, false, if◌then◌else◌}
use sapper_bricks.Effect.{
  StatusCode, Status, ok, not_found, unavailable, is_ok, Exn, broken_connection, error_forwarding,
  Result, returns, throws, Comp,
}
use sapper_bricks.Mse.{IssuerLib, IsIssuer, HasFailed, Forwards}
use sapper_bricks.Handler.{HandlerLib, IsHandler}

abbrev pub status_of : Exn → Status
status_of (error_forwarding s what) = record { code = StatusCode.other 13; details = what }
status_of x = record { code = StatusCode.other 13; details = "" }

abbrev caught : {W : Type 0} → Result Status × W → Result Status × W
caught (returns s, w) = (returns s, w)
caught (throws x, w) = (returns (status_of x), w)

abbrev pub to_http : StatusCode → ℕ
to_http ok = 200
to_http not_found = 404
to_http unavailable = 503
to_http (StatusCode.other n) = 500

abbrev pub handlers : HandlerLib
handlers = record { process = λ name m w. caught (m w); status_of = status_of; to_http = to_http }

status_of_error : (x : Exn) → is_ok (status_of x).code ≡ false
status_of_error (error_forwarding s what) = refl
status_of_error _ = refl

module _ {W : Type 0} where
  caught_returned : (r : Result Status × W) (s : Status) → r.0 ≡ returns s → caught r ≡ r
  caught_returned (returns t, w) s h = refl
  caught_returned (throws x, w) s h = absurd (cc h)

  caught_threw :
      (r : Result Status × W) (x : Exn) → r.0 ≡ throws x → caught r ≡ (returns (status_of x), r.1)
  caught_threw (returns t, w) x h = absurd (cc h)
  caught_threw (throws y, w) x h = let same : y ≡ x = cc h in rw same

pub handler_laws : IsHandler handlers
handler_laws = record {
  process_returned = λ name m w s h. caught_returned (m w) s h;
  process_threw = λ name m w x h. caught_threw (m w) x h;
  status_of_error = status_of_error;
}

abbrev forwarded : {W : Type 0} → Result Status × W → Result Status × W
forwarded (returns s, w) =
    if is_ok s.code then (returns s, w) else (throws (error_forwarding s "forwarded"), w)
forwarded (throws x, w) = (throws x, w)

abbrev again : {W : Type 0} → Result Status × W → Comp W Status → Result Status × W
again (returns s, w) more = if is_ok s.code then (returns s, w) else more w
again (throws x, w) more = more w

unfoldable pub retried : {W : Type 0} → ℕ → Comp W Status → Comp W Status
retried zero m w = m w
retried (suc n) m w = again (m w) (retried n m)

abbrev mapped : {W : Type 0} → Result Status × W → Result Status × W
mapped (throws (broken_connection what), w) =
    (returns (record { code = unavailable; details = what }), w)
mapped r = r

abbrev pub hooks : IssuerLib
hooks = record {
  process = λ name m. m;
  forward_errors = λ m w. forwarded (m w);
  retry = λ n i m. retried n m;
  map_broken = λ m w. mapped (m w);
}

abbrev Ends : {W : Type 0} → StatusCode → Result Status × W → Result Status × W → Type 0
Ends code r before = Forwards code r.0 × (r.1 ≡ before.1)

module _ {W : Type 0} where
  forwarded_ok :
      (r : Result Status × W) (s : Status) → r.0 ≡ returns s → is_ok s.code ≡ true → forwarded r ≡ r
  forwarded_ok (returns t, w) s h good = let same : t ≡ s = cc h in rw same (rw good)
  forwarded_ok (throws x, w) s h good = absurd (cc h)

  forwarded_error :
      (r : Result Status × W) (s : Status)
      → r.0 ≡ returns s
      → is_ok s.code ≡ false
      → Ends s.code (forwarded r) r
  forwarded_error (returns t, w) s h bad =
      let same : t ≡ s = cc h in rw same (rw bad ((s, "forwarded", refl, refl), refl))
  forwarded_error (throws x, w) s h bad = absurd (cc h)

  forwarded_threw : (r : Result Status × W) (x : Exn) → r.0 ≡ throws x → forwarded r ≡ r
  forwarded_threw (returns t, w) x h = absurd (cc h)
  forwarded_threw (throws y, w) x h = refl

  again_ok :
      (r : Result Status × W) (more : Comp W Status) (s : Status)
      → r.0 ≡ returns s
      → is_ok s.code ≡ true
      → again r more ≡ r
  again_ok (returns t, w) more s h good = let same : t ≡ s = cc h in rw same (rw good)
  again_ok (throws x, w) more s h good = absurd (cc h)

  again_failed :
      (r : Result Status × W) (more : Comp W Status) → HasFailed r.0 → again r more ≡ more r.1
  again_failed (returns t, w) more h = rw h
  again_failed (throws x, w) more h = refl

  retried_ok :
      (n : ℕ) (m : Comp W Status) (w : W) (s : Status)
      → (m w).0 ≡ returns s
      → is_ok s.code ≡ true
      → retried n m w ≡ m w
  unfolding retried
  retried_ok zero m w s h good = refl
  retried_ok (suc n) m w s h good = again_ok (m w) (retried n m) s h good

  retried_failed :
      (n : ℕ) (m : Comp W Status) (w : W)
      → HasFailed (m w).0
      → retried (suc n) m w ≡ retried n m (m w).1
  unfolding retried
  retried_failed n m w h = again_failed (m w) (retried n m) h

  retried_last : (m : Comp W Status) (w : W) → retried zero m w ≡ m w
  unfolding retried
  retried_last m w = refl

  mapped_returned : (r : Result Status × W) (s : Status) → r.0 ≡ returns s → mapped r ≡ r
  mapped_returned (returns t, w) s h = refl
  mapped_returned (throws x, w) s h = absurd (cc h)

  mapped_broken :
      (r : Result Status × W) (what : String)
      → r.0 ≡ throws (broken_connection what)
      → mapped r ≡ (returns (record { code = unavailable; details = what }), r.1)
  mapped_broken (returns t, w) what h = absurd (cc h)
  mapped_broken (throws x, w) what h = let same : x ≡ broken_connection what = cc h in rw same

  mapped_other :
      (r : Result Status × W) (x : Exn)
      → r.0 ≡ throws x
      → HasFailed (mapped r).0 × ((mapped r).1 ≡ r.1)
  mapped_other (returns t, w) x h = absurd (cc h)
  mapped_other (throws (broken_connection what), w) x h = (refl, refl)
  mapped_other (throws _, w) x h = (tt, refl)

pub hook_laws : IsIssuer hooks
hook_laws = record {
  process_lem = λ name m w. refl;
  forwards_ok = λ m w s h good. forwarded_ok (m w) s h good;
  forwards_error = λ m w s h bad. forwarded_error (m w) s h bad;
  forwards_throw = λ m w x h. forwarded_threw (m w) x h;
  retry_ok = λ n i m w s h good. retried_ok n m w s h good;
  retry_again = λ n i m w s h code. (0, retried_failed n m w (rw h (rw code)));
  retry_last = λ i m w h. retried_last m w;
  retry_other = λ n i m w h. inr (0, retried_failed n m w h);
  map_returned = λ m w s h. mapped_returned (m w) s h;
  map_broken_lem = λ m w what h.
      (record { code = unavailable; details = what }, refl, mapped_broken (m w) what h);
  map_other = λ m w x h. mapped_other (m w) x h;
}
