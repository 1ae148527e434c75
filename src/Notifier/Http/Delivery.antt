-- ===== src/Notifier/Http/Delivery.antt =====
-- How often an entity is sent, and what EntityChanged makes of the answers.
use Prim.Native.String
use mathlib.Core.List.{append-nil, append_assoc}
use sapper_bricks.Prelude.{
  ℕ, zero, suc, ◌+◌, ◌≤◌, ◌≡◌, refl, ap, ◌∙◌, true, String, List, [], ◌∷◌, ◌++◌, arith,
}
use sapper_bricks.Effect.{StatusCode, Status, unavailable, is_ok, returns, Comp, pure}
use sapper_bricks.Effect.Laws.{>>=_inversion}
use sapper_bricks.Dict.{Dict}
use sapper_bricks.Ports.{Entity}
use sapper_bricks.Json.{JsonLib}
use sapper_bricks.Json.Codec.{encode}
use sapper_bricks.Http.{Fetched, failed}
use sapper_bricks.Mse.{IssuerLib, IsIssuer, Forwards}
use sapper_bricks.Mse.Issuer.{after, FailsFor, FailedFor}
use sapper_bricks.Mse.Forward.{issued, issued_recovers, issued_exhausted, issued_attempts}
use sapper_bricks.Notifier.Http.{PutLib, HttpNotifier, put_request, entity_changed, status_for}

module _ (J : JsonLib) (M : IssuerLib) (laws : IsIssuer M) {W : Type 0} (H : PutLib W)
    (notifier : HttpNotifier) (e : Entity) where
  open notifier use {max_retry_count, first_retry_interval}

  abbrev request : Comp W Status
  request = put_request J H notifier e

  -- A request that fails for some times, at most `max_retry_count`, and then ends with a good status
  -- is made just that often and once more, and EntityChanged returns.
  pub entity_changed_recovers :
      (k extra : ℕ) (w : W) (s : Status)
      → k + extra ≡ max_retry_count
      → FailsFor k request w
      → (request (after k request w)).0 ≡ returns s
      → is_ok s.code ≡ true
      → entity_changed J H notifier M e w ≡ (returns tt, (request (after k request w)).1)
  unfolding entity_changed
  entity_changed_recovers k extra w s enough fails got good =
      let ends =
        issued_recovers M laws "entityChanged" max_retry_count first_retry_interval request k extra
          w s enough fails got good in
      rw ends (rw got)

  -- An entity that cannot be sent at all is sent once and `max_retry_count` times again, and then
  -- EntityChanged throws the exception that forwards the status unavailable.
  pub entity_changed_exhausted :
      (w : W)
      → FailsFor (suc max_retry_count) request w
      → Forwards unavailable (entity_changed J H notifier M e w).0
        × ((entity_changed J H notifier M e w).1 ≡ after (suc max_retry_count) request w)
  unfolding entity_changed
  entity_changed_exhausted w fails =
      let ((t, what, code, thrown), final) =
        issued_exhausted M laws "entityChanged" max_retry_count first_retry_interval request w
          fails in
      ((t, what, code, rw thrown), rw thrown final)

  -- EntityChanged sends the entity at most once more than `max_retry_count`, and only again after a
  -- sending that failed; if it returns, the last sending was answered with a good status.
  pub entity_changed_attempts :
      (w : W)
      → (k : ℕ) × (k ≤ max_retry_count)
        × FailedFor k request w
        × ((entity_changed J H notifier M e w).1 ≡ (request (after k request w)).1)
        × ((entity_changed J H notifier M e w).0 ≡ returns tt
            → (st : Status) × ((request (after k request w)).0 ≡ returns st)
              × (is_ok st.code ≡ true))
  unfolding entity_changed
  entity_changed_attempts w =
      let (k, within, earlier, final, ended) =
        issued_attempts M laws "entityChanged" max_retry_count first_retry_interval request w in
      (
        k,
        within,
        earlier,
        ground (arith, final),
        λ h.
            let (t, ok, _, _) =
              >>=_inversion
                (issued M laws "entityChanged" max_retry_count first_retry_interval request)
                (λ _. pure tt) w h in
            ended t ok,
      )

-- One PUT.
pub record Sent : Type 0 where
  pub url : String
  pub path : String
  pub headers : Dict String
  pub body : String
  pub content_type : String

-- The PUTs so far, and the answers that will come.
abbrev pub Line : Type 0
Line = List Sent × List Fetched

abbrev pub next_of : List Fetched → Fetched
next_of [] = failed ""
next_of (answer ∷ answers) = answer

abbrev pub later_of : List Fetched → List Fetched
later_of [] = []
later_of (answer ∷ answers) = answers

-- A client over such a line; the context has the metadata that `filter` selects by their names.
abbrev pub on_line : (List String → Dict String) → (ℕ → StatusCode) → PutLib Line
on_line filter from_http = record {
  filtered_metadata = λ names. pure (filter names);
  put = λ url path headers body content_type line. (
    returns (next_of line.1),
    (
      line.0
          ++ (record {
            url = url;
            path = path;
            headers = headers;
            body = body;
            content_type = content_type;
          })
            ∷ [],
      later_of line.1,
    ),
  );
  from_http = from_http;
}

abbrev pub copies : {A : Type 0} → ℕ → A → List A
copies zero a = []
copies (suc k) a = a ∷ copies k a

module _ (J : JsonLib) (M : IssuerLib) (laws : IsIssuer M) (filter : List String → Dict String)
    (from_http : ℕ → StatusCode) (notifier : HttpNotifier) (e : Entity) (text : String)
    (encoded : encode J e ≡ returns text) where
  abbrev pub client : PutLib Line
  client = on_line filter from_http

  abbrev pub status : Fetched → Status
  status = status_for J client notifier

  -- The PUT of the entity.
  abbrev pub sent : Sent
  sent = record {
    url = notifier.notification_connection_string;
    path = Prim.Native.String.◌++◌ "/Entity/" e.id;
    headers = filter notifier.headers_to_propagate;
    body = text;
    content_type = "application/json";
  }

  -- Answers that are unavailable, `k` of them.
  abbrev pub Unavailable : ℕ → List Fetched → Type 0
  Unavailable zero [] = Unit
  Unavailable zero (answer ∷ answers) = ⊥
  Unavailable (suc k) [] = ⊥
  Unavailable (suc k) (answer ∷ answers) =
      ((status answer).code ≡ unavailable) × Unavailable k answers

  put_request-sent :
      (before : List Sent) (answers : List Fetched)
      → put_request J client notifier e (before, answers)
        ≡ (returns (status (next_of answers)), (before ++ sent ∷ [], later_of answers))
  unfolding put_request
  put_request-sent before answers = rw encoded

  after_failures :
      (k : ℕ) (failures answers : List Fetched) (before : List Sent)
      → Unavailable k failures
      → FailsFor k (put_request J client notifier e) (before, failures ++ answers)
        × (after k (put_request J client notifier e) (before, failures ++ answers)
            ≡ (before ++ copies k sent, answers))
  after_failures zero [] answers before h = (tt, rw (append-nil before))
  after_failures zero (answer ∷ failures) answers before h = elim h [ ]
  after_failures (suc k) [] answers before h = elim h [ ]
  after_failures (suc k) (answer ∷ failures) answers before (bad, h) =
      let step = put_request-sent before (answer ∷ failures ++ answers) in
      let (fails, left) = after_failures k failures answers (before ++ sent ∷ []) h in
      rw step (
        ((status answer, refl, bad), fails),
        left ∙ rw (append_assoc before (sent ∷ []) (copies k sent)),
      )

  copies-last : (k : ℕ) (s : Sent) → copies k s ++ s ∷ [] ≡ copies (suc k) s
  copies-last zero s = refl
  copies-last (suc k) s = ap (λ more. s ∷ more) (copies-last k s)

  -- An entity that can be encoded: if the first answers, at most `max_retry_count`, are
  -- unavailable, as those of a receiver out of reach, and the next is good, EntityChanged returns,
  -- and has sent one PUT for each of these answers, all the same: to the path of the entity at the
  -- configured service, with its JSON text, and the headers of the context that are to be passed on.
  pub entity_changed_sends :
      (k extra : ℕ) (failures later : List Fetched) (last : Fetched)
      → k + extra ≡ notifier.max_retry_count
      → Unavailable k failures
      → is_ok (status last).code ≡ true
      → entity_changed J client notifier M e ([], failures ++ last ∷ later)
        ≡ (returns tt, (copies (suc k) sent, later))
  entity_changed_sends k extra failures later last enough bad good =
      let (fails, left) = after_failures k failures (last ∷ later) [] bad in
      let step = put_request-sent (copies k sent) (last ∷ later) in
      entity_changed_recovers J M laws client notifier e k extra ([], failures ++ last ∷ later)
        (status last) enough fails (rw (left, step)) good
      ∙ rw (left, step, copies-last k sent)
