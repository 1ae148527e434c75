-- ===== src/Notifier/PubSub/Publishing.antt =====
-- What EntityChanged makes of a publication.
use sapper_bricks.Prelude.{ℕ, String, ◌≡◌, refl, ap, ◌∙◌, false}
use sapper_bricks.Effect.{Status, status_ok, is_ok, returns}
use sapper_bricks.Dict.{Dict}
use sapper_bricks.Ports.{Entity}
use sapper_bricks.Json.{JsonLib}
use sapper_bricks.Json.Codec.{encode}
use sapper_bricks.Mse.{IssuerLib, IsIssuer, Forwards}
use sapper_bricks.Notifier.PubSub.{
  PublishLib, PubSubNotifier, published, failed, publish_request, entity_changed,
}

module _ (J : JsonLib) (M : IssuerLib) (laws : IsIssuer M) {W Connection : Type 0}
    (P : PublishLib W Connection) (notifier : PubSubNotifier Connection) where
  -- EntityChanged publishes the text of the entity once, with the metadata to propagate. It returns
  -- if the message was published, and if that failed with a code that is not ok it throws the
  -- exception that forwards the code; nothing is tried again.
  pub entity_changed_published :
      (e : Entity) (text : String) (metadata : Dict String) (w between left : W)
      → P.filtered_metadata notifier.headers_to_propagate w ≡ (returns metadata, between)
      → encode J e ≡ returns text
      → ((id : String)
          → P.publish notifier.connection text metadata between ≡ (returns (published id), left)
          → entity_changed J P notifier M e w ≡ (returns tt, left))
        × ((code : ℕ) (message : String)
            → P.publish notifier.connection text metadata between
              ≡ (returns (failed code message), left)
            → is_ok (P.from_grpc code) ≡ false
            → Forwards (P.from_grpc code) (entity_changed J P notifier M e w).0
              × ((entity_changed J P notifier M e w).1 ≡ left))
  unfolding entity_changed publish_request
  entity_changed_published e text metadata w between left filtered encoded =
      let m = publish_request J P notifier e in
      let process = laws.process_lem "entityChanged" (M.forward_errors m) w in
      (
        λ id sent.
            let here : m w ≡ (returns status_ok, left) = rw (filtered, encoded, sent) in
            let forwarded = laws.forwards_ok m w status_ok (ap (λ p. p.0) here) refl in
            rw (process, forwarded, here),
        λ code message sent bad.
            let st : Status = record { code = P.from_grpc code; details = message } in
            let here : m w ≡ (returns st, left) = rw (filtered, encoded, sent) in
            let ((t, what, tcode, thrown), final) =
              laws.forwards_error m w st (ap (λ p. p.0) here) bad in
            (
              (t, what, tcode, rw process (rw thrown)),
              rw process (rw thrown (final ∙ ap (λ p. p.1) here)),
            ),
      )
