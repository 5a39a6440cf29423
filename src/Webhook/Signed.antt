-- ===== src/Webhook/Signed.antt =====
-- A delivery to an endpoint is signed with the secret that its app was shown.
use syrotp.Prelude.{
  ℕ, ◌/◌, ◌<◌, ◌≡◌, refl, ◌∙◌, ap, decimal, Text, chars, same, same_refl, All, All-append, any,
  find, true, false, List, [], ◌∷◌, ◌++◌, some, arith,
}
use syrotp.Errors.{Result, ok}
use syrotp.Tables.{find-new}
use syrotp.Schema.{Db, WebhookEndpoint, WebhookEvent, WebhookDelivery}
use syrotp.Runtime.{new_id, webhook_endpoint_prefix}
use syrotp.Crypto.{Primitives, hex_text}
use syrotp.Crypto.Hex.{hex_text-ascii}
use syrotp.Aead.{unwrap}
use syrotp.Aead.Roundtrip.{unwrap_wrapped}
use syrotp.Webhook.{
  CreateWebhookInput, WebhookEndpointWithSecret, create_webhook_endpoint, new_endpoint,
}
use syrotp.Webhook.Created.{create_webhook_endpoint-eq-ok}
use syrotp.Webhook.Secrets.{Sealing, generate_webhook_secret, aad_for, sign_delivery_body}
use syrotp.Worker.{Outside, due_row, join_row, outcome_of, deliver}

secret-ascii : (bytes : List ℕ) → All (λ c. c < 128) (generate_webhook_secret bytes)
unfolding generate_webhook_secret
secret-ascii bytes =
    All-append _ (chars "whsec_") (hex_text bytes) (omega arith) (hex_text-ascii bytes)

-- A delivery to an endpoint that was created, with an event that is there and a URL that the guard
-- takes, is joined with that endpoint and sent: the request goes to the URL that the app gave, with
-- the event's payload, and its signature is the HMAC of the time in seconds, a dot and the payload
-- under the secret that the answer to the creation showed. The endpoint's identifier is a new one,
-- and the worker's calls do what lib/aead.ts, under the same master key, and signDeliveryBody do.
pub delivery_is_signed :
    (p : Primitives) (out : Outside) (validate_url : Text → Result (Unit {0})) (ulid : Text)
    (sealing : Sealing) (now later : ℕ) (input : CreateWebhookInput) (db db' : Db)
    (answer : WebhookEndpointWithSecret) (d : WebhookDelivery) (ev : WebhookEvent) (attempt : ℕ)
    → create_webhook_endpoint validate_url ulid sealing now input db ≡ ok (answer, db')
    → any (λ e. same e.id answer.id) db.webhook_endpoints ≡ false
    → ((w aad : Text) → out.unwrap w aad ≡ unwrap sealing.gcm sealing.master_key w (some aad))
    → ((s : Text) (t : ℕ) (b : Text) → out.sign s t b ≡ sign_delivery_body p s t b)
    → d.endpoint_id ≡ answer.id
    → find (λ e. same e.id d.event_id) db'.webhook_events ≡ some ev
    → out.is_url_allowed input.url ≡ true
    → (row : WebhookEndpoint) × (join_row db' d ≡ due_row d row ev ∷ [])
      × (deliver out later (due_row d row ev) attempt
          ≡ outcome_of (
              out.fetch (record {
                url = input.url;
                delivery_id = d.id;
                timestamp_sec = later / 1000;
                signature =
                    p.hmac_digest
                      (p.utf8 answer.secret)
                      (p.utf8 (decimal (later / 1000) ++ (chars "." ++ ev.payload_json)));
                event_type = d.event_type;
                attempt = attempt;
                body = ev.payload_json;
              })))
unfolding join_row deliver sign_delivery_body
delivery_is_signed p out validate_url ulid sealing now later input db db' answer d ev attempt h new
      aead signs at_row there allowed =
    let (wrapped, events, wraps, shown, left) =
      create_webhook_endpoint-eq-ok validate_url ulid sealing now input db answer db' h in
    let id = new_id webhook_endpoint_prefix ulid in
    let secret = generate_webhook_secret sealing.secret_bytes in
    let row = new_endpoint id wrapped now input events in
    let is_id : answer.id ≡ id = ap (λ (a : WebhookEndpointWithSecret). a.id) shown in
    let is_secret : answer.secret ≡ secret =
      ap (λ (a : WebhookEndpointWithSecret). a.secret) shown in
    let known : find (λ e. same e.id d.endpoint_id) db'.webhook_endpoints ≡ some row =
      rw (left, at_row, is_id)
        (find-new (λ e. same e.id id) db.webhook_endpoints row (rw is_id at new) (same_refl id)) in
    let opened : out.unwrap wrapped (chars "webhook:" ++ d.endpoint_id) ≡ some secret =
      rw (at_row, is_id)
        (aead wrapped (aad_for id)
          ∙ unwrap_wrapped sealing.gcm sealing.master_key secret (some (aad_for id)) sealing.iv
              wrapped (secret-ascii sealing.secret_bytes) wraps) in
    (
      row,
      rw (known, there) refl,
      rw (allowed, opened, is_secret) (rw (signs secret (later / 1000) ev.payload_json) refl),
    )
