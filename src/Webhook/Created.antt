-- ===== src/Webhook/Created.antt =====
-- What a call that creates an endpoint has stored and answered.
use syrotp.Prelude.{ℕ, ◌≡◌, ltb, length, select, Text, List, [], ◌∷◌, ◌++◌, some, arith}
use syrotp.Errors.{Result, ok, >>=-eq-ok, conflict, require, or_throw}
use syrotp.Schema.{Db}
use syrotp.Runtime.{new_id, webhook_endpoint_prefix}
use syrotp.Webhook.{
  CreateWebhookInput, WebhookEndpointWithSecret, create_webhook_endpoint, new_endpoint, with_secret,
  unique_validated_event_types, is_of_app, max_endpoints_per_app,
}
use syrotp.Webhook.Secrets.{Sealing, generate_webhook_secret, wrapped_secret, bad_master_key}

pub create_webhook_endpoint-eq-ok :
    (validate_url : Text → Result (Unit {0})) (ulid : Text) (sealing : Sealing) (now : ℕ)
    (input : CreateWebhookInput) (db : Db) (out : WebhookEndpointWithSecret) (db' : Db)
    → create_webhook_endpoint validate_url ulid sealing now input db ≡ ok (out, db')
    → let id = new_id webhook_endpoint_prefix ulid in
      let secret = generate_webhook_secret sealing.secret_bytes in
      (wrapped : Text) × (events : List Text) × (wrapped_secret sealing.gcm sealing.master_key
          secret id sealing.iv
        ≡ some wrapped)
      × (out ≡ with_secret secret (new_endpoint id wrapped now input events))
      × (db' ≡ record db {
        webhook_endpoints = db.webhook_endpoints ++ new_endpoint id wrapped now input events ∷ [];
      })
unfolding create_webhook_endpoint
create_webhook_endpoint-eq-ok validate_url ulid sealing now input db out db' h =
    let id = new_id webhook_endpoint_prefix ulid in
    let secret = generate_webhook_secret sealing.secret_bytes in
    let sealed = wrapped_secret sealing.gcm sealing.master_key secret id sealing.iv in
    let (_, _, h1) = >>=-eq-ok (validate_url input.url) _ h in
    let (events, _, h2) = >>=-eq-ok (unique_validated_event_types input.event_types) _ h1 in
    let (_, _, h3) =
      >>=-eq-ok
        (require
          (ltb (length (select (is_of_app input.app_id) db.webhook_endpoints))
            max_endpoints_per_app)
          (conflict "too_many_endpoints" "app has reached the limit of 10 webhook endpoints"))
        _ h2 in
    let (wrapped, kept, h4) = >>=-eq-ok (or_throw sealed bad_master_key) _ h3 in
    (wrapped, events, ground arith, ground arith, ground arith)
