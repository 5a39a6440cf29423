-- ===== src/Tests/Deliveries.antt =====
-- One delivery under the worker: a batch of one, and six attempts.
use syrotp.Prelude.{
  ℕ, ◌≡◌, ◌≤◌, refl, arith, chars, same, any, All, length, List, [], ◌∷◌, none, some, false, true,
  Text, or_else, replicate,
}
use syrotp.Schema.{Db, WebhookEndpoint, WebhookDelivery, WebhookDeliveryStatus, WebhookEvent}
use syrotp.Errors.{Result, ok}
use syrotp.Crypto.{hex_text}
use syrotp.Aead.{wrap, unwrap, b64u, strip_padding}
use syrotp.Webhook.{
  CreateWebhookInput, with_secret, create_webhook_endpoint, unique_validated_event_types,
  collect_event_types,
}
use syrotp.Webhook.Secrets.{Sealing, generate_webhook_secret, wrapped_secret, sign_delivery_body}
use syrotp.Webhook.Signed.{delivery_is_signed}
use syrotp.Worker.{
  Outside, responded, due_row, join_row, outcome_of, deliver, DueRow, DeliveryOutcome, retry,
  network_error, is_pending_delivery, claim_batch,
}
use syrotp.Worker.Attempts.{run_attempts, six_attempts}
use syrotp.Worker.Lease.{claim_batch_lease}
use syrotp.Tests.Secrets.{sample_gcm}
use syrotp.Tests.{endpoint, sample_primitives, new_db}

abbrev delivery : WebhookDelivery
delivery = record {
  id = chars "wd_1";
  endpoint_id = chars "whk_1";
  event_id = chars "evt_1";
  event_type = chars "verification.verified";
  status = WebhookDeliveryStatus.pending;
  attempt_count = 0;
  next_attempt_at = 1000;
  last_status_code = none;
  last_error = none;
  created_at = 1000;
  updated_at = 1000;
}

abbrev event : WebhookEvent
event = record {
  id = chars "evt_1";
  app_id = chars "app_1";
  event_type = chars "verification.verified";
  verification_id = chars "vrf_1";
  payload_json = chars "{}";
  created_at = 1000;
}

abbrev queued_db : Db
queued_db = record new_db { webhook_events = event ∷ []; webhook_deliveries = delivery ∷ [] }

claim_batch_lease_example :
    (length (claim_batch 2000 queued_db).0 ≤ 25)
    × All
        (λ (r : DueRow).
          any (λ s. same s.delivery_id r.delivery_id) (claim_batch 2000 queued_db).0 ≡ false)
        (claim_batch 61999 (claim_batch 2000 queued_db).1).0
claim_batch_lease_example = claim_batch_lease 2000 61999 queued_db (omega arith)

abbrev refused : DeliveryOutcome
refused = retry network_error none (chars "ECONNREFUSED")

abbrev six_refusals : List (ℕ × DeliveryOutcome)
six_refusals =
    (1000, refused)
    ∷ (31000, refused)
    ∷ (151000, refused)
    ∷ (751000, refused)
    ∷ (2551000, refused)
    ∷ (9751000, refused)
    ∷ []

six_attempts_example :
    (is_pending_delivery (run_attempts six_refusals delivery).status ≡ false)
    × ((run_attempts six_refusals delivery).attempt_count ≤ 6)
six_attempts_example = six_attempts six_refusals delivery refl refl (omega arith)

abbrev shown_secret : Text
shown_secret = generate_webhook_secret (1 ∷ [])

abbrev stored_secret : Text
stored_secret =
    or_else (wrapped_secret sample_gcm (replicate 32 b'0') shown_secret (chars "whk_2") (2 ∷ [])) []

abbrev sealing : Sealing
sealing = record {
  gcm = sample_gcm;
  master_key = replicate 32 b'0';
  secret_bytes = 1 ∷ [];
  iv = 2 ∷ [];
}

abbrev create_input : CreateWebhookInput
create_input = record {
  app_id = chars "app_1";
  url = chars "https://a.example";
  event_types = chars "verification.verified" ∷ [];
}

abbrev second_endpoint : WebhookEndpoint
second_endpoint = record {
  id = chars "whk_2";
  app_id = chars "app_1";
  url = chars "https://a.example";
  secret_ciphertext = stored_secret;
  enabled = true;
  event_types = chars "verification.verified" ∷ [];
  created_at = 500;
  updated_at = 500;
}

abbrev two_endpoints : Db
two_endpoints = record queued_db { webhook_endpoints = endpoint ∷ second_endpoint ∷ [] }

abbrev any_url : Text → Result (Unit {0})
any_url url = ok tt

created_ok :
    create_webhook_endpoint any_url (chars "2") sealing 500 create_input queued_db
    ≡ ok (with_secret shown_secret second_endpoint, two_endpoints)
unfolding wrap b64u strip_padding generate_webhook_secret hex_text create_webhook_endpoint
    unique_validated_event_types collect_event_types same
created_ok = refl

abbrev outside : Outside
outside = record {
  is_url_allowed = λ url. true;
  unwrap = λ w aad. unwrap sample_gcm (replicate 32 b'0') w (some aad);
  sign = sign_delivery_body sample_primitives;
  fetch = λ r. responded 200;
}

abbrev second_delivery : WebhookDelivery
second_delivery = record delivery { endpoint_id = chars "whk_2" }

delivery_is_signed_example :
    (row : WebhookEndpoint) × (join_row two_endpoints second_delivery
      ≡ due_row second_delivery row event ∷ [])
    × (deliver outside 2000 (due_row second_delivery row event) 1 ≡ outcome_of (responded 200))
unfolding same
delivery_is_signed_example =
    delivery_is_signed sample_primitives outside any_url (chars "2") sealing 500 2000 create_input
      queued_db two_endpoints (with_secret shown_secret second_endpoint) second_delivery event 1
      created_ok refl (λ w aad. refl) (λ s t b. refl) refl refl refl
