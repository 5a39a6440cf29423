-- ===== src/Webhook.antt =====
-- apps/server/src/services/webhooks.ts: the endpoints that an app registers, the events that a
-- verification emits and their deliveries, and the retry table.
pub mod Secrets
pub mod Signed
pub mod Created
use syrotp.Prelude.{
  ℕ, suc, ◌-◌, Text, map, Bool, chars, same, length, get_elem?, take, any, ◌++◌, List, [], ◌∷◌,
  true, not, ◌&&◌, Option, none, some, select, find, delete, ltb, leb, if◌then◌else◌,
}
use syrotp.Errors.{
  Result, ok, err, not_found, conflict, bad_request, bad_request_with, or_throw, require, ◌>>=◌,
  ◌>>◌,
}
use syrotp.Schema.{
  Db, Verification, WebhookEndpoint, WebhookEvent, WebhookDelivery, WebhookDeliveryStatus,
}
use syrotp.Runtime.{
  Runtime, VerificationEventType, verified, expired, cancelled, event_name, VerificationEventData,
  new_id, webhook_endpoint_prefix, webhook_event_prefix, webhook_delivery_prefix,
}
use syrotp.Phone.{mask_phone}
use syrotp.Webhook.Secrets.{Sealing, generate_webhook_secret, wrapped_secret, bad_master_key}

abbrev pub max_endpoints_per_app : ℕ
max_endpoints_per_app = 10

abbrev pub verification_event_types : List Text
verification_event_types =
    chars "verification.verified"
    ∷ chars "verification.expired"
    ∷ chars "verification.cancelled"
    ∷ []

abbrev pub is_valid_event_type : Text → Bool
is_valid_event_type value = any (same value) verification_event_types

-- the loop of `uniqueValidatedEventTypes`: `out` holds what was seen
unfoldable pub collect_event_types : List Text → List Text → Result (List Text)
collect_event_types out [] = ok out
collect_event_types out (v ∷ input) =
    if not (is_valid_event_type v)
    then err (bad_request_with "validation_error" (chars "unknown event_type: " ++ take 64 v))
    else collect_event_types (if any (same v) out then out else out ++ v ∷ []) input

unfoldable pub unique_validated_event_types : List Text → Result (List Text)
unique_validated_event_types [] =
    err (bad_request "validation_error" "event_types must be a non-empty array")
unique_validated_event_types (v ∷ input) = collect_event_types [] (v ∷ input)

pub record CreateWebhookInput : Type 0 where
  pub app_id : Text
  pub url : Text
  pub event_types : List Text

abbrev pub is_of_app : Text → WebhookEndpoint → Bool
is_of_app app_id e = same e.app_id app_id

-- The answer, with the secret that is shown this once
pub record WebhookEndpointWithSecret : Type 0 where
  pub id : Text
  pub app_id : Text
  pub url : Text
  pub enabled : Bool
  pub event_types : List Text
  pub created_at : ℕ
  pub updated_at : ℕ
  pub secret : Text

abbrev pub new_endpoint : (id wrapped : Text) → ℕ → CreateWebhookInput → List Text → WebhookEndpoint
new_endpoint id wrapped now input events = record {
  id = id;
  app_id = input.app_id;
  url = input.url;
  secret_ciphertext = wrapped;
  enabled = true;
  event_types = events;
  created_at = now;
  updated_at = now;
}

abbrev pub with_secret : Text → WebhookEndpoint → WebhookEndpointWithSecret
with_secret secret row = record {
  id = row.id;
  app_id = row.app_id;
  url = row.url;
  enabled = row.enabled;
  event_types = row.event_types;
  created_at = row.created_at;
  updated_at = row.updated_at;
  secret = secret;
}

-- `validate_url` is the model of `validateUrl`, or what a caller assumes of it; `ulid` is what
-- `ulid()` returns.
unfoldable pub create_webhook_endpoint :
    (Text → Result (Unit {0}))
    → (ulid : Text) → Sealing
    → (now : ℕ) → CreateWebhookInput
    → Db
    → Result (WebhookEndpointWithSecret × Db)
create_webhook_endpoint validate_url ulid sealing now input db = do
  validate_url input.url
  events ← unique_validated_event_types input.event_types
  require
      (ltb (length (select (is_of_app input.app_id) db.webhook_endpoints)) max_endpoints_per_app)
      (conflict "too_many_endpoints" "app has reached the limit of 10 webhook endpoints")
  let id = new_id webhook_endpoint_prefix ulid
  let secret = generate_webhook_secret sealing.secret_bytes
  wrapped ←
      or_throw (wrapped_secret sealing.gcm sealing.master_key secret id sealing.iv) bad_master_key
  let row = new_endpoint id wrapped now input events
  ok (with_secret secret row, record db { webhook_endpoints = db.webhook_endpoints ++ row ∷ [] })

-- What the routes show of an endpoint: all but the wrapped secret
pub record WebhookEndpointPublic : Type 0 where
  pub id : Text
  pub app_id : Text
  pub url : Text
  pub enabled : Bool
  pub event_types : List Text
  pub created_at : ℕ
  pub updated_at : ℕ

abbrev pub to_public : WebhookEndpoint → WebhookEndpointPublic
to_public row = record {
  id = row.id;
  app_id = row.app_id;
  url = row.url;
  enabled = row.enabled;
  event_types = row.event_types;
  created_at = row.created_at;
  updated_at = row.updated_at;
}

-- ORDER BY created_at DESC; rows of one time stay in their order.
abbrev pub insert_newest : WebhookEndpoint → List WebhookEndpoint → List WebhookEndpoint
insert_newest e [] = e ∷ []
insert_newest e (f ∷ rows) =
    if ltb e.created_at f.created_at then f ∷ insert_newest e rows else e ∷ f ∷ rows

abbrev pub newest_first : List WebhookEndpoint → List WebhookEndpoint
newest_first [] = []
newest_first (e ∷ rows) = insert_newest e (newest_first rows)

unfoldable pub list_webhook_endpoints : Text → Db → List WebhookEndpointPublic
list_webhook_endpoints app_id db =
    map to_public (newest_first (select (is_of_app app_id) db.webhook_endpoints))

abbrev pub is_endpoint : Text → Text → WebhookEndpoint → Bool
is_endpoint app_id id e = same e.app_id app_id && same e.id id

unfoldable pub get_webhook_endpoint : Text → Text → Db → Result WebhookEndpoint
get_webhook_endpoint app_id id db =
    or_throw (find (is_endpoint app_id id) db.webhook_endpoints) (not_found "webhook_endpoint")

-- The foreign key of the deliveries cascades; the events stay.
unfoldable pub delete_webhook_endpoint : Text → Text → Db → Result Db
delete_webhook_endpoint app_id id db =
    if any (is_endpoint app_id id) db.webhook_endpoints
    then ok (record db {
      webhook_endpoints = delete (is_endpoint app_id id) db.webhook_endpoints;
      webhook_deliveries = delete (λ d. same d.endpoint_id id) db.webhook_deliveries;
    })
    else err (not_found "webhook_endpoint")

abbrev verified_time : VerificationEventType → Option ℕ → Option ℕ
verified_time verified at = at
verified_time _ _ = none

abbrev expired_time : VerificationEventType → ℕ → Option ℕ
expired_time expired at = some at
expired_time _ _ = none

abbrev cancelled_time : VerificationEventType → Option ℕ → Option ℕ
cancelled_time cancelled at = at
cancelled_time _ _ = none

unfoldable pub build_verification_event_data :
    Verification → VerificationEventType → VerificationEventData
build_verification_event_data row event_type = record {
  verification_id = row.id;
  status = event_type;
  phone_masked = mask_phone row.phone_e164;
  purpose = row.purpose;
  client_ref = row.client_ref;
  verified_at = verified_time event_type row.verified_at;
  expired_at = expired_time event_type row.expires_at;
  cancelled_at = cancelled_time event_type row.cancelled_at;
}

-- enabled endpoints of the app with `event_types @> ARRAY[type]`
abbrev pub is_subscribed : Text → VerificationEventType → WebhookEndpoint → Bool
is_subscribed app_id event_type e =
    same e.app_id app_id && e.enabled && any (same (event_name event_type)) e.event_types

abbrev pub new_delivery : Text → VerificationEventType → ℕ → Text → Text → WebhookDelivery
new_delivery event_id event_type created_at ulid endpoint_id = record {
  id = new_id webhook_delivery_prefix ulid;
  endpoint_id = endpoint_id;
  event_id = event_id;
  event_type = event_name event_type;
  status = WebhookDeliveryStatus.pending;
  attempt_count = 0;
  next_attempt_at = created_at;
  last_status_code = none;
  last_error = none;
  created_at = created_at;
  updated_at = created_at;
}

-- One delivery for each endpoint; `ulids n` is what the n-th call of `ulid()` returns.
unfoldable pub fan_out :
    (Text → Text → WebhookDelivery) → (ℕ → Text) → ℕ → List WebhookEndpoint → List WebhookDelivery
fan_out deliver ulids n [] = []
fan_out deliver ulids n (e ∷ endpoints) =
    deliver (ulids n) e.id ∷ fan_out deliver ulids (suc n) endpoints

abbrev pub event_row :
    Runtime → Text → ℕ → VerificationEventType → Text → VerificationEventData → WebhookEvent
event_row rt event_id created_at event_type app_id payload = record {
  id = event_id;
  app_id = app_id;
  event_type = event_name event_type;
  verification_id = payload.verification_id;
  payload_json =
      rt.stringify
        (record { id = event_id; type = event_type; created_at = created_at; payload = payload });
  created_at = created_at;
}

unfoldable pub emit_verification_event_in_tx :
    Runtime → (ℕ → Text) → ℕ → VerificationEventType → Text → VerificationEventData → Db → Db
emit_verification_event_in_tx rt ulids created_at event_type app_id payload tx =
    let event_id = new_id webhook_event_prefix (ulids 0) in
    let endpoints = select (is_subscribed app_id event_type) tx.webhook_endpoints in
    record tx {
      webhook_events =
          tx.webhook_events ++ event_row rt event_id created_at event_type app_id payload ∷ [];
      webhook_deliveries =
          tx.webhook_deliveries
          ++ fan_out (new_delivery event_id event_type created_at) ulids 1 endpoints;
    }

abbrev pub retry_delay_seconds : List ℕ
retry_delay_seconds = 30 ∷ 120 ∷ 600 ∷ 1800 ∷ 7200 ∷ []

abbrev pub max_delivery_attempts : ℕ
max_delivery_attempts = 6

-- A read before the start of the array is `undefined`, so `null`.
unfoldable pub next_retry_delay_seconds : ℕ → Option ℕ
next_retry_delay_seconds failed_attempts =
    if leb max_delivery_attempts failed_attempts
    then none
    else if ltb failed_attempts 1
    then none
    else get_elem? retry_delay_seconds (failed_attempts - 1)
