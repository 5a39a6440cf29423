-- ===== src/Worker.antt =====
-- apps/server/src/services/webhookWorker.ts: one tick of the delivery worker. What lies outside the
-- database (the URL gate, the wrapped secrets, the signature, the HTTP request) is a parameter.
pub mod Attempts
pub mod Lease
use syrotp.Prelude.{
  decimal, ℕ, zero, suc, ◌+◌, ◌-◌, ◌*◌, ◌/◌, ◌%◌, Text, chars, same, take, any, map, Bool, true,
  false, not, ◌&&◌, List, [], ◌∷◌, ◌++◌, Option, none, some, select, find, update, ltb, leb, ◌==◌,
  if◌then◌else◌,
}
use syrotp.Schema.{Db, WebhookDelivery, WebhookDeliveryStatus, WebhookEndpoint, WebhookEvent}
use syrotp.Webhook.{next_retry_delay_seconds, max_delivery_attempts}

abbrev pub in_flight_lease_seconds : ℕ
in_flight_lease_seconds = 60

abbrev pub batch_size : ℕ
batch_size = 25

pub record DueRow : Type 0 where
  pub delivery_id : Text
  pub endpoint_id : Text
  pub event_id : Text
  pub event_type : Text
  pub attempt_count : ℕ
  pub url : Text
  pub enabled : Bool
  pub secret_ciphertext : Text
  pub payload_json : Text

pub data FailReason : Type 0 where
  network_error timeout client_4xx server_5xx rate_limited bad_response : FailReason

pub data DeliveryOutcome : Type 0 where
  delivered : (status_code : ℕ) → DeliveryOutcome
  retry : FailReason → (status_code : Option ℕ) → (message : Text) → DeliveryOutcome
  permanent : FailReason → (status_code : ℕ) → (message : Text) → DeliveryOutcome
  endpoint_disabled : DeliveryOutcome

-- What the one request carries
pub record Request : Type 0 where
  pub url : Text
  pub delivery_id : Text
  pub timestamp_sec : ℕ
  pub signature : Text
  pub event_type : Text
  pub attempt : ℕ
  pub body : Text

-- A status, or an error that is a timeout or not, with its message
pub data FetchResult : Type 0 where
  responded : ℕ → FetchResult
  thrown : (is_timeout : Bool) → (message : Text) → FetchResult

pub record Outside : Type 0 where
  -- `isUrlAllowedForDelivery`
  pub is_url_allowed : Text → Bool
  -- `unwrap` of lib/aead.ts under the master key, with its additional data; `none` where it throws
  pub unwrap : Text → Text → Option Text
  -- `signDeliveryBody`: the secret, the timestamp, the body
  pub sign : Text → ℕ → Text → Text
  pub fetch : Request → FetchResult

abbrev pub is_pending_delivery : WebhookDeliveryStatus → Bool
is_pending_delivery WebhookDeliveryStatus.pending = true
is_pending_delivery _ = false

abbrev pub is_due : ℕ → WebhookDelivery → Bool
is_due now d = is_pending_delivery d.status && leb d.next_attempt_at now

-- ORDER BY next_attempt_at
unfoldable pub insert_by_time : WebhookDelivery → List WebhookDelivery → List WebhookDelivery
insert_by_time d [] = d ∷ []
insert_by_time d (e ∷ es) =
    if ltb e.next_attempt_at d.next_attempt_at then e ∷ insert_by_time d es else d ∷ e ∷ es

unfoldable pub order_by_time : List WebhookDelivery → List WebhookDelivery
order_by_time [] = []
order_by_time (d ∷ ds) = insert_by_time d (order_by_time ds)

abbrev pub due_row : WebhookDelivery → WebhookEndpoint → WebhookEvent → DueRow
due_row d e ev = record {
  delivery_id = d.id;
  endpoint_id = d.endpoint_id;
  event_id = d.event_id;
  event_type = d.event_type;
  attempt_count = d.attempt_count;
  url = e.url;
  enabled = e.enabled;
  secret_ciphertext = e.secret_ciphertext;
  payload_json = ev.payload_json;
}

abbrev pub with_event : WebhookDelivery → Option WebhookEndpoint → Option WebhookEvent → List DueRow
with_event d (some e) (some ev) = due_row d e ev ∷ []
with_event d _ _ = []

-- the joins of one delivery with its endpoint and its event
unfoldable pub join_row : Db → WebhookDelivery → List DueRow
join_row db d =
    with_event d (find (λ e. same e.id d.endpoint_id) db.webhook_endpoints)
      (find (λ ev. same ev.id d.event_id) db.webhook_events)

unfoldable pub join_all : Db → List WebhookDelivery → List DueRow
join_all db [] = []
join_all db (d ∷ ds) = join_row db d ++ join_all db ds

unfoldable pub due_rows : ℕ → Db → List DueRow
due_rows now db =
    take batch_size (join_all db (order_by_time (select (is_due now) db.webhook_deliveries)))

abbrev pub is_claimed : List DueRow → WebhookDelivery → Bool
is_claimed rows d = any (λ r. same r.delivery_id d.id) rows

abbrev pub set_lease : ℕ → WebhookDelivery → WebhookDelivery
set_lease now d = record d {
  next_attempt_at = now + in_flight_lease_seconds * 1000;
  updated_at = now;
}

unfoldable pub claim_batch : ℕ → Db → List DueRow × Db
claim_batch now db =
    let rows = due_rows now db in
    (
      rows,
      record db {
        webhook_deliveries = update (is_claimed rows) (set_lease now) db.webhook_deliveries;
      },
    )

-- How the response's status is read
unfoldable pub classify : ℕ → DeliveryOutcome
classify status =
    if leb 200 status && ltb status 300
    then delivered status
    else if status == 429
    then retry rate_limited (some status) (chars "429 from receiver")
    else if leb 400 status && ltb status 500
    then permanent client_4xx status (decimal status ++ chars " from receiver")
    else if leb 500 status && ltb status 600
    then retry server_5xx (some status) (decimal status ++ chars " from receiver")
    else permanent bad_response status (chars "unexpected status " ++ decimal status)

abbrev pub outcome_of : FetchResult → DeliveryOutcome
outcome_of (responded status) = classify status
outcome_of (thrown is_timeout message) =
    retry (if is_timeout then timeout else network_error) none (take 500 message)

abbrev pub request : Outside → ℕ → DueRow → ℕ → Text → Request
request out now row attempt secret = record {
  url = row.url;
  delivery_id = row.delivery_id;
  timestamp_sec = now / 1000;
  signature = out.sign secret (now / 1000) row.payload_json;
  event_type = row.event_type;
  attempt = attempt;
  body = row.payload_json;
}

abbrev pub send : Outside → ℕ → DueRow → ℕ → Option Text → DeliveryOutcome
send out now row attempt none = permanent bad_response 0 (chars "secret_unwrap_failed")
send out now row attempt (some secret) = outcome_of (out.fetch (request out now row attempt secret))

unfoldable pub deliver : Outside → ℕ → DueRow → ℕ → DeliveryOutcome
deliver out now row attempt =
    if not row.enabled
    then endpoint_disabled
    else if not (out.is_url_allowed row.url)
    then permanent bad_response 0 (chars "url_blocked_by_ssrf_guard")
    else send out now row attempt
        (out.unwrap row.secret_ciphertext (chars "webhook:" ++ row.endpoint_id))

-- The columns that a retry sets: abandoned without a delay or at the last attempt
abbrev pub after_retry : ℕ → ℕ → Option ℕ → Text → Option ℕ → WebhookDelivery → WebhookDelivery
after_retry now attempt status_code message none d = record d {
  status = WebhookDeliveryStatus.abandoned;
  attempt_count = attempt;
  last_status_code = status_code;
  last_error = some (take 500 message);
  updated_at = now;
}
after_retry now attempt status_code message (some delay) d =
    if leb max_delivery_attempts attempt
    then record d {
      status = WebhookDeliveryStatus.abandoned;
      attempt_count = attempt;
      last_status_code = status_code;
      last_error = some (take 500 message);
      updated_at = now;
    }
    else record d {
      status = WebhookDeliveryStatus.pending;
      attempt_count = attempt;
      last_status_code = status_code;
      last_error = some (take 500 message);
      next_attempt_at = now + delay * 1000;
      updated_at = now;
    }

-- The columns that `applyOutcome` sets on the row of the delivery
unfoldable pub set_outcome : ℕ → ℕ → DeliveryOutcome → WebhookDelivery → WebhookDelivery
set_outcome now attempt (delivered status_code) d = record d {
  status = WebhookDeliveryStatus.delivered;
  attempt_count = attempt;
  last_status_code = some status_code;
  last_error = none;
  updated_at = now;
}
set_outcome now attempt endpoint_disabled d = record d {
  status = WebhookDeliveryStatus.abandoned;
  attempt_count = attempt;
  last_error = some (chars "endpoint_disabled");
  updated_at = now;
}
set_outcome now attempt (permanent reason status_code message) d = record d {
  status = WebhookDeliveryStatus.failed;
  attempt_count = attempt;
  last_status_code = some status_code;
  last_error = some (take 500 message);
  updated_at = now;
}
set_outcome now attempt (retry reason status_code message) d =
    after_retry now attempt status_code message (next_retry_delay_seconds attempt) d

unfoldable pub apply_outcome : ℕ → DueRow → ℕ → DeliveryOutcome → Db → Db
apply_outcome now row attempt outcome db = record db {
  webhook_deliveries =
      update (λ d. same d.id row.delivery_id) (set_outcome now attempt outcome)
        db.webhook_deliveries;
}

-- The request goes out at `now` and its outcome is written at `later`.
unfoldable pub process_one : Outside → (now later : ℕ) → DueRow → Db → Db
unfolding apply_outcome deliver
process_one out now later row db =
    let attempt = row.attempt_count + 1 in
    apply_outcome later row attempt (deliver out now row attempt) db

unfoldable pub process_all : Outside → (ℕ → ℕ) → ℕ → List DueRow → Db → Db
process_all out clock n [] db = db
process_all out clock n (row ∷ rows) db =
    process_all out clock (suc (suc n)) rows (process_one out (clock n) (clock (suc n)) row db)

-- `clock n` is what the n-th read of the clock gives in the tick.
unfoldable pub tick : Outside → (ℕ → ℕ) → Db → Db
unfolding process_all claim_batch
tick out clock db =
    let (rows, claimed) = claim_batch (clock 0) db in process_all out clock 1 rows claimed
