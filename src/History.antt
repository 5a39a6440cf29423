-- ===== src/History.antt =====
-- The transactions of the services as steps of one database, in any order: what several server
-- processes, the background expiries and the operators do is a sequence of them.
pub mod Settle
pub mod Insert
pub mod Consistent
pub mod Settled
pub mod Handlers
pub mod Redelivery
pub mod Sound
pub mod Message
pub mod Complete
pub mod Started
pub mod Unmatched
use syrotp.Prelude.{ℕ, ◌≤◌, ◌≡◌, Text, same, any, All, count, Bool, true, List, [], Option}
use syrotp.Errors.{Result, ok}
use syrotp.Schema.{Db, Receiver, InboundSms, WebhookEvent, WebhookDelivery}
use syrotp.Schema.{VerificationStatus, PhoneBinding}
use syrotp.Runtime.{Runtime, Config}
use syrotp.Webhook.{
  CreateWebhookInput, WebhookEndpointWithSecret, create_webhook_endpoint, delete_webhook_endpoint,
}
use syrotp.Webhook.Secrets.{Sealing}
use syrotp.Verification.{lazy_expire_and_emit, cancel_tx}
use syrotp.Verification.Hosted.{has_id}
use syrotp.Verification.Start.{
  StartVerificationInput, PickedReceiver, start_tx, is_pending_for, is_pending_triple,
}
use syrotp.Binding.{
  StartBindingInput, StartBindingResult, start_binding, revoke_binding, ConsumeBindNonceInput,
  ConsumeBindNonceOutcome, consume_bind_nonce,
}
use syrotp.Matching.{claim_tx, insert_inbound, link_inbound}

-- One atomic statement or transaction. The admin tools and the heartbeats write the receivers, the
-- delivery worker the deliveries; neither writes anything else.
pub data Step (rt : Runtime) (db db' : Db) : Type 0 where
  start :
      (id : Text) (now : ℕ) (input : StartVerificationInput) (code : Text) (picked : PickedReceiver)
      → start_tx rt.config id now input db code ≡ ok (picked, db')
      → Step rt db db'
  cancel :
      (ulids : ℕ → Text) (now : ℕ) (app_id id : Text)
      → cancel_tx rt ulids now app_id id db ≡ ok db'
      → Step rt db db'
  expire :
      (ulids : ℕ → Text) (now : ℕ) (id : Text)
      → db' ≡ lazy_expire_and_emit rt ulids now id db
      → Step rt db db'
  claim :
      (ulids : ℕ → Text) (now : ℕ) (inbound_id receiver_id from code : Text)
      → db' ≡ (claim_tx rt ulids now inbound_id receiver_id from code db).1
      → Step rt db db'
  receive : (row : InboundSms) → insert_inbound row db ≡ ok db' → Step rt db db'
  link :
      (inbound_id : Text) (target : Option Text)
      → db' ≡ link_inbound inbound_id target db
      → Step rt db db'
  bind :
      (ulid nonce : Text) (now : ℕ) (input : StartBindingInput) (answer : StartBindingResult)
      → start_binding rt ulid nonce now input db ≡ ok (answer, db')
      → Step rt db db'
  consume :
      (now : ℕ) (input : ConsumeBindNonceInput) (outcome : ConsumeBindNonceOutcome)
      → consume_bind_nonce now input db ≡ ok (outcome, db')
      → Step rt db db'
  revoke :
      (now : ℕ) (app_id id : Text) (row : PhoneBinding)
      → revoke_binding now app_id id db ≡ ok (row, db')
      → Step rt db db'
  subscribe :
      (validate_url : Text → Result (Unit {0})) (ulid : Text) (sealing : Sealing) (now : ℕ)
      (input : CreateWebhookInput) (answer : WebhookEndpointWithSecret)
      → create_webhook_endpoint validate_url ulid sealing now input db ≡ ok (answer, db')
      → Step rt db db'
  unsubscribe : (app_id id : Text) → delete_webhook_endpoint app_id id db ≡ ok db' → Step rt db db'
  operate : (receivers : List Receiver) → db' ≡ record db { receivers = receivers } → Step rt db db'
  deliver :
      (deliveries : List WebhookDelivery)
      → db' ≡ record db { webhook_deliveries = deliveries }
      → Step rt db db'

pub data Reach (rt : Runtime) (db : Db) : Db → Type 0 where
  here : Reach rt db db
  next : {db' db'' : Db} → Reach rt db db' → Step rt db' db'' → Reach rt db db''

-- A database with no verification yet
abbrev pub IsNew : Db → Type 0
IsNew db = (db.verifications ≡ []) × (db.webhook_events ≡ [])

abbrev pub is_event_of : Text → WebhookEvent → Bool
is_event_of id e = same e.verification_id id

-- How many events a verification of this status has emitted
abbrev pub emitted : VerificationStatus → ℕ
emitted VerificationStatus.verified = 1
emitted VerificationStatus.expired = 1
emitted VerificationStatus.cancelled = 1
emitted VerificationStatus.pending = 0
emitted VerificationStatus.failed = 0

pub record IsConsistent (most : ℕ) (db : Db) : Type 0 where
  -- the primary key
  pub unique_ids : (id : Text) → count (has_id id) db.verifications ≤ 1
  -- `verifications_pending_uniq`
  pub unique_codes :
      (receiver_id phone code : Text)
      → count (is_pending_triple receiver_id phone code) db.verifications ≤ 1
  -- MAX_PENDING_PER_PHONE
  pub capped : (app_id phone : Text) → count (is_pending_for app_id phone) db.verifications ≤ most
  -- one event for each verification that has ended, none for one that is pending
  pub ledger :
      All (λ v. count (is_event_of v.id) db.webhook_events ≡ emitted v.status) db.verifications
  -- no event without its verification
  pub known : All (λ e. any (has_id e.verification_id) db.verifications ≡ true) db.webhook_events
