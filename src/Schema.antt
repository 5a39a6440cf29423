-- ===== src/Schema.antt =====
-- apps/server/src/db/schema.ts: a row of each table as a record, and the database as its tables.
-- Times are milliseconds; a text column is a list of code units.
use syrotp.Prelude.{ℕ, Bool, Option, List, Text}

pub data VerificationStatus : Type 0 where
  pending verified expired cancelled failed : VerificationStatus

pub data WebhookDeliveryStatus : Type 0 where
  pending delivered failed abandoned : WebhookDeliveryStatus

pub data PhoneBindingStatus : Type 0 where
  pending verified revoked : PhoneBindingStatus

pub record Receiver : Type 0 where
  pub id : Text
  pub app_id : Text
  pub name : Text
  pub operator : Option Text
  pub msisdn : Text
  pub secret_hash : Text
  pub enabled : Bool
  pub last_heartbeat_at : Option ℕ
  pub created_at : ℕ

pub record Verification : Type 0 where
  pub id : Text
  pub app_id : Text
  pub phone_e164 : Text
  pub purpose : Text
  pub client_ref : Option Text
  pub locale : Option Text
  pub receiver_id : Text
  pub receiver_msisdn_snapshot : Option Text
  pub receiver_operator_snapshot : Option Text
  pub code : Text
  pub message_prefix : Text
  pub status : VerificationStatus
  pub attempts : ℕ
  pub expires_at : ℕ
  pub verified_at : Option ℕ
  pub cancelled_at : Option ℕ
  pub matched_inbound_id : Option Text
  pub created_ip : Option Text
  pub created_at : ℕ

pub record InboundSms : Type 0 where
  pub id : Text
  pub receiver_id : Text
  pub from_e164 : Text
  pub to_msisdn : Text
  pub body : Text
  pub received_at : ℕ
  pub idempotency_key : Text
  pub matched_verification_id : Option Text
  pub created_at : ℕ

pub record WebhookEndpoint : Type 0 where
  pub id : Text
  pub app_id : Text
  pub url : Text
  pub secret_ciphertext : Text
  pub enabled : Bool
  pub event_types : List Text
  pub created_at : ℕ
  pub updated_at : ℕ

pub record WebhookEvent : Type 0 where
  pub id : Text
  pub app_id : Text
  pub event_type : Text
  pub verification_id : Text
  pub payload_json : Text
  pub created_at : ℕ

pub record WebhookDelivery : Type 0 where
  pub id : Text
  pub endpoint_id : Text
  pub event_id : Text
  pub event_type : Text
  pub status : WebhookDeliveryStatus
  pub attempt_count : ℕ
  pub next_attempt_at : ℕ
  pub last_status_code : Option ℕ
  pub last_error : Option Text
  pub created_at : ℕ
  pub updated_at : ℕ

pub record PhoneBinding : Type 0 where
  pub id : Text
  pub app_id : Text
  pub receiver_id : Text
  pub phone_e164 : Text
  pub status : PhoneBindingStatus
  pub nonce : Text
  pub expires_at : ℕ
  pub bound_at : Option ℕ
  pub revoked_at : Option ℕ
  pub created_at : ℕ

pub record App : Type 0 where
  pub id : Text
  pub name : Text
  pub created_at : ℕ
  pub disabled : Bool

-- `api_key_kind`, which services/apiKeys.ts calls `ApiKeyKind`
pub data ApiKeyKind : Type 0 where
  public secret gateway : ApiKeyKind

pub record ApiKey : Type 0 where
  pub id : Text
  pub app_id : Text
  pub kind : ApiKeyKind
  pub key_hash : Text
  pub key_prefix : Text
  pub label : Option Text
  pub created_at : ℕ
  pub last_used_at : Option ℕ
  pub revoked_at : Option ℕ

-- `publicKey` is its bytes.
pub record WebauthnCredential : Type 0 where
  pub id : Text
  pub app_id : Text
  pub client_ref : Text
  pub credential_id_hash : Text
  pub public_key : List ℕ
  pub sign_count : ℕ
  pub transports : List Text
  pub backup_state : Bool
  pub backup_eligible : Bool
  pub created_at : ℕ
  pub last_used_at : Option ℕ

-- `ChallengePurpose` of services/webauthn.ts
pub data ChallengePurpose : Type 0 where
  register login : ChallengePurpose

pub record WebauthnChallenge : Type 0 where
  pub id : Text
  pub app_id : Text
  pub client_ref : Text
  pub challenge : Text
  pub purpose : ChallengePurpose
  pub expires_at : ℕ
  pub used_at : Option ℕ
  pub created_at : ℕ

pub record Db : Type 0 where
  pub apps : List App
  pub api_keys : List ApiKey
  pub webauthn_credentials : List WebauthnCredential
  pub webauthn_challenges : List WebauthnChallenge
  pub receivers : List Receiver
  pub verifications : List Verification
  pub inbound_sms : List InboundSms
  pub webhook_endpoints : List WebhookEndpoint
  pub webhook_events : List WebhookEvent
  pub webhook_deliveries : List WebhookDelivery
  pub phone_bindings : List PhoneBinding
