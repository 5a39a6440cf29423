-- ===== src/Runtime.antt =====
-- What the services take from their surroundings: the settings of apps/server/src/config.ts, the
-- identifiers of lib/ids.ts over the package `ulid`, and the calls of the packages and of the
-- JavaScript runtime that no file of the repository implements.
use syrotp.Prelude.{ℕ, ◌<◌, ◌≡◌, String, Text, chars, Option, ◌++◌, map, All, ascii_upper}

pub record Config : Type 0 where
  pub default_phone_region : Text
  pub verification_ttl_seconds : ℕ
  pub verification_code_length : ℕ
  pub max_pending_per_phone : ℕ
  pub receiver_heartbeat_timeout_seconds : ℕ
  pub inbound_timestamp_skew_seconds : ℕ
  pub phone_binding_ttl_seconds : ℕ

pub data VerificationEventType : Type 0 where
  verified expired cancelled : VerificationEventType

-- services/webhooks.ts: `VERIFICATION_EVENT_TYPES`
abbrev pub event_name : VerificationEventType → Text
event_name verified = chars "verification.verified"
event_name expired = chars "verification.expired"
event_name cancelled = chars "verification.cancelled"

pub record VerificationEventData : Type 0 where
  pub verification_id : Text
  pub status : VerificationEventType
  pub phone_masked : Text
  pub purpose : Text
  pub client_ref : Option Text
  pub verified_at : Option ℕ
  pub expired_at : Option ℕ
  pub cancelled_at : Option ℕ

pub record VerificationEventEnvelope : Type 0 where
  pub id : Text
  pub type : VerificationEventType
  pub created_at : ℕ
  pub payload : VerificationEventData

-- What `parsePhoneNumberFromString` of libphonenumber-js answers.
pub record ParsedNumber : Type 0 where
  pub number : Text
  pub national_number : Text
  pub country : Option Text
  pub number_type : Option String

pub record Runtime : Type 0 where
  pub config : Config
  -- `JSON.stringify` on an event envelope
  pub stringify : VerificationEventEnvelope → Text
  -- `String.prototype.toUpperCase`; over ASCII it is the ASCII mapping
  pub to_upper_case : Text → Text
  pub to_upper_case-ascii : (s : Text) → All (λ c. c < 128) s → to_upper_case s ≡ map ascii_upper s
  -- the parse of a number in a default region: `none` where it fails or `isValid()` is false
  pub parse_phone_number : Text → Text → Option ParsedNumber

-- `newId(prefix)`, given what `ulid()` returned
abbrev pub new_id : Text → Text → Text
new_id prefix ulid = prefix ++ (chars "_" ++ ulid)

abbrev pub verification_prefix : Text
verification_prefix = chars "vrf"

abbrev pub receiver_prefix : Text
receiver_prefix = chars "rcv"

abbrev pub inbound_prefix : Text
inbound_prefix = chars "in"

abbrev pub webhook_endpoint_prefix : Text
webhook_endpoint_prefix = chars "whk"

abbrev pub webhook_event_prefix : Text
webhook_event_prefix = chars "evt"

abbrev pub webhook_delivery_prefix : Text
webhook_delivery_prefix = chars "wd"

abbrev pub phone_binding_prefix : Text
phone_binding_prefix = chars "pbn"
