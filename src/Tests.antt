-- ===== src/Tests.antt =====
-- Concrete data for the examples, and the examples by the part that they are about.
mod Histories
mod Ceremonies
mod Deliveries
mod Messages
mod Gateways
mod Addresses
mod Callers
mod Clients
mod Secrets
mod Signals
mod Operators
mod Tenants
use syrotp.Prelude.{
  ℕ, Text, chars, map, replicate, ascii_upper, true, false, List, [], ◌∷◌, refl, some, none, ◌++◌,
}
use syrotp.Schema.{
  Db, Receiver, Verification, VerificationStatus, PhoneBinding, PhoneBindingStatus, InboundSms,
  WebhookEndpoint, WebhookEvent, WebhookDelivery, WebhookDeliveryStatus,
}
use syrotp.Runtime.{Runtime, Config}
use syrotp.Verification.Start.{StartVerificationInput, PickedReceiver, ReceiverMatch, new_row}
use syrotp.Matching.{MatchInput}
use syrotp.Crypto.{Primitives}
use syrotp.Redis.{Redis}

abbrev pub sample_config : Config
sample_config = record {
  default_phone_region = chars "SY";
  verification_ttl_seconds = 600;
  verification_code_length = 6;
  max_pending_per_phone = 3;
  receiver_heartbeat_timeout_seconds = 120;
  inbound_timestamp_skew_seconds = 300;
  phone_binding_ttl_seconds = 300;
}

-- Numbers are taken as they are, and texts are ASCII.
abbrev pub sample_runtime : Runtime
sample_runtime = record {
  config = sample_config;
  stringify = λ e. e.id;
  to_upper_case = map ascii_upper;
  to_upper_case-ascii = λ s h. refl;
  parse_phone_number = λ raw region.
      some (record { number = raw; national_number = raw; country = none; number_type = none });
}

abbrev pub phone : Text
phone = chars "+963991234567"

abbrev pub receiver : Receiver
receiver = record {
  id = chars "rcv_1";
  app_id = chars "app_1";
  name = chars "main";
  operator = none;
  msisdn = chars "+963990000000";
  secret_hash = [];
  enabled = true;
  last_heartbeat_at = some 0;
  created_at = 0;
}

abbrev pub binding : PhoneBinding
binding = record {
  id = chars "pbn_1";
  app_id = chars "app_1";
  receiver_id = chars "rcv_1";
  phone_e164 = phone;
  status = PhoneBindingStatus.verified;
  nonce = chars "AAAABBBB";
  expires_at = 300000;
  bound_at = some 1;
  revoked_at = none;
  created_at = 0;
}

abbrev pub second_binding : PhoneBinding
second_binding = record binding {
  id = chars "pbn_2";
  status = PhoneBindingStatus.pending;
  nonce = chars "CCCCDDDD";
  bound_at = none;
}

abbrev pub endpoint : WebhookEndpoint
endpoint = record {
  id = chars "whk_1";
  app_id = chars "app_1";
  url = chars "https://example.com";
  secret_ciphertext = [];
  enabled = true;
  event_types = chars "verification.verified" ∷ [];
  created_at = 0;
  updated_at = 0;
}

abbrev pub new_db : Db
new_db = record {
  apps = [];
  api_keys = [];
  webauthn_credentials = [];
  webauthn_challenges = [];
  receivers = receiver ∷ [];
  verifications = [];
  inbound_sms = [];
  webhook_endpoints = endpoint ∷ [];
  webhook_events = [];
  webhook_deliveries = [];
  phone_bindings = binding ∷ second_binding ∷ [];
}

abbrev pub start_input : StartVerificationInput
start_input = record {
  app_id = chars "app_1";
  phone_e164 = phone;
  purpose = chars "login";
  client_ref = none;
  locale = none;
  ip = none;
  preferred_operator = none;
}

abbrev pub sample_code : Text
sample_code = chars "A7K9P2"

abbrev pub picked_receiver : PickedReceiver
picked_receiver = record { receiver = receiver; match = ReceiverMatch.unasked }

abbrev pub started_row : Verification
started_row = new_row sample_config (chars "vrf_1") 1000 start_input receiver sample_code

abbrev pub started_db : Db
started_db = record new_db { verifications = started_row ∷ [] }

abbrev pub numbered : ℕ → Text
numbered n = (65 ∷ [])

abbrev pub answer : MatchInput
answer = record {
  receiver_id = chars "rcv_1";
  receiver_msisdn = chars "+963990000000";
  from = phone;
  to = chars "+963990000000";
  body = chars "verify a7k9p2 ";
  received_at = 0;
  idempotency_key = chars "k1";
}

-- Every digest is 64 zeros, and a wrapped key opens as itself.
abbrev pub sample_primitives : Primitives
sample_primitives = record {
  utf8 = λ s. s;
  utf8-ascii = λ s h. refl;
  hex_bytes = λ s. s;
  sha256_digest = λ input. replicate 64 b'0';
  hmac_digest = λ key message. replicate 64 b'0';
  unwrap = λ key wrapped aad. some wrapped;
  master_key = [];
}

abbrev pub new_redis : Redis
new_redis = record { marks = []; counters = [] }
