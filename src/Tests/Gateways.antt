-- ===== src/Tests/Gateways.antt =====
-- A signed request of one gateway, its replay, and the limit on its kind.
use syrotp.Prelude.{
  ◌≡◌, ◌↔◌, ◌≤◌, ◌*◌, ◌+◌, refl, arith, Text, chars, same, replicate, trim, trim_start, is_space,
  strip_spaces, digits_value, decimal, find, List, [], ◌∷◌, some, none, false,
}
use syrotp.Schema.{Receiver, Verification}
use syrotp.Phone.{normalize_phone, mask_phone}
use syrotp.Webhook.{emit_verification_event_in_tx, fan_out, build_verification_event_data}
use syrotp.Extract.{extract, extract_code, extract_bind_nonce}
use syrotp.Verification.{emit_for}
use syrotp.Verification.Hosted.{has_id}
use syrotp.Matching.{
  set_verified, sender, insert_inbound, claim_tx, process_inbound, match_body, match_code,
}
use syrotp.History.Sound.{Answers}
use syrotp.Crypto.{safe_equal}
use syrotp.Redis.{Redis, set_nx, incr_expire}
use syrotp.RateLimit.{rate_check}
use syrotp.RateLimit.Window.{Check, allowed_in, rate_check_limit}
use syrotp.Gateway.{
  VerifyHmacInput, VerifiedReceiver, accepted, Timestamp, leading_digits, parse_int,
  verify_gateway_hmac,
}
use syrotp.Gateway.Sound.{IsAuthentic, identity, kept, verify_gateway_hmac-accepts}
use syrotp.Gateway.Replay.{quiet, no_early_replay, late_replay}
use syrotp.Routes.{State, Limits, limit_per_minute}
use syrotp.Routes.Inbound.{
  InboundRequest, InboundBody, match_input, all_headers, match_verified, post_inbound_sms,
}
use syrotp.Routes.Authentic.{post_inbound_sms_sound}
use syrotp.Routes.Heartbeat.{IsBeating, record_heartbeat, record_heartbeat-IsBeating}
use syrotp.Tests.{
  sample_primitives, sample_config, sample_runtime, new_redis, new_db, started_db, receiver,
  numbered, phone,
}
use syrotp.Tests.Histories.{started-IsConsistent}

abbrev pub gateway_request : VerifyHmacInput
gateway_request = record {
  receiver_id = chars "rcv_1";
  timestamp_header = chars "1";
  nonce_header = replicate 32 b'a';
  signature_header = replicate 64 b'0';
  raw_body = [];
}

abbrev who : VerifiedReceiver
who = identity receiver

abbrev held : Redis
held = kept sample_config 1000 gateway_request new_redis

first_accepted :
    verify_gateway_hmac sample_primitives sample_config 1000 gateway_request new_db new_redis
    ≡ (accepted who, held)
unfolding verify_gateway_hmac parse_int trim_start is_space leading_digits digits_value safe_equal
    same set_nx
first_accepted = refl

verify_gateway_hmac-accepts_example :
    (verify_gateway_hmac sample_primitives sample_config 1000 gateway_request new_db new_redis
      ≡ (accepted who, held))
    ↔ ((r : Receiver) × (t : Timestamp) × (key : Text) × IsAuthentic sample_primitives sample_config
          1000 gateway_request new_db new_redis r t key
        × (who ≡ identity r)
        × (held ≡ kept sample_config 1000 gateway_request new_redis))
verify_gateway_hmac-accepts_example =
    verify_gateway_hmac-accepts sample_primitives sample_config 1000 gateway_request new_db
      new_redis held who

abbrev again_held : Redis
again_held = kept sample_config 301500 gateway_request held

replayed :
    verify_gateway_hmac sample_primitives sample_config 301500 gateway_request new_db held
    ≡ (accepted who, again_held)
unfolding verify_gateway_hmac parse_int trim_start is_space leading_digits digits_value safe_equal
    same set_nx
replayed = refl

no_early_replay_example : 1000 + sample_config.inbound_timestamp_skew_seconds * 1000 ≤ 301500
no_early_replay_example =
    no_early_replay sample_primitives sample_config 1000 301500 gateway_request gateway_request
      new_db new_db new_redis held held again_held who who refl refl first_accepted quiet replayed

one_second : parse_int (chars "1") ≡ some (record { is_negative = false; magnitude = 1 })
unfolding parse_int trim_start is_space leading_digits digits_value
one_second = refl

late_replay_example :
    (verify_gateway_hmac sample_primitives sample_config 301500 gateway_request new_db held).0
    ≡ accepted who
late_replay_example =
    late_replay sample_primitives sample_config 1000 301500 gateway_request new_db new_redis held
      who (record { is_negative = false; magnitude = 1 }) first_accepted (omega arith) one_second
      (omega arith)

abbrev checks : List Check
checks =
    record { key = chars "k"; limit = 1; now = 1000 }
    ∷ record { key = chars "other"; limit = 9; now = 1500 }
    ∷ record { key = chars "k"; limit = 1; now = 2000 }
    ∷ []

rate_check_limit_example : allowed_in (chars "k") 60 0 checks new_redis ≤ 1
unfolding same
rate_check_limit_example =
    rate_check_limit (chars "k") 60 0 1 checks new_redis (omega arith)
      ((λ h. refl), ((λ h. cc), ((λ h. refl), tt))) refl

abbrev pub sample_limits : Limits
sample_limits = record {
  start_per_ip = 10;
  status_per_ip = 60;
  inbound_per_receiver = 120;
  inbound_per_ip = 600;
  heartbeat_per_receiver = 6;
  verifications_per_app = 500;
  inbound_per_app = 1000;
  cancel_per_app = 60;
  bindings_per_app = 60;
  binding_read_per_app = 60;
  binding_revoke_per_app = 30;
  webhook_crud_per_app = 30;
}

abbrev sms : InboundBody
sms = record {
  from = phone;
  to = chars "+963990000000";
  body = chars "VERIFY A7K9P2";
  received_at = 0;
  idempotency_key = chars "k0000001";
  sim_slot = none;
}

abbrev sms_request : InboundRequest
sms_request = record {
  headers = record {
    receiver_id = some (chars "rcv_1");
    timestamp = some (chars "1");
    nonce = some (replicate 32 b'a');
    signature = some (replicate 64 b'0');
  };
  ip = chars "10.0.0.1";
  raw_body = some [];
  body = some sms;
}

abbrev before : State
before = record { db = started_db; redis = new_redis }

abbrev after : State
after =
    (post_inbound_sms sample_primitives sample_runtime sample_limits numbered 2000 sms_request
      before).1

post_inbound_sms_sound_example :
    (r : Receiver) × (t : Timestamp) × (key : Text) × (redis : Redis) × (input : VerifyHmacInput)
    × (sms_request.raw_body ≡ some input.raw_body)
    × (all_headers sms_request.headers
        ≡ some
            (input.receiver_id, input.timestamp_header, input.nonce_header, input.signature_header))
    × IsAuthentic sample_primitives sample_config 2000 input started_db redis r t key
    × (b : InboundBody) × (sms_request.body ≡ some b)
    × (v : Verification) × (find (has_id (chars "vrf_1")) started_db.verifications ≡ some v)
    × Answers sample_runtime 2000 (match_input (identity r) b) v
    × (find (has_id (chars "vrf_1")) after.db.verifications
        ≡ some (set_verified 2000 (chars "in_A") v))
unfolding verify_gateway_hmac parse_int leading_digits digits_value safe_equal set_nx incr_expire
    rate_check limit_per_minute post_inbound_sms match_verified decimal process_inbound match_body
    match_code sender normalize_phone insert_inbound extract_bind_nonce extract_code extract
    claim_tx emit_for emit_verification_event_in_tx build_verification_event_data same is_space trim
    trim_start strip_spaces fan_out mask_phone
post_inbound_sms_sound_example =
    post_inbound_sms_sound sample_primitives sample_runtime sample_limits numbered 2000 sms_request
      3 before after (chars "vrf_1") (chars "in_A") started-IsConsistent refl

record_heartbeat-IsBeating_example :
    (r' : Receiver) × (find
        (λ x. same x.id (chars "rcv_1"))
        (record_heartbeat sample_config 1000 (chars "rcv_1") new_db).receivers
      ≡ some r')
    × IsBeating sample_config 61000 r'
unfolding same
record_heartbeat-IsBeating_example =
    record_heartbeat-IsBeating sample_config 1000 61000 (chars "rcv_1") new_db receiver
      (omega arith) refl (omega arith)
