-- ===== src/Tests/Operators.antt =====
-- An operator adds a receiver, and disables and enables one.
use syrotp.Prelude.{
  ◌≡◌, ◌≢◌, ◌↔◌, ◌⊎◌, ◌+◌, ◌*◌, refl, arith, ℕ, Text, chars, same, replicate, or_else, trim,
  trim_start, is_space, digits_value, [], ◌∷◌, some, none, true, false,
}
use syrotp.Schema.{Db, App}
use syrotp.Phone.{normalize_phone}
use syrotp.Crypto.{Primitives, safe_equal, hex_text}
use syrotp.Aead.{wrap, unwrap, b64u, strip_padding}
use syrotp.Gateway.{VerifyHmacInput, accepted, parse_int, leading_digits, verify_gateway_hmac}
use syrotp.Gateway.Sound.{kept}
use syrotp.Verification.Start.{is_healthy}
use syrotp.Admin.{
  done, AddReceiverOptions, AddReceiverResult, add_receiver, added_row, wrap_gateway_signing_key,
  DisableReceiverResult, switch, disable_receiver, enable_receiver,
}
use syrotp.Admin.Listed.{to_record, healthy_as_picked}
use syrotp.Admin.Paired.{added_receiver_is_heard}
use syrotp.Admin.Switched.{disabled_receiver_is_refused, enable-disable}
use syrotp.Tests.{
  sample_primitives, sample_config, sample_runtime, new_redis, new_db, receiver, phone,
}
use syrotp.Tests.Secrets.{sample_gcm}
use syrotp.Tests.Gateways.{gateway_request}
use syrotp.Tests.Callers.{caller_db}

abbrev sealing : Primitives
sealing = record sample_primitives {
  unwrap = λ key wrapped aad. unwrap sample_gcm key wrapped (some aad);
  master_key = replicate 32 b'0';
}

abbrev wanted : AddReceiverOptions
wanted = record {
  app_id = chars "app_1";
  name = chars "Gate";
  operator = none;
  msisdn = phone;
  simulate_heartbeat = false;
}

abbrev wrapped_key : Text
wrapped_key =
    or_else
      (wrap_gateway_signing_key sample_gcm (replicate 32 b'0') (hex_text (1 ∷ [])) (chars "rcv_2")
        (2 ∷ []))
      []

abbrev added_db : Db
added_db = record caller_db {
  receivers = receiver ∷ added_row wanted (chars "rcv_2") phone wrapped_key 500 ∷ [];
}

abbrev added_out : AddReceiverResult
added_out = record {
  receiver_id = chars "rcv_2";
  msisdn = phone;
  signing_key = chars "01";
  app_id = chars "app_1";
  app_name = [];
  operator = none;
  name = chars "Gate";
}

added_ok :
    add_receiver sample_gcm
      (replicate 32 b'0')
      sample_runtime
      (chars "2")
      (1 ∷ [])
      (2 ∷ [])
      500
      wanted
      caller_db
    ≡ done (added_out, added_db)
unfolding add_receiver normalize_phone hex_text wrap b64u strip_padding trim trim_start is_space
    same
added_ok = refl

abbrev paired_request : VerifyHmacInput
paired_request = record gateway_request { receiver_id = chars "rcv_2" }

one_second : parse_int (chars "1") ≡ some (record { is_negative = false; magnitude = 1 })
unfolding parse_int trim_start is_space leading_digits digits_value
one_second = refl

added_receiver_is_heard_example :
    verify_gateway_hmac sealing sample_config 1000 paired_request added_db new_redis ≡ (
      accepted (record { id = chars "rcv_2"; app_id = chars "app_1"; msisdn = phone }),
      kept sample_config 1000 paired_request new_redis,
    )
unfolding safe_equal same
added_receiver_is_heard_example =
    added_receiver_is_heard sample_gcm sealing sample_runtime (chars "2") (1 ∷ []) (2 ∷ []) 500
      wanted caller_db added_db added_out 1000 paired_request new_redis
      (record { is_negative = false; magnitude = 1 }) (λ key wrapped aad. refl) added_ok refl
      (refl, refl, refl) one_second (omega arith) refl refl

abbrev disabled_out : DisableReceiverResult
disabled_out = record { id = chars "rcv_1"; was_enabled = true; msisdn = chars "+963990000000" }

disabled_ok :
    disable_receiver (chars "rcv_1") new_db
    ≡ done (disabled_out, switch false (chars "rcv_1") new_db)
unfolding disable_receiver same
disabled_ok = refl

disabled_receiver_is_refused_example :
    verify_gateway_hmac sample_primitives sample_config 1000 gateway_request
      (switch false (chars "rcv_1") new_db)
      new_redis
    ≢ (
      accepted
          (record { id = chars "rcv_1"; app_id = chars "app_1"; msisdn = chars "+963990000000" }),
      new_redis,
    )
disabled_receiver_is_refused_example =
    disabled_receiver_is_refused sample_primitives sample_config 1000 new_db
      (switch false (chars "rcv_1") new_db) disabled_out gateway_request new_redis new_redis
      (record { id = chars "rcv_1"; app_id = chars "app_1"; msisdn = chars "+963990000000" })
      disabled_ok

enable-disable_example :
    enable_receiver (chars "rcv_1") (switch false (chars "rcv_1") new_db)
    ≡ done
        (record { id = chars "rcv_1"; was_disabled = true; msisdn = chars "+963990000000" }, new_db)
unfolding same
enable-disable_example =
    enable-disable (chars "rcv_1") new_db (switch false (chars "rcv_1") new_db) disabled_out
      (omega arith) disabled_ok refl

abbrev owner : App
owner = record { id = chars "app_1"; name = []; created_at = 0; disabled = false }

healthy_as_picked_example : ((to_record sample_config 120000 owner receiver).healthy ≡ true) ↔ (
    (is_healthy sample_config 120000 (chars "app_1") none receiver ≡ true)
    ⊎ ((receiver.enabled ≡ true)
        × (at : ℕ) × (receiver.last_heartbeat_at ≡ some at)
        × (120000 ≡ at + 120 * 1000)
        × (is_healthy sample_config 120000 (chars "app_1") none receiver ≡ false)))
healthy_as_picked_example = healthy_as_picked sample_config 120000 owner receiver
