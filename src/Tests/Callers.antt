-- ===== src/Tests/Callers.antt =====
-- A caller with a public key starts a verification, and a passkey challenge is consumed.
use syrotp.Prelude.{
  ℕ, ◌≡◌, ◌≢◌, ◌+◌, refl, Text, chars, same, trim, trim_start, is_space, replicate, decimal, [],
  ◌∷◌, ◌++◌, Option, some, none, true, false,
}
use mathlib.Core.List.{Mem}
use syrotp.Errors.{ok}
use syrotp.Schema.{Db, ApiKey, public, secret, WebauthnChallenge, VerificationStatus, login}
use syrotp.Phone.{NormalizedPhone, normalize_phone, mask_phone}
use syrotp.Verification.{PublicVerification, validate_purpose}
use syrotp.Verification.Start.{
  start_verification, run_with_code_collision_retry, retry_from, start_tx, insert_verification,
  pick_receiver, run_healthy_receiver_query, first_of_order,
}
use syrotp.ApiKeys.{AuthedKey, extract_bearer, lookup_api_key, require_key, touch_key}
use syrotp.ApiKeys.Sound.{Stands, require_key_sound}
use syrotp.Redis.{incr_expire}
use syrotp.RateLimit.{rate_check}
use syrotp.Routes.{State, limit_per_minute}
use syrotp.Routes.Verifications.{
  StartBody, is_start_body, ApiRequest, start_input, post_verifications,
}
use syrotp.Routes.Guarded.{Called, IsPurpose, post_verifications_sound}
use syrotp.Passkeys.{Passkeys, latest, consume_challenge, create_challenge, build_options}
use syrotp.Passkeys.Single.{Ceremonies, none_yet, build, challenge_single_use}
use syrotp.Tests.{
  sample_primitives, sample_config, sample_runtime, new_redis, new_db, sample_code, phone,
}
use syrotp.Tests.Gateways.{sample_limits}

abbrev pub public_key : ApiKey
public_key = record {
  id = chars "key_1";
  app_id = chars "app_1";
  kind = public;
  key_hash = replicate 64 b'0';
  key_prefix = [];
  label = none;
  created_at = 0;
  last_used_at = none;
  revoked_at = none;
}

abbrev pub caller_db : Db
caller_db = record new_db {
  apps = record { id = chars "app_1"; name = []; created_at = 0; disabled = false } ∷ [];
  api_keys = public_key ∷ [];
}

abbrev authed_key : AuthedKey
authed_key = record { id = chars "key_1"; app_id = chars "app_1"; kind = public }

abbrev pub bearer : Option Text
bearer = some (chars "Bearer pk_live_0123456789")

key_found :
    require_key sample_primitives 1000 bearer (public ∷ secret ∷ []) caller_db
    ≡ (ok authed_key, touch_key 1000 (chars "key_1") caller_db)
unfolding require_key extract_bearer lookup_api_key trim trim_start is_space same
key_found = refl

require_key_sound_example :
    (token : Text) × (row : ApiKey) × (extract_bearer bearer ≡ some token)
    × Stands sample_primitives caller_db token authed_key row
    × Mem authed_key.kind (public ∷ secret ∷ [])
    × (touch_key 1000 (chars "key_1") caller_db ≡ touch_key 1000 row.id caller_db)
require_key_sound_example =
    require_key_sound sample_primitives 1000 bearer (public ∷ secret ∷ []) caller_db
      (touch_key 1000 (chars "key_1") caller_db) authed_key key_found

abbrev same_code : ℕ → Text
same_code i = sample_code

abbrev start_body : StartBody
start_body = record {
  phone = phone;
  purpose = chars "login";
  client_ref = none;
  locale = none;
  operator = none;
}

abbrev start_request : ApiRequest
start_request = record { authorization = bearer; ip = chars "10.0.0.1" }

abbrev before : State
before = record { db = caller_db; redis = new_redis }

abbrev after : State
after =
    (post_verifications sample_primitives sample_runtime sample_limits (chars "1") same_code 1000
      start_request (some start_body) before).1

abbrev out : PublicVerification
out = record {
  id = chars "vrf_1";
  status = VerificationStatus.pending;
  phone_masked = mask_phone phone;
  send_to = some (chars "+963990000000");
  message = some (chars "VERIFY A7K9P2");
  client_ref = none;
  purpose = chars "login";
  verified_at = none;
  expires_at = 601000;
  created_at = 1000;
  attempts = 0;
}

post_verifications_sound_example :
    (key : AuthedKey) × (db : Db) × Called sample_primitives 1000 start_request
      (public ∷ secret ∷ [])
      caller_db
      db
      key
    × (b : StartBody) × (some start_body ≡ some b)
    × (is_start_body b ≡ true)
    × IsPurpose b.purpose
    × (number : NormalizedPhone) × (normalize_phone sample_runtime b.phone
          sample_config.default_phone_region
        ≡ ok number)
    × (start_verification sample_runtime
          (chars "1")
          same_code
          1000
          (start_input key (chars "10.0.0.1") b number)
          db
        ≡ ok (out, after.db))
unfolding post_verifications require_key extract_bearer lookup_api_key trim trim_start is_space same
    incr_expire rate_check limit_per_minute decimal validate_purpose normalize_phone
    start_verification run_with_code_collision_retry retry_from start_tx insert_verification
    pick_receiver run_healthy_receiver_query first_of_order
post_verifications_sound_example =
    post_verifications_sound sample_primitives sample_runtime sample_limits (chars "1") same_code
      1000 start_request (some start_body) before after out refl

abbrev sample_passkeys : Passkeys
sample_passkeys = record {
  is_configured = true;
  rp_id = ok (chars "example.com");
  origins = ok (chars "https://example.com" ∷ []);
  challenge_ttl_seconds = 300;
  verify_registration = λ response challenge origins rp_id. ok none;
  verify_authentication = λ response challenge origins rp_id row. ok none;
}

abbrev challenge : ℕ → Text → WebauthnChallenge
challenge now ulid = record {
  id = chars "wch_" ++ ulid;
  app_id = chars "app_1";
  client_ref = chars "user";
  challenge = chars "abc";
  purpose = login;
  expires_at = now + 300000;
  used_at = none;
  created_at = now;
}

abbrev challenge_db : Db
challenge_db = record new_db { webauthn_challenges = challenge 1000 (chars "1") ∷ [] }

abbrev consumed_db : Db
consumed_db = (consume_challenge 2000 (chars "app_1") (chars "user") login challenge_db).1

abbrev next_db : Db
next_db = record new_db {
  webauthn_challenges =
      record (challenge 1000 (chars "1")) { used_at = some 2000 } ∷ challenge 3000 (chars "2") ∷ [];
}

next_built : Ceremonies sample_primitives sample_passkeys consumed_db next_db
unfolding build_options create_challenge consume_challenge latest same
next_built = build (chars "2") 3000 (chars "app_1") (chars "user") login (chars "abc") none_yet refl

challenge_single_use_example : (challenge 3000 (chars "2")).id ≢ (challenge 1000 (chars "1")).id
unfolding latest same
challenge_single_use_example =
    challenge_single_use sample_primitives sample_passkeys 2000 4000 (chars "app_1") (chars "user")
      (chars "app_1") (chars "user") login login challenge_db next_db (challenge 1000 (chars "1"))
      (challenge 3000 (chars "2")) refl next_built refl
