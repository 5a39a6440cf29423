-- ===== src/Tests/Tenants.antt =====
-- The calls of one app's backend beside the rows of another, and two calls that are refused.
use syrotp.Prelude.{
  ℕ, ◌≡◌, ◌≢◌, ◌≤◌, ◌<◌, List, ◌∙◌, refl, sym, ap, arith, Text, chars, same, decimal, or_else,
  get_elem?, trim, trim_start, is_space, [], ◌∷◌, some,
}
use syrotp.Errors.{Result, ok, err, phone_error, ok-injective}
use syrotp.Schema.{Db, ApiKey, secret}
use syrotp.Phone.{normalize_phone}
use syrotp.Redis.{Redis, incr_expire}
use syrotp.RateLimit.{bucket, rate_check}
use syrotp.ApiKeys.{AuthedKey, extract_bearer, lookup_api_key, require_key, touch_key}
use syrotp.Routes.{State, limit_per_minute}
use syrotp.Routes.Routed.{Routed, ◌>>◌, limit_to, lift}
use syrotp.Routes.Verifications.{ApiRequest}
use syrotp.Routes.Bindings.{BindingBody, post_bindings}
use syrotp.Routes.Tenants.{Kept}
use syrotp.Routes.Isolated.{AppCall, revoke_binding_call, after_all, after_all-Kept}
use syrotp.Routes.Answers.{
  reply_to, too_many, internal_error, limit_to_refused, post_bindings_of_bad_phone,
}
use syrotp.Tests.{sample_primitives, sample_runtime, new_redis, binding}
use syrotp.Tests.Gateways.{sample_limits}
use syrotp.Tests.Callers.{caller_db, public_key}

abbrev secret_key : ApiKey
secret_key = record public_key { kind = secret }

-- The binding `pbn_1` is another app's.
abbrev shared_db : Db
shared_db = record caller_db {
  api_keys = secret_key ∷ [];
  phone_bindings = record binding { app_id = chars "app_2" } ∷ [];
}

abbrev backend : ApiRequest
backend = record { authorization = some (chars "Bearer sk_live_0123456789"); ip = chars "10.0.0.1" }

abbrev backend_key : AuthedKey
backend_key = record { id = chars "key_1"; app_id = chars "app_1"; kind = secret }

abbrev touched_db : Db
touched_db = touch_key 1000 (chars "key_1") shared_db

backend_found :
    require_key sample_primitives 1000 backend.authorization (secret ∷ []) shared_db
    ≡ (ok backend_key, touched_db)
unfolding require_key extract_bearer lookup_api_key trim trim_start is_space same
backend_found = refl

apart : chars "app_1" ≢ chars "app_2"
apart e = absurd (omega (arith, ap (λ (s : Text). or_else (get_elem? s 4) 0) e))

accept_url : Text → Result (Unit {0})
accept_url url = ok tt

abbrev shared : State
shared = record { db = shared_db; redis = new_redis }

abbrev calls : List AppCall
calls = revoke_binding_call 1000 backend (chars "pbn_1") ∷ []

is_apart :
    (key : AuthedKey)
    → (require_key sample_primitives 1000 backend.authorization (secret ∷ []) shared_db).0 ≡ ok key
    → key.app_id ≢ chars "app_2"
is_apart key e f =
    let one : backend_key ≡ key = ok-injective (sym (ap (λ r. r.0) backend_found) ∙ e) in
    apart (ap (λ k. k.app_id) one ∙ f)

after_all-Kept_example :
    Kept
      (chars "app_2")
      shared_db
      (after_all sample_primitives sample_runtime accept_url sample_limits calls shared).db
after_all-Kept_example =
    after_all-Kept sample_primitives sample_runtime accept_url sample_limits (chars "app_2") calls
      shared ((λ key e. is_apart key e), tt)

abbrev next : Routed (Unit {0})
next = lift (ok tt)

abbrev busy : Redis
busy = record new_redis {
  counters = record { key = chars "syrotp:rl:k:0"; value = 9; expires_at = 60000 } ∷ [];
}

over : 5 < (incr_expire 1000 (bucket (chars "k") 60 1000) 60 busy).0
unfolding incr_expire same decimal
over = omega arith

limit_to_refused_example :
    (seconds : ℕ) × (1 ≤ seconds)
    × (seconds ≤ 60)
    × (reply_to
          (chars "r")
          ((limit_to 1000 (chars "k") 5 >> next) (record shared { redis = busy })).0
        ≡ some (too_many (chars "r") seconds))
    × (((limit_to 1000 (chars "k") 5 >> next) (record shared { redis = busy })).1.db ≡ shared_db)
limit_to_refused_example =
    limit_to_refused (chars "r") 1000 (chars "k") 5 (record shared { redis = busy }) next over

abbrev bad_body : BindingBody
bad_body = record { phone = chars "0000"; receiver_id = chars "rcv_1" }

bad_phone :
    normalize_phone sample_runtime (chars "0000") (chars "SY") ≡ err (phone_error "invalid_phone")
unfolding normalize_phone trim trim_start is_space
bad_phone = refl

abbrev key_bucket : Text
key_bucket = chars "phone_binding_start:app:app_1"

abbrev once : Redis
once = (limit_per_minute 1000 key_bucket 60 new_redis).1

within_limit : limit_per_minute 1000 key_bucket 60 new_redis ≡ (ok tt, once)
unfolding limit_per_minute rate_check incr_expire
within_limit = refl

post_bindings_of_bad_phone_example :
    reply_to
      (chars "r")
      (post_bindings sample_primitives sample_runtime sample_limits
        (chars "1")
        (chars "N")
        1000
        backend
        (some bad_body)
        shared).0
    ≡ some (internal_error (chars "r"))
post_bindings_of_bad_phone_example =
    post_bindings_of_bad_phone sample_primitives sample_runtime sample_limits (chars "1")
      (chars "N") (chars "r") 1000 backend bad_body backend_key shared touched_db once
      "invalid_phone" backend_found within_limit refl bad_phone
