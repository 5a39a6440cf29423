-- ===== src/Routes/Answers.antt =====
-- apps/server/src/plugins/errorHandler.ts: the answer to a call that throws.
use syrotp.Prelude.{
  ℕ, ◌-◌, ◌/◌, ◌%◌, ◌≤◌, ◌<◌, ◌≡◌, refl, String, Text, chars, decimal, length, Bool, true, false,
  ◌&&◌, not, [], ◌∷◌, ◌++◌, arith, Option, none, some, or_else, leb, ltb, ◌==◌, if◌then◌else◌,
}
use syrotp.Errors.{
  ApiError, Failure, Result, ok, err, api, unique_violation, phone_error, webhook_validation_error,
  error, rate_limited,
}
use syrotp.Schema.{Db, secret}
use syrotp.Redis.{Redis, incr_expire}
use syrotp.Runtime.{Runtime}
use syrotp.Crypto.{Primitives}
use syrotp.Phone.{normalize_phone}
use syrotp.ApiKeys.{AuthedKey, require_key}
use syrotp.Binding.{start_binding}
use syrotp.RateLimit.{bucket, rate_check}
use syrotp.Routes.{State, Limits, limit_per_minute}
use syrotp.Routes.Routed.{Routed, continued, ◌>>◌, limit_to, with_redis}
use syrotp.Routes.Verifications.{ApiRequest}
use syrotp.Routes.Bindings.{
  BindingBody, is_binding_body, binding_input, checked_binding_body, post_bindings,
}

-- An error of Fastify, of a package or of a class of the server other than `ApiError`
pub record FastifyError : Type 0 where
  pub status_code : Option ℕ
  pub code : Option Text
  pub message : Text
  pub is_validation : Bool

pub data Thrown : Type 0 where
  api_error : ApiError → Thrown
  other_error : FastifyError → Thrown

-- The status, the header `Retry-After`, and the body without its `details`
pub record Reply : Type 0 where
  pub status : ℕ
  pub retry_after : Option ℕ
  pub code : Text
  pub message : Text
  pub request_id : Text

abbrev pub retry_hint : ApiError → Option ℕ
retry_hint e = elim e.retry_after [
  | none ↦ none
  | some seconds ↦ if e.status_code == 429 && not (seconds == 0) then some seconds else none
]

abbrev pub internal_error : Text → Reply
internal_error request_id = record {
  status = 500;
  retry_after = none;
  code = chars "internal_error";
  message = chars "internal error";
  request_id = request_id;
}

unfoldable pub handle_error : Text → Thrown → Reply
handle_error request_id (api_error e) = record {
  status = e.status_code;
  retry_after = retry_hint e;
  code = chars e.code;
  message = e.message;
  request_id = request_id;
}
handle_error request_id (other_error e) =
    let status = or_else e.status_code 0 in
    let as_caller : Reply = record {
      status = status;
      retry_after = none;
      code = or_else e.code (chars "http_" ++ decimal status);
      message = if length e.message == 0 then chars "request failed" else e.message;
      request_id = request_id;
    } in
    if e.is_validation
    then record {
      status = 400;
      retry_after = none;
      code = chars "validation_error";
      message = e.message;
      request_id = request_id;
    }
    else if leb 400 status && ltb status 500
    then as_caller
    else internal_error request_id

-- The errors of the driver, `PhoneError` and `WebhookValidationError` have no status of their own.
abbrev pub thrown : Failure → Thrown
thrown (api e) = api_error e
thrown (unique_violation name) = other_error (record {
  status_code = none;
  code = some (chars "23505");
  message = chars name;
  is_validation = false;
})
thrown (phone_error code) = other_error (record {
  status_code = none;
  code = some (chars code);
  message = chars code;
  is_validation = false;
})
thrown (webhook_validation_error code message) = other_error (record {
  status_code = none;
  code = some (chars code);
  message = chars message;
  is_validation = false;
})
thrown (error message) =
    other_error
      (record { status_code = none; code = none; message = chars message; is_validation = false })

-- What a handler's failure is answered with; `none` where it does not fail
abbrev pub reply_to {ℓ} : {A : Type ℓ} → Text → Result A → Option Reply
reply_to request_id (err failure) = some (handle_error request_id (thrown failure))
reply_to request_id (ok answer) = none

abbrev pub too_many : Text → ℕ → Reply
too_many request_id seconds = record {
  status = 429;
  retry_after = some seconds;
  code = chars "rate_limited";
  message = chars "too many requests";
  request_id = request_id;
}

over_limit :
    (now : ℕ) (key : Text) (limit : ℕ) (redis : Redis)
    → limit < (incr_expire now (bucket key 60 now) 60 redis).0
    → (limit_per_minute now key limit redis).0 ≡ err (rate_limited (60 - now / 1000 % 60))
unfolding limit_per_minute rate_check
over_limit now key limit redis h =
    let over : leb (incr_expire now (bucket key 60 now) 60 redis).0 limit ≡ false = ground arith in
    rw over refl

-- Where a handler meets a limit that the count of this minute has passed, it goes no further, and
-- the answer is 429 with the header `Retry-After`, which names between 1 and 60 seconds.
pub limit_to_refused {ℓ} :
    {A : Type ℓ} (request_id : Text) (now : ℕ) (key : Text) (limit : ℕ) (s : State)
    (rest : Routed A)
    → limit < (incr_expire now (bucket key 60 now) 60 s.redis).0
    → (seconds : ℕ) × (1 ≤ seconds)
      × (seconds ≤ 60)
      × (reply_to request_id ((limit_to now key limit >> rest) s).0
          ≡ some (too_many request_id seconds))
      × (((limit_to now key limit >> rest) s).1.db ≡ s.db)
unfolding handle_error
limit_to_refused request_id now key limit s rest h =
    go (limit_per_minute now key limit s.redis) (over_limit now key limit s.redis h)
  where
    go :
        (r : Result (Unit {0}) × Redis)
        → r.0 ≡ err (rate_limited (60 - now / 1000 % 60))
        → (seconds : ℕ) × (1 ≤ seconds)
          × (seconds ≤ 60)
          × (reply_to request_id (continued (with_redis s r) (λ _. rest)).0
              ≡ some (too_many request_id seconds))
          × ((continued (with_redis s r) (λ _. rest)).1.db ≡ s.db)
    go (answer, redis) e =
        let seconds = 60 - now / 1000 % 60 in
        let some_left : (seconds == 0) ≡ false = ground arith in
        (seconds, omega arith, omega arith, rw e (rw some_left refl), rw e refl)

module _ (p : Primitives) (rt : Runtime) (limits : Limits) (ulid nonce request_id : Text) (now : ℕ)
    (req : ApiRequest) (b : BindingBody) (key : AuthedKey) (s : State) (db : Db) (redis : Redis)
    (reason : String) where
  start_binding_of_bad_phone :
      normalize_phone rt b.phone rt.config.default_phone_region ≡ err (phone_error reason)
      → start_binding rt ulid nonce now (binding_input key b) db ≡ err (phone_error reason)
  unfolding start_binding
  start_binding_of_bad_phone bad = rw bad refl

  checked_shape : is_binding_body b ≡ true → checked_binding_body (some b) ≡ ok b
  checked_shape shaped = rw (checked_binding_body, shaped) refl

  -- A backend that starts a binding, is within its limit and sends a body that has its shape is
  -- answered 500 where the number is not one that `normalizePhone` takes.
  pub post_bindings_of_bad_phone :
      require_key p now req.authorization (secret ∷ []) s.db ≡ (ok key, db)
      → limit_per_minute now
          (chars "phone_binding_start:app:" ++ key.app_id)
          limits.bindings_per_app
          s.redis
        ≡ (ok tt, redis)
      → is_binding_body b ≡ true
      → normalize_phone rt b.phone rt.config.default_phone_region ≡ err (phone_error reason)
      → reply_to request_id (post_bindings p rt limits ulid nonce now req (some b) s).0
        ≡ some (internal_error request_id)
  unfolding post_bindings handle_error
  post_bindings_of_bad_phone authed within shaped bad =
      rw (authed, within, checked_shape shaped, start_binding_of_bad_phone bad) refl
