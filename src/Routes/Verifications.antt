-- ===== src/Routes/Verifications.antt =====
-- apps/server/src/routes/verifications.ts: starting, reading and cancelling a verification.
use syrotp.Prelude.{
  ℕ, Text, chars, length, drop, all, starts_with, is_digit, is_upper, is_lower, Bool, true, false,
  ◌&&◌, ◌||◌, [], ◌∷◌, ◌++◌, Option, none, some, leb, ◌==◌,
}
use syrotp.Errors.{Failure, Result, ok, err, phone_error, bad_request, not_found, require}
use syrotp.Schema.{public, secret}
use syrotp.Runtime.{Runtime}
use syrotp.Crypto.{Primitives}
use syrotp.Phone.{NormalizedPhone, normalize_phone}
use syrotp.Verification.{
  PublicVerification, validate_purpose, get_verification, cancel_verification,
}
use syrotp.Verification.Start.{StartVerificationInput, start_verification}
use syrotp.ApiKeys.{AuthedKey, require_key}
use syrotp.Gateway.{is_alphanumeric}
use syrotp.Routes.{Limits}
use syrotp.Routes.Inbound.{is_within}
use syrotp.Routes.Routed.{Routed, ◌>>=◌, ◌>>◌, on_db, on_commit, lift, limit_to}

-- What `startBody` reads, before the checks on the lengths
pub record StartBody : Type 0 where
  pub phone : Text
  pub purpose : Text
  pub client_ref : Option Text
  pub locale : Option Text
  pub operator : Option Text

abbrev pub is_at_most : ℕ → Option Text → Bool
is_at_most most none = true
is_at_most most (some s) = leb (length s) most

-- `[a-zA-Z0-9_-]`
abbrev pub is_operator_char : ℕ → Bool
is_operator_char c = is_lower c || is_upper c || is_digit c || c == b'_' || c == b'-'

abbrev pub is_operator : Option Text → Bool
is_operator none = true
is_operator (some s) = is_within 1 32 s && all is_operator_char s

abbrev pub is_start_body : StartBody → Bool
is_start_body b =
    is_within 5 20 b.phone
    && is_within 2 64 b.purpose
    && is_at_most 128 b.client_ref
    && is_at_most 16 b.locale
    && is_operator b.operator

pub record ApiRequest : Type 0 where
  pub authorization : Option Text
  pub ip : Text

abbrev pub invalid_body : Failure
invalid_body = bad_request "validation_error" "invalid request body"

abbrev pub checked_body : Option StartBody → Result StartBody
checked_body none = err invalid_body
checked_body (some b) = elim (is_start_body b) [ true ↦ ok b | false ↦ err invalid_body ]

-- A `PhoneError` becomes a 400 with its code.
abbrev pub as_bad_request {ℓ} : {A : Type ℓ} → Result A → Result A
as_bad_request (err (phone_error code)) = err (bad_request code "phone is not valid")
as_bad_request (err e) = err e
as_bad_request (ok a) = ok a

abbrev pub start_input : AuthedKey → Text → StartBody → NormalizedPhone → StartVerificationInput
start_input auth ip b phone = record {
  app_id = auth.app_id;
  phone_e164 = phone.e164;
  purpose = b.purpose;
  client_ref = b.client_ref;
  locale = b.locale;
  ip = some ip;
  preferred_operator = b.operator;
}

-- POST /v1/verifications
unfoldable pub post_verifications :
    Primitives
    → Runtime
    → Limits
    → (ulid : Text) → (codes : ℕ → Text) → ℕ
    → ApiRequest
    → Option StartBody
    → Routed PublicVerification
post_verifications p rt limits ulid codes now req body = do
  auth ← on_db (require_key p now req.authorization (public ∷ secret ∷ []))
  limit_to now (chars "start:ip:" ++ req.ip) limits.start_per_ip
  limit_to now (chars "start:app:" ++ auth.app_id) limits.verifications_per_app
  b ← lift (checked_body body)
  lift (validate_purpose b.purpose)
  phone ← lift (as_bad_request (normalize_phone rt b.phone rt.config.default_phone_region))
  on_commit (start_verification rt ulid codes now (start_input auth req.ip b phone))

-- `/^vrf_[A-Za-z0-9]+$/`
abbrev pub is_verification_id : Text → Bool
is_verification_id s = starts_with s (chars "vrf_") && is_alphanumeric (drop 4 s)

-- GET /v1/verifications/:id
unfoldable pub read_verifications :
    Primitives → Runtime → Limits → (ℕ → Text) → ℕ → ApiRequest → Text → Routed PublicVerification
read_verifications p rt limits ulids now req id = do
  auth ← on_db (require_key p now req.authorization (public ∷ secret ∷ []))
  limit_to now (chars "status:ip:" ++ req.ip) limits.status_per_ip
  lift (require (is_verification_id id) (not_found "verification"))
  on_commit (get_verification rt ulids now auth.app_id id)

-- POST /v1/verifications/:id/cancel
unfoldable pub cancel_verifications :
    Primitives
    → Runtime
    → Limits
    → (ulids ulids' : ℕ → Text) → (now later : ℕ) → ApiRequest
    → Text
    → Routed PublicVerification
cancel_verifications p rt limits ulids ulids' now later req id = do
  auth ← on_db (require_key p now req.authorization (secret ∷ []))
  limit_to now (chars "cancel:app:" ++ auth.app_id) limits.cancel_per_app
  lift (require (is_verification_id id) (not_found "verification"))
  on_commit (cancel_verification rt ulids ulids' now later auth.app_id id)
