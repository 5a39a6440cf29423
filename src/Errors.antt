-- ===== src/Errors.antt =====
-- lib/errors.ts and what else a call can throw, as values: apps/server/src/lib/errors.ts,
-- the `PhoneError` of lib/phone.ts and the unique violations of the database driver.
use Prim.Native.String
use syrotp.Prelude.{
  ℕ, String, Text, chars, Option, none, some, ◌≡◌, refl, Bool, ap, if◌then◌else◌, ◌⊎◌, inl, inr,
}

pub record ApiError : Type 0 where
  pub status_code : ℕ
  pub code : String
  pub message : Text
  -- `details.retry_after`, which `rateLimited` alone sets
  pub retry_after : Option ℕ

pub data Failure : Type 0 where
  api : ApiError → Failure
  -- a 23505, with the driver's `constraint_name`
  unique_violation : String → Failure
  phone_error : String → Failure
  -- lib/ssrfGuard.ts: `WebhookValidationError`
  webhook_validation_error : (code message : String) → Failure
  -- an `Error` of no class of the server's, such as a package throws
  error : (message : String) → Failure

-- What an `async` function settles to
pub data Result {κ} (X : Type κ) : Type κ where
  err : Failure → Result X
  ok : X → Result X

-- `await`
infixl 5 ◌>>=◌
abbrev pub ◌>>=◌ {κ ℓ} :
    {X : Type κ} {Y : Type ℓ} → (call : Result X) → (rest : X → Result Y) → Result Y
err failure >>= rest = err failure
ok answer >>= rest = rest answer

-- `if (!test) throw failure`
abbrev pub require : (test : Bool) → (failure : Failure) → Result (Unit {0})
require test failure = if test then ok tt else err failure

infixl 5 ◌>>◌
abbrev pub ◌>>◌ {ℓ} : {Y : Type ℓ} → (guard : Result (Unit {0})) → (rest : Result Y) → Result Y
guard >> rest = guard >>= (λ done. rest)

-- `if (!row) throw e`
abbrev pub or_throw {ℓ} : {A : Type ℓ} → Option A → Failure → Result A
or_throw none e = err e
or_throw (some a) e = ok a

abbrev pub api_error : ℕ → String → String → Failure
api_error status_code code message =
    api (record {
      status_code = status_code;
      code = code;
      message = chars message;
      retry_after = none;
    })

abbrev pub bad_request : String → String → Failure
bad_request = api_error 400

-- `badRequest` with a message that is made of the input
abbrev pub bad_request_with : String → Text → Failure
bad_request_with code message =
    api (record { status_code = 400; code = code; message = message; retry_after = none })

abbrev pub phone_not_bound : Failure
phone_not_bound =
    api_error 403 "phone_not_bound"
      "phone is not bound to this app; complete the phone-binding ceremony first"

abbrev pub unauthorized : String → Failure
unauthorized = api_error 401 "unauthorized"

abbrev pub forbidden : String → Failure
forbidden = api_error 403 "forbidden"

abbrev pub not_found : String → Failure
not_found resource = api_error 404 "not_found" (String.◌++◌ resource " not found")

abbrev pub conflict : String → String → Failure
conflict = api_error 409

abbrev pub rate_limited : ℕ → Failure
rate_limited retry_after = api (record {
  status_code = 429;
  code = "rate_limited";
  message = chars "too many requests";
  retry_after = some retry_after;
})

abbrev pub service_unavailable : String → String → Failure
service_unavailable = api_error 503

-- What a chain that succeeds has done.
pub >>=-eq-ok {κ ℓ} :
    {X : Type κ} {Y : Type ℓ} (call : Result X) (rest : X → Result Y) {out : Y}
    → (call >>= rest) ≡ ok out
    → (answer : X) × (call ≡ ok answer) × (rest answer ≡ ok out)
>>=-eq-ok (err failure) rest e = cc
>>=-eq-ok (ok answer) rest e = (answer, refl, e)

value_or {ℓ} : {A : Type ℓ} → A → Result A → A
value_or d (ok a) = a
value_or d (err e) = d

pub ok-injective {ℓ} : {A : Type ℓ} {a b : A} → ok a ≡ ok b → a ≡ b
unfolding value_or
ok-injective {a} e = ap (value_or a) e

pub Result-cases {ℓ} :
    {A : Type ℓ} (r : Result A) → ((a : A) × (r ≡ ok a)) ⊎ ((e : Failure) × (r ≡ err e))
Result-cases (ok a) = inl (a, refl)
Result-cases (err e) = inr (e, refl)

pub ok-pair {ℓ κ} :
    {A : Type ℓ} {B : Type κ} (p q : A × B) → ok p ≡ ok q → (p.0 ≡ q.0) × (p.1 ≡ q.1)
ok-pair p q e = let same = ok-injective e in (ap (λ r. r.0) same, ap (λ r. r.1) same)
