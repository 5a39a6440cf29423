-- ===== src/Verification/Start.antt =====
-- `startVerification` of apps/server/src/services/verifications.ts, with the choice of a receiver
-- and the retry after a collision of codes; `generateCode` of lib/crypto.ts.
use Prim.Native.String.{String}
use text.Mathlib.Text.{◌==◌ as str_eq}
use syrotp.Prelude.{
  ℕ, zero, suc, ◌+◌, ◌*◌, Text, chars, same, any, map, get_elem?, or_else, Bool, true, false, ◌&&◌,
  ◌||◌, List, [], ◌∷◌, ◌++◌, Option, none, some, select, count, ltb, ◌==◌, if◌then◌else◌,
}
use syrotp.Errors.{
  Failure, Result, ok, err, unique_violation, phone_not_bound, conflict, service_unavailable,
  or_throw, require, ◌>>=◌, ◌>>◌,
}
use syrotp.Schema.{Db, Receiver, Verification, VerificationStatus, PhoneBinding, PhoneBindingStatus}
use syrotp.Runtime.{Runtime, Config, new_id, verification_prefix}
use syrotp.Phone.{mask_phone}
use syrotp.Verification.{PublicVerification, is_pending}

pub record StartVerificationInput : Type 0 where
  pub app_id : Text
  pub phone_e164 : Text
  pub purpose : Text
  pub client_ref : Option Text
  pub locale : Option Text
  pub ip : Option Text
  pub preferred_operator : Option Text

pub data ReceiverMatch : Type 0 where
  preferred fallback unasked : ReceiverMatch

pub record PickedReceiver : Type 0 where
  pub receiver : Receiver
  pub match : ReceiverMatch

abbrev pub is_verified : PhoneBindingStatus → Bool
is_verified PhoneBindingStatus.verified = true
is_verified _ = false

-- The rows that count as a binding of the phone to the app
abbrev pub is_bound : Text → Text → PhoneBinding → Bool
is_bound app_id phone b = same b.app_id app_id && same b.phone_e164 phone && is_verified b.status

abbrev pub pending_at : Text → List Verification → ℕ
pending_at receiver_id vs = count (λ v. same v.receiver_id receiver_id && is_pending v.status) vs

abbrev pub is_fresh : ℕ → ℕ → Option ℕ → Bool
is_fresh now timeout_seconds none = false
is_fresh now timeout_seconds (some at) = ltb now (at + timeout_seconds * 1000)

abbrev has_operator : Option Text → Option Text → Bool
has_operator none _ = true
has_operator (some wanted) none = false
has_operator (some wanted) (some operator) = same operator wanted

abbrev pub is_healthy : Config → ℕ → Text → Option Text → Receiver → Bool
is_healthy config now app_id operator r =
    same r.app_id app_id
    && r.enabled
    && is_fresh now config.receiver_heartbeat_timeout_seconds r.last_heartbeat_at
    && has_operator operator r.operator

-- ORDER BY pending_count ASC, created_at ASC: whether `r` stands strictly before `s`
abbrev pub is_before : List Verification → Receiver → Receiver → Bool
is_before vs r s =
    ltb (pending_at r.id vs) (pending_at s.id vs)
    || (pending_at r.id vs == pending_at s.id vs && ltb r.created_at s.created_at)

-- The first of the rows in that order
unfoldable pub first_of_order : List Verification → List Receiver → Option Receiver
first_of_order vs [] = none
first_of_order vs (r ∷ rs) = elim (first_of_order vs rs) [
  | none ↦ some r
  | some s ↦ if is_before vs s r then some s else some r
]

unfoldable pub run_healthy_receiver_query : Config → ℕ → Text → Option Text → Db → Option Receiver
run_healthy_receiver_query config now app_id operator db =
    first_of_order db.verifications (select (is_healthy config now app_id operator) db.receivers)

-- The empty string counts as no preference.
abbrev pub preference : Option Text → Option Text
preference (some (c ∷ s)) = some (c ∷ s)
preference _ = none

abbrev pub picked : ReceiverMatch → Option Receiver → Option PickedReceiver
picked match none = none
picked match (some r) = some (record { receiver = r; match = match })

unfoldable pub pick_for : Config → ℕ → Text → Option Text → Db → Option PickedReceiver
pick_for config now app_id none db =
    picked ReceiverMatch.unasked (run_healthy_receiver_query config now app_id none db)
pick_for config now app_id (some operator) db =
    elim (run_healthy_receiver_query config now app_id (some operator) db) [
      | some r ↦ some (record { receiver = r; match = ReceiverMatch.preferred })
      | none ↦ picked ReceiverMatch.fallback (run_healthy_receiver_query config now app_id none db)
    ]

unfoldable pub pick_receiver : Config → ℕ → Text → Option Text → Db → Option PickedReceiver
unfolding pick_for
pick_receiver config now app_id preferred_operator db =
    pick_for config now app_id (preference preferred_operator) db

abbrev pub is_pending_for : Text → Text → Verification → Bool
is_pending_for app_id phone v =
    same v.app_id app_id && same v.phone_e164 phone && is_pending v.status

-- the partial unique index (receiver_id, phone_e164, code) WHERE status = 'pending'
abbrev pub is_pending_triple : Text → Text → Text → Verification → Bool
is_pending_triple receiver_id phone code v =
    same v.receiver_id receiver_id
    && same v.phone_e164 phone
    && same v.code code
    && is_pending v.status

abbrev pub pending_uniq : String
pending_uniq = "verifications_pending_uniq"

-- The insert of a pending row, with the primary key and the partial unique index.
unfoldable pub insert_verification : Verification → Db → Result Db
insert_verification row db =
    if any (λ v. same v.id row.id) db.verifications
    then err (unique_violation "verifications_pkey")
    else if any (is_pending_triple row.receiver_id row.phone_e164 row.code) db.verifications
    then err (unique_violation pending_uniq)
    else ok (record db { verifications = db.verifications ++ row ∷ [] })

abbrev pub message_prefix : Text
message_prefix = chars "VERIFY"

abbrev pub new_row : Config → Text → ℕ → StartVerificationInput → Receiver → Text → Verification
new_row config id now input r code = record {
  id = id;
  app_id = input.app_id;
  phone_e164 = input.phone_e164;
  purpose = input.purpose;
  client_ref = input.client_ref;
  locale = input.locale;
  receiver_id = r.id;
  receiver_msisdn_snapshot = some r.msisdn;
  receiver_operator_snapshot = r.operator;
  code = code;
  message_prefix = message_prefix;
  status = VerificationStatus.pending;
  attempts = 0;
  expires_at = now + config.verification_ttl_seconds * 1000;
  verified_at = none;
  cancelled_at = none;
  matched_inbound_id = none;
  created_ip = input.ip;
  created_at = now;
}

-- The transaction under the advisory lock: the cap, the choice of a receiver, the insert.
unfoldable pub start_tx :
    Config → Text → ℕ → StartVerificationInput → Db → Text → Result (PickedReceiver × Db)
unfolding insert_verification
start_tx config id now input db code = do
  require
      (ltb (count (is_pending_for input.app_id input.phone_e164) db.verifications)
        config.max_pending_per_phone)
      (conflict "too_many_pending" "too many pending verifications for this phone")
  picked ←
      or_throw (pick_receiver config now input.app_id input.preferred_operator db)
        (service_unavailable "no_receiver" "no healthy receiver available")
  db' ← insert_verification (new_row config id now input picked.receiver code) db
  ok (picked, db')

abbrev pub max_code_collision_retries : ℕ
max_code_collision_retries = 3

abbrev pub is_pending_code_collision : Failure → Bool
is_pending_code_collision (unique_violation name) = str_eq name pending_uniq
is_pending_code_collision _ = false

abbrev pub collision_failure : Failure
collision_failure =
    service_unavailable "code_generation_collision"
      "could not allocate a unique verification code after multiple attempts; retry the request"

-- The loop of `runWithCodeCollisionRetry`: `codes i` is the code of round `i`, and the result is
-- that of the first attempt that is no collision, with its code.
unfoldable pub retry_from {ℓ} :
    {A : Type ℓ} → (ℕ → Text) → (Text → Result A) → (rounds i : ℕ) → Result (Text × A)
retry_from codes attempt zero i = err collision_failure
retry_from codes attempt (suc rounds) i =
    let rest = retry_from codes attempt rounds (suc i) in
    elim (attempt (codes i)) [
      | ok a ↦ ok (codes i, a)
      | err e ↦ if is_pending_code_collision e then rest else err e
    ]

unfoldable pub run_with_code_collision_retry {ℓ} :
    {A : Type ℓ} → (ℕ → Text) → (Text → Result A) → Result (Text × A)
unfolding retry_from
run_with_code_collision_retry codes attempt = retry_from codes attempt max_code_collision_retries 0

abbrev started : Text → ℕ → ℕ → StartVerificationInput → Text → Text → PublicVerification
started id now expires_at input msisdn code = record {
  id = id;
  status = VerificationStatus.pending;
  phone_masked = mask_phone input.phone_e164;
  send_to = some msisdn;
  message = some (message_prefix ++ (chars " " ++ code));
  client_ref = input.client_ref;
  purpose = input.purpose;
  verified_at = none;
  expires_at = expires_at;
  created_at = now;
  attempts = 0;
}

-- `codes i` is what the i-th call of `generateCode` returns, `ulid` what `ulid()` does.
unfoldable pub start_verification :
    Runtime
    → (ulid : Text) → (codes : ℕ → Text) → (now : ℕ) → StartVerificationInput
    → Db
    → Result (PublicVerification × Db)
start_verification rt ulid codes now input db = do
  require (any (is_bound input.app_id input.phone_e164) db.phone_bindings) phone_not_bound
  let id = new_id verification_prefix ulid
  (code, (picked, db')) ← run_with_code_collision_retry codes (start_tx rt.config id now input db)
  let expires_at = now + rt.config.verification_ttl_seconds * 1000
  ok (started id now expires_at input picked.receiver.msisdn code, db')

abbrev pub code_alphabet : Text
code_alphabet = chars "ABCDEFGHJKMNPQRSTUVWXYZ23456789"

-- One character for each draw of `randomInt(0, 31)`. The length is `VERIFICATION_CODE_LENGTH`,
-- which config.ts holds between 4 and 12, so that the guard on it does not fire.
unfoldable pub generate_code : List ℕ → Text
generate_code draws = map (λ d. or_else (get_elem? code_alphabet d) 0) draws
