-- ===== src/Verification.antt =====
-- apps/server/src/services/verifications.ts, its parts that work on an existing verification: lazy
-- expiry, reading, cancelling, and the check of a purpose. Children: `Start` creates one, `Hosted`
-- serves the hosted page.
pub mod Start
pub mod Hosted
use syrotp.Prelude.{
  ℕ, Text, chars, same, length, all, any, Bool, true, false, not, ◌&&◌, ◌||◌, List, [], ◌∷◌, Option,
  none, some, select, find, update, returning, ◌==◌, leb, is_digit, is_upper, is_lower,
  if◌then◌else◌,
}
use syrotp.Errors.{
  Result, ok, err, not_found, conflict, bad_request, or_throw, require, ◌>>=◌, ◌>>◌,
}
use syrotp.Schema.{Db, Verification, VerificationStatus}
use syrotp.Runtime.{Runtime, VerificationEventType}
use syrotp.Phone.{mask_phone}
use syrotp.Webhook.{emit_verification_event_in_tx, build_verification_event_data}

pub record PublicVerification : Type 0 where
  pub id : Text
  pub status : VerificationStatus
  pub phone_masked : Text
  pub send_to : Option Text
  pub message : Option Text
  pub client_ref : Option Text
  pub purpose : Text
  pub verified_at : Option ℕ
  pub expires_at : ℕ
  pub created_at : ℕ
  pub attempts : ℕ

abbrev pub is_pending : VerificationStatus → Bool
is_pending VerificationStatus.pending = true
is_pending _ = false

abbrev pub is_pending_row : Verification → Bool
is_pending_row v = is_pending v.status

-- The webhook event that goes with an update whose `RETURNING` gave `rows`: one, for the first row.
unfoldable pub emit_for :
    Runtime → (ℕ → Text) → ℕ → VerificationEventType → List Verification → Db → Db
emit_for rt ulids now event_type [] tx = tx
emit_for rt ulids now event_type (row ∷ rows) tx =
    emit_verification_event_in_tx rt ulids now event_type row.app_id
      (build_verification_event_data row event_type) tx

abbrev pub is_pending_id : Text → Verification → Bool
is_pending_id id v = same v.id id && is_pending v.status

abbrev pub set_expired : Verification → Verification
set_expired v = record v { status = VerificationStatus.expired }

-- The transaction of `lazyExpireAndEmit`.
unfoldable pub lazy_expire_and_emit : Runtime → (ℕ → Text) → ℕ → Text → Db → Db
lazy_expire_and_emit rt ulids now id db =
    emit_for rt ulids now VerificationEventType.expired
      (returning (is_pending_id id) set_expired db.verifications)
      (record db { verifications = update (is_pending_id id) set_expired db.verifications })

-- A pending row past its time
abbrev pub is_overdue : ℕ → Verification → Bool
is_overdue now v = is_pending v.status && leb v.expires_at now

abbrev pub shown_status : ℕ → Verification → VerificationStatus
shown_status now v = if is_overdue now v then VerificationStatus.expired else v.status

abbrev pub is_of : Text → Text → Verification → Bool
is_of app_id id v = same v.id id && same v.app_id app_id

abbrev pub public_view : ℕ → Verification → PublicVerification
public_view now row = record {
  id = row.id;
  status = shown_status now row;
  phone_masked = mask_phone row.phone_e164;
  send_to = none;
  message = none;
  client_ref = row.client_ref;
  purpose = row.purpose;
  verified_at = row.verified_at;
  expires_at = row.expires_at;
  created_at = row.created_at;
  attempts = row.attempts;
}

-- The answer, and the database once the background expiry has run.
unfoldable pub get_verification :
    Runtime → (ℕ → Text) → ℕ → Text → Text → Db → Result (PublicVerification × Db)
get_verification rt ulids now app_id id db = do
  row ← or_throw (find (is_of app_id id) db.verifications) (not_found "verification")
  ok (
    public_view now row,
    if is_overdue now row then lazy_expire_and_emit rt ulids now id db else db,
  )

abbrev pub is_cancellable : Text → Text → Verification → Bool
is_cancellable app_id id v = same v.id id && same v.app_id app_id && is_pending v.status

abbrev pub set_cancelled : ℕ → Verification → Verification
set_cancelled now v = record v { status = VerificationStatus.cancelled; cancelled_at = some now }

-- The transaction of `cancelVerification`.
unfoldable pub cancel_tx : Runtime → (ℕ → Text) → ℕ → Text → Text → Db → Result Db
cancel_tx rt ulids now app_id id db =
    if any (is_cancellable app_id id) db.verifications
    then ok (
        emit_for rt ulids now VerificationEventType.cancelled
          (returning (is_cancellable app_id id) (set_cancelled now) db.verifications)
          (record db {
            verifications = update (is_cancellable app_id id) (set_cancelled now) db.verifications;
          }))
    else if any (is_of app_id id) db.verifications
    then err (conflict "not_pending" "verification is not pending")
    else err (not_found "verification")

-- `later` is the clock of the read that follows the transaction, `ulids'` its identifiers.
unfoldable pub cancel_verification :
    Runtime
    → (ulids ulids' : ℕ → Text) → (now later : ℕ) → Text
    → Text
    → Db
    → Result (PublicVerification × Db)
cancel_verification rt ulids ulids' now later app_id id db = do
  db' ← cancel_tx rt ulids now app_id id db
  get_verification rt ulids' later app_id id db'

-- `[a-zA-Z0-9_\-:.]`
abbrev pub is_purpose_char : ℕ → Bool
is_purpose_char c =
    is_lower c || is_upper c || is_digit c || c == b'_' || c == b'-' || c == b':' || c == b'.'

unfoldable pub validate_purpose : Text → Result (Unit {0})
validate_purpose p =
    require (leb 2 (length p) && leb (length p) 64 && all is_purpose_char p)
      (bad_request "invalid_purpose" "purpose must be 2-64 chars matching [a-zA-Z0-9_-:.]")
