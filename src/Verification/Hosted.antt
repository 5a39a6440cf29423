-- ===== src/Verification/Hosted.antt =====
-- The hosted page's two reads in apps/server/src/services/verifications.ts, by id alone.
use syrotp.Prelude.{ℕ, Text, chars, same, Bool, Option, none, some, find, ◌++◌, if◌then◌else◌}
use syrotp.Schema.{Db, Verification, VerificationStatus}
use syrotp.Runtime.{Runtime}
use syrotp.Phone.{mask_phone}
use syrotp.Verification.{is_pending, is_overdue, shown_status, lazy_expire_and_emit}

pub record HostedVerification : Type 0 where
  pub id : Text
  pub status : VerificationStatus
  pub phone_masked : Text
  pub expires_at : ℕ
  pub created_at : ℕ
  pub verified_at : Option ℕ
  pub send_to : Option Text
  pub message : Option Text

pub record HostedVerificationStatus : Type 0 where
  pub status : VerificationStatus
  pub expires_at : ℕ
  pub verified_at : Option ℕ

abbrev pub has_id : Text → Verification → Bool
has_id id v = same v.id id

-- the left join with the receiver
abbrev pub joined_msisdn : Db → Verification → Option Text
joined_msisdn db row = elim (find (λ r. same r.id row.receiver_id) db.receivers) [
  | none ↦ none
  | some (r) ↦ some r.msisdn
]

abbrev pub effective_msisdn : Db → Verification → Option Text
effective_msisdn db row = elim row.receiver_msisdn_snapshot [
  | some m ↦ some m
  | none ↦ joined_msisdn db row
]

abbrev pub hosted_view : ℕ → Db → Verification → HostedVerification
hosted_view now db row =
    let shown = is_pending (shown_status now row) in
    record {
      id = row.id;
      status = shown_status now row;
      phone_masked = mask_phone row.phone_e164;
      expires_at = row.expires_at;
      created_at = row.created_at;
      verified_at = row.verified_at;
      send_to = if shown then effective_msisdn db row else none;
      message = if shown then some (row.message_prefix ++ (chars " " ++ row.code)) else none;
    }

abbrev expire_if_overdue : Runtime → (ℕ → Text) → ℕ → Text → Verification → Db → Db
expire_if_overdue rt ulids now id row db =
    if is_overdue now row then lazy_expire_and_emit rt ulids now id db else db

-- Nothing where no row has the id; else the view, and the database after the background expiry.
unfoldable pub get_hosted_verification :
    Runtime → (ℕ → Text) → ℕ → Text → Db → Option (HostedVerification × Db)
get_hosted_verification rt ulids now id db = elim (find (has_id id) db.verifications) [
  | none ↦ none
  | some row ↦ some (hosted_view now db row, expire_if_overdue rt ulids now id row db)
]

unfoldable pub get_hosted_verification_status :
    Runtime → (ℕ → Text) → ℕ → Text → Db → Option (HostedVerificationStatus × Db)
get_hosted_verification_status rt ulids now id db = elim (find (has_id id) db.verifications) [
  | none ↦ none
  | some row ↦ some (
    record {
      status = shown_status now row;
      expires_at = row.expires_at;
      verified_at = row.verified_at;
    },
    expire_if_overdue rt ulids now id row db,
  )
]
