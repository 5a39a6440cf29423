-- ===== src/Matching.antt =====
-- apps/server/src/services/matching.ts: an inbound SMS is stored once, and claims the verification
-- or the binding that it answers.
use syrotp.Prelude.{
  ℕ, suc, ◌+◌, Text, same, take, any, Bool, ◌&&◌, [], ◌∷◌, ◌++◌, Option, none, some, find, update,
  returning, ltb, if◌then◌else◌,
}
use syrotp.Errors.{Failure, Result, ok, err, unique_violation}
use syrotp.Schema.{Db, Verification, VerificationStatus, InboundSms}
use syrotp.Runtime.{Runtime, VerificationEventType, new_id, inbound_prefix}
use syrotp.Phone.{NormalizedPhone, normalize_phone}
use syrotp.Verification.{is_pending, emit_for}
use syrotp.Extract.{extract_bind_nonce, extract_code}
use syrotp.Binding.{ConsumeBindNonceOutcome, matched, missed, consume_bind_nonce}

pub record MatchInput : Type 0 where
  pub receiver_id : Text
  pub receiver_msisdn : Text
  pub from : Text
  pub to : Text
  pub body : Text
  pub received_at : ℕ
  pub idempotency_key : Text

pub data UnmatchedReason : Type 0 where
  no_match expired binding_no_match : UnmatchedReason

pub data MatchOutcome : Type 0 where
  verification_matched : (verification_id inbound_id : Text) → MatchOutcome
  binding_matched : (binding_id inbound_id : Text) → MatchOutcome
  unmatched : UnmatchedReason → (inbound_id : Text) → MatchOutcome
  duplicate : (inbound_id : Text) → MatchOutcome

abbrev from_or_raw : Text → Result NormalizedPhone → Text
from_or_raw raw (ok phone) = phone.e164
from_or_raw raw (err e) = take 32 raw

-- The sender, normalised where that succeeds
unfoldable pub sender : Runtime → Text → Text
sender rt from = from_or_raw from (normalize_phone rt from rt.config.default_phone_region)

abbrev pub is_same_delivery : Text → Text → InboundSms → Bool
is_same_delivery receiver_id key s = same s.receiver_id receiver_id && same s.idempotency_key key

-- The insert of an inbound row, with the primary key and `inbound_sms_idem_uq`.
unfoldable pub insert_inbound : InboundSms → Db → Result Db
insert_inbound row db =
    if any (λ s. same s.id row.id) db.inbound_sms
    then err (unique_violation "inbound_sms_pkey")
    else if any (is_same_delivery row.receiver_id row.idempotency_key) db.inbound_sms
    then err (unique_violation "inbound_sms_idem_uq")
    else ok (record db { inbound_sms = db.inbound_sms ++ row ∷ [] })

abbrev pub link_inbound : Text → Option Text → Db → Db
link_inbound inbound_id target db = record db {
  inbound_sms =
      update (λ s. same s.id inbound_id) (λ s. record s { matched_verification_id = target })
        db.inbound_sms;
}

abbrev pub is_claimable : ℕ → Text → Text → Text → Verification → Bool
is_claimable now receiver_id from code v =
    same v.receiver_id receiver_id
    && same v.phone_e164 from
    && same v.code code
    && is_pending v.status
    && ltb now v.expires_at

abbrev pub set_verified : ℕ → Text → Verification → Verification
set_verified now inbound_id v = record v {
  status = VerificationStatus.verified;
  verified_at = some now;
  matched_inbound_id = some inbound_id;
  attempts = v.attempts + 1;
}

-- The row that the sub-select picked is claimed by its id, whatever else has that id.
unfoldable pub claim_row :
    Runtime → (ℕ → Text) → ℕ → Text → Db → Option Verification → Option Verification × Db
claim_row rt ulids now inbound_id db none = (none, db)
claim_row rt ulids now inbound_id db (some v) = (
  some (set_verified now inbound_id v),
  link_inbound inbound_id (some v.id) (
      emit_for rt ulids now VerificationEventType.verified
        (returning (λ w. same w.id v.id) (set_verified now inbound_id) db.verifications)
        (record db {
          verifications =
              update (λ w. same w.id v.id) (set_verified now inbound_id) db.verifications;
        })),
)

-- The transaction that claims a verification, with its event and the link from the inbound row.
unfoldable pub claim_tx :
    Runtime → (ℕ → Text) → ℕ → Text → Text → Text → Text → Db → Option Verification × Db
unfolding claim_row
claim_tx rt ulids now inbound_id receiver_id from code db =
    claim_row rt ulids now inbound_id db
      (find (is_claimable now receiver_id from code) db.verifications)

-- After the insert: a message that is no binding.
abbrev pub verify_outcome : Text → Option Verification × Db → Db × Result MatchOutcome
verify_outcome inbound_id (none, db) =
    (link_inbound inbound_id none db, ok (unmatched no_match inbound_id))
verify_outcome inbound_id (some v, db) = (db, ok (verification_matched v.id inbound_id))

unfoldable pub match_code :
    Runtime
    → (ℕ → Text)
    → ℕ
    → MatchInput
    → Text
    → Text
    → Option Text
    → Db
    → Db × Result MatchOutcome
match_code rt ulids now input inbound_id from none db = (db, ok (unmatched no_match inbound_id))
match_code rt ulids now input inbound_id from (some code) db =
    verify_outcome inbound_id (claim_tx rt ulids now inbound_id input.receiver_id from code db)

-- After the insert: a binding message. What the update throws is not caught, and the row stays.
abbrev pub binding_outcome :
    Text → Db → Result (ConsumeBindNonceOutcome × Db) → Db × Result MatchOutcome
binding_outcome inbound_id db (err e) = (db, err e)
binding_outcome inbound_id db (ok (matched binding_id app_id, db')) =
    (link_inbound inbound_id (some binding_id) db', ok (binding_matched binding_id inbound_id))
binding_outcome inbound_id db (ok (missed reason, db')) =
    (db', ok (unmatched binding_no_match inbound_id))

unfoldable pub match_body :
    Runtime
    → (ℕ → Text)
    → ℕ
    → MatchInput
    → Text
    → Text
    → Option Text
    → Db
    → Db × Result MatchOutcome
match_body rt ulids now input inbound_id from none db =
    match_code rt ulids now input inbound_id from (extract_code rt input.body) db
match_body rt ulids now input inbound_id from (some nonce) db = binding_outcome inbound_id db (
    consume_bind_nonce now
      (record { receiver_id = input.receiver_id; from_e164 = from; nonce = nonce }) db)

-- The catch of the insert: the row of an earlier delivery, or else the error again.
abbrev pub stored_before : Failure → Option InboundSms → Result MatchOutcome
stored_before e none = err e
stored_before e (some prior) = ok (duplicate prior.id)

abbrev pub inbound_row : ℕ → Text → Text → MatchInput → InboundSms
inbound_row now inbound_id from input = record {
  id = inbound_id;
  receiver_id = input.receiver_id;
  from_e164 = from;
  to_msisdn = input.to;
  body = take 1600 input.body;
  received_at = input.received_at;
  idempotency_key = input.idempotency_key;
  matched_verification_id = none;
  created_at = now;
}

-- What follows the insert, by whether it threw.
unfoldable pub handle_insert :
    Runtime → (ℕ → Text) → ℕ → MatchInput → Text → Text → Db → Result Db → Db × Result MatchOutcome
handle_insert rt ulids now input inbound_id from db (err e) = (
  db,
  stored_before e (find (is_same_delivery input.receiver_id input.idempotency_key) db.inbound_sms),
)
handle_insert rt ulids now input inbound_id from db (ok db') =
    match_body rt (λ n. ulids (suc n)) now input inbound_id from (extract_bind_nonce rt input.body)
      db'

-- `ulids 0` names the inbound row, the later ones the event and its deliveries. The database is
-- returned with an error too: what was written before a throw outside a transaction stays.
unfoldable pub process_inbound :
    Runtime → (ℕ → Text) → ℕ → MatchInput → Db → Db × Result MatchOutcome
unfolding handle_insert
process_inbound rt ulids now input db =
    let from = sender rt input.from in
    let inbound_id = new_id inbound_prefix (ulids 0) in
    handle_insert rt ulids now input inbound_id from db
      (insert_inbound (inbound_row now inbound_id from input) db)
