-- ===== src/Binding.antt =====
-- apps/server/src/services/phoneBindings.ts: the ceremony that binds a phone to an app, with the
-- partial unique index `phone_bindings_active_uq` of migrations/0005_phone_bindings.sql.
pub mod Ceremony
use syrotp.Prelude.{
  ℕ, ◌+◌, ◌*◌, ◌%◌, Text, chars, same, length, drop, all, any, map, get_elem?, or_else, trim,
  strip_spaces, starts_with, is_upper, is_digit, Bool, true, false, not, ◌&&◌, ◌||◌, List, [], ◌∷◌,
  ◌++◌, Option, none, some, find, count, update, returning, ltb, leb, if◌then◌else◌,
}
use syrotp.Errors.{
  Result, ok, err, unique_violation, not_found, conflict, or_throw, require, ◌>>=◌, ◌>>◌,
}
use syrotp.Schema.{Db, Receiver, PhoneBinding, PhoneBindingStatus}
use syrotp.Runtime.{Runtime, new_id, phone_binding_prefix}
use syrotp.Phone.{normalize_phone}
use syrotp.Verification.Start.{is_verified, is_bound}

abbrev pub nonce_alphabet : Text
nonce_alphabet = chars "ABCDEFGHJKLMNPQRSTUVWXYZ23456789"

-- One character for each of the 24 random bytes
unfoldable pub generate_nonce : List ℕ → Text
generate_nonce bytes = map (λ b. or_else (get_elem? nonce_alphabet (b % 32)) 0) bytes

pub record StartBindingInput : Type 0 where
  pub app_id : Text
  pub receiver_id : Text
  pub phone : Text

pub record StartBindingResult : Type 0 where
  pub binding : PhoneBinding
  pub send_to : Text
  pub bind_message : Text

abbrev pub is_receiver_of : Text → Text → Receiver → Bool
is_receiver_of app_id id r = same r.id id && same r.app_id app_id

abbrev pub new_binding : Runtime → Text → Text → ℕ → StartBindingInput → Text → PhoneBinding
new_binding rt id nonce now input phone = record {
  id = id;
  app_id = input.app_id;
  receiver_id = input.receiver_id;
  phone_e164 = phone;
  status = PhoneBindingStatus.pending;
  nonce = nonce;
  expires_at = now + rt.config.phone_binding_ttl_seconds * 1000;
  bound_at = none;
  revoked_at = none;
  created_at = now;
}

-- `ulid` and `nonce` are what `ulid()` and `generateNonce()` return.
unfoldable pub start_binding :
    Runtime → (ulid nonce : Text) → ℕ → StartBindingInput → Db → Result (StartBindingResult × Db)
start_binding rt ulid nonce now input db = do
  phone ← normalize_phone rt input.phone rt.config.default_phone_region
  r ←
      or_throw (find (is_receiver_of input.app_id input.receiver_id) db.receivers)
        (not_found "receiver")
  require r.enabled (conflict "receiver_disabled" "receiver is disabled")
  require (not (any (is_bound input.app_id phone.e164) db.phone_bindings)) (
      conflict "already_bound" "phone is already verified-bound; revoke the existing binding first")
  let id = new_id phone_binding_prefix ulid
  require (not (any (λ b. same b.id id) db.phone_bindings)) (unique_violation "phone_bindings_pkey")
  let row = new_binding rt id nonce now input phone.e164
  ok (
    record { binding = row; send_to = r.msisdn; bind_message = chars "BIND " ++ nonce },
    record db { phone_bindings = db.phone_bindings ++ row ∷ [] },
  )

abbrev pub is_binding : Text → Text → PhoneBinding → Bool
is_binding app_id id b = same b.id id && same b.app_id app_id

unfoldable pub get_binding : Text → Text → Db → Result PhoneBinding
get_binding app_id id db =
    or_throw (find (is_binding app_id id) db.phone_bindings) (not_found "phone_binding")

abbrev pub set_revoked : ℕ → PhoneBinding → PhoneBinding
set_revoked now b = record b { status = PhoneBindingStatus.revoked; revoked_at = some now }

abbrev pub first_row : List PhoneBinding → Option PhoneBinding
first_row [] = none
first_row (b ∷ bs) = some b

unfoldable pub revoke_binding : ℕ → Text → Text → Db → Result (PhoneBinding × Db)
revoke_binding now app_id id db = do
  row ←
      or_throw (first_row (returning (is_binding app_id id) (set_revoked now) db.phone_bindings))
        (not_found "phone_binding")
  ok (
    row,
    record db {
      phone_bindings = update (is_binding app_id id) (set_revoked now) db.phone_bindings;
    },
  )

pub record ConsumeBindNonceInput : Type 0 where
  pub receiver_id : Text
  pub from_e164 : Text
  pub nonce : Text

pub data MissReason : Type 0 where
  no_match expired phone_mismatch already_consumed : MissReason

pub data ConsumeBindNonceOutcome : Type 0 where
  matched : (binding_id app_id : Text) → ConsumeBindNonceOutcome
  missed : MissReason → ConsumeBindNonceOutcome

abbrev pub is_pending_binding : PhoneBindingStatus → Bool
is_pending_binding PhoneBindingStatus.pending = true
is_pending_binding _ = false

abbrev pub is_consumable : ℕ → ConsumeBindNonceInput → PhoneBinding → Bool
is_consumable now input b =
    same b.nonce input.nonce
    && is_pending_binding b.status
    && same b.receiver_id input.receiver_id
    && same b.phone_e164 input.from_e164
    && ltb now b.expires_at

abbrev pub set_bound : ℕ → PhoneBinding → PhoneBinding
set_bound now b = record b { status = PhoneBindingStatus.verified; bound_at = some now }

-- Two verified rows of one (app_id, phone_e164), which the partial unique index refuses
abbrev pub breaks_active_uq : List PhoneBinding → Bool
breaks_active_uq table =
    any (λ b. is_verified b.status && ltb 1 (count (is_bound b.app_id b.phone_e164) table)) table

abbrev pub probe : ℕ → ConsumeBindNonceInput → Option PhoneBinding → MissReason
probe now input none = no_match
probe now input (some p) =
    if not (is_pending_binding p.status)
    then already_consumed
    else if leb p.expires_at now
    then expired
    else if not (same p.receiver_id input.receiver_id) || not (same p.phone_e164 input.from_e164)
    then phone_mismatch
    else no_match

-- The outcome, given the rows that the conditional update returned.
unfoldable pub consumed :
    ℕ → ConsumeBindNonceInput → List PhoneBinding → List PhoneBinding → ConsumeBindNonceOutcome
consumed now input table [] = missed (probe now input (find (λ b. same b.nonce input.nonce) table))
consumed now input table (row ∷ rows) = matched row.id row.app_id

unfoldable pub consume_bind_nonce :
    ℕ → ConsumeBindNonceInput → Db → Result (ConsumeBindNonceOutcome × Db)
unfolding consumed
consume_bind_nonce now input db =
    let table = update (is_consumable now input) (set_bound now) db.phone_bindings in
    let claimed = returning (is_consumable now input) (set_bound now) db.phone_bindings in
    if breaks_active_uq table
    then err (unique_violation "phone_bindings_active_uq")
    else ok (consumed now input table claimed, record db { phone_bindings = table })
