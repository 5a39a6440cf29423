-- ===== src/History/Started.antt =====
-- What a start that succeeds has checked, stored and answered.
use mathlib.Core.List.{Mem, mem-cons_self, mem-cons_of_mem}
use syrotp.Prelude.{
  ℕ, ◌+◌, ◌*◌, ◌<◌, ◌≡◌, refl, ◌∙◌, ap, Text, chars, same_iff, same_refl, Bool, true, List, [], ◌∷◌,
  ◌++◌, arith, any, count, find, select, Bool-cases, Option-cases, inl, inr, Option, some, none,
}
use syrotp.Errors.{ok}
use syrotp.Tables.{find-new}
use syrotp.Schema.{Db, Verification, VerificationStatus, Receiver, PhoneBinding, PhoneBindingStatus}
use syrotp.Runtime.{Runtime, Config, new_id, verification_prefix}
use syrotp.Verification.{PublicVerification}
use syrotp.Verification.Hosted.{has_id}
use syrotp.Verification.Start
use syrotp.Verification.Start.{
  ReceiverMatch, StartVerificationInput, PickedReceiver, start_verification, new_row,
  is_pending_for, is_bound, is_verified, is_healthy, is_fresh, preference, first_of_order,
  run_healthy_receiver_query, pick_receiver, pick_for, is_before,
}
use syrotp.History.Handlers.{start_verification-eq-ok}
use syrotp.History.Insert.{start_tx-eq-ok}

-- The receiver that the user sends to
pub record Serves (config : Config) (now : ℕ) (db : Db) (app_id : Text) (r : Receiver)
    : Type 0 where
  pub stored : Mem r db.receivers
  pub app : r.app_id ≡ app_id
  pub enabled : r.enabled ≡ true
  pub heartbeat : ℕ
  pub heard : r.last_heartbeat_at ≡ some heartbeat
  pub recent : now < heartbeat + config.receiver_heartbeat_timeout_seconds * 1000

pub record Started (rt : Runtime) (codes : ℕ → Text) (now : ℕ) (input : StartVerificationInput)
    (db db' : Db) (out : PublicVerification) : Type 0 where
  pub binding : PhoneBinding
  pub bound : Mem binding db.phone_bindings
  pub bound_app : binding.app_id ≡ input.app_id
  pub bound_phone : binding.phone_e164 ≡ input.phone_e164
  pub bound_status : binding.status ≡ PhoneBindingStatus.verified
  pub room :
      count (is_pending_for input.app_id input.phone_e164) db.verifications
      < rt.config.max_pending_per_phone
  pub receiver : Receiver
  pub serves : Serves rt.config now db input.app_id receiver
  pub row : Verification
  pub stored : db' ≡ record db { verifications = db.verifications ++ row ∷ [] }
  pub found : find (has_id out.id) db'.verifications ≡ some row
  pub draw : ℕ
  pub code : row.code ≡ codes draw
  pub message : out.message ≡ some (chars "VERIFY " ++ row.code)
  pub send_to : out.send_to ≡ some receiver.msisdn
  pub receiver_id : row.receiver_id ≡ receiver.id
  pub app : row.app_id ≡ input.app_id
  pub phone : row.phone_e164 ≡ input.phone_e164
  pub status : row.status ≡ VerificationStatus.pending
  pub expiry : row.expires_at ≡ now + rt.config.verification_ttl_seconds * 1000
  pub shown_expiry : out.expires_at ≡ row.expires_at

-- A row that passes a test is there where one does.
Mem-of_any :
    (p : PhoneBinding → Bool) (xs : List PhoneBinding)
    → any p xs ≡ true
    → (b : PhoneBinding) × Mem b xs × (p b ≡ true)
Mem-of_any p [] h = cc
Mem-of_any p (x ∷ xs) h = elim (Bool-cases (p x)) [
  | inl y ↦ (x, mem-cons_self, y)
  | inr n ↦ let (b, there, e) = Mem-of_any p xs (rw n at h) in (b, mem-cons_of_mem x there, e)
]

verified_status : (s : PhoneBindingStatus) → is_verified s ≡ true → s ≡ PhoneBindingStatus.verified
verified_status s h = ground arith

-- The first in the order is a row of the selection.
first_of_selection :
    (vs : List Verification) (p : Receiver → Bool) (rs : List Receiver) (r : Receiver)
    → first_of_order vs (select p rs) ≡ some r
    → Mem r rs × (p r ≡ true)
unfolding first_of_order
first_of_selection vs p [] r e = cc
first_of_selection vs p (x ∷ rs) r e = elim (Bool-cases (p x)) [
  | inr n ↦
      let (there, passes) = first_of_selection vs p rs r (rw n at e) in
      (mem-cons_of_mem x there, passes)
  | inl y ↦ elim (Option-cases (first_of_order vs (select p rs))) [
    | inl last ↦
        let it : some x ≡ some r = rw (last, first_of_order) at (rw y at e) in chosen x it y
    | inr (s, later) ↦
        let (there, passes) = first_of_selection vs p rs s later in
        let e' = rw (later, first_of_order) at (rw y at e) in
        elim (Bool-cases (is_before vs s x)) [
          | inl before ↦
              let it : s ≡ r = ground (arith, rw before at e') in
              (rw (← it) (mem-cons_of_mem x there), rw (← it) passes)
          | inr after ↦ chosen x (rw after at e') y
        ]
  ]
]
  where
    chosen : (z : Receiver) → some z ≡ some r → p z ≡ true → Mem r (z ∷ rs) × (p r ≡ true)
    chosen z h y = let it : z ≡ r = ground arith in (rw it mem-cons_self, rw (← it) y)

heartbeat_of :
    (now timeout_seconds : ℕ) (last : Option ℕ)
    → is_fresh now timeout_seconds last ≡ true
    → (at : ℕ) × (last ≡ some at) × (now < at + timeout_seconds * 1000)
heartbeat_of now timeout_seconds none h = cc
heartbeat_of now timeout_seconds (some at) h = (at, refl, ground arith)

healthy-Serves :
    (config : Config) (now : ℕ) (app_id : Text) (operator : Option Text) (db : Db) (r : Receiver)
    → run_healthy_receiver_query config now app_id operator db ≡ some r
    → Serves config now db app_id r
unfolding run_healthy_receiver_query
healthy-Serves config now app_id operator db r e =
    let (there, passes) =
      first_of_selection db.verifications (is_healthy config now app_id operator) db.receivers r
        e in
    let (at, heard, recent) =
      heartbeat_of now config.receiver_heartbeat_timeout_seconds r.last_heartbeat_at
        (ground arith) in
    record {
      stored = there;
      app = (same_iff r.app_id app_id).0 (ground arith);
      enabled = ground arith;
      heartbeat = at;
      heard = heard;
      recent = recent;
    }

picked_receiver :
    (m : ReceiverMatch) (o : Option Receiver) (picked : PickedReceiver)
    → Start.picked m o ≡ some picked
    → o ≡ some picked.receiver
picked_receiver m none picked e = cc
picked_receiver m (some r) picked e = ground arith

pick_for-Serves :
    (config : Config) (now : ℕ) (app_id : Text) (operator : Option Text) (db : Db)
    (picked : PickedReceiver)
    → pick_for config now app_id operator db ≡ some picked
    → Serves config now db app_id picked.receiver
unfolding pick_for
pick_for-Serves config now app_id none db picked e =
    healthy-Serves config now app_id none db picked.receiver (
      picked_receiver ReceiverMatch.unasked (run_healthy_receiver_query config now app_id none db)
        picked e)
pick_for-Serves config now app_id (some operator) db picked e =
    elim (Option-cases (run_healthy_receiver_query config now app_id (some operator) db)) [
      | inl n ↦ healthy-Serves config now app_id none db picked.receiver (
          picked_receiver ReceiverMatch.fallback
            (run_healthy_receiver_query config now app_id none db) picked (rw (n, pick_for) at e))
      | inr (r, found) ↦
          let e' = rw (found, pick_for) at e in
          let it : r ≡ picked.receiver = ground arith in
          healthy-Serves config now app_id (some operator) db picked.receiver (found ∙ ap some it)
    ]

-- What a start that succeeds has done. The phone had a verified binding to the app, and fewer
-- pending verifications than the cap. The database has one row more: it stands under the answer's
-- id, is of the app and the phone, pending, and of the length of the setting; its code is one that
-- was drawn, and the one that the message of the answer asks for; and its receiver is an enabled
-- one of the app, whose last heartbeat is younger than the timeout and which has the number that
-- the answer names.
pub start_verification_sound :
    (rt : Runtime) (ulid : Text) (codes : ℕ → Text) (now : ℕ) (input : StartVerificationInput)
    (db db' : Db) (out : PublicVerification)
    → start_verification rt ulid codes now input db ≡ ok (out, db')
    → Started rt codes now input db db' out
unfolding pick_receiver
start_verification_sound rt ulid codes now input db db' out e =
    let (code, picked, i, drawn, bound, done, named, expiry, sent, asked) =
      start_verification-eq-ok rt ulid codes now input db db' out e in
    let id = new_id verification_prefix ulid in
    let (room, chosen, unused, _, left) =
      start_tx-eq-ok rt.config id now input db db' code picked done in
    let (b, there, passes) =
      Mem-of_any (is_bound input.app_id input.phone_e164) db.phone_bindings bound in
    let made = new_row rt.config id now input picked.receiver code in
    record {
      binding = b;
      bound = there;
      bound_app = (same_iff b.app_id input.app_id).0 (ground arith);
      bound_phone = (same_iff b.phone_e164 input.phone_e164).0 (ground arith);
      bound_status = verified_status b.status (ground arith);
      room = room;
      receiver = picked.receiver;
      serves =
          pick_for-Serves rt.config now input.app_id (preference input.preferred_operator) db picked
            chosen;
      row = made;
      stored = left;
      found = rw (left, named) (find-new (has_id id) db.verifications made unused (same_refl id));
      draw = i;
      code = drawn;
      message = asked;
      send_to = sent;
      receiver_id = refl;
      app = refl;
      phone = refl;
      status = refl;
      expiry = refl;
      shown_expiry = expiry;
    }
