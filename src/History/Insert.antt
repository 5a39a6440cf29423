-- ===== src/History/Insert.antt =====
-- The transaction of `startVerification` keeps the database consistent: the count under the lock,
-- the primary key and the partial unique index are what the invariant asks for.
use syrotp.Prelude.{
  ℕ, ◌≤◌, ◌<◌, ◌≡◌, refl, sym, ◌∙◌, ap, Text, same_iff, true, false, List, [], ◌∷◌, ◌++◌, arith,
  All, All-append, any, count, count-append, count_of_not_any, any-append_left, some,
}
use syrotp.Errors.{ok}
use syrotp.Schema.{Db, Verification, VerificationStatus, WebhookEvent}
use syrotp.Runtime.{Config}
use syrotp.Verification.Start.{
  StartVerificationInput, PickedReceiver, start_tx, new_row, pick_receiver, is_pending_for,
  is_pending_triple,
}
use syrotp.Verification.Hosted.{has_id}
use syrotp.History.{IsConsistent, is_event_of, emitted}

module _ (most : ℕ) (db : Db) (row : Verification) (good : IsConsistent most db)
    (pending : row.status ≡ VerificationStatus.pending)
    (fresh : any (has_id row.id) db.verifications ≡ false)
    (no_collision : any (is_pending_triple row.receiver_id row.phone_e164 row.code) db.verifications
      ≡ false)
    (room : count (is_pending_for row.app_id row.phone_e164) db.verifications < most) where
  ids-row : (id : Text) → count (has_id id) (db.verifications ++ row ∷ []) ≤ 1
  ids-row id = rw (count-append (has_id id) db.verifications (row ∷ [])) (
      ground (
        arith,
        same_iff row.id id,
        good.unique_ids id,
        count_of_not_any (has_id row.id) db.verifications fresh,
      ))

  codes-row : (r p c : Text) → count (is_pending_triple r p c) (db.verifications ++ row ∷ []) ≤ 1
  codes-row r p c = rw (count-append (is_pending_triple r p c) db.verifications (row ∷ [])) (
      ground (
        arith,
        same_iff row.receiver_id r,
        same_iff row.phone_e164 p,
        same_iff row.code c,
        good.unique_codes r p c,
        count_of_not_any (is_pending_triple row.receiver_id row.phone_e164 row.code)
            db.verifications no_collision,
      ))

  capped-row : (a p : Text) → count (is_pending_for a p) (db.verifications ++ row ∷ []) ≤ most
  capped-row a p =
      rw (count-append (is_pending_for a p) db.verifications (row ∷ []))
        (ground (arith, same_iff row.app_id a, same_iff row.phone_e164 p, good.capped a p))

  -- An event of the new id would belong to a row that is already there.
  no_event :
      (es : List WebhookEvent)
      → All (λ e. any (has_id e.verification_id) db.verifications ≡ true) es
      → count (is_event_of row.id) es ≡ 0
  no_event [] h = refl
  no_event (e ∷ es) (h, hs) = ground (arith, same_iff e.verification_id row.id, no_event es hs)

  known-row :
      (es : List WebhookEvent)
      → All (λ e. any (has_id e.verification_id) db.verifications ≡ true) es
      → All (λ e. any (has_id e.verification_id) (db.verifications ++ row ∷ []) ≡ true) es
  known-row [] h = tt
  known-row (e ∷ es) (h, hs) =
      (any-append_left (has_id e.verification_id) db.verifications (row ∷ []) h, known-row es hs)

  insert_row-IsConsistent :
      IsConsistent most (record db { verifications = db.verifications ++ row ∷ [] })
  insert_row-IsConsistent = record {
    unique_ids = ids-row;
    unique_codes = codes-row;
    capped = capped-row;
    ledger =
        All-append _ db.verifications (row ∷ []) good.ledger
          (no_event db.webhook_events good.known ∙ sym (ap emitted pending), tt);
    known = known-row db.webhook_events good.known;
  }

-- What a successful `start_tx` has checked, and what it leaves.
pub start_tx-eq-ok :
    (config : Config) (id : Text) (now : ℕ) (input : StartVerificationInput) (db db' : Db)
    (code : Text) (picked : PickedReceiver)
    → start_tx config id now input db code ≡ ok (picked, db')
    → let row = new_row config id now input picked.receiver code in
      (count (is_pending_for input.app_id input.phone_e164) db.verifications
        < config.max_pending_per_phone)
      × (pick_receiver config now input.app_id input.preferred_operator db ≡ some picked)
      × (any (has_id id) db.verifications ≡ false)
      × (any (is_pending_triple row.receiver_id row.phone_e164 row.code) db.verifications ≡ false)
      × (db' ≡ record db { verifications = db.verifications ++ row ∷ [] })
unfolding start_tx
start_tx-eq-ok config id now input db db' code picked h = ground arith

pub start_tx-IsConsistent :
    (config : Config) (id : Text) (now : ℕ) (input : StartVerificationInput) (db db' : Db)
    (code : Text) (picked : PickedReceiver)
    → start_tx config id now input db code ≡ ok (picked, db')
    → IsConsistent config.max_pending_per_phone db
    → IsConsistent config.max_pending_per_phone db'
start_tx-IsConsistent config id now input db db' code picked h good =
    let (room, _, fresh, free, e) = start_tx-eq-ok config id now input db db' code picked h in
    rw e (
      insert_row-IsConsistent config.max_pending_per_phone db
        (new_row config id now input picked.receiver code) good refl fresh free room)
