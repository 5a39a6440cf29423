-- ===== src/History/Redelivery.antt =====
-- A message that a gateway delivers again is recognised, whatever happened in between.
use syrotp.Prelude.{
  ℕ, suc, ◌≡◌, refl, sym, ◌∙◌, ap, Text, same, same_refl, Bool, true, false, List, [], ◌∷◌, ◌++◌,
  arith, any, find, update, Bool-cases, Option-cases, inl, inr, Option, some,
}
use syrotp.Errors.{ok, ok-injective}
use syrotp.Schema.{Db, InboundSms, Verification}
use syrotp.Runtime.{Runtime, VerificationEventType, new_id, inbound_prefix}
use syrotp.Webhook.{create_webhook_endpoint, delete_webhook_endpoint, emit_verification_event_in_tx}
use syrotp.Extract.{extract_bind_nonce}
use syrotp.Verification.{lazy_expire_and_emit, cancel_tx, emit_for, is_cancellable}
use syrotp.Binding.{start_binding, consume_bind_nonce, revoke_binding}
use syrotp.Matching.{
  MatchInput, duplicate, is_same_delivery, claim_tx, is_claimable, insert_inbound, inbound_row,
  link_inbound, process_inbound, sender,
}
use syrotp.History.{
  Step, start, cancel, expire, claim, receive, link, bind, consume, revoke, subscribe, unsubscribe,
  operate, deliver, Reach, here, next,
}
use syrotp.Tables.{any_of_find}
use syrotp.History.Insert.{start_tx-eq-ok}
use syrotp.History.Handlers.{match_body-Reach}

-- The delivery (receiver_id, key) is stored under `inbound_id`.
pub record IsStored (receiver_id key inbound_id : Text) (db : Db) : Type 0 where
  pub row : InboundSms
  pub found : find (is_same_delivery receiver_id key) db.inbound_sms ≡ some row
  pub named : row.id ≡ inbound_id

find-append :
    (q : InboundSms → Bool) (xs ys : List InboundSms) {s : InboundSms}
    → find q xs ≡ some s
    → find q (xs ++ ys) ≡ some s
find-append q [] ys e = cc
find-append q (x ∷ xs) ys {s} e = ground (arith, find-append q xs ys {s = s})

pub find-new :
    (q : InboundSms → Bool) (xs : List InboundSms) (s : InboundSms)
    → any q xs ≡ false
    → q s ≡ true
    → find q (xs ++ s ∷ []) ≡ some s
find-new q [] s h k = rw k
find-new q (x ∷ xs) s h k = ground (arith, find-new q xs s)

emit_for-inbound :
    (rt : Runtime) (ulids : ℕ → Text) (now : ℕ) (t : VerificationEventType)
    (rows : List Verification) (tx : Db)
    → (emit_for rt ulids now t rows tx).inbound_sms ≡ tx.inbound_sms
unfolding emit_for emit_verification_event_in_tx
emit_for-inbound rt ulids now t [] tx = refl
emit_for-inbound rt ulids now t (row ∷ rows) tx = refl

module _ (receiver_id key inbound_id : Text) where
  frame :
      (db db' : Db)
      → db'.inbound_sms ≡ db.inbound_sms
      → IsStored receiver_id key inbound_id db
      → IsStored receiver_id key inbound_id db'
  frame db db' e s = record { row = s.row; found = rw e s.found; named = s.named }

  linked :
      (xs : List InboundSms) (row : InboundSms) (j : Text) (target : Option Text)
      → find (is_same_delivery receiver_id key) xs ≡ some row
      → (row' : InboundSms) × (find
            (is_same_delivery receiver_id key)
            (update (λ s. same s.id j) (λ s. record s { matched_verification_id = target }) xs)
          ≡ some row')
        × (row'.id ≡ row.id)
  linked [] row j target e = cc
  linked (x ∷ xs) row j target e = elim (Bool-cases (is_same_delivery receiver_id key x)) [
    | inr miss ↦ let (row', f, n) = linked xs row j target (ground arith) in (row', ground arith, n)
    | inl hit ↦
        let first : x ≡ row = ground arith in
        elim (Bool-cases (same x.id j)) [
          | inl y ↦ (
            record x { matched_verification_id = target },
            ground arith,
            ap (λ (r : InboundSms). r.id) first,
          )
          | inr n ↦ (x, ground arith, ap (λ (r : InboundSms). r.id) first)
        ]
  ]

  link-IsStored :
      (j : Text) (target : Option Text) (db : Db)
      → IsStored receiver_id key inbound_id db
      → IsStored receiver_id key inbound_id (link_inbound j target db)
  link-IsStored j target db s =
      let (row', f, n) = linked db.inbound_sms s.row j target s.found in
      record { row = row'; found = f; named = n ∙ s.named }

  claim-IsStored :
      (rt : Runtime) (ulids : ℕ → Text) (now : ℕ) (j r from code : Text) (db : Db)
      → IsStored receiver_id key inbound_id db
      → IsStored receiver_id key inbound_id (claim_tx rt ulids now j r from code db).1
  unfolding claim_tx
  claim-IsStored rt ulids now j r from code db s =
      elim (Option-cases (find (is_claimable now r from code) db.verifications)) [
        | inl missed ↦ rw (missed, claim_tx) s
        | inr (v, found) ↦
            rw (found, claim_tx)
              (link-IsStored j (some v.id) _
                (frame db _ (emit_for-inbound rt ulids now VerificationEventType.verified _ _) s))
      ]

  cancel-inbound :
      (rt : Runtime) (ulids : ℕ → Text) (now : ℕ) (app_id id : Text) (db db' : Db)
      → cancel_tx rt ulids now app_id id db ≡ ok db'
      → db'.inbound_sms ≡ db.inbound_sms
  unfolding cancel_tx
  cancel-inbound rt ulids now app_id id db db' e =
      elim (Bool-cases (any (is_cancellable app_id id) db.verifications)) [
        | inl y ↦
            sym (ap (λ (d : Db). d.inbound_sms) (ok-injective (rw y at e)))
            ∙ emit_for-inbound rt ulids now VerificationEventType.cancelled _ _
        | inr n ↦ absurd (ground arith)
      ]

  Step-IsStored :
      (rt : Runtime) (db db' : Db)
      → Step rt db db'
      → IsStored receiver_id key inbound_id db
      → IsStored receiver_id key inbound_id db'
  unfolding insert_inbound start_binding consume_bind_nonce revoke_binding create_webhook_endpoint
      delete_webhook_endpoint lazy_expire_and_emit
  Step-IsStored rt db db' (start j now input code picked e) s =
      let (_, _, _, _, left) = start_tx-eq-ok rt.config j now input db db' code picked e in
      frame db db' (ap (λ (d : Db). d.inbound_sms) left) s
  Step-IsStored rt db db' (cancel ulids now app_id j e) s =
      frame db db' (cancel-inbound rt ulids now app_id j db db' e) s
  Step-IsStored rt db db' (expire ulids now j e) s =
      rw e (frame db _ (emit_for-inbound rt ulids now VerificationEventType.expired _ _) s)
  Step-IsStored rt db db' (claim ulids now j r from code e) s =
      rw e (claim-IsStored rt ulids now j r from code db s)
  Step-IsStored rt db db' (receive row e) s =
      let left : db' ≡ record db { inbound_sms = db.inbound_sms ++ row ∷ [] } = ground arith in
      rw left (record {
        row = s.row;
        found = find-append _ db.inbound_sms (row ∷ []) s.found;
        named = s.named;
      })
  Step-IsStored rt db db' (link j target e) s = rw e (link-IsStored j target db s)
  Step-IsStored rt db db' (bind ulid nonce now input answer e) s = frame db db' (ground arith) s
  Step-IsStored rt db db' (consume now input outcome e) s = frame db db' (ground arith) s
  Step-IsStored rt db db' (revoke now app_id j row e) s = frame db db' (ground arith) s
  Step-IsStored rt db db' (subscribe validate_url ulid secret now input row e) s =
      frame db db' (ground arith) s
  Step-IsStored rt db db' (unsubscribe app_id j e) s = frame db db' (ground arith) s
  Step-IsStored rt db db' (operate receivers e) s = rw e (frame db _ refl s)
  Step-IsStored rt db db' (deliver deliveries e) s = rw e (frame db _ refl s)

  Reach-IsStored :
      (rt : Runtime) (db db' : Db)
      → Reach rt db db'
      → IsStored receiver_id key inbound_id db
      → IsStored receiver_id key inbound_id db'
  Reach-IsStored rt db db' here s = s
  Reach-IsStored rt db db' (next {db' = mid} r st) s =
      Step-IsStored rt mid db' st (Reach-IsStored rt db mid r s)

-- A stored delivery is refused as a duplicate, under its first name, and changes nothing.
refused :
    (rt : Runtime) (ulids : ℕ → Text) (now : ℕ) (input : MatchInput) (inbound_id : Text) (db : Db)
    → IsStored input.receiver_id input.idempotency_key inbound_id db
    → process_inbound rt ulids now input db ≡ (db, ok (duplicate inbound_id))
unfolding process_inbound insert_inbound
refused rt ulids now input inbound_id db s =
    let taken = any_of_find _ db.inbound_sms s.found in ground (arith, s.found, s.named)

pub inserted :
    (row : InboundSms) (db : Db)
    → any (λ s. same s.id row.id) db.inbound_sms ≡ false
    → any (is_same_delivery row.receiver_id row.idempotency_key) db.inbound_sms ≡ false
    → insert_inbound row db ≡ ok (record db { inbound_sms = db.inbound_sms ++ row ∷ [] })
unfolding insert_inbound
inserted row db fresh new = rw (fresh, new)

process_inbound-stored :
    (rt : Runtime) (ulids : ℕ → Text) (now : ℕ) (input : MatchInput) (db : Db)
    → let id = new_id inbound_prefix (ulids 0) in
      let row = inbound_row now id (sender rt input.from) input in
      any (λ s. same s.id id) db.inbound_sms ≡ false
      → any (is_same_delivery input.receiver_id input.idempotency_key) db.inbound_sms ≡ false
      → Reach rt
          (record db { inbound_sms = db.inbound_sms ++ row ∷ [] })
          (process_inbound rt ulids now input db).0
unfolding process_inbound
process_inbound-stored rt ulids now input db fresh new =
    rw (inserted (inbound_row now _ (sender rt input.from) input) db fresh new) (
      match_body-Reach rt (λ n. ulids (suc n)) now input _ (sender rt input.from) _
        (extract_bind_nonce rt input.body))

-- A message that is stored under a fresh id stays known: after whatever its first processing did,
-- an error included, and after any further history, a message of the same receiver and idempotency
-- key is answered as a duplicate under the first id, whether the first one matched or not, and the
-- database is left as it is.
pub redelivered :
    (rt : Runtime) (ulids ulids' : ℕ → Text) (now now' : ℕ) (input again : MatchInput) (db db' : Db)
    → any (λ s. same s.id (new_id inbound_prefix (ulids 0))) db.inbound_sms ≡ false
    → any (is_same_delivery input.receiver_id input.idempotency_key) db.inbound_sms ≡ false
    → Reach rt (process_inbound rt ulids now input db).0 db'
    → again.receiver_id ≡ input.receiver_id
    → again.idempotency_key ≡ input.idempotency_key
    → process_inbound rt ulids' now' again db'
      ≡ (db', ok (duplicate (new_id inbound_prefix (ulids 0))))
redelivered rt ulids ulids' now now' input again db db' fresh new later er ek =
    refused rt ulids' now' again inbound_id db' (
      rw (er, ek)
        (Reach-IsStored input.receiver_id input.idempotency_key inbound_id rt _ db' later (
          Reach-IsStored input.receiver_id input.idempotency_key inbound_id rt stored _ processed
            first)))
  where
    inbound_id : Text
    inbound_id = new_id inbound_prefix (ulids 0)

    row : InboundSms
    row = inbound_row now inbound_id (sender rt input.from) input

    stored : Db
    stored = record db { inbound_sms = db.inbound_sms ++ row ∷ [] }

    first : IsStored input.receiver_id input.idempotency_key inbound_id stored
    first = record {
      row = row;
      found =
          find-new _ db.inbound_sms row new
            (ground (arith, same_refl input.receiver_id, same_refl input.idempotency_key));
      named = refl;
    }

    processed : Reach rt stored (process_inbound rt ulids now input db).0
    processed = process_inbound-stored rt ulids now input db fresh new
