-- ===== src/History/Unmatched.antt =====
-- What a message that matches nothing leaves alone.
use syrotp.Prelude.{
  ℕ, suc, ◌≡◌, refl, ◌∙◌, ap, Text, Bool, true, false, arith, any, find, update, if◌then◌else◌,
  Bool-cases, Option-cases, inl, inr, Option, some, none,
}
use syrotp.Errors.{Result, ok, err, unique_violation}
use syrotp.Tables.{select_of_any, update_of_none}
use syrotp.Schema.{Db, InboundSms}
use syrotp.Runtime.{Runtime, new_id, inbound_prefix}
use syrotp.Extract.{extract_code, extract_bind_nonce}
use syrotp.Binding.{
  ConsumeBindNonceInput, ConsumeBindNonceOutcome, matched, missed, MissReason, consume_bind_nonce,
  consumed, is_consumable, set_bound, breaks_active_uq,
}
use syrotp.Matching.{
  MatchInput, MatchOutcome, verification_matched, binding_matched, unmatched, duplicate, sender,
  inbound_row, insert_inbound, is_claimable, claim_tx, process_inbound, handle_insert, match_body,
  match_code, binding_outcome,
}
use syrotp.History.Sound.{insert_inbound-eq-ok}

-- Whether an answer names a verification or a binding
abbrev pub is_match : Result MatchOutcome → Bool
is_match (ok (verification_matched verification_id inbound_id)) = true
is_match (ok (binding_matched binding_id inbound_id)) = true
is_match (ok (unmatched reason inbound_id)) = false
is_match (ok (duplicate inbound_id)) = false
is_match (err e) = false

-- The tables beside that of the messages
abbrev pub Untouched : Db → Db → Type 0
Untouched db db' =
    (db'.verifications ≡ db.verifications)
    × (db'.phone_bindings ≡ db.phone_bindings)
    × (db'.webhook_events ≡ db.webhook_events)
    × (db'.webhook_deliveries ≡ db.webhook_deliveries)

-- A nonce that is missed has changed no ceremony.
missed-Untouched :
    (now : ℕ) (input : ConsumeBindNonceInput) (db db' : Db) (reason : MissReason)
    → consume_bind_nonce now input db ≡ ok (missed reason, db')
    → Untouched db db'
unfolding consume_bind_nonce
missed-Untouched now input db db' reason e =
    elim (Bool-cases (any (is_consumable now input) db.phone_bindings)) [
      | inr n ↦
          let kept = update_of_none (is_consumable now input) (set_bound now) db.phone_bindings n in
          let e' = rw kept at e in
          let (ending, left) = answered (breaks_active_uq db.phone_bindings) _ _ e' in
          (
            ap (λ (d : Db). d.verifications) left,
            ap (λ (d : Db). d.phone_bindings) left,
            ap (λ (d : Db). d.webhook_events) left,
            ap (λ (d : Db). d.webhook_deliveries) left,
          )
      | inl y ↦
          let (b, rest, chosen, _) = select_of_any (is_consumable now input) db.phone_bindings y in
          let table = update (is_consumable now input) (set_bound now) db.phone_bindings in
          let (ending, _) =
            answered (breaks_active_uq table) (matched b.id b.app_id)
              (record db { phone_bindings = table }) (rw (chosen, consumed) at e) in
          cc ending
    ]
  where
    answered :
        (breaks : Bool) (o : ConsumeBindNonceOutcome) (d : Db)
        → ◌≡◌ {A = Result (ConsumeBindNonceOutcome × Db)}
            (if breaks then err (unique_violation "phone_bindings_active_uq") else ok (o, d))
            (ok (missed reason, db'))
        → (o ≡ missed reason) × (db' ≡ d)
    answered true o d h = cc
    answered false o d h = ground arith

module _ (rt : Runtime) (ulids : ℕ → Text) (now : ℕ) (input : MatchInput) (inbound_id from : Text)
    (db : Db) where
  binding-Untouched :
      (answer : ConsumeBindNonceInput) (r : Result (ConsumeBindNonceOutcome × Db))
      → consume_bind_nonce now answer db ≡ r
      → is_match (binding_outcome inbound_id db r).1 ≡ false
      → Untouched db (binding_outcome inbound_id db r).0
  binding-Untouched answer (err e) k h = (refl, refl, refl, refl)
  binding-Untouched answer (ok (matched binding_id app_id, db')) k h = cc
  binding-Untouched answer (ok (missed reason, db')) k h =
      missed-Untouched now answer db db' reason k

  code-Untouched :
      (code : Option Text)
      → is_match (match_code rt ulids now input inbound_id from code db).1 ≡ false
      → Untouched db (match_code rt ulids now input inbound_id from code db).0
  unfolding match_code claim_tx
  code-Untouched none h = (refl, refl, refl, refl)
  code-Untouched (some code) h =
      elim (Option-cases (find (is_claimable now input.receiver_id from code) db.verifications)) [
        | inl n ↦ rw (n, match_code, claim_tx) (refl, refl, refl, refl)
        | inr (v, found) ↦ cc (rw (found, match_code, claim_tx) at h)
      ]

  body-Untouched :
      (nonce : Option Text)
      → is_match (match_body rt ulids now input inbound_id from nonce db).1 ≡ false
      → Untouched db (match_body rt ulids now input inbound_id from nonce db).0
  unfolding match_body
  body-Untouched none h = code-Untouched (extract_code rt input.body) h
  body-Untouched (some nonce) h = binding-Untouched _ _ refl h

-- A message that is answered with no match, as unmatched, as a duplicate or with an error, leaves
-- the verifications, the bindings, the events and the deliveries as they were.
pub process_inbound_unmatched :
    (rt : Runtime) (ulids : ℕ → Text) (now : ℕ) (input : MatchInput) (db : Db)
    → is_match (process_inbound rt ulids now input db).1 ≡ false
    → Untouched db (process_inbound rt ulids now input db).0
unfolding process_inbound
process_inbound_unmatched rt ulids now input db = go (insert_inbound row db) refl
  where
    inbound_id : Text
    inbound_id = new_id inbound_prefix (ulids 0)

    row : InboundSms
    row = inbound_row now inbound_id (sender rt input.from) input

    go :
        (r : Result Db)
        → insert_inbound row db ≡ r
        → is_match (handle_insert rt ulids now input inbound_id (sender rt input.from) db r).1
          ≡ false
        → Untouched db (handle_insert rt ulids now input inbound_id (sender rt input.from) db r).0
    go (err e) k h = (refl, refl, refl, refl)
    go (ok stored) k h =
        let left = insert_inbound-eq-ok row db stored k in
        let (v, b, e, d) =
          body-Untouched rt (λ n. ulids (suc n)) now input inbound_id (sender rt input.from) stored
            (extract_bind_nonce rt input.body) h in
        (
          v ∙ ap (λ (x : Db). x.verifications) left,
          b ∙ ap (λ (x : Db). x.phone_bindings) left,
          e ∙ ap (λ (x : Db). x.webhook_events) left,
          d ∙ ap (λ (x : Db). x.webhook_deliveries) left,
        )
