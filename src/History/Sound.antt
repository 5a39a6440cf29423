-- ===== src/History/Sound.antt =====
-- What a match means, and when there is one.
use syrotp.Prelude.{
  ℕ, suc, ◌+◌, ◌<◌, ◌≡◌, ◌≢◌, refl, sym, ◌∙◌, ap, Text, same_iff, same_refl, true, List, [], ◌∷◌,
  ◌++◌, arith, find, find_sound, update, Option-cases, inl, inr, Option, some, none,
}
use syrotp.Errors.{Result, Failure, ok, err}
use syrotp.Schema.{Db, InboundSms, Verification, VerificationStatus}
use syrotp.Runtime.{Runtime, VerificationEventType, new_id, inbound_prefix}
use syrotp.Extract.{extract_bind_nonce, extract_code}
use syrotp.Verification.{is_pending}
use syrotp.Verification.Hosted.{has_id}
use syrotp.Binding.{ConsumeBindNonceOutcome, consume_bind_nonce}
use syrotp.Matching.{
  MatchInput, MatchOutcome, verification_matched, claim_tx, is_claimable, set_verified,
  insert_inbound, inbound_row, process_inbound, handle_insert, stored_before, is_same_delivery,
  match_body, match_code, binding_outcome, sender,
}
use syrotp.History.{IsConsistent}
use syrotp.History.Consistent.{IsConsistent-frame}
use syrotp.Tables.{find_unique}
use syrotp.History.Settled.{emit_for-verifications}

-- Why an inbound message verifies a row
pub record Answers (rt : Runtime) (now : ℕ) (input : MatchInput) (v : Verification) : Type 0 where
  pub receiver : v.receiver_id ≡ input.receiver_id
  pub phone : v.phone_e164 ≡ sender rt input.from
  pub code : extract_code rt input.body ≡ some v.code
  pub no_binding : extract_bind_nonce rt input.body ≡ none
  pub pending : v.status ≡ VerificationStatus.pending
  pub in_time : now < v.expires_at

find-claimed :
    (id : Text) (f : Verification → Verification) (xs : List Verification) (v : Verification)
    → ((w : Verification) → (f w).id ≡ w.id)
    → find (has_id id) xs ≡ some v
    → find (has_id id) (update (has_id id) f xs) ≡ some (f v)
find-claimed id f [] v h e = cc
find-claimed id f (x ∷ xs) v h e = ground (arith, h x, find-claimed id f xs v h)

-- The row that answers, and what the claim leaves of it
abbrev pub Verified : Runtime → ℕ → MatchInput → Text → Text → Db → Db → Type 0
Verified rt now input id inbound_id db db' =
    (v : Verification) × (find (has_id id) db.verifications ≡ some v)
    × Answers rt now input v
    × (find (has_id id) db'.verifications
        ≡ some (record v {
          status = VerificationStatus.verified;
          verified_at = some now;
          matched_inbound_id = some inbound_id;
          attempts = v.attempts + 1;
        }))

is_pending_sound : (s : VerificationStatus) → is_pending s ≡ true → s ≡ VerificationStatus.pending
is_pending_sound s h = ground arith

module _ (rt : Runtime) (ulids : ℕ → Text) (now : ℕ) (input : MatchInput) (most : ℕ) (db db' : Db)
    (id inbound_id : Text) (good : IsConsistent most db) where
  code_sound :
      (inb code : Text)
      → extract_bind_nonce rt input.body ≡ none
      → extract_code rt input.body ≡ some code
      → match_code rt ulids now input inb (sender rt input.from) (some code) db
        ≡ (db', ok (verification_matched id inbound_id))
      → Verified rt now input id inbound_id db db'
  unfolding match_code claim_tx
  code_sound inb code no_nonce found_code e =
      elim (Option-cases
        (find (is_claimable now input.receiver_id (sender rt input.from) code) db.verifications)) [
          | inl missed ↦ absurd (cc (rw (missed, match_code, claim_tx) at e))
          | inr (v, found) ↦
              let done = rw (found, match_code, claim_tx) at e in
              let claimable =
                find_sound (is_claimable now input.receiver_id (sender rt input.from) code)
                  db.verifications found in
              let left = ap (λ (r : Db × Result MatchOutcome). r.0.verifications) done in
              let same_id : v.id ≡ id = ground arith in
              let same_inbound : inb ≡ inbound_id = ground arith in
              let table : db'.verifications
                  ≡ update (has_id v.id) (set_verified now inb) db.verifications =
                sym left ∙ emit_for-verifications rt ulids now VerificationEventType.verified _ _ in
              (
                v,
                rw (← same_id) (
                    find_unique _ (has_id v.id) db.verifications v found (same_refl v.id)
                      (good.unique_ids v.id)),
                record {
                  receiver = (same_iff v.receiver_id input.receiver_id).0 (ground arith);
                  phone = (same_iff v.phone_e164 (sender rt input.from)).0 (ground arith);
                  code = found_code ∙ ap some (sym ((same_iff v.code code).0 (ground arith)));
                  no_binding = no_nonce;
                  pending = is_pending_sound v.status (ground arith);
                  in_time = ground arith;
                },
                rw (table, ← same_id, ← same_inbound)
                    (find-claimed v.id (set_verified now inb) db.verifications v (λ w. refl)
                      (find_unique _ (has_id v.id) db.verifications v found (same_refl v.id)
                        (good.unique_ids v.id))),
              )
        ]

  body_sound :
      (inb : Text) (nonce : Option Text)
      → extract_bind_nonce rt input.body ≡ nonce
      → match_body rt ulids now input inb (sender rt input.from) nonce db
        ≡ (db', ok (verification_matched id inbound_id))
      → Verified rt now input id inbound_id db db'
  unfolding match_body match_code
  body_sound inb none n e = go (extract_code rt input.body) refl e
    where
      go :
          (code : Option Text)
          → extract_code rt input.body ≡ code
          → match_code rt ulids now input inb (sender rt input.from) code db
            ≡ (db', ok (verification_matched id inbound_id))
          → Verified rt now input id inbound_id db db'
      go none k h = cc
      go (some code) k h = code_sound inb code n k h
  body_sound inb (some nonce) n e = absurd (
      no_match_of_binding inb
        (consume_bind_nonce now
          (record {
            receiver_id = input.receiver_id;
            from_e164 = sender rt input.from;
            nonce = nonce;
          })
          db)
        e)
    where
      no_match_of_binding :
          (inb : Text) (r : Result (ConsumeBindNonceOutcome × Db))
          → binding_outcome inb db r ≢ (db', ok (verification_matched id inbound_id))
      no_match_of_binding inb (err x) h = cc
      no_match_of_binding inb (ok (ConsumeBindNonceOutcome.matched b a, d)) h = cc
      no_match_of_binding inb (ok (ConsumeBindNonceOutcome.missed reason, d)) h = cc

pub insert_inbound-eq-ok :
    (row : InboundSms) (db db' : Db)
    → insert_inbound row db ≡ ok db'
    → db' ≡ record db { inbound_sms = db.inbound_sms ++ row ∷ [] }
unfolding insert_inbound
insert_inbound-eq-ok row db db' e = ground arith

-- A message that verifies something came through the receiver that the verification names, from the
-- phone that it is about, carried its code and no binding nonce, and came while it was pending and
-- before it expired by the server's clock. Afterwards the row of that id is the same row, marked
-- verified at that time by that message, with one attempt more.
pub process_inbound_sound :
    (rt : Runtime) (ulids : ℕ → Text) (now : ℕ) (input : MatchInput) (most : ℕ) (db db' : Db)
    (id inbound_id : Text)
    → IsConsistent most db
    → process_inbound rt ulids now input db ≡ (db', ok (verification_matched id inbound_id))
    → Verified rt now input id inbound_id db db'
unfolding process_inbound
process_inbound_sound rt ulids now input most db db' id inbound_id good e =
    go (insert_inbound row db) refl e
  where
    inb : Text
    inb = new_id inbound_prefix (ulids 0)

    row : InboundSms
    row = inbound_row now inb (sender rt input.from) input

    no_match_of_prior :
        (x : Failure) (prior : Option InboundSms)
        → ◌≢◌ {A = Db × Result MatchOutcome}
            (db, stored_before x prior)
            (db', ok (verification_matched id inbound_id))
    no_match_of_prior x none h' = cc
    no_match_of_prior x (some p) h' = cc

    go :
        (r : Result Db)
        → insert_inbound row db ≡ r
        → handle_insert rt ulids now input inb (sender rt input.from) db r
          ≡ (db', ok (verification_matched id inbound_id))
        → Verified rt now input id inbound_id db db'
    go (err x) k h = absurd (
        no_match_of_prior x
          (find (is_same_delivery input.receiver_id input.idempotency_key) db.inbound_sms) h)
    go (ok stored) k h =
        let left = insert_inbound-eq-ok row db stored k in
        let vs : stored.verifications ≡ db.verifications = ap (λ (d : Db). d.verifications) left in
        let good' =
          IsConsistent-frame most db stored vs (ap (λ (d : Db). d.webhook_events) left) good in
        let (v, found, why, after) =
          body_sound rt (λ n. ulids (suc n)) now input most stored db' id inbound_id good' inb
            (extract_bind_nonce rt input.body) refl h in
        (v, sym (ap (find (has_id id)) vs) ∙ found, why, after)
