-- ===== src/History/Consistent.antt =====
-- Every step keeps the database consistent, so every history from a new database does.
use mathlib.Core.Path.{subst}
use syrotp.Prelude.{
  ℕ, ◌≡◌, refl, ◌∙◌, ap, Text, same_refl, Bool, true, List, [], ◌∷◌, arith, All, any, find,
  find_sound, Bool-cases, Option-cases, inl, inr,
}
use syrotp.Errors.{ok, ok-injective}
use syrotp.Schema.{Db, Verification}
use syrotp.Runtime.{Runtime, VerificationEventType}
use syrotp.Webhook.{create_webhook_endpoint, delete_webhook_endpoint}
use syrotp.Verification.{
  is_pending, is_pending_id, set_expired, is_cancellable, set_cancelled, lazy_expire_and_emit,
  cancel_tx,
}
use syrotp.Verification.Hosted.{has_id}
use syrotp.Binding.{start_binding, consume_bind_nonce, revoke_binding}
use syrotp.Matching.{claim_tx, is_claimable, set_verified, insert_inbound}
use syrotp.History.{
  Step, start, cancel, expire, claim, receive, link, bind, consume, revoke, subscribe, unsubscribe,
  operate, deliver, Reach, here, next, IsNew, IsConsistent,
}
use syrotp.Tables.{All-map, unique_row}
use syrotp.History.Settle.{Ends, settle}
use syrotp.History.Insert.{start_tx-IsConsistent}

-- Only the verifications and the events matter to the invariant.
pub IsConsistent-frame :
    (most : ℕ) (db db' : Db)
    → db'.verifications ≡ db.verifications
    → db'.webhook_events ≡ db.webhook_events
    → IsConsistent most db
    → IsConsistent most db'
IsConsistent-frame most db db' vs es good = record {
  unique_ids = λ id. rw vs (good.unique_ids id);
  unique_codes = λ r p c. rw vs (good.unique_codes r p c);
  capped = λ a p. rw vs (good.capped a p);
  ledger = rw (vs, es) good.ledger;
  known = rw (vs, es) good.known;
}

All-of_imp :
    (p : Verification → Bool) (xs : List Verification)
    → ((v : Verification) → p v ≡ true → is_pending v.status ≡ true)
    → All (λ v. p v ≡ true → is_pending v.status ≡ true) xs
All-of_imp p [] h = tt
All-of_imp p (v ∷ xs) h = (h v, All-of_imp p xs h)

expire-Ends : (id : Text) → Ends id (is_pending_id id) set_expired
expire-Ends id = record {
  chosen = λ v h. ground arith;
  kept = λ v. refl;
  ended = λ v. refl;
  counted = λ v. refl;
}

expire-IsConsistent :
    (most : ℕ) (rt : Runtime) (ulids : ℕ → Text) (now : ℕ) (id : Text) (db : Db)
    → IsConsistent most db
    → IsConsistent most (lazy_expire_and_emit rt ulids now id db)
unfolding lazy_expire_and_emit
expire-IsConsistent most rt ulids now id db good =
    settle most db id (is_pending_id id) set_expired (expire-Ends id) good
      (All-of_imp (is_pending_id id) db.verifications (λ v h. ground arith)) rt ulids now
      VerificationEventType.expired

cancel-Ends : (now : ℕ) (app_id id : Text) → Ends id (is_cancellable app_id id) (set_cancelled now)
cancel-Ends now app_id id = record {
  chosen = λ v h. ground arith;
  kept = λ v. refl;
  ended = λ v. refl;
  counted = λ v. refl;
}

cancel-IsConsistent :
    (most : ℕ) (rt : Runtime) (ulids : ℕ → Text) (now : ℕ) (app_id id : Text) (db db' : Db)
    → cancel_tx rt ulids now app_id id db ≡ ok db'
    → IsConsistent most db
    → IsConsistent most db'
unfolding cancel_tx
cancel-IsConsistent most rt ulids now app_id id db db' e good =
    let good' =
      settle most db id (is_cancellable app_id id) (set_cancelled now) (cancel-Ends now app_id id)
        good (All-of_imp (is_cancellable app_id id) db.verifications (λ v h. ground arith)) rt ulids
        now VerificationEventType.cancelled in
    elim (Bool-cases (any (is_cancellable app_id id) db.verifications)) [
      | inl y ↦ subst (IsConsistent most) (ok-injective (rw y at e)) good'
      | inr n ↦ absurd (ground arith)
    ]

claim-Ends : (now : ℕ) (inbound_id id : Text) → Ends id (has_id id) (set_verified now inbound_id)
claim-Ends now inbound_id id = record {
  chosen = λ v h. h;
  kept = λ v. refl;
  ended = λ v. refl;
  counted = λ v. refl;
}

claim-IsConsistent :
    (most : ℕ) (rt : Runtime) (ulids : ℕ → Text) (now : ℕ) (inbound_id receiver_id from code : Text)
    (db : Db)
    → IsConsistent most db
    → IsConsistent most (claim_tx rt ulids now inbound_id receiver_id from code db).1
unfolding claim_tx
claim-IsConsistent most rt ulids now inbound_id receiver_id from code db good =
    elim (Option-cases (find (is_claimable now receiver_id from code) db.verifications)) [
      | inl missed ↦ rw (missed, claim_tx) good
      | inr (v, found) ↦
          let claimable =
            find_sound (is_claimable now receiver_id from code) db.verifications found in
          let pending : is_pending v.status ≡ true = ground arith in
          let only =
            unique_row (is_claimable now receiver_id from code) (has_id v.id) db.verifications v
              found (same_refl v.id) (good.unique_ids v.id) in
          rw (found, claim_tx)
            (IsConsistent-frame most _ _ refl refl (
              settle most db v.id (has_id v.id) (set_verified now inbound_id)
                (claim-Ends now inbound_id v.id) good
                (All-map _ _ db.verifications
                  (λ w h k. ap (λ (x : Verification). is_pending x.status) (h k) ∙ pending) only)
                rt ulids now VerificationEventType.verified))
    ]

-- A step keeps the database consistent, whichever it is.
Step-IsConsistent :
    (rt : Runtime) (db db' : Db)
    → Step rt db db'
    → IsConsistent rt.config.max_pending_per_phone db
    → IsConsistent rt.config.max_pending_per_phone db'
unfolding insert_inbound start_binding consume_bind_nonce revoke_binding create_webhook_endpoint
    delete_webhook_endpoint
Step-IsConsistent rt db db' (start id now input code picked e) good =
    start_tx-IsConsistent rt.config id now input db db' code picked e good
Step-IsConsistent rt db db' (cancel ulids now app_id id e) good =
    cancel-IsConsistent _ rt ulids now app_id id db db' e good
Step-IsConsistent rt db db' (expire ulids now id e) good =
    rw e (expire-IsConsistent _ rt ulids now id db good)
Step-IsConsistent rt db db' (claim ulids now inbound_id receiver_id from code e) good =
    rw e (claim-IsConsistent _ rt ulids now inbound_id receiver_id from code db good)
Step-IsConsistent rt db db' (receive row e) good =
    IsConsistent-frame _ db db' (ground arith) (ground arith) good
Step-IsConsistent rt db db' (link inbound_id target e) good =
    rw e (IsConsistent-frame _ db _ refl refl good)
Step-IsConsistent rt db db' (bind ulid nonce now input answer e) good =
    IsConsistent-frame _ db db' (ground arith) (ground arith) good
Step-IsConsistent rt db db' (consume now input outcome e) good =
    IsConsistent-frame _ db db' (ground arith) (ground arith) good
Step-IsConsistent rt db db' (revoke now app_id id row e) good =
    IsConsistent-frame _ db db' (ground arith) (ground arith) good
Step-IsConsistent rt db db' (subscribe validate_url ulid secret now input row e) good =
    IsConsistent-frame _ db db' (ground arith) (ground arith) good
Step-IsConsistent rt db db' (unsubscribe app_id id e) good =
    IsConsistent-frame _ db db' (ground arith) (ground arith) good
Step-IsConsistent rt db db' (operate receivers e) good =
    rw e (IsConsistent-frame _ db _ refl refl good)
Step-IsConsistent rt db db' (deliver deliveries e) good =
    rw e (IsConsistent-frame _ db _ refl refl good)

-- Along any history, whatever its transactions and their order, the database stays consistent: the
-- ids and the pending codes stay unique, no phone of an app has more pending verifications than the
-- cap, and every verification that ended has exactly one event, every pending one none.
pub Reach-IsConsistent :
    (rt : Runtime) (db db' : Db)
    → IsConsistent rt.config.max_pending_per_phone db
    → Reach rt db db'
    → IsConsistent rt.config.max_pending_per_phone db'
Reach-IsConsistent rt db db' good here = good
Reach-IsConsistent rt db db' good (next {db' = mid} r s) =
    Step-IsConsistent rt mid db' s (Reach-IsConsistent rt db mid good r)

-- A database with no verification and no event is consistent.
pub IsNew-IsConsistent : (most : ℕ) (db : Db) → IsNew db → IsConsistent most db
IsNew-IsConsistent most db (vs, es) = record {
  unique_ids = λ id. rw vs (omega arith);
  unique_codes = λ r p c. rw vs (omega arith);
  capped = λ a p. rw vs (omega arith);
  ledger = rw vs tt;
  known = rw es tt;
}
