-- ===== src/History/Settled.antt =====
-- A verification that has ended never changes again.
use mathlib.Core.Path.{subst}
use syrotp.Prelude.{
  ℕ, ◌≡◌, refl, ap, Text, same, same_refl, Bool, true, false, List, [], ◌∷◌, ◌++◌, arith, any, find,
  find_sound, find-All, update, Bool-cases, Option-cases, inl, inr, some,
}
use syrotp.Errors.{ok, ok-injective}
use syrotp.Schema.{Db, Verification}
use syrotp.Runtime.{Runtime, VerificationEventType}
use syrotp.Webhook.{create_webhook_endpoint, delete_webhook_endpoint, emit_verification_event_in_tx}
use syrotp.Verification.{
  is_pending, is_pending_id, set_expired, is_cancellable, set_cancelled, lazy_expire_and_emit,
  cancel_tx, emit_for,
}
use syrotp.Verification.Hosted.{has_id}
use syrotp.Binding.{start_binding, consume_bind_nonce, revoke_binding}
use syrotp.Matching.{claim_tx, is_claimable, set_verified, insert_inbound}
use syrotp.History.{
  Step, start, cancel, expire, claim, receive, link, bind, consume, revoke, subscribe, unsubscribe,
  operate, deliver, Reach, here, next, IsConsistent,
}
use syrotp.Tables.{unique_row}
use syrotp.History.Insert.{start_tx-eq-ok}
use syrotp.History.Consistent.{Reach-IsConsistent}

find-update :
    (q p : Verification → Bool) (f : Verification → Verification) (xs : List Verification)
    {v : Verification}
    → ((w : Verification) → q (f w) ≡ q w)
    → find q xs ≡ some v
    → p v ≡ false
    → find q (update p f xs) ≡ some v
find-update q p f [] h e k = e
find-update q p f (x ∷ xs) {v} h e k = ground (arith, h x, find-update q p f xs {v = v} h)

find-append :
    (q : Verification → Bool) (xs ys : List Verification) {v : Verification}
    → find q xs ≡ some v
    → find q (xs ++ ys) ≡ some v
find-append q [] ys e = cc
find-append q (x ∷ xs) ys {v} e = ground (arith, find-append q xs ys {v = v})

pub emit_for-verifications :
    (rt : Runtime) (ulids : ℕ → Text) (now : ℕ) (t : VerificationEventType)
    (rows : List Verification) (tx : Db)
    → (emit_for rt ulids now t rows tx).verifications ≡ tx.verifications
unfolding emit_for emit_verification_event_in_tx
emit_for-verifications rt ulids now t [] tx = refl
emit_for-verifications rt ulids now t (row ∷ rows) tx = refl

-- The verification `id` stands at `v`, which has ended.
pub record IsSettled (id : Text) (v : Verification) (db : Db) : Type 0 where
  pub stands : find (has_id id) db.verifications ≡ some v
  pub ended : is_pending v.status ≡ false

module _ (rt : Runtime) (id : Text) (v : Verification) (db : Db) (s : IsSettled id v db) where
  updated :
      (ulids : ℕ → Text) (now : ℕ) (t : VerificationEventType) (rows : List Verification)
      (p : Verification → Bool) (f : Verification → Verification)
      → ((w : Verification) → (f w).id ≡ w.id)
      → p v ≡ false
      → IsSettled id v
          (emit_for rt ulids now t rows (record db { verifications = update p f db.verifications }))
  updated ulids now t rows p f kept k = record {
    stands =
        rw
          (emit_for-verifications rt ulids now t rows
            (record db { verifications = update p f db.verifications }))
          (find-update (has_id id) p f db.verifications (λ w. ap (λ i. same i id) (kept w)) s.stands
            k);
    ended = s.ended;
  }

  expire-IsSettled :
      (ulids : ℕ → Text) (now : ℕ) (j : Text)
      → IsSettled id v (lazy_expire_and_emit rt ulids now j db)
  unfolding lazy_expire_and_emit
  expire-IsSettled ulids now j =
      updated ulids now _ _ (is_pending_id j) set_expired (λ w. refl) (ground (arith, s.ended))

  cancel-IsSettled :
      (ulids : ℕ → Text) (now : ℕ) (app_id j : Text) (db' : Db)
      → cancel_tx rt ulids now app_id j db ≡ ok db'
      → IsSettled id v db'
  unfolding cancel_tx
  cancel-IsSettled ulids now app_id j db' e =
      let kept =
        updated ulids now VerificationEventType.cancelled _ (is_cancellable app_id j)
          (set_cancelled now) (λ w. refl) (ground (arith, s.ended)) in
      elim (Bool-cases (any (is_cancellable app_id j) db.verifications)) [
        | inl y ↦ subst (IsSettled id v) (ok-injective (rw y at e)) kept
        | inr n ↦ absurd (ground arith)
      ]

  claim-IsSettled :
      (most : ℕ)
      → IsConsistent most db
      → (ulids : ℕ → Text) (now : ℕ) (inbound_id receiver_id from code : Text)
      → IsSettled id v (claim_tx rt ulids now inbound_id receiver_id from code db).1
  unfolding claim_tx
  claim-IsSettled most good ulids now inbound_id receiver_id from code =
      elim (Option-cases (find (is_claimable now receiver_id from code) db.verifications)) [
        | inl missed ↦ rw (missed, claim_tx) s
        | inr (w, found) ↦
            let claimable =
              find_sound (is_claimable now receiver_id from code) db.verifications found in
            let only = find-All _ (has_id id) db.verifications s.stands (
              unique_row (is_claimable now receiver_id from code) (has_id w.id) db.verifications w
                found (same_refl w.id) (good.unique_ids w.id)) in
            let pending : is_pending w.status ≡ true = ground arith in
            let other : has_id w.id v ≡ false = elim (Bool-cases (has_id w.id v)) [
              | inl y ↦
                  cc (ap (λ (x : Verification). is_pending x.status) (only y), s.ended, pending)
              | inr n ↦ n
            ] in
            let kept =
              updated ulids now VerificationEventType.verified _ (has_id w.id)
                (set_verified now inbound_id) (λ x. refl) other in
            rw (found, claim_tx) (record { stands = kept.stands; ended = kept.ended })
      ]

IsSettled-frame :
    (id : Text) (v : Verification) (db db' : Db)
    → db'.verifications ≡ db.verifications
    → IsSettled id v db
    → IsSettled id v db'
IsSettled-frame id v db db' e s = record { stands = rw e s.stands; ended = s.ended }

Step-IsSettled :
    (rt : Runtime) (id : Text) (v : Verification) (most : ℕ) (db db' : Db)
    → IsConsistent most db
    → Step rt db db'
    → IsSettled id v db
    → IsSettled id v db'
unfolding insert_inbound start_binding consume_bind_nonce revoke_binding create_webhook_endpoint
    delete_webhook_endpoint
Step-IsSettled rt id v most db db' good (start j now input code picked e) s =
    let (_, _, _, _, left) = start_tx-eq-ok rt.config j now input db db' code picked e in
    rw left
      (record { stands = find-append (has_id id) db.verifications _ s.stands; ended = s.ended })
Step-IsSettled rt id v most db db' good (cancel ulids now app_id j e) s =
    cancel-IsSettled rt id v db s ulids now app_id j db' e
Step-IsSettled rt id v most db db' good (expire ulids now j e) s =
    rw e (expire-IsSettled rt id v db s ulids now j)
Step-IsSettled rt id v most db db' good (claim ulids now inbound_id receiver_id from code e) s =
    rw e (claim-IsSettled rt id v db s most good ulids now inbound_id receiver_id from code)
Step-IsSettled rt id v most db db' good (receive row e) s =
    IsSettled-frame id v db db' (ground arith) s
Step-IsSettled rt id v most db db' good (link inbound_id target e) s =
    rw e (IsSettled-frame id v db _ refl s)
Step-IsSettled rt id v most db db' good (bind ulid nonce now input answer e) s =
    IsSettled-frame id v db db' (ground arith) s
Step-IsSettled rt id v most db db' good (consume now input outcome e) s =
    IsSettled-frame id v db db' (ground arith) s
Step-IsSettled rt id v most db db' good (revoke now app_id j row e) s =
    IsSettled-frame id v db db' (ground arith) s
Step-IsSettled rt id v most db db' good (subscribe validate_url ulid secret now input row e) s =
    IsSettled-frame id v db db' (ground arith) s
Step-IsSettled rt id v most db db' good (unsubscribe app_id j e) s =
    IsSettled-frame id v db db' (ground arith) s
Step-IsSettled rt id v most db db' good (operate receivers e) s =
    rw e (IsSettled-frame id v db _ refl s)
Step-IsSettled rt id v most db db' good (deliver deliveries e) s =
    rw e (IsSettled-frame id v db _ refl s)

-- From a consistent database, a verification that is not pending has the same row, in every column,
-- after any history: it is never verified, expired or cancelled a second time.
pub Reach-IsSettled :
    (rt : Runtime) (id : Text) (v : Verification) (db db' : Db)
    → IsConsistent rt.config.max_pending_per_phone db
    → Reach rt db db'
    → IsSettled id v db
    → IsSettled id v db'
Reach-IsSettled rt id v db db' good here s = s
Reach-IsSettled rt id v db db' good (next {db' = mid} r st) s =
    Step-IsSettled rt id v _ mid db' (Reach-IsConsistent rt db mid good r) st
      (Reach-IsSettled rt id v db mid good r s)
