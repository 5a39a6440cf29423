-- ===== src/History/Settle.antt =====
-- A transaction that ends the pending verification of an id and emits its event keeps the database
-- consistent: lazy expiry, cancelling and matching are of this form.
use native.Mathlib.Nat.{le_trans}
use syrotp.Prelude.{
  ℕ, ◌+◌, ◌≡◌, refl, ◌∙◌, ap, Text, same, same_iff, Bool, true, false, List, [], ◌∷◌, ◌++◌, arith,
  All, All-append, any, count, count-append, count-update, count-update-le, update, returning,
  any-update, Bool-cases, inl, inr,
}
use syrotp.Schema.{Db, Verification, WebhookEvent}
use syrotp.Runtime.{Runtime, VerificationEventType}
use syrotp.Webhook.{emit_verification_event_in_tx, build_verification_event_data}
use syrotp.Verification.{is_pending, emit_for}
use syrotp.Verification.Start.{is_pending_for, is_pending_triple}
use syrotp.Verification.Hosted.{has_id}
use syrotp.History.{IsConsistent, is_event_of, emitted}
use syrotp.Tables.{others, any_of_any, update_of_none, select_of_none, select_of_any}

-- What an ending of the verification `id` does to the rows
pub record Ends (id : Text) (p : Verification → Bool) (f : Verification → Verification)
    : Type 0 where
  pub chosen : (v : Verification) → p v ≡ true → same v.id id ≡ true
  pub kept : (v : Verification) → (f v).id ≡ v.id
  pub ended : (v : Verification) → is_pending (f v).status ≡ false
  pub counted : (v : Verification) → emitted (f v).status ≡ 1

-- The ledger's entry for a row, after one more event.
entry :
    (id : Text) (v : Verification) (events : List WebhookEvent) (e : WebhookEvent) (n : ℕ)
    → e.verification_id ≡ id
    → count (is_event_of v.id) events ≡ n
    → ((same v.id id ≡ true) → count (is_event_of v.id) (events ++ e ∷ []) ≡ n + 1)
      × ((same v.id id ≡ false) → count (is_event_of v.id) (events ++ e ∷ []) ≡ n)
entry id v events e n of_id h = (
  λ s. ground (
    arith,
    count-append (is_event_of v.id) events (e ∷ []),
    same_iff v.id id,
    same_iff e.verification_id v.id,
  ),
  λ s. ground (
    arith,
    count-append (is_event_of v.id) events (e ∷ []),
    same_iff v.id id,
    same_iff e.verification_id v.id,
  ),
)

module _ (most : ℕ) (db : Db) (id : Text) (p : Verification → Bool)
    (f : Verification → Verification) (ends : Ends id p f) (good : IsConsistent most db)
    (open_rows : All (λ v. p v ≡ true → is_pending v.status ≡ true) db.verifications) where
  has_id-f : (j : Text) (v : Verification) → has_id j (f v) ≡ has_id j v
  has_id-f j v = ap (λ i. same i j) (ends.kept v)

  new_verifications : List Verification
  new_verifications = update p f db.verifications

  ledger_row :
      (e : WebhookEvent)
      → e.verification_id ≡ id
      → (v : Verification) → count (is_event_of v.id) db.webhook_events ≡ emitted v.status
      → (p v ≡ true → is_pending v.status ≡ true)
      → (p v ≡ false → has_id id v ≡ false)
      → (p v ≡ true
          → count (is_event_of (f v).id) (db.webhook_events ++ e ∷ []) ≡ emitted (f v).status)
        × (p v ≡ false → count (is_event_of v.id) (db.webhook_events ++ e ∷ []) ≡ emitted v.status)
  ledger_row e of_id v h pending other = (
    λ hit.
        rw (ends.kept v, ends.counted v)
          ((entry id v db.webhook_events e 0 of_id (h ∙ none_yet v.status (pending hit))).0
            (ends.chosen v hit)),
    λ miss. (entry id v db.webhook_events e (emitted v.status) of_id h).1 (other miss),
  )
    where
      none_yet : (s : _) → is_pending s ≡ true → emitted s ≡ 0
      none_yet s k = ground arith

  ledger-All :
      (e : WebhookEvent)
      → e.verification_id ≡ id
      → (xs : List Verification)
      → All (λ v. count (is_event_of v.id) db.webhook_events ≡ emitted v.status) xs
      → All (λ v. p v ≡ true → is_pending v.status ≡ true) xs
      → All (λ v. p v ≡ false → has_id id v ≡ false) xs
      → All
          (λ v. count (is_event_of v.id) (db.webhook_events ++ e ∷ []) ≡ emitted v.status)
          (update p f xs)
  ledger-All e of_id [] h k o = tt
  ledger-All e of_id (v ∷ xs) (h, hs) (k, ks) (o, os) =
      let (hit, miss) = ledger_row e of_id v h k o in
      let rest = ledger-All e of_id xs hs ks os in
      elim (Bool-cases (p v)) [ inl y ↦ rw y (hit y, rest) | inr n ↦ rw n (miss n, rest) ]

  any-new : (j : Text) → any (has_id j) new_verifications ≡ any (has_id j) db.verifications
  unfolding new_verifications
  any-new j = any-update (has_id j) p f db.verifications (has_id-f j)

  known-All :
      (es : List WebhookEvent)
      → All (λ e. any (has_id e.verification_id) db.verifications ≡ true) es
      → All (λ e. any (has_id e.verification_id) new_verifications ≡ true) es
  known-All [] h = tt
  known-All (e ∷ es) (h, hs) = (any-new e.verification_id ∙ h, known-All es hs)

  triple-ended :
      (r ph c : Text) (v : Verification)
      → p v ≡ true
      → is_pending_triple r ph c (f v) ≡ true
      → is_pending_triple r ph c v ≡ true
  triple-ended r ph c v _ h = ground (arith, ends.ended v)

  for-ended :
      (a ph : Text) (v : Verification)
      → p v ≡ true
      → is_pending_for a ph (f v) ≡ true
      → is_pending_for a ph v ≡ true
  for-ended a ph v _ h = ground (arith, ends.ended v)

  settle_with :
      (e : WebhookEvent)
      → e.verification_id ≡ id
      → any p db.verifications ≡ true
      → (db' : Db) → db'.verifications ≡ new_verifications
      → db'.webhook_events ≡ db.webhook_events ++ e ∷ []
      → IsConsistent most db'
  unfolding new_verifications
  settle_with e of_id some_row db' vs es = record {
    unique_ids =
        λ j. rw (vs, count-update (has_id j) p f db.verifications (has_id-f j)) (good.unique_ids j);
    unique_codes = λ r ph c. rw vs (
        le_trans
          (count-update-le (is_pending_triple r ph c) p f db.verifications (triple-ended r ph c))
          (good.unique_codes r ph c));
    capped = λ a ph. rw vs (
        le_trans (count-update-le (is_pending_for a ph) p f db.verifications (for-ended a ph))
          (good.capped a ph));
    ledger =
        rw (vs, es)
          (ledger-All e of_id db.verifications good.ledger open_rows
            (others p (has_id id) db.verifications ends.chosen (good.unique_ids id) some_row));
    known =
        rw (vs, es)
          (All-append _ db.webhook_events (e ∷ []) (known-All db.webhook_events good.known) (
            rw of_id (any-new id ∙ any_of_any p (has_id id) db.verifications ends.chosen some_row),
            tt,
          ));
  }

  -- Whether a row was chosen or none was.
  pub settle :
      (rt : Runtime) (ulids : ℕ → Text) (now : ℕ) (t : VerificationEventType)
      → IsConsistent most (
          emit_for rt ulids now t
            (returning p f db.verifications)
            (record db { verifications = update p f db.verifications }))
  unfolding emit_for emit_verification_event_in_tx build_verification_event_data new_verifications
  settle rt ulids now t = elim (Bool-cases (any p db.verifications)) [
    | inl hit ↦
        let (v, rest, e, chosen) = select_of_any p db.verifications hit in
        rw e (
          settle_with _ (ends.kept v ∙ (same_iff v.id id).0 (ends.chosen v chosen)) hit _ refl refl)
    | inr miss ↦
        rw (select_of_none p db.verifications miss, update_of_none p f db.verifications miss) good
  ]
