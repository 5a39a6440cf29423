-- ===== src/History/Handlers.antt =====
-- The handlers of the services are sequences of steps, also where they fail half-way.
use mathlib.Core.Path.{subst}
use syrotp.Prelude.{
  ℕ, suc, ◌+◌, ◌*◌, ◌≡◌, refl, sym, ◌∙◌, ap, Text, true, arith, any, find, Bool-cases, Option-cases,
  inl, inr, Option, some, none, zero, ◌++◌, chars,
}
use syrotp.Errors.{Result, ok, err, >>=-eq-ok, Result-cases, ok-pair}
use syrotp.Schema.{Db, Verification, InboundSms}
use syrotp.Runtime.{Runtime, new_id, verification_prefix, inbound_prefix}
use syrotp.Extract.{extract_code, extract_bind_nonce}
use syrotp.Verification.{
  PublicVerification, is_overdue, is_of, lazy_expire_and_emit, cancel_tx, get_verification,
  cancel_verification,
}
use syrotp.Verification.Start.{
  StartVerificationInput, PickedReceiver, message_prefix, is_bound, start_tx, retry_from,
  run_with_code_collision_retry, start_verification, is_pending_code_collision,
}
use syrotp.Binding.{
  ConsumeBindNonceInput, ConsumeBindNonceOutcome, matched, missed, consume_bind_nonce,
}
use syrotp.Matching.{
  MatchInput, sender, insert_inbound, inbound_row, claim_tx, process_inbound, handle_insert,
  verify_outcome, binding_outcome, match_body, match_code,
}
use syrotp.History.{start, cancel, expire, claim, receive, link, consume, Reach, here, next}

-- What a successful retry loop returns, its attempt returned for one of the codes.
pub retry_from-eq-ok {ℓ} :
    {A : Type ℓ} (codes : ℕ → Text) (attempt : Text → Result A) (rounds i : ℕ) {code : Text} {a : A}
    → retry_from codes attempt rounds i ≡ ok (code, a)
    → (j : ℕ) × (code ≡ codes j) × (attempt code ≡ ok a)
unfolding retry_from
retry_from-eq-ok codes attempt zero i e = cc
retry_from-eq-ok codes attempt (suc rounds) i {code} {a} e =
    elim (Result-cases (attempt (codes i))) [
      | inl (b, first) ↦
          let (same_code, same_result) =
            ok-pair (codes i, b) (code, a) (rw (first, retry_from) at e) in
          (i, sym same_code, rw (← same_code) (first ∙ ap ok same_result))
      | inr (x, failed) ↦ elim (Bool-cases (is_pending_code_collision x)) [
        | inl y ↦
            retry_from-eq-ok codes attempt rounds (suc i) (rw y at (rw (failed, retry_from) at e))
        | inr n ↦ cc (rw n at (rw (failed, retry_from) at e))
      ]
    ]

-- The transaction of a start that succeeds, and what of it is answered
pub start_verification-eq-ok :
    (rt : Runtime) (ulid : Text) (codes : ℕ → Text) (now : ℕ) (input : StartVerificationInput)
    (db db' : Db) (out : PublicVerification)
    → start_verification rt ulid codes now input db ≡ ok (out, db')
    → (code : Text) × (picked : PickedReceiver) × (i : ℕ) × (code ≡ codes i)
      × (any (is_bound input.app_id input.phone_e164) db.phone_bindings ≡ true)
      × (start_tx rt.config (new_id verification_prefix ulid) now input db code ≡ ok (picked, db'))
      × (out.id ≡ new_id verification_prefix ulid)
      × (out.expires_at ≡ now + rt.config.verification_ttl_seconds * 1000)
      × (out.send_to ≡ some picked.receiver.msisdn)
      × (out.message ≡ some (message_prefix ++ (chars " " ++ code)))
unfolding start_verification run_with_code_collision_retry
start_verification-eq-ok rt ulid codes now input db db' out e =
    elim (Bool-cases (any (is_bound input.app_id input.phone_e164) db.phone_bindings)) [
      | inr n ↦ absurd (ground arith)
      | inl y ↦
          let attempt = start_tx rt.config (new_id verification_prefix ulid) now input db in
          let ((code, (picked, left)), done, answer) =
            >>=-eq-ok (retry_from codes attempt 3 0) _ (rw y at e) in
          let (i, coded, tried) = retry_from-eq-ok codes attempt 3 0 done in
          (
            code,
            picked,
            i,
            ground (arith, coded),
            y,
            ground arith,
            ground arith,
            ground arith,
            ground arith,
            ground arith,
          )
    ]

pub start_verification-Reach :
    (rt : Runtime) (ulid : Text) (codes : ℕ → Text) (now : ℕ) (input : StartVerificationInput)
    (db db' : Db) (out : PublicVerification)
    → start_verification rt ulid codes now input db ≡ ok (out, db')
    → Reach rt db db'
start_verification-Reach rt ulid codes now input db db' out e =
    let (code, picked, _, _, _, done, _, _, _, _) =
      start_verification-eq-ok rt ulid codes now input db db' out e in
    next here (start (new_id verification_prefix ulid) now input code picked done)

pub get_verification-Reach :
    (rt : Runtime) (ulids : ℕ → Text) (now : ℕ) (app_id id : Text) (db db' : Db)
    (out : PublicVerification)
    → get_verification rt ulids now app_id id db ≡ ok (out, db')
    → Reach rt db db'
unfolding get_verification
get_verification-Reach rt ulids now app_id id db db' out e =
    elim (Option-cases (find (is_of app_id id) db.verifications)) [
      | inl missing ↦ absurd (ground arith)
      | inr (row, found) ↦ elim (Bool-cases (is_overdue now row)) [
        | inl late ↦
            let left : db' ≡ lazy_expire_and_emit rt ulids now id db = ground arith in
            next here (expire ulids now id left)
        | inr timely ↦ let left : db ≡ db' = ground arith in subst (Reach rt db) left here
      ]
    ]

pub Reach-trans : (rt : Runtime) (a b c : Db) → Reach rt a b → Reach rt b c → Reach rt a c
Reach-trans rt a b c r here = r
Reach-trans rt a b c r (next {db' = m} q s) = next (Reach-trans rt a b m r q) s

pub cancel_verification-Reach :
    (rt : Runtime) (ulids ulids' : ℕ → Text) (now later : ℕ) (app_id id : Text) (db db' : Db)
    (out : PublicVerification)
    → cancel_verification rt ulids ulids' now later app_id id db ≡ ok (out, db')
    → Reach rt db db'
unfolding cancel_verification
cancel_verification-Reach rt ulids ulids' now later app_id id db db' out e =
    let (mid, done, read) = >>=-eq-ok (cancel_tx rt ulids now app_id id db) _ e in
    Reach-trans rt db mid db' (next here (cancel ulids now app_id id done))
      (get_verification-Reach rt ulids' later app_id id mid db' out read)

module _ (rt : Runtime) (ulids : ℕ → Text) (now : ℕ) (input : MatchInput) (inbound_id from : Text)
    (db : Db) where
  binding_outcome-Reach :
      (answer : ConsumeBindNonceInput)
      → Reach rt db (binding_outcome inbound_id db (consume_bind_nonce now answer db)).0
  binding_outcome-Reach answer = go (consume_bind_nonce now answer db) refl
    where
      go :
          (r : Result (ConsumeBindNonceOutcome × Db))
          → consume_bind_nonce now answer db ≡ r
          → Reach rt db (binding_outcome inbound_id db r).0
      go (err e) k = here
      go (ok (matched binding_id app_id, db')) k =
          next (next here (consume now answer (matched binding_id app_id) k))
            (link inbound_id (some binding_id) refl)
      go (ok (missed reason, db')) k = next here (consume now answer (missed reason) k)

  match_code-Reach :
      (code : Option Text) → Reach rt db (match_code rt ulids now input inbound_id from code db).0
  unfolding match_code
  match_code-Reach none = here
  match_code-Reach (some code) =
      go (claim_tx rt ulids now inbound_id input.receiver_id from code db).0
        (claim_tx rt ulids now inbound_id input.receiver_id from code db).1
        (next here (claim ulids now inbound_id input.receiver_id from code refl))
    where
      go :
          (o : Option Verification) (db' : Db)
          → Reach rt db db'
          → Reach rt db (verify_outcome inbound_id (o, db')).0
      go none db' r = next r (link inbound_id none refl)
      go (some v) db' r = r

  pub match_body-Reach :
      (nonce : Option Text) → Reach rt db (match_body rt ulids now input inbound_id from nonce db).0
  unfolding match_body
  match_body-Reach none = match_code-Reach (extract_code rt input.body)
  match_body-Reach (some nonce) = binding_outcome-Reach _

-- The database that an inbound message leaves is reached by steps.
pub process_inbound-Reach :
    (rt : Runtime) (ulids : ℕ → Text) (now : ℕ) (input : MatchInput) (db : Db)
    → Reach rt db (process_inbound rt ulids now input db).0
unfolding process_inbound
process_inbound-Reach rt ulids now input db = go (insert_inbound row db) refl
  where
    inbound_id : Text
    inbound_id = new_id inbound_prefix (ulids 0)

    row : InboundSms
    row = inbound_row now inbound_id (sender rt input.from) input

    go :
        (r : Result Db)
        → insert_inbound row db ≡ r
        → Reach rt db (handle_insert rt ulids now input inbound_id (sender rt input.from) db r).0
    go (err e) k = here
    go (ok db') k = Reach-trans rt db db' _ (next here (receive row k)) (
        match_body-Reach rt (λ n. ulids (suc n)) now input inbound_id (sender rt input.from) db'
          (extract_bind_nonce rt input.body))
