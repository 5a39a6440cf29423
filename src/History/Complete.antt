-- ===== src/History/Complete.antt =====
-- A message verifies the row that it answers.
use mathlib.Core.Path.{subst}
use native.Mathlib.Nat.{le_trans}
use syrotp.Prelude.{
  ℕ, ◌+◌, ◌≤◌, ◌≡◌, sym, ◌∙◌, ap, Text, same, same_iff, same_refl, count, true, false, List, [],
  ◌∷◌, arith, any, find, Option, some, or_else,
}
use syrotp.Errors.{Result, ok}
use syrotp.Tables.{find_unique}
use syrotp.Schema.{Db, Verification, VerificationStatus}
use syrotp.Runtime.{Runtime, new_id, inbound_prefix}
use syrotp.Verification.{is_pending}
use syrotp.Verification.Hosted.{has_id}
use syrotp.Verification.Start.{is_pending_triple}
use syrotp.Matching.{
  MatchInput, MatchOutcome, verification_matched, is_claimable, is_same_delivery, process_inbound,
  sender,
}
use syrotp.History.{IsConsistent}
use syrotp.History.Sound.{Answers, process_inbound_sound}
use syrotp.History.Message.{process_inbound-claims}

claimable_most :
    (t : ℕ) (r p c : Text) (xs : List Verification)
    → count (is_claimable t r p c) xs ≤ count (is_pending_triple r p c) xs
claimable_most t r p c [] = omega arith
claimable_most t r p c (x ∷ xs) = ground (arith, claimable_most t r p c xs)

Answers-claimable :
    (rt : Runtime) (now : ℕ) (input : MatchInput) (v : Verification)
    → Answers rt now input v
    → is_claimable now input.receiver_id (sender rt input.from) v.code v ≡ true
Answers-claimable rt now input v a =
    let pending : is_pending v.status ≡ true = ap is_pending a.pending in
    ground (
      arith,
      (same_iff v.receiver_id input.receiver_id).1 a.receiver,
      (same_iff v.phone_e164 (sender rt input.from)).1 a.phone,
      same_refl v.code,
      a.in_time,
    )

-- In a consistent database a message verifies the row that it answers, whatever other rows there
-- are: where the row of an id came through the message's receiver, is about the phone that sent it,
-- is pending and not expired, and the message carries its code and no nonce and is stored under a
-- new id and key, the answer is that id, and afterwards the row of the id is the same row, verified
-- at that time by that message, with one attempt more.
pub process_inbound_complete :
    (rt : Runtime) (ulids : ℕ → Text) (now : ℕ) (input : MatchInput) (most : ℕ) (db : Db)
    (v : Verification)
    → IsConsistent most db
    → find (has_id v.id) db.verifications ≡ some v
    → Answers rt now input v
    → any (λ s. same s.id (new_id inbound_prefix (ulids 0))) db.inbound_sms ≡ false
    → any (is_same_delivery input.receiver_id input.idempotency_key) db.inbound_sms ≡ false
    → ((process_inbound rt ulids now input db).1
        ≡ ok (verification_matched v.id (new_id inbound_prefix (ulids 0))))
      × (find (has_id v.id) (process_inbound rt ulids now input db).0.verifications
          ≡ some (record v {
            status = VerificationStatus.verified;
            verified_at = some now;
            matched_inbound_id = some (new_id inbound_prefix (ulids 0));
            attempts = v.attempts + 1;
          }))
process_inbound_complete rt ulids now input most db v good stands answers fresh new =
    let claim = is_claimable now input.receiver_id (sender rt input.from) v.code in
    let picked : find claim db.verifications ≡ some v =
      find_unique (has_id v.id) claim db.verifications v stands
        (Answers-claimable rt now input v answers)
        (le_trans
          (claimable_most now input.receiver_id (sender rt input.from) v.code db.verifications)
          (good.unique_codes input.receiver_id (sender rt input.from) v.code)) in
    let answer =
      process_inbound-claims rt ulids now input db v.code v fresh new answers.no_binding
        answers.code picked in
    let done = process_inbound rt ulids now input db in
    let (w, found, _, after) =
      process_inbound_sound rt ulids now input most db done.0 v.id (new_id inbound_prefix (ulids 0))
        good (ap (λ (r : Result MatchOutcome). (done.0, r)) answer) in
    let same_row : w ≡ v = ap (λ (o : Option Verification). or_else o v) (sym found ∙ stands) in
    (
      answer,
      subst
          (λ (x : Verification).
            find (has_id v.id) done.0.verifications
            ≡ some (record x {
              status = VerificationStatus.verified;
              verified_at = some now;
              matched_inbound_id = some (new_id inbound_prefix (ulids 0));
              attempts = x.attempts + 1;
            }))
          same_row after,
    )
