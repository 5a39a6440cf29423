-- ===== src/Admin/Switched.antt =====
-- What disabling and enabling a receiver mean to its gateway.
use syrotp.Prelude.{
  ℕ, ◌≤◌, ◌≡◌, ◌≢◌, refl, sym, ◌∙◌, ap, Text, same, All, find, find_sound, count, update, Bool,
  true, false, List, [], ◌∷◌, some, arith, Bool-cases, inl, inr,
}
use syrotp.Tables.{All-map, unique_row}
use syrotp.Schema.{Db, Receiver}
use syrotp.Runtime.{Config}
use syrotp.Crypto.{Primitives}
use syrotp.Redis.{Redis}
use syrotp.Gateway.{
  VerifyHmacInput, VerifiedReceiver, accepted, verify_gateway_hmac, is_receiver_id,
}
use syrotp.Gateway.Sound.{verify_gateway_hmac_inv}
use syrotp.Admin.{
  AdminError, done, check, or_fail, DisableReceiverResult, has_id, set_enabled, switch,
  disable_receiver, enable_receiver,
}
use syrotp.Admin.Inversion.{>>=-eq-done, check-eq-done, or_fail-eq-done, done-injective}

find-disabled :
    (id : Text) (xs : List Receiver) (r : Receiver)
    → find (has_id id) (update (has_id id) (set_enabled false) xs) ≡ some r
    → r.enabled ≡ false
find-disabled id [] r e = cc
find-disabled id (x ∷ xs) r e = elim (Bool-cases (same x.id id)) [
  | inl y ↦ ground (arith, y)
  | inr n ↦ find-disabled id xs r (rw n at (rw n at e))
]

-- What a call that disables a receiver has done
disabled_row :
    (id : Text) (db db' : Db) (out : DisableReceiverResult) (r : Receiver)
    → disable_receiver id db ≡ done (out, db')
    → find (has_id id) db'.receivers ≡ some r
    → r.enabled ≡ false
unfolding disable_receiver
disabled_row id db db' out r h found =
    let (_, _, h1) = >>=-eq-done (check (is_receiver_id id) AdminError.invalid_receiver_id) _ h in
    let (row, e, h2) =
      >>=-eq-done (or_fail (find (has_id id) db.receivers) AdminError.receiver_not_found) _ h1 in
    let was = or_fail-eq-done (find (has_id id) db.receivers) AdminError.receiver_not_found e in
    let made = ap (λ r. r.1.receivers) (done-injective h2) in
    elim (Bool-cases row.enabled) [
      | inl y ↦
          let left : update (has_id id) (set_enabled false) db.receivers ≡ db'.receivers =
            rw y at made in
          find-disabled id db.receivers r (rw left found)
      | inr n ↦
          let left : db.receivers ≡ db'.receivers = rw n at made in
          let first : find (has_id id) db.receivers ≡ some r = rw left found in
          let one : row ≡ r = ground (arith, was, first) in rw (sym one) n
    ]

-- Once an operator's call that disables a receiver has succeeded, no request that names the receiver
-- is accepted, whatever its signature, its nonce and its time, while the table stays so.
pub disabled_receiver_is_refused :
    (p : Primitives) (config : Config) (now : ℕ) (db db' : Db) (out : DisableReceiverResult)
    (input : VerifyHmacInput) (redis redis' : Redis) (v : VerifiedReceiver)
    → disable_receiver input.receiver_id db ≡ done (out, db')
    → verify_gateway_hmac p config now input db' redis ≢ (accepted v, redis')
disabled_receiver_is_refused p config now db db' out input redis redis' v h e =
    let (r, t, key, good, _, _) = verify_gateway_hmac_inv p config now input redis redis' v db' e in
    let off = disabled_row input.receiver_id db db' out r h good.known in cc (good.enabled)

back_on :
    (id : Text) (xs : List Receiver)
    → All (λ x. has_id id x ≡ true → x.enabled ≡ true) xs
    → update (has_id id) (set_enabled true) (update (has_id id) (set_enabled false) xs) ≡ xs
back_on id [] h = refl
back_on id (x ∷ xs) (a, h) = elim (Bool-cases (same x.id id)) [
  | inl y ↦ let on = a y in rw (y, y) (ground (arith, on, back_on id xs h))
  | inr n ↦ rw (n, n) (ap (λ ys. x ∷ ys) (back_on id xs h))
]

find-update :
    (id : Text) (enabled : Bool) (xs : List Receiver) (r : Receiver)
    → find (has_id id) xs ≡ some r
    → find (has_id id) (update (has_id id) (set_enabled enabled) xs) ≡ some (set_enabled enabled r)
find-update id enabled [] r e = cc
find-update id enabled (x ∷ xs) r e = elim (Bool-cases (same x.id id)) [
  | inl y ↦
      let first : x ≡ r = ground (arith, y) in
      rw (y, y) (ap (λ z. some (set_enabled enabled z)) first)
  | inr n ↦ rw (n, n) (find-update id enabled xs r (rw n at e))
]

-- Enabling takes a disabling back: where the identifiers are different ones and a call has disabled
-- a receiver that was enabled, the call that enables it succeeds, says that it was disabled, and
-- leaves the database as it was before both.
pub enable-disable :
    (id : Text) (db db' : Db) (out : DisableReceiverResult)
    → count (has_id id) db.receivers ≤ 1
    → disable_receiver id db ≡ done (out, db')
    → out.was_enabled ≡ true
    → enable_receiver id db'
      ≡ done (record { id = out.id; was_disabled = true; msisdn = out.msisdn }, db)
unfolding disable_receiver enable_receiver
enable-disable id db db' out one h on =
    let (_, shaped, h1) =
      >>=-eq-done (check (is_receiver_id id) AdminError.invalid_receiver_id) _ h in
    let (row, e, h2) =
      >>=-eq-done (or_fail (find (has_id id) db.receivers) AdminError.receiver_not_found) _ h1 in
    let was = or_fail-eq-done (find (has_id id) db.receivers) AdminError.receiver_not_found e in
    let made = done-injective h2 in
    let enabled : row.enabled ≡ true = ap (λ r. r.0.was_enabled) made ∙ on in
    let is_out : out ≡ record { id = row.id; was_enabled = row.enabled; msisdn = row.msisdn } =
      sym (ap (λ r. r.0) made) in
    let is_db : db' ≡ switch false id db = sym (rw enabled at (ap (λ r. r.1) made)) in
    let valid = check-eq-done (is_receiver_id id) AdminError.invalid_receiver_id shaped in
    let found : find (has_id id) (switch false id db).receivers ≡ some (set_enabled false row) =
      find-update id false db.receivers row was in
    let alone =
      unique_row (has_id id) (has_id id) db.receivers row was
        (find_sound (has_id id) db.receivers was) one in
    let all_on =
      All-map (λ x. has_id id x ≡ true → x ≡ row) (λ x. has_id id x ≡ true → x.enabled ≡ true)
        db.receivers (λ x k y. rw (k y) enabled) alone in
    let restored : switch true id (switch false id db) ≡ db =
      ap (λ rs. record db { receivers = rs }) (back_on id db.receivers all_on) in
    rw (is_out, is_db, valid, found)
      (ap (λ (d : Db). done (record { id = row.id; was_disabled = true; msisdn = row.msisdn }, d))
        restored)
