-- ===== src/Binding/Ceremony.antt =====
-- What the binding ceremony promises, and two places where it falls short.
use syrotp.Prelude.{
  ℕ, ◌≤◌, ◌<◌, ◌≡◌, refl, sym, ◌∙◌, ap, Text, same_iff, same_refl, Bool, true, List, [], ◌∷◌, arith,
  any, count, find, update, returning, leb, leb→le, Bool-cases, Option-cases, inl, inr, some,
}
use syrotp.Tables.{any_of_any, any_of_positive, count_of_any, count-update_gain}
use syrotp.Errors.{ok, err, unique_violation}
use mathlib.Core.List.{Mem, mem-cons_self, mem-cons_of_mem}
use syrotp.Schema.{Db, PhoneBinding, PhoneBindingStatus}
use syrotp.Verification.Start.{is_bound}
use syrotp.Binding.{
  ConsumeBindNonceInput, ConsumeBindNonceOutcome, matched, consume_bind_nonce, consumed,
  is_consumable, set_bound, breaks_active_uq, is_binding, set_revoked, revoke_binding, first_row,
  is_pending_binding,
}

-- Why a nonce is accepted
pub record Accepts (now : ℕ) (input : ConsumeBindNonceInput) (b : PhoneBinding) : Type 0 where
  pub nonce : b.nonce ≡ input.nonce
  pub receiver : b.receiver_id ≡ input.receiver_id
  pub phone : b.phone_e164 ≡ input.from_e164
  pub pending : b.status ≡ PhoneBindingStatus.pending
  pub in_time : now < b.expires_at

first_of_select :
    (p : PhoneBinding → Bool) (f : PhoneBinding → PhoneBinding) (xs rows : List PhoneBinding)
    (row : PhoneBinding)
    → returning p f xs ≡ row ∷ rows
    → (b : PhoneBinding) × Mem b xs × (p b ≡ true) × (row ≡ f b) × Mem (f b) (update p f xs)
first_of_select p f [] rows row e = cc
first_of_select p f (x ∷ xs) rows row e = elim (Bool-cases (p x)) [
  | inl y ↦
      let e' = rw y at e in
      (
        x,
        mem-cons_self,
        y,
        sym (ap (λ (l : List PhoneBinding). head_or row l) e'),
        rw y mem-cons_self,
      )
  | inr n ↦
      let (b, there, passes, made, left) = first_of_select p f xs rows row (rw n at e) in
      (b, mem-cons_of_mem x there, passes, made, mem-cons_of_mem _ left)
]
  where
    head_or : PhoneBinding → List PhoneBinding → PhoneBinding
    head_or d [] = d
    head_or d (y ∷ ys) = y

any-updated :
    (p q : PhoneBinding → Bool) (f : PhoneBinding → PhoneBinding) (xs rows : List PhoneBinding)
    (row : PhoneBinding)
    → returning p f xs ≡ row ∷ rows
    → q row ≡ true
    → any q (update p f xs) ≡ true
any-updated p q f [] rows row e h = cc
any-updated p q f (x ∷ xs) rows row e h = elim (Bool-cases (p x)) [
  | inl y ↦ let first : f x ≡ row = ground arith in rw (y, ap q first, h)
  | inr n ↦ ground (arith, any-updated p q f xs rows row (rw n at e) h)
]

pending_status :
    (s : PhoneBindingStatus) → is_pending_binding s ≡ true → s ≡ PhoneBindingStatus.pending
pending_status s h = ground arith

-- A message that binds a phone carried the nonce of a ceremony that stood in the table, pending and
-- not expired, and came from the phone that the ceremony claims, through its receiver; the answer
-- names its id and app. Afterwards the phone is bound to that app, and the table has the
-- ceremony's row, verified and bound at that time.
pub consume_bind_nonce_sound :
    (now : ℕ) (input : ConsumeBindNonceInput) (db db' : Db) (binding_id app_id : Text)
    → consume_bind_nonce now input db ≡ ok (matched binding_id app_id, db')
    → (b : PhoneBinding) × Mem b db.phone_bindings
      × (b.id ≡ binding_id)
      × (b.app_id ≡ app_id)
      × Accepts now input b
      × (any (is_bound app_id input.from_e164) db'.phone_bindings ≡ true)
      × Mem
          (record b { status = PhoneBindingStatus.verified; bound_at = some now })
          db'.phone_bindings
unfolding consume_bind_nonce
consume_bind_nonce_sound now input db db' binding_id app_id e =
    go (returning (is_consumable now input) (set_bound now) db.phone_bindings) refl
      (elim (Bool-cases (breaks_active_uq table)) [
        | inl y ↦ absurd (ground arith)
        | inr n ↦ ground arith
      ])
  where
    table : List PhoneBinding
    table = update (is_consumable now input) (set_bound now) db.phone_bindings

    go :
        (claimed : List PhoneBinding)
        → returning (is_consumable now input) (set_bound now) db.phone_bindings ≡ claimed
        → (consumed now input table claimed ≡ matched binding_id app_id)
          × (db'.phone_bindings ≡ table)
        → (b : PhoneBinding) × Mem b db.phone_bindings
          × (b.id ≡ binding_id)
          × (b.app_id ≡ app_id)
          × Accepts now input b
          × (any (is_bound app_id input.from_e164) db'.phone_bindings ≡ true)
          × Mem
              (record b { status = PhoneBindingStatus.verified; bound_at = some now })
              db'.phone_bindings
    go [] r (k, t) = cc
    go (row ∷ rows) r (k, t) =
        let (b, there, chosen, made, left) =
          first_of_select (is_consumable now input) (set_bound now) db.phone_bindings rows row r in
        (
          b,
          there,
          ground arith,
          ground arith,
          record {
            nonce = (same_iff b.nonce input.nonce).0 (ground arith);
            receiver = (same_iff b.receiver_id input.receiver_id).0 (ground arith);
            phone = (same_iff b.phone_e164 input.from_e164).0 (ground arith);
            pending = pending_status b.status (ground arith);
            in_time = ground arith;
          },
          rw t (
              any-updated (is_consumable now input) (is_bound app_id input.from_e164)
                (set_bound now) db.phone_bindings rows row r
                (ground (
                  arith,
                  same_refl app_id,
                  same_refl input.from_e164,
                  same_iff b.phone_e164 input.from_e164,
                  same_iff b.app_id app_id,
                ))),
          rw t left,
        )

-- No (app_id, phone_e164) has two verified rows: `phone_bindings_active_uq`.
abbrev pub OneBound : List PhoneBinding → Type 0
OneBound table = (app_id phone : Text) → count (is_bound app_id phone) table ≤ 1

breaks_of_two :
    (a p : Text) (table : List PhoneBinding)
    → 2 ≤ count (is_bound a p) table
    → breaks_active_uq table ≡ true
breaks_of_two a p table h =
    any_of_any (is_bound a p) _ table
      (λ b bound.
        let two : 2 ≤ count (is_bound b.app_id b.phone_e164) table =
          rw ((same_iff b.app_id a).0 (ground arith), (same_iff b.phone_e164 p).0 (ground arith))
            h in
        ground arith)
      (any_of_positive (is_bound a p) table (omega arith))

-- Where `consume_bind_nonce` answers, hit or miss, no app and phone have two verified bindings
-- afterwards: an update that would make two throws on the index.
pub consume_bind_nonce-OneBound :
    (now : ℕ) (input : ConsumeBindNonceInput) (db db' : Db) (outcome : ConsumeBindNonceOutcome)
    → consume_bind_nonce now input db ≡ ok (outcome, db')
    → OneBound db'.phone_bindings
unfolding consume_bind_nonce
consume_bind_nonce-OneBound now input db db' outcome e a p =
    elim (Bool-cases (leb 2 (count (is_bound a p) db'.phone_bindings))) [
      | inl two ↦
          let breaks = breaks_of_two a p db'.phone_bindings (leb→le 2 _ two) in
          absurd (ground arith)
      | inr one ↦ ground arith
    ]

-- Where the phone is bound to the app already, a message that would complete a second ceremony of
-- theirs makes the update throw on the index instead of being answered as a miss.
pub consume_bind_nonce_throws :
    (now : ℕ) (input : ConsumeBindNonceInput) (db : Db) (b : PhoneBinding)
    → find (is_consumable now input) db.phone_bindings ≡ some b
    → any (is_bound b.app_id b.phone_e164) db.phone_bindings ≡ true
    → consume_bind_nonce now input db ≡ err (unique_violation "phone_bindings_active_uq")
unfolding consume_bind_nonce
consume_bind_nonce_throws now input db b found bound = rw (
    breaks_of_two b.app_id b.phone_e164
      (update (is_consumable now input) (set_bound now) db.phone_bindings)
      (omega (
        arith,
        count_of_any (is_bound b.app_id b.phone_e164) db.phone_bindings bound,
        count-update_gain (is_bound b.app_id b.phone_e164) (is_consumable now input) (set_bound now)
            db.phone_bindings b (λ x h. ground arith) found
            (ground (arith, same_refl b.app_id, same_refl b.phone_e164)),
      )))

revoked_twice :
    (now later : ℕ) (app_id id : Text) (xs : List PhoneBinding) (row : PhoneBinding)
    → first_row (returning (is_binding app_id id) (set_revoked now) xs) ≡ some row
    → (row.revoked_at ≡ some now)
      × (first_row (
            returning
              (is_binding app_id id)
              (set_revoked later)
              (update (is_binding app_id id) (set_revoked now) xs))
          ≡ some (set_revoked later row))
revoked_twice now later app_id id [] row e = cc
revoked_twice now later app_id id (x ∷ xs) row e = elim (Bool-cases (is_binding app_id id x)) [
  | inl y ↦
      let first : set_revoked now x ≡ row = ground arith in
      (
        ap (λ (b : PhoneBinding). b.revoked_at) (sym first),
        rw (y, y) (ap (λ (b : PhoneBinding). some (set_revoked later b)) first),
      )
  | inr n ↦
      let (at, again) = revoked_twice now later app_id id xs row (rw n at e) in
      (at, rw (n, n) again)
]

-- Revoking a second time is no no-op: it moves the time of the revocation.
pub revoke_binding_again :
    (now later : ℕ) (app_id id : Text) (db db' : Db) (row : PhoneBinding)
    → revoke_binding now app_id id db ≡ ok (row, db')
    → (row' : PhoneBinding) × (db'' : Db) × (revoke_binding later app_id id db' ≡ ok (row', db''))
      × (row.revoked_at ≡ some now)
      × (row'.revoked_at ≡ some later)
unfolding revoke_binding
revoke_binding_again now later app_id id db db' row e =
    elim (Option-cases
      (first_row (returning (is_binding app_id id) (set_revoked now) db.phone_bindings))) [
        | inl n ↦ absurd (ground arith)
        | inr (first, some_row) ↦
            let same_row : first ≡ row = ground arith in
            let table : db'.phone_bindings
                ≡ update (is_binding app_id id) (set_revoked now) db.phone_bindings =
              ground arith in
            let (at, again) = revoked_twice now later app_id id db.phone_bindings first some_row in
            (
              set_revoked later first,
              record db' {
                phone_bindings =
                    update (is_binding app_id id) (set_revoked later)
                      (update (is_binding app_id id) (set_revoked now) db.phone_bindings);
              },
              rw (table, again),
              ap (λ (b : PhoneBinding). b.revoked_at) (sym same_row) ∙ at,
              refl,
            )
      ]
