-- ===== src/Routes/Tenants.antt =====
-- What the calls of one app's backend leave of the rows of another.
use syrotp.Prelude.{
  ℕ, ◌≡◌, ◌≢◌, refl, sym, ◌∙◌, ap, Text, same, same_iff, Bool, true, false, List, [], ◌∷◌, ◌++◌,
  arith, select, update, returning, delete, find, any, Bool-cases, inl, inr,
}
use syrotp.Errors
use syrotp.Errors.{Failure, Result, ok, err}
use syrotp.Phone.{normalize_phone}
use syrotp.Schema.{Db, PhoneBinding, WebhookEndpoint}
use syrotp.Runtime.{Runtime, new_id, phone_binding_prefix, webhook_endpoint_prefix}
use syrotp.Binding.{
  StartBindingInput, StartBindingResult, start_binding, revoke_binding, is_binding, set_revoked,
  first_row, is_receiver_of, new_binding,
}
use syrotp.Webhook.{
  CreateWebhookInput, WebhookEndpointWithSecret, is_of_app, is_endpoint, create_webhook_endpoint,
  delete_webhook_endpoint, new_endpoint,
}
use syrotp.Webhook.Secrets.{Sealing}
use syrotp.Webhook.Created.{create_webhook_endpoint-eq-ok}
use syrotp.Routes.Routed.{committed}
use syrotp.Routes.Endpoints.{as_refused_url, emptied}

abbrev pub bindings_of : Text → Db → List PhoneBinding
bindings_of b db = select (λ r. same r.app_id b) db.phone_bindings

abbrev pub endpoints_of : Text → Db → List WebhookEndpoint
endpoints_of b db = select (is_of_app b) db.webhook_endpoints

-- The rows of an app, in both tables
abbrev pub Kept : Text → Db → Db → Type 0
Kept b db db' = (bindings_of b db' ≡ bindings_of b db) × (endpoints_of b db' ≡ endpoints_of b db)

module _ {ℓ} {A : Type ℓ} (q : A → Bool) where
  select-append_other : (x : A) (xs : List A) → q x ≡ false → select q (xs ++ x ∷ []) ≡ select q xs
  select-append_other x [] n = rw n refl
  select-append_other x (y ∷ xs) n = ground (arith, select-append_other x xs n)

  select-update_other :
      (p : A → Bool) (f : A → A) (xs : List A)
      → ((x : A) → p x ≡ true → (q x ≡ false) × (q (f x) ≡ false))
      → select q (update p f xs) ≡ select q xs
  select-update_other p f [] h = refl
  select-update_other p f (x ∷ xs) h = elim (Bool-cases (p x)) [
    | inl y ↦ let (old, new) = h x y in rw (y, old, new) (select-update_other p f xs h)
    | inr m ↦ rw m (ground (arith, select-update_other p f xs h))
  ]

  select-delete_other :
      (p : A → Bool) (xs : List A)
      → ((x : A) → p x ≡ true → q x ≡ false)
      → select q (delete p xs) ≡ select q xs
  select-delete_other p [] h = refl
  select-delete_other p (x ∷ xs) h = elim (Bool-cases (p x)) [
    | inl y ↦ rw (y, h x y) (select-delete_other p xs h)
    | inr m ↦ rw m (ground (arith, select-delete_other p xs h))
  ]

-- A row of the app `a` is none of another app's.
other_app : (a b x : Text) → a ≢ b → same x a ≡ true → same x b ≡ false
other_app a b x n y = elim (Bool-cases (same x b)) [
  | inl z ↦ absurd (n (sym ((same_iff x a).0 y) ∙ (same_iff x b).0 z))
  | inr m ↦ m
]

same_text : (a b : Text) → a ≢ b → same a b ≡ false
same_text a b n = elim (Bool-cases (same a b)) [
  | inl y ↦ absurd (n ((same_iff a b).0 y))
  | inr m ↦ m
]

committed-Kept {ℓ} :
    {A : Type ℓ} (b : Text) (db : Db) (r : Result (A × Db))
    → ((x : A) (db' : Db) → r ≡ ok (x, db') → Kept b db db')
    → Kept b db (committed db r).1
committed-Kept b db (err e) h = (refl, refl)
committed-Kept b db (ok (x, db')) h = h x db' refl

started_row :
    (rt : Runtime) (ulid nonce : Text) (now : ℕ) (input : StartBindingInput) (db : Db)
    (out : StartBindingResult) (db' : Db)
    → start_binding rt ulid nonce now input db ≡ ok (out, db')
    → (row : PhoneBinding) × (row.app_id ≡ input.app_id)
      × (db'.phone_bindings ≡ db.phone_bindings ++ row ∷ [])
      × (db'.webhook_endpoints ≡ db.webhook_endpoints)
unfolding start_binding
started_row rt ulid nonce now input db out db' h =
    let (phone, _, h1) =
      Errors.>>=-eq-ok (normalize_phone rt input.phone rt.config.default_phone_region) _ h in
    let (r, _, h2) =
      Errors.>>=-eq-ok
        (Errors.or_throw (find (is_receiver_of input.app_id input.receiver_id) db.receivers)
          (Errors.not_found "receiver"))
        _ h1 in
    let row = new_binding rt (new_id phone_binding_prefix ulid) nonce now input phone.e164 in
    (row, refl, ground arith, ground arith)

revoked_db :
    (now : ℕ) (a id : Text) (db : Db) (out : PhoneBinding) (db' : Db)
    → revoke_binding now a id db ≡ ok (out, db')
    → db'
      ≡ record db { phone_bindings = update (is_binding a id) (set_revoked now) db.phone_bindings }
unfolding revoke_binding
revoked_db now a id db out db' h =
    let (row, _, h1) =
      Errors.>>=-eq-ok
        (Errors.or_throw
          (first_row (returning (is_binding a id) (set_revoked now) db.phone_bindings))
          (Errors.not_found "phone_binding"))
        _ h in
    ground arith

created_row :
    (validate_url : Text → Result (Unit {0})) (ulid : Text) (sealing : Sealing) (now : ℕ)
    (input : CreateWebhookInput) (db : Db) (out : WebhookEndpointWithSecret) (db' : Db)
    → create_webhook_endpoint validate_url ulid sealing now input db ≡ ok (out, db')
    → (row : WebhookEndpoint) × (row.app_id ≡ input.app_id)
      × (db'.phone_bindings ≡ db.phone_bindings)
      × (db'.webhook_endpoints ≡ db.webhook_endpoints ++ row ∷ [])
created_row validate_url ulid sealing now input db out db' h =
    let (wrapped, events, _, _, left) =
      create_webhook_endpoint-eq-ok validate_url ulid sealing now input db out db' h in
    (
      new_endpoint (new_id webhook_endpoint_prefix ulid) wrapped now input events,
      refl,
      ap (λ (d : Db). d.phone_bindings) left,
      ap (λ (d : Db). d.webhook_endpoints) left,
    )

as_refused_url-eq-ok {ℓ} : {A : Type ℓ} (r : Result A) (x : A) → as_refused_url r ≡ ok x → r ≡ ok x
as_refused_url-eq-ok (ok y) x e = e
as_refused_url-eq-ok (err (Failure.webhook_validation_error c m)) x e = cc
as_refused_url-eq-ok (err (Failure.api y)) x e = cc
as_refused_url-eq-ok (err (Failure.unique_violation y)) x e = cc
as_refused_url-eq-ok (err (Failure.phone_error y)) x e = cc
as_refused_url-eq-ok (err (Failure.error y)) x e = cc

module _ (a b : Text) (other : a ≢ b) where
  pub start_binding-Kept :
      (rt : Runtime) (ulid nonce : Text) (now : ℕ) (input : StartBindingInput) (db : Db)
      → input.app_id ≡ a
      → Kept b db (committed db (start_binding rt ulid nonce now input db)).1
  start_binding-Kept rt ulid nonce now input db e =
      committed-Kept b db (start_binding rt ulid nonce now input db) (λ out db' h.
        let (row, owner, bindings, endpoints) = started_row rt ulid nonce now input db out db' h in
        let none_of_b : same row.app_id b ≡ false = rw (owner, e) (same_text a b other) in
        (
          ap (select (λ r. same r.app_id b)) bindings
              ∙ select-append_other (λ r. same r.app_id b) row db.phone_bindings none_of_b,
          ap (select (is_of_app b)) endpoints,
        ))

  pub revoke_binding-Kept :
      (now : ℕ) (id : Text) (db : Db) → Kept b db (committed db (revoke_binding now a id db)).1
  revoke_binding-Kept now id db = committed-Kept b db (revoke_binding now a id db) (λ out db' h.
      let left = revoked_db now a id db out db' h in
      rw left (
        select-update_other (λ r. same r.app_id b) (is_binding a id) (set_revoked now)
            db.phone_bindings
            (λ x p. let mine = other_app a b x.app_id other (ground arith) in (mine, mine)),
        refl,
      ))

  pub create_webhook_endpoint-Kept :
      (validate_url : Text → Result (Unit {0})) (ulid : Text) (sealing : Sealing) (now : ℕ)
      (input : CreateWebhookInput) (db : Db)
      → input.app_id ≡ a
      → Kept b db
          (committed db
            (as_refused_url (create_webhook_endpoint validate_url ulid sealing now input db))).1
  create_webhook_endpoint-Kept validate_url ulid sealing now input db e =
      committed-Kept b db
        (as_refused_url (create_webhook_endpoint validate_url ulid sealing now input db))
        (λ out db' h.
          let (row, owner, bindings, endpoints) =
            created_row validate_url ulid sealing now input db out db'
              (as_refused_url-eq-ok _ _ h) in
          let none_of_b : is_of_app b row ≡ false = rw (owner, e) (same_text a b other) in
          (
            ap (select (λ r. same r.app_id b)) bindings,
            ap (select (is_of_app b)) endpoints
                ∙ select-append_other (is_of_app b) row db.webhook_endpoints none_of_b,
          ))

  pub delete_webhook_endpoint-Kept :
      (id : Text) (db : Db) → Kept b db (committed db (emptied (delete_webhook_endpoint a id db))).1
  unfolding delete_webhook_endpoint
  delete_webhook_endpoint-Kept id db =
      elim (Bool-cases (any (is_endpoint a id) db.webhook_endpoints)) [
        | inr m ↦ rw m (refl, refl)
        | inl y ↦ rw y (
          refl,
          select-delete_other (is_of_app b) (is_endpoint a id) db.webhook_endpoints
              (λ x p. other_app a b x.app_id other (ground arith)),
        )
      ]
