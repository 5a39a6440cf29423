-- ===== src/ApiKeys/Sound.antt =====
-- What a caller that gets through has shown.
use syrotp.Prelude.{
  ℕ, ◌≡◌, refl, sym, ◌∙◌, ap, Text, chars, same, same_iff, any, find_sound, true, false, List, [],
  ◌∷◌, arith, Bool-cases, Option-cases, inl, inr, Option, none, some, ◌&&◌,
}
use mathlib.Core.List.{Mem, mem-cons_self, mem-cons_of_mem}
use syrotp.Errors.{ok}
use syrotp.Tables.{find-Mem}
use syrotp.Schema.{Db, App, ApiKey, ApiKeyKind}
use syrotp.Crypto.{Primitives, hash_secret}
use syrotp.ApiKeys.{
  AuthedKey, is_kind, app_of, is_enabled_app, is_unrevoked, key_of_hash, kind_of_raw, authed,
  touch_key, lookup_api_key, extract_bearer, allowed_key, require_key,
}

-- Why a token stands for a key
pub record Stands (p : Primitives) (db : Db) (token : Text) (key : AuthedKey) (row : ApiKey)
    : Type 0 where
  pub stored : Mem row db.api_keys
  pub hashed : row.key_hash ≡ hash_secret p (chars "api_key") p.master_key token
  pub unrevoked : row.revoked_at ≡ none
  pub enabled : (app : App) × Mem app db.apps × (app.id ≡ row.app_id) × (app.disabled ≡ false)
  pub kind : kind_of_raw token ≡ some row.kind
  pub named : key ≡ record { id = row.id; app_id = row.app_id; kind = row.kind }

same_kind : (a b : ApiKeyKind) → is_kind a b ≡ true → a ≡ b
same_kind a b h = ground arith

live : (row : ApiKey) → is_unrevoked row ≡ true → row.revoked_at ≡ none
live row h = ground arith

enabled_app :
    (db : Db) (row : ApiKey)
    → is_enabled_app (app_of db row) ≡ true
    → (app : App) × Mem app db.apps × (app.id ≡ row.app_id) × (app.disabled ≡ false)
enabled_app db row h = elim (Option-cases (app_of db row)) [
  | inl n ↦ cc (rw n at h)
  | inr (app, found) ↦ (
    app,
    find-Mem (λ a. same a.id row.app_id) db.apps found,
    (same_iff app.id row.app_id).0 (find_sound (λ a. same a.id row.app_id) db.apps found),
    ground (arith, rw found at h),
  )
]

-- A kind that passes the test of the allowed ones is one of them.
Mem-allowed :
    (k : ApiKeyKind) (allowed : List ApiKeyKind) → any (is_kind k) allowed ≡ true → Mem k allowed
Mem-allowed k [] h = cc
Mem-allowed k (a ∷ allowed) h = elim (Bool-cases (is_kind k a)) [
  | inl y ↦ rw (same_kind k a y) mem-cons_self
  | inr n ↦ mem-cons_of_mem a (Mem-allowed k allowed (rw n at h))
]

module _ (p : Primitives) (now : ℕ) (db db' : Db) (key : AuthedKey) where
  authed_inv :
      (token : Text) (kind : ApiKeyKind) (o : Option ApiKey)
      → key_of_hash db (hash_secret p (chars "api_key") p.master_key token) ≡ o
      → kind_of_raw token ≡ some kind
      → authed now kind o db ≡ (some key, db')
      → (row : ApiKey) × Stands p db token key row × (db' ≡ touch_key now row.id db)
  authed_inv token kind none found k e = cc
  authed_inv token kind (some row) found k e =
      let hit =
        find_sound
          (λ r.
            same r.key_hash (hash_secret p (chars "api_key") p.master_key token)
            && any (λ a. same a.id r.app_id) db.apps)
          db.api_keys found in
      (
        row,
        record {
          hashed =
              (same_iff row.key_hash (hash_secret p (chars "api_key") p.master_key token)).0
                (ground arith);
          stored =
              find-Mem
                (λ r.
                  same r.key_hash (hash_secret p (chars "api_key") p.master_key token)
                  && any (λ a. same a.id r.app_id) db.apps)
                db.api_keys found;
          unrevoked = live row (ground arith);
          enabled = enabled_app db row (ground arith);
          kind = k ∙ ap some (sym (same_kind row.kind kind (ground arith)));
          named = ground arith;
        },
        ground arith,
      )

  lookup_api_key_inv :
      (token : Text)
      → lookup_api_key p now token db ≡ (some key, db')
      → (row : ApiKey) × Stands p db token key row × (db' ≡ touch_key now row.id db)
  unfolding lookup_api_key
  lookup_api_key_inv token e = elim (Option-cases (kind_of_raw token)) [
    | inl n ↦ cc (rw (n, lookup_api_key) at e)
    | inr (kind, k) ↦
        authed_inv token kind (key_of_hash db (hash_secret p (chars "api_key") p.master_key token))
          refl k (rw (k, lookup_api_key) at e)
  ]

-- A caller gets through only with a bearer token for which the table of keys has a row with the
-- token's hash and the kind that the token's prefix names, that is not revoked, whose app is in the
-- table of apps and not disabled, and of a kind that the route allows; the key's time of use is all
-- that changes.
pub require_key_sound :
    (p : Primitives) (now : ℕ) (authorization : Option Text) (allowed : List ApiKeyKind)
    (db db' : Db) (key : AuthedKey)
    → require_key p now authorization allowed db ≡ (ok key, db')
    → (token : Text) × (row : ApiKey) × (extract_bearer authorization ≡ some token)
      × Stands p db token key row
      × Mem key.kind allowed
      × (db' ≡ touch_key now row.id db)
unfolding require_key
require_key_sound p now authorization allowed db db' key e =
    elim (Option-cases (extract_bearer authorization)) [
      | inl n ↦ absurd (cc (rw (n, require_key) at e))
      | inr (token, t) ↦
          let (answer, at_kind) =
            go (lookup_api_key p now token db).0 (lookup_api_key p now token db).1 refl
              (rw (t, require_key) at e) in
          let (row, stands, left) = lookup_api_key_inv p now db db' key token answer in
          (token, row, t, stands, Mem-allowed key.kind allowed at_kind, left)
    ]
  where
    go :
        {r : Option AuthedKey × Db} (o : Option AuthedKey) (d : Db)
        → r ≡ (o, d)
        → allowed_key allowed r ≡ (ok key, db')
        → (r ≡ (some key, db')) × (any (is_kind key.kind) allowed ≡ true)
    go {r} none d q h = absurd (cc (rw q at h))
    go {r} (some k) d q h =
        let h' = rw q at h in
        let same_key : k ≡ key = ground arith in
        let same_db : d ≡ db' = ground arith in
        (
          q ∙ ap (λ (x : AuthedKey). (some x, d)) same_key ∙ ap (λ (x : Db). (some key, x)) same_db,
          ground arith,
        )
