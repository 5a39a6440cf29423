-- ===== src/Routes/Steps.antt =====
-- What a handler's steps leave of the rows of an app.
use syrotp.Prelude.{
  ℕ, ◌≡◌, refl, ◌∙◌, Text, chars, ◌&&◌, List, Option, none, some, any, Bool-cases, Option-cases,
  inl, inr,
}
use syrotp.Errors.{Result, ok, err}
use syrotp.Schema.{Db, ApiKey, ApiKeyKind}
use syrotp.Redis.{Redis}
use syrotp.Crypto.{Primitives, hash_secret}
use syrotp.ApiKeys.{
  AuthedKey, require_key, lookup_api_key, allowed_key, authed, is_unrevoked, is_enabled_app, app_of,
  is_kind, kind_of_raw, key_of_hash, extract_bearer,
}
use syrotp.Routes.{State, limit_per_minute}
use syrotp.Routes.Routed.{Routed, continued, lift, limit_to, with_redis}
use syrotp.Routes.Tenants.{Kept}

pub Kept-trans : (b : Text) (d e f : Db) → Kept b d e → Kept b e f → Kept b d f
Kept-trans b d e f (x, y) (x', y') = (x' ∙ x, y' ∙ y)

authed_tables :
    (now : ℕ) (kind : ApiKeyKind) (o : Option ApiKey) (db : Db) (b : Text)
    → Kept b db (authed now kind o db).1
authed_tables now kind none db b = (refl, refl)
authed_tables now kind (some k) db b =
    elim (Bool-cases (is_unrevoked k && is_enabled_app (app_of db k) && is_kind k.kind kind)) [
      | inl y ↦ rw y (refl, refl)
      | inr n ↦ rw n (refl, refl)
    ]

lookup_api_key-Kept :
    (p : Primitives) (now : ℕ) (raw : Text) (db : Db) (b : Text)
    → Kept b db (lookup_api_key p now raw db).1
unfolding lookup_api_key
lookup_api_key-Kept p now raw db b = elim (Option-cases (kind_of_raw raw)) [
  | inl e ↦ rw (e, lookup_api_key) (refl, refl)
  | inr (kind, e) ↦
      rw (e, lookup_api_key)
        (authed_tables now kind (key_of_hash db (hash_secret p (chars "api_key") p.master_key raw))
          db b)
]

allowed_key-db :
    (allowed : List ApiKeyKind) (o : Option AuthedKey) (db : Db)
    → (allowed_key allowed (o, db)).1 ≡ db
allowed_key-db allowed none db = refl
allowed_key-db allowed (some k) db = elim (Bool-cases (any (is_kind k.kind) allowed)) [
  | inl y ↦ rw y refl
  | inr n ↦ rw n refl
]

pub require_key-Kept :
    (p : Primitives) (now : ℕ) (authorization : Option Text) (allowed : List ApiKeyKind) (db : Db)
    (b : Text)
    → Kept b db (require_key p now authorization allowed db).1
unfolding require_key
require_key-Kept p now authorization allowed db b =
    elim (Option-cases (extract_bearer authorization)) [
      | inl e ↦ rw (e, require_key) (refl, refl)
      | inr (token, e) ↦
          let looked = lookup_api_key p now token db in
          rw (e, require_key, allowed_key-db allowed looked.0 looked.1)
            (lookup_api_key-Kept p now token db b)
    ]

pub continued-Kept {ℓ κ} :
    {A : Type ℓ} {B : Type κ} (b : Text) (db : Db) (r : Result A × State) (f : A → Routed B)
    → Kept b db r.1.db
    → ((x : A) → r.0 ≡ ok x → Kept b r.1.db (f x r.1).1.db)
    → Kept b db (continued r f).1.db
continued-Kept b db (err e, s) f h k = h
continued-Kept b db (ok x, s) f h k = Kept-trans b db s.db (f x s).1.db h (k x refl)

with_redis-db : (s : State) (r : Result (Unit {0}) × Redis) → (with_redis s r).1.db ≡ s.db
with_redis-db s (answer, redis) = refl

pub limited-Kept {κ} :
    {B : Type κ} (b : Text) (now : ℕ) (key : Text) (limit : ℕ) (s : State) (f : Unit {0} → Routed B)
    → ((s1 : State) → Kept b s1.db (f tt s1).1.db)
    → Kept b s.db (continued (limit_to now key limit s) f).1.db
limited-Kept b now key limit s f h =
    continued-Kept b s.db (limit_to now key limit s) f
      (rw (with_redis-db s (limit_per_minute now key limit s.redis)) (refl, refl))
      (λ x e. h (limit_to now key limit s).1)

pub lifted-Kept {ℓ κ} :
    {A : Type ℓ} {B : Type κ} (b : Text) (r : Result A) (s : State) (f : A → Routed B)
    → ((x : A) → Kept b s.db (f x s).1.db)
    → Kept b s.db (continued (lift r s) f).1.db
lifted-Kept b r s f h = continued-Kept b s.db (lift r s) f (refl, refl) (λ x e. h x)

pub required-Kept {κ} :
    {B : Type κ} (b : Text) (r : Result (Unit {0})) (m : Routed B) (s : State)
    → ((s1 : State) → Kept b s1.db (m s1).1.db)
    → Kept b s.db (continued (lift r s) (λ _. m)).1.db
required-Kept b r m s h = lifted-Kept b r s (λ _. m) (λ x. h s)
