-- ===== src/Routes/Guarded.antt =====
-- What stands behind an answer of the routes of verifications.
use mathlib.Core.Path.{subst}
use mathlib.Core.List.{Mem}
use syrotp.Prelude.{
  ℕ, ◌≤◌, ◌≡◌, sym, ◌∙◌, ap, Text, chars, length, all, All, Bool, true, List, [], ◌∷◌, ◌++◌, ◌||◌,
  ◌==◌, is_lower, is_upper, is_digit, arith, Bool-cases, inl, inr, Option, none, some,
}
use syrotp.Errors.{Failure, Result, ok, err, phone_error}
use syrotp.Schema.{Db, ApiKey, ApiKeyKind, public, secret}
use syrotp.Runtime.{Runtime}
use syrotp.Crypto.{Primitives}
use syrotp.Phone.{NormalizedPhone, normalize_phone}
use syrotp.Verification.{PublicVerification, validate_purpose, is_purpose_char}
use syrotp.Verification.Start.{start_verification}
use syrotp.ApiKeys.{AuthedKey, extract_bearer, require_key, touch_key}
use syrotp.ApiKeys.Sound.{Stands, require_key_sound}
use syrotp.Routes.{State, Limits}
use syrotp.Routes.Routed.{continued-eq-ok, on_db, on_commit, committed, lift, limit_to, limit_to-db}
use syrotp.Routes.Verifications.{
  StartBody, is_start_body, ApiRequest, checked_body, as_bad_request, start_input,
  post_verifications,
}

checked_body-eq-ok :
    (o : Option StartBody) (b : StartBody)
    → checked_body o ≡ ok b
    → (o ≡ some b) × (is_start_body b ≡ true)
checked_body-eq-ok none b e = cc
checked_body-eq-ok (some c) b e = elim (Bool-cases (is_start_body c)) [
  | inl y ↦ let it : c ≡ b = ground arith in (ap some it, rw (← it) y)
  | inr n ↦ absurd (ground arith)
]

as_bad_request-eq-ok {ℓ} : {A : Type ℓ} (r : Result A) (a : A) → as_bad_request r ≡ ok a → r ≡ ok a
as_bad_request-eq-ok (ok x) a e = e
as_bad_request-eq-ok (err (phone_error code)) a e = cc
as_bad_request-eq-ok (err (Failure.api x)) a e = cc
as_bad_request-eq-ok (err (Failure.unique_violation x)) a e = cc
as_bad_request-eq-ok (err (Failure.webhook_validation_error x y)) a e = cc
as_bad_request-eq-ok (err (Failure.error x)) a e = cc

on_commit-eq-ok {ℓ} :
    {A : Type ℓ} (f : Db → Result (A × Db)) (s s' : State) (a : A)
    → on_commit f s ≡ (ok a, s')
    → f s.db ≡ ok (a, s'.db)
on_commit-eq-ok {A} f s s' a e = go (f s.db) e
  where
    go :
        (r : Result (A × Db))
        → ◌≡◌ {A = Result A × State}
            ((committed s.db r).0, record { db = (committed s.db r).1; redis = s.redis })
            (ok a, s')
        → r ≡ ok (a, s'.db)
    go (err x) h = cc
    go (ok (b, db)) h = ground arith

-- The key behind a call, and what it leaves of the database
abbrev pub Called : Primitives → ℕ → ApiRequest → List ApiKeyKind → Db → Db → AuthedKey → Type 0
Called p now req allowed db db' key =
    (token : Text) × (row : ApiKey) × (extract_bearer req.authorization ≡ some token)
    × Stands p db token key row
    × Mem key.kind allowed
    × (db' ≡ touch_key now row.id db)

on_db-eq-ok :
    (p : Primitives) (now : ℕ) (req : ApiRequest) (allowed : List ApiKeyKind) (s s' : State)
    (key : AuthedKey)
    → on_db (require_key p now req.authorization allowed) s ≡ (ok key, s')
    → Called p now req allowed s.db s'.db key
on_db-eq-ok p now req allowed s s' key e =
    require_key_sound p now req.authorization allowed s.db s'.db key
      (go (require_key p now req.authorization allowed s.db) e)
  where
    go :
        (r : Result AuthedKey × Db)
        → ◌≡◌ {A = Result AuthedKey × State}
            (r.0, record { db = r.1; redis = s.redis })
            (ok key, s')
        → r ≡ (ok key, s'.db)
    go (a, d) h = ground arith

-- The names of purposes that are allowed
pub record IsPurpose (purpose : Text) : Type 0 where
  pub least : 2 ≤ length purpose
  pub most : length purpose ≤ 64
  pub characters :
      All
        (λ c.
          is_lower c || is_upper c || is_digit c || c == b'_' || c == b'-' || c == b':' || c == b'.'
          ≡ true)
        purpose

All-of_all : (q : ℕ → Bool) (s : Text) → all q s ≡ true → All (λ c. q c ≡ true) s
All-of_all q [] h = tt
All-of_all q (c ∷ s) h = (ground arith, All-of_all q s (ground arith))

validate_purpose-eq-ok : (s : Text) → validate_purpose s ≡ ok tt → IsPurpose s
unfolding validate_purpose
validate_purpose-eq-ok s e = record {
  least = ground arith;
  most = ground arith;
  characters = All-of_all is_purpose_char s (ground arith);
}

-- A verification is started by the route only for a caller with a live public or secret key of the
-- table of keys, from a body that passes the schema, whose purpose has 2 to 64 characters, each of
-- them a letter or digit of ASCII or one of `_-:.`, and whose phone the parser accepts; it is then
-- started by the service for the key's app and the normalised phone, on the database in which
-- nothing but the key's time of use was changed before.
pub post_verifications_sound :
    (p : Primitives) (rt : Runtime) (limits : Limits) (ulid : Text) (codes : ℕ → Text) (now : ℕ)
    (req : ApiRequest) (body : Option StartBody) (s s' : State) (out : PublicVerification)
    → post_verifications p rt limits ulid codes now req body s ≡ (ok out, s')
    → (key : AuthedKey) × (db : Db) × Called p now req (public ∷ secret ∷ []) s.db db key
      × (b : StartBody) × (body ≡ some b)
      × (is_start_body b ≡ true)
      × IsPurpose b.purpose
      × (phone : NormalizedPhone) × (normalize_phone rt b.phone rt.config.default_phone_region
          ≡ ok phone)
      × (start_verification rt ulid codes now (start_input key req.ip b phone) db ≡ ok (out, s'.db))
unfolding post_verifications
post_verifications_sound p rt limits ulid codes now req body s s' out e =
    let (key, s1, called, e1) =
      continued-eq-ok (on_db (require_key p now req.authorization (public ∷ secret ∷ [])) s) _ e in
    let (_, s2, free, e2) =
      continued-eq-ok (limit_to now (chars "start:ip:" ++ req.ip) limits.start_per_ip s1) _ e1 in
    let (_, s3, free', e3) =
      continued-eq-ok
        (limit_to now (chars "start:app:" ++ key.app_id) limits.verifications_per_app s2) _ e2 in
    let (b, s4, read, e4) = continued-eq-ok (lift (checked_body body) s3) _ e3 in
    let (_, s5, purposed, e5) = continued-eq-ok (lift (validate_purpose b.purpose) s4) _ e4 in
    let (phone, s6, normal, e6) =
      continued-eq-ok
        (lift (as_bad_request (normalize_phone rt b.phone rt.config.default_phone_region)) s5) _
        e5 in
    let (given, shaped) =
      checked_body-eq-ok body b (ap (λ (z : Result StartBody × State). z.0) read) in
    let same_db : s6.db ≡ s1.db =
      sym (ap (λ (z : Result NormalizedPhone × State). z.1.db) normal)
      ∙ sym (ap (λ (z : Result (Unit {0}) × State). z.1.db) purposed)
      ∙ sym (ap (λ (z : Result StartBody × State). z.1.db) read)
      ∙ limit_to-db now (chars "start:app:" ++ key.app_id) limits.verifications_per_app s2 s3 free'
      ∙ limit_to-db now (chars "start:ip:" ++ req.ip) limits.start_per_ip s1 s2 free in
    (
      key,
      s1.db,
      on_db-eq-ok p now req (public ∷ secret ∷ []) s s1 key called,
      b,
      given,
      shaped,
      validate_purpose-eq-ok b.purpose (ap (λ (z : Result (Unit {0}) × State). z.0) purposed),
      phone,
      as_bad_request-eq-ok (normalize_phone rt b.phone rt.config.default_phone_region) phone
          (ap (λ (z : Result NormalizedPhone × State). z.0) normal),
      subst
          (λ (d : Db).
            start_verification rt ulid codes now (start_input key req.ip b phone) d
            ≡ ok (out, s'.db))
          same_db
          (on_commit-eq-ok (start_verification rt ulid codes now (start_input key req.ip b phone))
            s6 s' out e6),
    )
