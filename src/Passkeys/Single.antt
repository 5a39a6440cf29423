-- ===== src/Passkeys/Single.antt =====
-- A challenge is good for one ceremony.
use mathlib.Core.Path.{subst}
use syrotp.Prelude.{
  or_else, ℕ, ◌≡◌, ◌≢◌, refl, ◌∙◌, ap, Text, same, same_iff, same_refl, any, any-append_left,
  select, update, Bool, true, false, List, [], ◌∷◌, ◌++◌, arith, All, All-append, Bool-cases,
  Option-cases, inl, inr, Option, none, some, ltb,
}
use syrotp.Errors.{ok}
use syrotp.Schema.{Db, WebauthnChallenge, ChallengePurpose, register, login}
use syrotp.Runtime.{new_id}
use syrotp.Crypto.{Primitives}
use syrotp.Passkeys.{
  Passkeys, PasskeyResponse, is_active, is_unused, latest, set_used, used, picked_challenge,
  consume_challenge, build_options, create_challenge, new_challenge, challenge_prefix,
  register_with, verify_register, login_with, verify_login,
}

-- What the ceremonies do to the database
pub data Ceremonies (p : Primitives) (pk : Passkeys) (db : Db) : Db → Type 0 where
  none_yet : Ceremonies p pk db db
  build :
      {mid db' : Db} (ulid : Text) (now : ℕ) (app_id client_ref : Text) (purpose : ChallengePurpose)
      (challenge : Text)
      → Ceremonies p pk db mid
      → build_options pk ulid now app_id client_ref purpose challenge mid ≡ ok db'
      → Ceremonies p pk db db'
  registration :
      {mid : Db} (ulid : Text) (now : ℕ) (app_id client_ref : Text) (response : PasskeyResponse)
      → Ceremonies p pk db mid
      → Ceremonies p pk db (verify_register p pk ulid now app_id client_ref response mid).1
  authentication :
      {mid : Db} (now : ℕ) (app_id client_ref : Text) (response : PasskeyResponse)
      → Ceremonies p pk db mid
      → Ceremonies p pk db (verify_login p pk now app_id client_ref response mid).1

abbrev pub has_challenge_id : Text → WebauthnChallenge → Bool
has_challenge_id id c = same c.id id

-- Every challenge of this id is used, and there is one.
abbrev IsSpent : Text → List WebauthnChallenge → Type 0
IsSpent id cs =
    (any (has_challenge_id id) cs ≡ true)
    × All (λ c. has_challenge_id id c ≡ true → is_unused c ≡ false) cs

IsSpent-update :
    (id other : Text) (now : ℕ) (cs : List WebauthnChallenge)
    → IsSpent id cs
    → IsSpent id (update (λ d. same d.id other) (set_used now) cs)
IsSpent-update id other now [] (a, b) = (a, b)
IsSpent-update id other now (c ∷ cs) (a, (b, bs)) =
    (ground (arith, kept cs), (ground arith, marked cs bs))
  where
    kept :
        (cs : List WebauthnChallenge)
        → any (has_challenge_id id) (update (λ d. same d.id other) (set_used now) cs)
          ≡ any (has_challenge_id id) cs
    kept [] = refl
    kept (d ∷ ds) = ground (arith, kept ds)

    marked :
        (cs : List WebauthnChallenge)
        → All (λ c. has_challenge_id id c ≡ true → is_unused c ≡ false) cs
        → All
            (λ c. has_challenge_id id c ≡ true → is_unused c ≡ false)
            (update (λ d. same d.id other) (set_used now) cs)
    marked [] h = tt
    marked (d ∷ ds) (h, hs) = (ground arith, marked ds hs)

used-IsSpent :
    (now : ℕ) (id : Text) (cs : List WebauthnChallenge)
    → any (has_challenge_id id) cs ≡ true
    → IsSpent id (update (has_challenge_id id) (set_used now) cs)
used-IsSpent now id cs a = (kept cs a, marked cs)
  where
    kept :
        (cs : List WebauthnChallenge)
        → any (has_challenge_id id) cs ≡ true
        → any (has_challenge_id id) (update (has_challenge_id id) (set_used now) cs) ≡ true
    kept [] h = cc
    kept (d ∷ ds) h = ground (arith, kept ds)

    marked :
        (cs : List WebauthnChallenge)
        → All
            (λ c. has_challenge_id id c ≡ true → is_unused c ≡ false)
            (update (has_challenge_id id) (set_used now) cs)
    marked [] = tt
    marked (d ∷ ds) = (ground arith, marked ds)

consume-IsSpent :
    (id : Text) (now : ℕ) (app_id client_ref : Text) (purpose : ChallengePurpose) (db : Db)
    → IsSpent id db.webauthn_challenges
    → IsSpent id (consume_challenge now app_id client_ref purpose db).1.webauthn_challenges
unfolding consume_challenge
consume-IsSpent id now app_id client_ref purpose db h =
    go (picked_challenge now app_id client_ref purpose db)
  where
    go : (o : Option WebauthnChallenge) → IsSpent id (used now db o).1.webauthn_challenges
    go none = h
    go (some c) = IsSpent-update id c.id now db.webauthn_challenges h

register_with-challenges :
    (p : Primitives) (pk : Passkeys) (ulid : Text) (now : ℕ) (app_id client_ref : Text)
    (response : PasskeyResponse) (r : Option Text × Db)
    → (register_with p pk ulid now app_id client_ref response r).1.webauthn_challenges
      ≡ r.1.webauthn_challenges
register_with-challenges p pk ulid now app_id client_ref response (none, db) = refl
register_with-challenges p pk ulid now app_id client_ref response (some [], db) = refl
register_with-challenges p pk ulid now app_id client_ref response (some (c ∷ s), db) = ground arith

login_with-challenges :
    (p : Primitives) (pk : Passkeys) (now : ℕ) (app_id client_ref : Text)
    (response : PasskeyResponse) (r : Option Text × Db)
    → (login_with p pk now app_id client_ref response r).1.webauthn_challenges
      ≡ r.1.webauthn_challenges
login_with-challenges p pk now app_id client_ref response (none, db) = refl
login_with-challenges p pk now app_id client_ref response (some [], db) = refl
login_with-challenges p pk now app_id client_ref response (some (c ∷ s), db) = ground arith

build-IsSpent :
    (id : Text) (pk : Passkeys) (ulid : Text) (now : ℕ) (app_id client_ref : Text)
    (purpose : ChallengePurpose) (challenge : Text) (db db' : Db)
    → build_options pk ulid now app_id client_ref purpose challenge db ≡ ok db'
    → IsSpent id db.webauthn_challenges
    → IsSpent id db'.webauthn_challenges
unfolding build_options create_challenge
build-IsSpent id pk ulid now app_id client_ref purpose challenge db db' e (there, spent) =
    let new = new_challenge pk ulid now app_id client_ref purpose challenge in
    let fresh : any (has_challenge_id (new_id challenge_prefix ulid)) db.webauthn_challenges
        ≡ false =
      ground arith in
    let table : db'.webauthn_challenges ≡ db.webauthn_challenges ++ new ∷ [] = ground arith in
    rw table (
      any-append_left (has_challenge_id id) db.webauthn_challenges (new ∷ []) there,
      All-append (λ c. has_challenge_id id c ≡ true → is_unused c ≡ false) db.webauthn_challenges
          (new ∷ []) spent
          (
            λ k.
                let it : new.id ≡ id = (same_iff new.id id).0 k in
                let taken : any (has_challenge_id new.id) db.webauthn_challenges ≡ true =
                  rw it there in
                absurd (cc (taken, fresh)),
            tt,
          ),
    )

Ceremonies-IsSpent :
    (id : Text) (p : Primitives) (pk : Passkeys) (db db' : Db)
    → Ceremonies p pk db db'
    → IsSpent id db.webauthn_challenges
    → IsSpent id db'.webauthn_challenges
unfolding verify_register verify_login
Ceremonies-IsSpent id p pk db db' none_yet h = h
Ceremonies-IsSpent id p pk db db' (build {mid} ulid now app_id client_ref purpose challenge r e) h =
    build-IsSpent id pk ulid now app_id client_ref purpose challenge mid db' e
      (Ceremonies-IsSpent id p pk db mid r h)
Ceremonies-IsSpent id p pk db db' (registration {mid} ulid now app_id client_ref response r) h =
    let before = Ceremonies-IsSpent id p pk db mid r h in
    elim (Bool-cases pk.is_configured) [
      | inl y ↦
          rw
            (
              y,
              register_with-challenges p pk ulid now app_id client_ref response
                  (consume_challenge now app_id client_ref register mid),
            )
            (consume-IsSpent id now app_id client_ref register mid before)
      | inr n ↦ rw n before
    ]
Ceremonies-IsSpent id p pk db db' (authentication {mid} now app_id client_ref response r) h =
    let before = Ceremonies-IsSpent id p pk db mid r h in
    elim (Bool-cases pk.is_configured) [
      | inl y ↦
          rw
            (
              y,
              login_with-challenges p pk now app_id client_ref response
                  (consume_challenge now app_id client_ref login mid),
            )
            (consume-IsSpent id now app_id client_ref login mid before)
      | inr n ↦ rw n before
    ]

some-row : (a b : WebauthnChallenge) → some a ≡ some b → a ≡ b
some-row a b e = ap (λ (o : Option WebauthnChallenge). or_else o a) e

latest-sound :
    (Q : WebauthnChallenge → Type 0) (cs : List WebauthnChallenge) (d : WebauthnChallenge)
    → latest cs ≡ some d
    → All Q cs
    → Q d
unfolding latest
latest-sound Q [] d e h = cc
latest-sound Q (c ∷ cs) d e (h, hs) = elim (Option-cases (latest cs)) [
  | inl n ↦ subst Q (some-row c d (rw (n, latest) at e)) h
  | inr (x, q) ↦ elim (Bool-cases (ltb c.created_at x.created_at)) [
    | inl y ↦ latest-sound Q cs d (q ∙ rw (q, latest, y) at e) hs
    | inr z ↦ subst Q (some-row c d (rw (q, latest, z) at e)) h
  ]
]

latest-any :
    (cs : List WebauthnChallenge) (d : WebauthnChallenge)
    → latest cs ≡ some d
    → any (has_challenge_id d.id) cs ≡ true
unfolding latest
latest-any [] d e = cc
latest-any (c ∷ cs) d e = elim (Option-cases (latest cs)) [
  | inl n ↦ let it : c ≡ d = some-row c d (rw (n, latest) at e) in rw (it, same_refl d.id) refl
  | inr (x, q) ↦ elim (Bool-cases (ltb c.created_at x.created_at)) [
    | inl y ↦ ground (arith, latest-any cs d (q ∙ rw (q, latest, y) at e))
    | inr z ↦ let it : c ≡ d = some-row c d (rw (q, latest, z) at e) in rw (it, same_refl d.id) refl
  ]
]

select-All :
    (P : WebauthnChallenge → Type 0) (p : WebauthnChallenge → Bool) (cs : List WebauthnChallenge)
    → All P cs
    → All (λ x. P x × (p x ≡ true)) (select p cs)
select-All P p [] h = tt
select-All P p (c ∷ cs) (h, hs) = elim (Bool-cases (p c)) [
  | inl y ↦ rw y ((h, y), select-All P p cs hs)
  | inr n ↦ rw n (select-All P p cs hs)
]

any-select :
    (q p : WebauthnChallenge → Bool) (cs : List WebauthnChallenge)
    → any q (select p cs) ≡ true
    → any q cs ≡ true
any-select q p [] h = h
any-select q p (c ∷ cs) h = ground (arith, any-select q p cs)

-- A challenge serves one ceremony: once it was consumed, no ceremony picks it again, whatever
-- registrations and logins, completed or not, lie in between, for whatever app and user.
pub challenge_single_use :
    (p : Primitives) (pk : Passkeys) (now later : ℕ) (app_id client_ref app_id' client_ref' : Text)
    (purpose purpose' : ChallengePurpose) (db db' : Db) (c d : WebauthnChallenge)
    → picked_challenge now app_id client_ref purpose db ≡ some c
    → Ceremonies p pk (consume_challenge now app_id client_ref purpose db).1 db'
    → picked_challenge later app_id' client_ref' purpose' db' ≡ some d
    → d.id ≢ c.id
unfolding consume_challenge
challenge_single_use p pk now later app_id client_ref app_id' client_ref' purpose purpose' db db' c
      d first r second same_id =
    let there =
      any-select (has_challenge_id c.id) (is_active now app_id client_ref purpose)
        db.webauthn_challenges
        (latest-any (select (is_active now app_id client_ref purpose) db.webauthn_challenges) c
          first) in
    let at_once : IsSpent c.id
        (used now db (picked_challenge now app_id client_ref purpose db)).1.webauthn_challenges =
      rw first (used-IsSpent now c.id db.webauthn_challenges there) in
    let spent = Ceremonies-IsSpent c.id p pk _ db' r at_once in
    let (done, active) =
      latest-sound
        (λ x.
          (has_challenge_id c.id x ≡ true → is_unused x ≡ false)
          × (is_active later app_id' client_ref' purpose' x ≡ true))
        (select (is_active later app_id' client_ref' purpose') db'.webauthn_challenges) d second
        (select-All (λ x. has_challenge_id c.id x ≡ true → is_unused x ≡ false)
          (is_active later app_id' client_ref' purpose') db'.webauthn_challenges spent.1) in
    let dead = done (rw same_id (same_refl c.id)) in absurd (ground arith)
