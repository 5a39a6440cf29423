-- ===== src/Routes/Routed.antt =====
-- A handler reads and writes the state, and answers or throws; what was written before a throw stays.
use syrotp.Prelude.{ℕ, ◌≡◌, refl, arith, Text}
use syrotp.Errors.{Result, ok, err}
use syrotp.Schema.{Db}
use syrotp.Redis.{Redis}
use syrotp.Routes.{State, limit_per_minute}

abbrev pub Routed {ℓ} : Type ℓ → Type ℓ
Routed A = State → Result A × State

abbrev pub continued {ℓ κ} :
    {A : Type ℓ} {B : Type κ} → Result A × State → (A → Routed B) → Result B × State
continued (err e, s) f = (err e, s)
continued (ok a, s) f = f a s

infixl 5 ◌>>=◌ ◌>>◌
abbrev pub ◌>>=◌ {ℓ κ} : {A : Type ℓ} {B : Type κ} → Routed A → (A → Routed B) → Routed B
(m >>= f) s = continued (m s) f

abbrev pub ◌>>◌ {κ} : {B : Type κ} → Routed (Unit {0}) → Routed B → Routed B
(m >> k) s = continued (m s) (λ _. k)

-- A step on the database that leaves it with its answer
abbrev pub on_db {ℓ} : {A : Type ℓ} → (Db → Result A × Db) → Routed A
on_db f s = let (answer, db) = f s.db in (answer, record { db = db; redis = s.redis })

abbrev pub committed {ℓ} : {A : Type ℓ} → Db → Result (A × Db) → Result A × Db
committed db (err e) = (err e, db)
committed db (ok (a, db')) = (ok a, db')

-- A service that throws without having written
abbrev pub on_commit {ℓ} : {A : Type ℓ} → (Db → Result (A × Db)) → Routed A
on_commit f = on_db (λ db. committed db (f db))

abbrev pub lift {ℓ} : {A : Type ℓ} → Result A → Routed A
lift r s = (r, s)

abbrev pub with_redis : State → Result (Unit {0}) × Redis → Result (Unit {0}) × State
with_redis s (answer, redis) = (answer, record { db = s.db; redis = redis })

abbrev pub limit_to : ℕ → Text → ℕ → Routed (Unit {0})
limit_to now key limit s = with_redis s (limit_per_minute now key limit s.redis)

pub continued-eq-ok {ℓ κ} :
    {A : Type ℓ} {B : Type κ} (r : Result A × State) (f : A → Routed B) {b : B} {s' : State}
    → continued r f ≡ (ok b, s')
    → (a : A) × (s : State) × (r ≡ (ok a, s)) × (f a s ≡ (ok b, s'))
continued-eq-ok (err e, s) f h = cc
continued-eq-ok (ok a, s) f h = (a, s, refl, h)

pub limit_to-db :
    (now : ℕ) (key : Text) (limit : ℕ) (s s' : State)
    → limit_to now key limit s ≡ (ok tt, s')
    → s'.db ≡ s.db
limit_to-db now key limit s s' h = go (limit_per_minute now key limit s.redis) h
  where
    go : (r : Result (Unit {0}) × Redis) → with_redis s r ≡ (ok tt, s') → s'.db ≡ s.db
    go (answer, redis) h = ground arith
