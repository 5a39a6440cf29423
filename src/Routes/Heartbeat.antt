-- ===== src/Routes/Heartbeat.antt =====
-- apps/server/src/routes/inbound.ts, the route of heartbeats: writes to the receiver are coalesced.
use syrotp.Prelude.{
  ℕ, ◌+◌, ◌-◌, ◌*◌, ◌/◌, ◌<◌, ◌≤◌, ◌≡◌, refl, Text, chars, same, find, update, Bool, true, List, [],
  ◌∷◌, ◌++◌, arith, Option, none, some, ltb, Bool-cases, Option-cases, inl, inr, if◌then◌else◌,
}
use syrotp.Errors.{Result, ok, err, unauthorized, bad_request}
use syrotp.Schema.{Db, Receiver}
use syrotp.Runtime.{Config}
use syrotp.Crypto.{Primitives}
use syrotp.Redis.{Redis}
use syrotp.Gateway.{
  VerifyHmacInput, VerifyHmacResult, VerifiedReceiver, accepted, refused, verify_gateway_hmac,
  is_receiver_id,
}
use syrotp.Routes.{State, Limits, limit_per_minute}
use syrotp.Routes.Inbound.{GatewayHeaders, present, hmac_input}

-- `is_body` is whether `heartbeatBody` accepts the body.
pub record HeartbeatRequest : Type 0 where
  pub id : Text
  pub headers : GatewayHeaders
  pub ip : Text
  pub raw_body : Option (List ℕ)
  pub is_body : Bool

abbrev pub set_heartbeat : ℕ → Receiver → Receiver
set_heartbeat now r = record r { last_heartbeat_at = some now }

-- `Math.floor(RECEIVER_HEARTBEAT_TIMEOUT_SECONDS / 4)`
abbrev pub coalesce_threshold_sec : Config → ℕ
coalesce_threshold_sec config = config.receiver_heartbeat_timeout_seconds / 4

abbrev pub is_stale : ℕ → ℕ → Option ℕ → Bool
is_stale threshold now none = true
is_stale threshold now (some last) = ltb (threshold * 1000) (now - last)

abbrev pub last_heartbeat : Option Receiver → Option ℕ
last_heartbeat none = none
last_heartbeat (some r) = r.last_heartbeat_at

-- The read and, unless it is fresh, the write
unfoldable pub record_heartbeat : Config → ℕ → Text → Db → Db
record_heartbeat config now id db =
    if is_stale (coalesce_threshold_sec config) now
      (last_heartbeat (find (λ r. same r.id id) db.receivers))
    then record db { receivers = update (λ r. same r.id id) (set_heartbeat now) db.receivers }
    else db

abbrev pub next_heartbeat_seconds : Config → ℕ
next_heartbeat_seconds config = config.receiver_heartbeat_timeout_seconds / 2

abbrev pub heartbeat_verified :
    Config → ℕ → Bool → VerifiedReceiver → Db → Result (Unit {0}) × Redis → Result ℕ × State
heartbeat_verified config now is_body v db (err e, redis) =
    (err e, record { db = db; redis = redis })
heartbeat_verified config now is_body v db (ok _, redis) =
    if is_body
    then (
      ok (next_heartbeat_seconds config),
      record { db = record_heartbeat config now v.id db; redis = redis },
    )
    else (
      err (bad_request "validation_error" "invalid heartbeat body"),
      record { db = db; redis = redis },
    )

abbrev pub heartbeat_after_hmac :
    Limits → Config → ℕ → Bool → Db → VerifyHmacResult × Redis → Result ℕ × State
heartbeat_after_hmac limits config now is_body db (refused reason, redis) =
    (err (unauthorized "missing or invalid credentials"), record { db = db; redis = redis })
heartbeat_after_hmac limits config now is_body db (accepted v, redis) =
    heartbeat_verified config now is_body v db
      (limit_per_minute now (chars "heartbeat:rcv:" ++ v.id) limits.heartbeat_per_receiver redis)

abbrev pub heartbeat_after_ip :
    Primitives
    → Limits
    → Config
    → ℕ
    → Bool
    → VerifyHmacInput
    → Db
    → Result (Unit {0}) × Redis
    → Result ℕ × State
heartbeat_after_ip p limits config now is_body input db (err e, redis) =
    (err e, record { db = db; redis = redis })
heartbeat_after_ip p limits config now is_body input db (ok _, redis) =
    heartbeat_after_hmac limits config now is_body db
      (verify_gateway_hmac p config now input db redis)

abbrev pub heartbeat_with_body :
    Primitives
    → Limits
    → Config
    → ℕ
    → HeartbeatRequest
    → Text
    → Text
    → Text
    → Option (List ℕ)
    → State
    → Result ℕ × State
heartbeat_with_body p limits config now req t n g none s =
    (err (bad_request "bad_body" "raw body unavailable"), s)
heartbeat_with_body p limits config now req t n g (some raw) s =
    heartbeat_after_ip p limits config now req.is_body (hmac_input req.id t n g raw) s.db
      (limit_per_minute now (chars "inbound:ip:" ++ req.ip) limits.inbound_per_ip s.redis)

abbrev pub three_headers : GatewayHeaders → Option (Text × Text × Text)
three_headers h = elim (present h.timestamp) [
  | none ↦ none
  | some t ↦ elim (present h.nonce) [
    | none ↦ none
    | some n ↦ elim (present h.signature) [ none ↦ none | some g ↦ some (t, n, g) ]
  ]
]

abbrev pub heartbeat_with_headers :
    Primitives
    → Limits
    → Config
    → ℕ
    → HeartbeatRequest
    → Option (Text × Text × Text)
    → State
    → Result ℕ × State
heartbeat_with_headers p limits config now req none s =
    (err (unauthorized "missing or invalid credentials"), s)
heartbeat_with_headers p limits config now req (some (t, n, g)) s =
    heartbeat_with_body p limits config now req t n g req.raw_body s

-- POST /v1/receivers/:id/heartbeat; the answer's `next_heartbeat_seconds`
unfoldable pub post_heartbeat :
    Primitives → Limits → Config → ℕ → HeartbeatRequest → State → Result ℕ × State
post_heartbeat p limits config now req s =
    if is_receiver_id req.id
    then heartbeat_with_headers p limits config now req (three_headers req.headers) s
    else (err (bad_request "bad_receiver_id" "malformed receiver id"), s)

find-beat :
    (id : Text) (now : ℕ) (rs : List Receiver) (r : Receiver)
    → find (λ x. same x.id id) rs ≡ some r
    → find (λ x. same x.id id) (update (λ x. same x.id id) (set_heartbeat now) rs)
      ≡ some (set_heartbeat now r)
find-beat id now [] r e = cc
find-beat id now (x ∷ rs) r e = ground (arith, find-beat id now rs r)

-- A receiver is fresh: `pickReceiver` would count its heartbeat as recent at that time.
abbrev pub IsBeating : Config → ℕ → Receiver → Type 0
IsBeating config now r =
    (last : ℕ) × (r.last_heartbeat_at ≡ some last)
    × (now < last + config.receiver_heartbeat_timeout_seconds * 1000)

-- Coalescing loses no heartbeat: after one of a known receiver, whether it was written or skipped,
-- the row counts as recent, and stays so until half the timeout after it, when the next is due.
pub record_heartbeat-IsBeating :
    (config : Config) (now later : ℕ) (id : Text) (db : Db) (r : Receiver)
    → 0 < config.receiver_heartbeat_timeout_seconds
    → find (λ x. same x.id id) db.receivers ≡ some r
    → later ≤ now + next_heartbeat_seconds config * 1000
    → (r' : Receiver) × (find (λ x. same x.id id) (record_heartbeat config now id db).receivers
        ≡ some r')
      × IsBeating config later r'
unfolding record_heartbeat
record_heartbeat-IsBeating config now later id db r pos found soon =
    elim (Bool-cases (is_stale (coalesce_threshold_sec config) now r.last_heartbeat_at)) [
      | inl y ↦ (
        set_heartbeat now r,
        rw (found, y) (find-beat id now db.receivers r found),
        (now, refl, omega (arith, pos, soon)),
      )
      | inr n ↦ elim (Option-cases r.last_heartbeat_at) [
        | inl never ↦ absurd (ground arith)
        | inr (last, at) ↦
            let close : now - last ≤ coalesce_threshold_sec config * 1000 = ground arith in
            (r, rw (found, n) found, (last, at, omega (arith, pos, soon, close)))
      ]
    ]
