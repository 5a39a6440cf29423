-- ===== src/Routes/Inbound.antt =====
-- apps/server/src/routes/inbound.ts, the route of inbound messages. A request carries what its
-- handler reads; the body is what `inboundBody` reads of it, before the checks on the lengths.
use syrotp.Prelude.{
  ℕ, Text, chars, length, Bool, true, ◌&&◌, List, ◌∷◌, ◌++◌, Option, none, some, leb, if◌then◌else◌,
}
use syrotp.Errors.{Result, ok, err, unauthorized, bad_request}
use syrotp.Schema.{Db}
use syrotp.Runtime.{Runtime}
use syrotp.Crypto.{Primitives}
use syrotp.Redis.{Redis}
use syrotp.Gateway.{
  VerifyHmacInput, VerifyHmacResult, VerifiedReceiver, accepted, refused, verify_gateway_hmac,
  is_receiver_id,
}
use syrotp.Matching.{MatchInput, MatchOutcome, process_inbound}
use syrotp.Routes.{State, Limits, limit_per_minute}

pub record GatewayHeaders : Type 0 where
  pub receiver_id : Option Text
  pub timestamp : Option Text
  pub nonce : Option Text
  pub signature : Option Text

-- `z.string()` and `z.string().datetime()`, read into a time; `none` where a type is wrong
pub record InboundBody : Type 0 where
  pub from : Text
  pub to : Text
  pub body : Text
  pub received_at : ℕ
  pub idempotency_key : Text
  pub sim_slot : Option ℕ

pub record InboundRequest : Type 0 where
  pub headers : GatewayHeaders
  pub ip : Text
  pub raw_body : Option (List ℕ)
  pub body : Option InboundBody

-- A header that is there and not empty
abbrev pub present : Option Text → Option Text
present (some (c ∷ s)) = some (c ∷ s)
present _ = none

abbrev pub is_within : ℕ → ℕ → Text → Bool
is_within least most s = leb least (length s) && leb (length s) most

abbrev pub is_slot : Option ℕ → Bool
is_slot none = true
is_slot (some n) = leb n 7

abbrev pub is_inbound_body : InboundBody → Bool
is_inbound_body b =
    is_within 3 32 b.from
    && is_within 3 32 b.to
    && is_within 1 1600 b.body
    && is_within 8 128 b.idempotency_key
    && is_slot b.sim_slot

abbrev pub hmac_input : Text → Text → Text → Text → List ℕ → VerifyHmacInput
hmac_input receiver_id timestamp nonce signature raw_body = record {
  receiver_id = receiver_id;
  timestamp_header = timestamp;
  nonce_header = nonce;
  signature_header = signature;
  raw_body = raw_body;
}

-- The four headers, all present
abbrev pub all_headers : GatewayHeaders → Option (Text × Text × Text × Text)
all_headers h = elim (present h.receiver_id) [
  | none ↦ none
  | some r ↦ elim (present h.timestamp) [
    | none ↦ none
    | some t ↦ elim (present h.nonce) [
      | none ↦ none
      | some n ↦ elim (present h.signature) [ none ↦ none | some s ↦ some (r, t, n, s) ]
    ]
  ]
]

abbrev pub match_input : VerifiedReceiver → InboundBody → MatchInput
match_input v b = record {
  receiver_id = v.id;
  receiver_msisdn = v.msisdn;
  from = b.from;
  to = b.to;
  body = b.body;
  received_at = b.received_at;
  idempotency_key = b.idempotency_key;
}

abbrev pub answered : Redis → Db × Result MatchOutcome → Result MatchOutcome × State
answered redis (db, answer) = (answer, record { db = db; redis = redis })

-- The last step: the body, and the service
unfoldable pub match_verified :
    Runtime
    → (ℕ → Text)
    → ℕ
    → Option InboundBody
    → VerifiedReceiver
    → State
    → Result MatchOutcome × State
match_verified rt ulids now none v s =
    (err (bad_request "validation_error" "invalid inbound body"), s)
match_verified rt ulids now (some b) v s =
    if is_inbound_body b
    then answered s.redis (process_inbound rt ulids now (match_input v b) s.db)
    else (err (bad_request "validation_error" "invalid inbound body"), s)

abbrev pub after_app_limit :
    Runtime
    → (ℕ → Text)
    → ℕ
    → Option InboundBody
    → VerifiedReceiver
    → Db
    → Result (Unit {0}) × Redis
    → Result MatchOutcome × State
after_app_limit rt ulids now body v db (err e, redis) = (err e, record { db = db; redis = redis })
after_app_limit rt ulids now body v db (ok _, redis) =
    match_verified rt ulids now body v (record { db = db; redis = redis })

abbrev pub after_receiver_limit :
    Runtime
    → Limits
    → (ℕ → Text)
    → ℕ
    → Option InboundBody
    → VerifiedReceiver
    → Db
    → Result (Unit {0}) × Redis
    → Result MatchOutcome × State
after_receiver_limit rt limits ulids now body v db (err e, redis) =
    (err e, record { db = db; redis = redis })
after_receiver_limit rt limits ulids now body v db (ok _, redis) =
    after_app_limit rt ulids now body v db
      (limit_per_minute now (chars "inbound:app:" ++ v.app_id) limits.inbound_per_app redis)

abbrev pub after_hmac :
    Runtime
    → Limits
    → (ℕ → Text)
    → ℕ
    → Option InboundBody
    → Db
    → VerifyHmacResult × Redis
    → Result MatchOutcome × State
after_hmac rt limits ulids now body db (refused reason, redis) =
    (err (unauthorized "missing or invalid credentials"), record { db = db; redis = redis })
after_hmac rt limits ulids now body db (accepted v, redis) =
    after_receiver_limit rt limits ulids now body v db
      (limit_per_minute now (chars "inbound:rcv:" ++ v.id) limits.inbound_per_receiver redis)

abbrev pub after_ip_limit :
    Primitives
    → Runtime
    → Limits
    → (ℕ → Text)
    → ℕ
    → Option InboundBody
    → VerifyHmacInput
    → Db
    → Result (Unit {0}) × Redis
    → Result MatchOutcome × State
after_ip_limit p rt limits ulids now body input db (err e, redis) =
    (err e, record { db = db; redis = redis })
after_ip_limit p rt limits ulids now body input db (ok _, redis) =
    after_hmac rt limits ulids now body db (verify_gateway_hmac p rt.config now input db redis)

abbrev pub with_raw_body :
    Primitives
    → Runtime
    → Limits
    → (ℕ → Text)
    → ℕ
    → InboundRequest
    → (Text × Text × Text × Text)
    → Option (List ℕ)
    → State
    → Result MatchOutcome × State
with_raw_body p rt limits ulids now req hs none s =
    (err (bad_request "bad_body" "raw body unavailable"), s)
with_raw_body p rt limits ulids now req (r, t, n, g) (some raw) s =
    after_ip_limit p rt limits ulids now req.body (hmac_input r t n g raw) s.db
      (limit_per_minute now (chars "inbound:ip:" ++ req.ip) limits.inbound_per_ip s.redis)

abbrev pub with_headers :
    Primitives
    → Runtime
    → Limits
    → (ℕ → Text)
    → ℕ
    → InboundRequest
    → Option (Text × Text × Text × Text)
    → State
    → Result MatchOutcome × State
with_headers p rt limits ulids now req none s = (err (unauthorized "missing gateway headers"), s)
with_headers p rt limits ulids now req (some (r, t, n, g)) s =
    if is_receiver_id r
    then with_raw_body p rt limits ulids now req (r, t, n, g) req.raw_body s
    else (err (bad_request "bad_receiver_id" "malformed receiver id"), s)

-- POST /v1/inbound/sms, up to the outcome that the answer shows
unfoldable pub post_inbound_sms :
    Primitives
    → Runtime
    → Limits
    → (ℕ → Text)
    → ℕ
    → InboundRequest
    → State
    → Result MatchOutcome × State
post_inbound_sms p rt limits ulids now req s =
    with_headers p rt limits ulids now req (all_headers req.headers) s
