-- ===== src/Gateway.antt =====
-- apps/server/src/services/hmac.ts: who may speak for a receiver.
pub mod Sound
pub mod Replay
use syrotp.Prelude.{
  ℕ, ◌+◌, ◌-◌, ◌*◌, ◌/◌, ◌^◌, Text, chars, same, length, drop, all, starts_with, decimal,
  trim_start, digits_value, is_digit, is_upper, is_lower, Bool, true, false, not, ◌&&◌, ◌||◌, List,
  [], ◌∷◌, ◌++◌, Option, none, some, find, ltb, leb, ◌==◌, if◌then◌else◌,
}
use syrotp.Schema.{Db, Receiver}
use syrotp.Runtime.{Config}
use syrotp.Crypto.{Primitives, safe_equal, sha256_hex, hmac_sha256_hex}
use syrotp.Redis.{Redis, set_nx}

pub record VerifyHmacInput : Type 0 where
  pub receiver_id : Text
  pub timestamp_header : Text
  pub nonce_header : Text
  pub signature_header : Text
  pub raw_body : List ℕ

pub record VerifiedReceiver : Type 0 where
  pub id : Text
  pub app_id : Text
  pub msisdn : Text

pub data HmacReason : Type 0 where
  bad_receiver_id bad_nonce bad_signature_format bad_timestamp timestamp_skew : HmacReason
  unknown_receiver key_unavailable bad_signature replay : HmacReason

pub data VerifyHmacResult : Type 0 where
  accepted : VerifiedReceiver → VerifyHmacResult
  refused : HmacReason → VerifyHmacResult

-- `[A-Za-z0-9]+`
abbrev pub is_alphanumeric : Text → Bool
is_alphanumeric s = not (length s == 0) && all (λ c. is_upper c || is_lower c || is_digit c) s

-- `/^rcv_[A-Za-z0-9]+$/`
abbrev pub is_receiver_id : Text → Bool
is_receiver_id s = starts_with s (chars "rcv_") && is_alphanumeric (drop 4 s)

-- `[0-9a-f]` with the flag `i`
abbrev pub is_hex_char : ℕ → Bool
is_hex_char c = is_digit c || (leb b'a' c && leb c b'f') || (leb b'A' c && leb c b'F')

abbrev pub is_hex_text : ℕ → ℕ → Text → Bool
is_hex_text least most s = leb least (length s) && leb (length s) most && all is_hex_char s

-- A finite result of `Number.parseInt`, by sign and magnitude. From 2 ^ 53 on a double has fewer
-- digits; such a number is out of any skew.
pub record Timestamp : Type 0 where
  pub is_negative : Bool
  pub magnitude : ℕ

-- the longest prefix of digits
unfoldable pub leading_digits : Text → Text
leading_digits [] = []
leading_digits (c ∷ s) = if is_digit c then c ∷ leading_digits s else []

-- A magnitude that rounds to infinity is not finite, and no digits are NaN.
abbrev pub finite : Bool → Text → Option Timestamp
finite is_negative [] = none
finite is_negative (c ∷ s) =
    let magnitude = digits_value 0 (c ∷ s) in
    if leb (2 ^ 1024 - 2 ^ 970) magnitude
    then none
    else some (record { is_negative = is_negative; magnitude = magnitude })

parse_signed : Text → Option Timestamp
parse_signed [] = none
parse_signed (c ∷ s) =
    if c == b'-'
    then finite true (leading_digits s)
    else if c == b'+'
    then finite false (leading_digits s)
    else finite false (leading_digits (c ∷ s))

-- `Number.parseInt(s, 10)` with `Number.isFinite`
unfoldable pub parse_int : Text → Option Timestamp
unfolding parse_signed
parse_int s = parse_signed (trim_start s)

-- `String(ts)`; the negative zero prints as zero
abbrev pub timestamp_text : Timestamp → Text
timestamp_text t =
    if t.is_negative && not (t.magnitude == 0)
    then chars "-" ++ decimal t.magnitude
    else decimal t.magnitude

-- `Math.abs(nowSec - ts)`
abbrev pub skew_of : ℕ → Timestamp → ℕ
skew_of now_sec t =
    if t.is_negative
    then now_sec + t.magnitude
    else (now_sec - t.magnitude) + (t.magnitude - now_sec)

-- `${ts}.${nonceHeader}.${bodyHash}`
abbrev pub signed_payload : Primitives → Timestamp → VerifyHmacInput → Text
signed_payload p t input =
    timestamp_text t
    ++ (chars "." ++ (input.nonce_header ++ (chars "." ++ sha256_hex p input.raw_body)))

abbrev pub receiver_aad : Text → Text
receiver_aad id = chars "receiver:" ++ id

abbrev pub nonce_key : VerifyHmacInput → Text
nonce_key input = chars "syrotp:nonce:" ++ (input.receiver_id ++ (chars ":" ++ input.nonce_header))

abbrev pub after_set : Receiver → Bool × Redis → VerifyHmacResult × Redis
after_set r (false, redis) = (refused replay, redis)
after_set r (true, redis) =
    (accepted (record { id = r.id; app_id = r.app_id; msisdn = r.msisdn }), redis)

check_signature :
    Primitives
    → Config
    → ℕ
    → VerifyHmacInput
    → Timestamp
    → Receiver
    → Option Text
    → Redis
    → VerifyHmacResult × Redis
check_signature p config now input t r none redis = (refused key_unavailable, redis)
check_signature p config now input t r (some key) redis =
    if not (safe_equal p (hmac_sha256_hex p key (signed_payload p t input)) input.signature_header)
    then (refused bad_signature, redis)
    else after_set r (set_nx now (nonce_key input) config.inbound_timestamp_skew_seconds redis)

check_receiver :
    Primitives
    → Config
    → ℕ
    → VerifyHmacInput
    → Timestamp
    → Option Receiver
    → Redis
    → VerifyHmacResult × Redis
unfolding check_signature
check_receiver p config now input t none redis = (refused unknown_receiver, redis)
check_receiver p config now input t (some r) redis =
    if not r.enabled
    then (refused unknown_receiver, redis)
    else check_signature p config now input t r
        (p.unwrap p.master_key r.secret_hash (receiver_aad r.id)) redis

check_time :
    Primitives
    → Config
    → ℕ
    → VerifyHmacInput
    → Option Timestamp
    → Db
    → Redis
    → VerifyHmacResult × Redis
unfolding check_receiver
check_time p config now input none db redis = (refused bad_timestamp, redis)
check_time p config now input (some t) db redis =
    if ltb config.inbound_timestamp_skew_seconds (skew_of (now / 1000) t)
    then (refused timestamp_skew, redis)
    else check_receiver p config now input t (find (λ r. same r.id input.receiver_id) db.receivers)
        redis

unfoldable pub verify_gateway_hmac :
    Primitives → Config → ℕ → VerifyHmacInput → Db → Redis → VerifyHmacResult × Redis
unfolding check_time
verify_gateway_hmac p config now input db redis =
    if not (is_receiver_id input.receiver_id)
    then (refused bad_receiver_id, redis)
    else if not (is_hex_text 32 128 input.nonce_header)
    then (refused bad_nonce, redis)
    else if not (is_hex_text 64 64 input.signature_header)
    then (refused bad_signature_format, redis)
    else check_time p config now input (parse_int input.timestamp_header) db redis
