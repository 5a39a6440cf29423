-- ===== src/Gateway/Sound.antt =====
-- What an accepted gateway request is.
use syrotp.Prelude.{
  ℕ, ◌*◌, ◌+◌, ◌/◌, ◌≤◌, ◌≡◌, refl, Text, same, true, false, ◌∷◌, arith, any, find, ◌↔◌, ltb,
  Option, some, none,
}
use syrotp.Schema.{Db, Receiver}
use syrotp.Runtime.{Config}
use syrotp.Crypto.{Primitives, safe_equal, hmac_sha256_hex}
use syrotp.Redis.{Redis, set_nx, is_live_mark}
use syrotp.Gateway.{
  VerifyHmacInput, VerifiedReceiver, accepted, Timestamp, skew_of, signed_payload, nonce_key,
  receiver_aad, parse_int, check_signature, check_receiver, check_time, verify_gateway_hmac,
  is_receiver_id, is_hex_text,
}

-- Redis once the nonce is kept
abbrev pub kept : Config → ℕ → VerifyHmacInput → Redis → Redis
kept config now input redis = record redis {
  marks =
      record {
        key = nonce_key input;
        expires_at = now + config.inbound_timestamp_skew_seconds * 1000;
      }
      ∷ redis.marks;
}

-- What `verifyGatewayHmac` has checked of a request that it accepts
pub record IsAuthentic (p : Primitives) (config : Config) (now : ℕ) (input : VerifyHmacInput)
    (db : Db) (redis : Redis) (r : Receiver) (t : Timestamp) (key : Text) : Type 0 where
  pub shaped :
      (is_receiver_id input.receiver_id ≡ true)
      × (is_hex_text 32 128 input.nonce_header ≡ true)
      × (is_hex_text 64 64 input.signature_header ≡ true)
  pub timed : parse_int input.timestamp_header ≡ some t
  pub in_skew : skew_of (now / 1000) t ≤ config.inbound_timestamp_skew_seconds
  pub known : find (λ s. same s.id input.receiver_id) db.receivers ≡ some r
  pub enabled : r.enabled ≡ true
  pub opened : p.unwrap p.master_key r.secret_hash (receiver_aad r.id) ≡ some key
  pub signed :
      safe_equal p (hmac_sha256_hex p key (signed_payload p t input)) input.signature_header ≡ true
  pub fresh : any (is_live_mark now (nonce_key input)) redis.marks ≡ false

abbrev pub identity : Receiver → VerifiedReceiver
identity r = record { id = r.id; app_id = r.app_id; msisdn = r.msisdn }

module _ (p : Primitives) (config : Config) (now : ℕ) (input : VerifyHmacInput)
    (redis redis' : Redis) (v : VerifiedReceiver) where
  check_signature_inv :
      (t : Timestamp) (r : Receiver) (o : Option Text)
      → check_signature p config now input t r o redis ≡ (accepted v, redis')
      → (key : Text) × (o ≡ some key)
        × (safe_equal p (hmac_sha256_hex p key (signed_payload p t input)) input.signature_header
            ≡ true)
        × (any (is_live_mark now (nonce_key input)) redis.marks ≡ false)
        × (v ≡ identity r)
        × (redis' ≡ kept config now input redis)
  unfolding check_signature set_nx
  check_signature_inv t r none e = cc
  check_signature_inv t r (some key) e =
      (key, refl, ground arith, ground arith, ground arith, ground arith)

  check_receiver_inv :
      (t : Timestamp) (o : Option Receiver)
      → check_receiver p config now input t o redis ≡ (accepted v, redis')
      → (r : Receiver) × (o ≡ some r)
        × (r.enabled ≡ true)
        × (check_signature p config now input t r
              (p.unwrap p.master_key r.secret_hash (receiver_aad r.id))
              redis
            ≡ (accepted v, redis'))
  unfolding check_receiver
  check_receiver_inv t none e = cc
  check_receiver_inv t (some r) e = (r, refl, ground arith, ground arith)

  check_time_inv :
      (db : Db) (o : Option Timestamp)
      → check_time p config now input o db redis ≡ (accepted v, redis')
      → (t : Timestamp) × (o ≡ some t)
        × (skew_of (now / 1000) t ≤ config.inbound_timestamp_skew_seconds)
        × (check_receiver p config now input t
              (find (λ r. same r.id input.receiver_id) db.receivers)
              redis
            ≡ (accepted v, redis'))
  unfolding check_time
  check_time_inv db none e = cc
  check_time_inv db (some t) e = (t, refl, ground arith, ground arith)

  pub verify_gateway_hmac_inv :
      (db : Db)
      → verify_gateway_hmac p config now input db redis ≡ (accepted v, redis')
      → (r : Receiver) × (t : Timestamp) × (key : Text) × IsAuthentic p config now input db redis r
          t key
        × (v ≡ identity r)
        × (redis' ≡ kept config now input redis)
  unfolding verify_gateway_hmac
  verify_gateway_hmac_inv db e =
      let shaped : (is_receiver_id input.receiver_id ≡ true)
          × (is_hex_text 32 128 input.nonce_header ≡ true)
          × (is_hex_text 64 64 input.signature_header ≡ true)
          × (check_time p config now input (parse_int input.timestamp_header) db redis
              ≡ (accepted v, redis')) =
        ground arith in
      let (a, b, c, rest) = shaped in
      let (t, timed, in_skew, rest) = check_time_inv db (parse_int input.timestamp_header) rest in
      let (r, known, enabled, rest) =
        check_receiver_inv t (find (λ r. same r.id input.receiver_id) db.receivers) rest in
      let (key, opened, signed, fresh, who, left) =
        check_signature_inv t r (p.unwrap p.master_key r.secret_hash (receiver_aad r.id)) rest in
      (
        r,
        t,
        key,
        record {
          shaped = (a, b, c);
          timed = timed;
          in_skew = in_skew;
          known = known;
          enabled = enabled;
          opened = opened;
          signed = signed;
          fresh = fresh;
        },
        who,
        left,
      )

pub authentic_accepted :
    (p : Primitives) (config : Config) (now : ℕ) (input : VerifyHmacInput) (db : Db) (redis : Redis)
    (r : Receiver) (t : Timestamp) (key : Text)
    → IsAuthentic p config now input db redis r t key
    → verify_gateway_hmac p config now input db redis
      ≡ (accepted (identity r), kept config now input redis)
unfolding verify_gateway_hmac check_time check_receiver check_signature set_nx
authentic_accepted p config now input db redis r t key good =
    let (a, b, c) = good.shaped in
    let in_time : ltb config.inbound_timestamp_skew_seconds (skew_of (now / 1000) t) ≡ false =
      ground (arith, good.in_skew) in
    rw (
      a, b, c, good.timed, check_time, in_time, good.known, check_receiver, good.enabled,
      good.opened, check_signature, good.signed, good.fresh,
    )

-- A request is accepted exactly where it is authentic: its identifiers have their shapes, its time
-- is within the skew, it names an enabled receiver, its signature is that of the time, the nonce and
-- the body under this receiver's key, and the receiver's nonce is not held. Then the answer is that
-- receiver, and the nonce is held for the length of the skew.
pub verify_gateway_hmac-accepts :
    (p : Primitives) (config : Config) (now : ℕ) (input : VerifyHmacInput) (db : Db)
    (redis redis' : Redis) (v : VerifiedReceiver)
    → (verify_gateway_hmac p config now input db redis ≡ (accepted v, redis')) ↔ (
        (r : Receiver) × (t : Timestamp) × (key : Text) × IsAuthentic p config now input db redis r
          t key
        × (v ≡ identity r)
        × (redis' ≡ kept config now input redis))
verify_gateway_hmac-accepts p config now input db redis redis' v =
    (verify_gateway_hmac_inv p config now input redis redis' v db, accepts)
  where
    accepts :
        (r : Receiver) × (t : Timestamp) × (key : Text) × IsAuthentic p config now input db redis r
            t key
          × (v ≡ identity r)
          × (redis' ≡ kept config now input redis)
        → verify_gateway_hmac p config now input db redis ≡ (accepted v, redis')
    accepts (r, t, key, good, who, left) =
        rw (who, left) (authentic_accepted p config now input db redis r t key good)
