-- ===== src/Gateway/Replay.antt =====
-- How long a nonce of a receiver is good for nothing.
use syrotp.Prelude.{
  ℕ, ◌*◌, ◌+◌, ◌/◌, ◌≤◌, ◌≡◌, refl, sym, ◌∙◌, ap, Text, same, same_refl, Bool, true, false, List,
  [], ◌∷◌, arith, any, find, Bool-cases, inl, inr, Option, some, none, leb, or_else, ◌&&◌,
}
use syrotp.Tables.{any_of_any}
use syrotp.Schema.{Db, Receiver}
use syrotp.Runtime.{Config}
use syrotp.Crypto.{Primitives}
use syrotp.Redis.{Redis, Mark, set_nx, incr_expire, is_live_mark}
use syrotp.RateLimit.{rate_check}
use syrotp.Gateway.{
  VerifyHmacInput, VerifyHmacResult, VerifiedReceiver, accepted, Timestamp, skew_of, nonce_key,
  parse_int, check_signature, check_receiver, check_time, verify_gateway_hmac, receiver_aad,
}
use syrotp.Gateway.Sound.{identity, kept, verify_gateway_hmac_inv, authentic_accepted}

-- What the services do to Redis
pub data Traffic (p : Primitives) (config : Config) (redis : Redis) : Redis → Type 0 where
  quiet : Traffic p config redis redis
  verify :
      {mid : Redis} (now : ℕ) (input : VerifyHmacInput) (db : Db)
      → Traffic p config redis mid
      → Traffic p config redis (verify_gateway_hmac p config now input db mid).1
  limit :
      {mid : Redis} (answers : Bool) (now : ℕ) (key : Text) (most seconds : ℕ)
      → Traffic p config redis mid
      → Traffic p config redis (rate_check answers now key most seconds mid).1

abbrev pub holds_until : ℕ → Text → Mark → Bool
holds_until until key m = same m.key key && leb until m.expires_at

abbrev pub IsHeld : ℕ → Text → Redis → Type 0
IsHeld until key redis = any (holds_until until key) redis.marks ≡ true

module _ (until : ℕ) (key : Text) (p : Primitives) (config : Config) (now : ℕ)
    (input : VerifyHmacInput) (redis : Redis) (held : IsHeld until key redis) where
  check_signature-IsHeld :
      (t : Timestamp) (r : Receiver) (o : Option Text)
      → IsHeld until key (check_signature p config now input t r o redis).1
  unfolding check_signature set_nx
  check_signature-IsHeld t r none = held
  check_signature-IsHeld t r (some k) = ground arith

  check_receiver-IsHeld :
      (t : Timestamp) (o : Option Receiver)
      → IsHeld until key (check_receiver p config now input t o redis).1
  unfolding check_receiver
  check_receiver-IsHeld t none = held
  check_receiver-IsHeld t (some r) =
      ground (
        arith,
        check_signature-IsHeld t r (p.unwrap p.master_key r.secret_hash (receiver_aad r.id)),
      )

  check_time-IsHeld :
      (db : Db) (o : Option Timestamp)
      → IsHeld until key (check_time p config now input o db redis).1
  unfolding check_time
  check_time-IsHeld db none = held
  check_time-IsHeld db (some t) =
      ground (arith, check_receiver-IsHeld t (find (λ r. same r.id input.receiver_id) db.receivers))

  verify-IsHeld : (db : Db) → IsHeld until key (verify_gateway_hmac p config now input db redis).1
  unfolding verify_gateway_hmac
  verify-IsHeld db = ground (arith, check_time-IsHeld db (parse_int input.timestamp_header))

rate_check-marks :
    (answers : Bool) (now : ℕ) (key : Text) (most seconds : ℕ) (redis : Redis)
    → (rate_check answers now key most seconds redis).1.marks ≡ redis.marks
unfolding rate_check incr_expire
rate_check-marks true now key most seconds redis = refl
rate_check-marks false now key most seconds redis = refl

Traffic-IsHeld :
    (until : ℕ) (key : Text) (p : Primitives) (config : Config) (redis redis' : Redis)
    → Traffic p config redis redis'
    → IsHeld until key redis
    → IsHeld until key redis'
Traffic-IsHeld until key p config redis redis' quiet held = held
Traffic-IsHeld until key p config redis redis' (verify {mid} now input db tr) held =
    verify-IsHeld until key p config now input mid
      (Traffic-IsHeld until key p config redis mid tr held) db
Traffic-IsHeld until key p config redis redis' (limit {mid} answers now k most seconds tr) held =
    rw (rate_check-marks answers now k most seconds mid)
      (Traffic-IsHeld until key p config redis mid tr held)

-- Of two requests of one receiver with one nonce that are both accepted, whatever traffic lies
-- between them, the second comes no sooner than the skew after the first.
pub no_early_replay :
    (p : Primitives) (config : Config) (now later : ℕ) (input again : VerifyHmacInput) (db db' : Db)
    (redis after between left : Redis) (v w : VerifiedReceiver)
    → again.receiver_id ≡ input.receiver_id
    → again.nonce_header ≡ input.nonce_header
    → verify_gateway_hmac p config now input db redis ≡ (accepted v, after)
    → Traffic p config after between
    → verify_gateway_hmac p config later again db' between ≡ (accepted w, left)
    → now + config.inbound_timestamp_skew_seconds * 1000 ≤ later
no_early_replay p config now later input again db db' redis after between left v w er en first tr
      second =
    let until : ℕ = now + config.inbound_timestamp_skew_seconds * 1000 in
    let (_, _, _, _, _, made) = verify_gateway_hmac_inv p config now input redis after v db first in
    let (_, _, _, good, _, _) =
      verify_gateway_hmac_inv p config later again between left w db' second in
    let key : nonce_key again ≡ nonce_key input = rw (er, en) refl in
    let held : IsHeld until (nonce_key input) after =
      rw made (ground (arith, same_refl (nonce_key input))) in
    let still = Traffic-IsHeld until (nonce_key input) p config after between tr held in
    elim (Bool-cases (leb until later)) [
      | inl y ↦ ground arith
      | inr n ↦
          let live =
            any_of_any (holds_until until (nonce_key input)) (is_live_mark later (nonce_key input))
              between.marks (λ m h. ground arith) still in
          let dead = rw key at good.fresh in absurd (ground arith)
    ]

not_live_later :
    (now later : ℕ) (key : Text) (marks : List Mark)
    → now ≤ later
    → any (is_live_mark now key) marks ≡ false
    → any (is_live_mark later key) marks ≡ false
not_live_later now later key [] h e = refl
not_live_later now later key (m ∷ ms) h e = ground (arith, not_live_later now later key ms h)

-- Once a skew has passed since a request was accepted, the very same request is accepted again
-- where its timestamp is still within the skew and Redis was not touched in between: the nonce is
-- held from the first use on and not from the timestamp on.
pub late_replay :
    (p : Primitives) (config : Config) (now later : ℕ) (input : VerifyHmacInput) (db : Db)
    (redis after : Redis) (v : VerifiedReceiver) (t : Timestamp)
    → verify_gateway_hmac p config now input db redis ≡ (accepted v, after)
    → now + config.inbound_timestamp_skew_seconds * 1000 ≤ later
    → parse_int input.timestamp_header ≡ some t
    → skew_of (later / 1000) t ≤ config.inbound_timestamp_skew_seconds
    → (verify_gateway_hmac p config later input db after).0 ≡ accepted v
late_replay p config now later input db redis after v t first late timed in_skew =
    let (r, t', key, good, who, made) =
      verify_gateway_hmac_inv p config now input redis after v db first in
    let same_time : t ≡ t' = ap (λ (o : Option Timestamp). or_else o t) (sym timed ∙ good.timed) in
    let fresh : any (is_live_mark later (nonce_key input)) after.marks ≡ false = rw made (
      ground
        (arith, not_live_later now later (nonce_key input) redis.marks (omega arith) good.fresh)) in
    let again : verify_gateway_hmac p config later input db after
        ≡ (accepted (identity r), kept config later input after) =
      authentic_accepted p config later input db after r t' key (record {
        shaped = good.shaped;
        timed = good.timed;
        in_skew = rw (← same_time) in_skew;
        known = good.known;
        enabled = good.enabled;
        opened = good.opened;
        signed = good.signed;
        fresh = fresh;
      }) in
    ap (λ (z : VerifyHmacResult × Redis). z.0) again ∙ ap accepted (sym who)
