-- ===== src/Routes/Authentic.antt =====
-- What stands behind a match that the route of inbound messages answers with.
use syrotp.Prelude.{
  ℕ, ◌≡◌, refl, Text, chars, true, List, ◌++◌, arith, find, Bool-cases, inl, inr, Option, none,
  some,
}
use syrotp.Errors.{Result, ok, err}
use syrotp.Schema.{Db, Receiver, Verification}
use syrotp.Runtime.{Runtime}
use syrotp.Crypto.{Primitives}
use syrotp.Redis.{Redis}
use syrotp.Gateway.{
  VerifyHmacInput, VerifyHmacResult, VerifiedReceiver, accepted, refused, verify_gateway_hmac,
  Timestamp, is_receiver_id,
}
use syrotp.Gateway.Sound.{IsAuthentic, identity, verify_gateway_hmac_inv}
use syrotp.Matching.{MatchOutcome, verification_matched, process_inbound, set_verified}
use syrotp.Verification.Hosted.{has_id}
use syrotp.History.{IsConsistent}
use syrotp.History.Sound.{Answers, process_inbound_sound}
use syrotp.Routes.{State, Limits, limit_per_minute}
use syrotp.Routes.Inbound.{
  InboundRequest, InboundBody, is_inbound_body, hmac_input, match_input, match_verified, answered,
  after_app_limit, after_receiver_limit, after_hmac, after_ip_limit, with_raw_body, with_headers,
  all_headers, post_inbound_sms,
}

module _ (p : Primitives) (rt : Runtime) (limits : Limits) (ulids : ℕ → Text) (now : ℕ)
    (outcome : MatchOutcome) (s' : State) where
  match_verified_inv :
      (body : Option InboundBody) (v : VerifiedReceiver) (s : State)
      → match_verified rt ulids now body v s ≡ (ok outcome, s')
      → (b : InboundBody) × (body ≡ some b)
        × (is_inbound_body b ≡ true)
        × (process_inbound rt ulids now (match_input v b) s.db ≡ (s'.db, ok outcome))
  unfolding match_verified
  match_verified_inv none v s e = cc
  match_verified_inv (some b) v s e = elim (Bool-cases (is_inbound_body b)) [
    | inl y ↦ (
      b,
      refl,
      y,
      done (process_inbound rt ulids now (match_input v b) s.db) (rw (y, match_verified) at e),
    )
    | inr n ↦ cc (rw (n, match_verified) at e)
  ]
    where
      done :
          (r : Db × Result MatchOutcome)
          → answered s.redis r ≡ (ok outcome, s')
          → r ≡ (s'.db, ok outcome)
      done (db, answer) h = ground arith

  after_app_limit_inv :
      (body : Option InboundBody) (v : VerifiedReceiver) (db : Db) (r : Result (Unit {0}) × Redis)
      → after_app_limit rt ulids now body v db r ≡ (ok outcome, s')
      → (b : InboundBody) × (body ≡ some b)
        × (is_inbound_body b ≡ true)
        × (process_inbound rt ulids now (match_input v b) db ≡ (s'.db, ok outcome))
  after_app_limit_inv body v db (err x, redis) e = cc
  after_app_limit_inv body v db (ok _, redis) e =
      match_verified_inv body v (record { db = db; redis = redis }) e

  after_receiver_limit_inv :
      (body : Option InboundBody) (v : VerifiedReceiver) (db : Db) (r : Result (Unit {0}) × Redis)
      → after_receiver_limit rt limits ulids now body v db r ≡ (ok outcome, s')
      → (b : InboundBody) × (body ≡ some b)
        × (is_inbound_body b ≡ true)
        × (process_inbound rt ulids now (match_input v b) db ≡ (s'.db, ok outcome))
  after_receiver_limit_inv body v db (err x, redis) e = cc
  after_receiver_limit_inv body v db (ok _, redis) e =
      after_app_limit_inv body v db
        (limit_per_minute now (chars "inbound:app:" ++ v.app_id) limits.inbound_per_app redis) e

  after_hmac_inv :
      (body : Option InboundBody) (db : Db) (r : VerifyHmacResult × Redis)
      → after_hmac rt limits ulids now body db r ≡ (ok outcome, s')
      → (v : VerifiedReceiver) × (redis : Redis) × (r ≡ (accepted v, redis))
        × (b : InboundBody) × (body ≡ some b)
        × (is_inbound_body b ≡ true)
        × (process_inbound rt ulids now (match_input v b) db ≡ (s'.db, ok outcome))
  after_hmac_inv body db (refused reason, redis) e = cc
  after_hmac_inv body db (accepted v, redis) e =
      let (b, q, w, h) =
        after_receiver_limit_inv body v db
          (limit_per_minute now (chars "inbound:rcv:" ++ v.id) limits.inbound_per_receiver redis)
          e in
      (v, redis, refl, b, q, w, h)

  after_ip_limit_inv :
      (body : Option InboundBody) (input : VerifyHmacInput) (db : Db)
      (r : Result (Unit {0}) × Redis)
      → after_ip_limit p rt limits ulids now body input db r ≡ (ok outcome, s')
      → (redis : Redis) × (after_hmac rt limits ulids now body db
            (verify_gateway_hmac p rt.config now input db redis)
          ≡ (ok outcome, s'))
  after_ip_limit_inv body input db (err x, redis) e = cc
  after_ip_limit_inv body input db (ok _, redis) e = (redis, e)

  with_raw_body_inv :
      (req : InboundRequest) (r t n g : Text) (raw : Option (List ℕ)) (s : State)
      → with_raw_body p rt limits ulids now req (r, t, n, g) raw s ≡ (ok outcome, s')
      → (bytes : List ℕ) × (raw ≡ some bytes)
        × (redis : Redis) × (after_hmac rt limits ulids now req.body s.db
              (verify_gateway_hmac p rt.config now (hmac_input r t n g bytes) s.db redis)
            ≡ (ok outcome, s'))
  with_raw_body_inv req r t n g none s e = cc
  with_raw_body_inv req r t n g (some bytes) s e =
      let (redis, h) =
        after_ip_limit_inv req.body (hmac_input r t n g bytes) s.db
          (limit_per_minute now (chars "inbound:ip:" ++ req.ip) limits.inbound_per_ip s.redis) e in
      (bytes, refl, redis, h)

  with_headers_inv :
      (req : InboundRequest) (hs : Option (Text × Text × Text × Text)) (s : State)
      → with_headers p rt limits ulids now req hs s ≡ (ok outcome, s')
      → (r : Text) × (t : Text) × (n : Text) × (g : Text) × (hs ≡ some (r, t, n, g))
        × (bytes : List ℕ) × (req.raw_body ≡ some bytes)
        × (redis : Redis) × (after_hmac rt limits ulids now req.body s.db
              (verify_gateway_hmac p rt.config now (hmac_input r t n g bytes) s.db redis)
            ≡ (ok outcome, s'))
  with_headers_inv req none s e = cc
  with_headers_inv req (some (r, t, n, g)) s e =
      let (bytes, raw, redis, h) = with_raw_body_inv req r t n g req.raw_body s (shaped e) in
      (r, t, n, g, refl, bytes, raw, redis, h)
    where
      shaped :
          with_headers p rt limits ulids now req (some (r, t, n, g)) s ≡ (ok outcome, s')
          → with_raw_body p rt limits ulids now req (r, t, n, g) req.raw_body s ≡ (ok outcome, s')
      shaped h = elim (Bool-cases (is_receiver_id r)) [ inl y ↦ rw y at h | inr z ↦ cc (rw z at h) ]

-- A match answered by the route stands on a signature: the request carried the headers and the
-- body's bytes, these were authentic for a receiver of the database, and through this receiver came
-- the message that answers the verification, as `process_inbound_sound` says.
pub post_inbound_sms_sound :
    (p : Primitives) (rt : Runtime) (limits : Limits) (ulids : ℕ → Text) (now : ℕ)
    (req : InboundRequest) (most : ℕ) (s s' : State) (id inbound_id : Text)
    → IsConsistent most s.db
    → post_inbound_sms p rt limits ulids now req s ≡ (ok (verification_matched id inbound_id), s')
    → (r : Receiver) × (t : Timestamp) × (key : Text) × (redis : Redis) × (input : VerifyHmacInput)
      × (req.raw_body ≡ some input.raw_body)
      × (all_headers req.headers
          ≡ some (
            input.receiver_id, input.timestamp_header, input.nonce_header, input.signature_header,
          ))
      × IsAuthentic p rt.config now input s.db redis r t key
      × (b : InboundBody) × (req.body ≡ some b)
      × (v : Verification) × (find (has_id id) s.db.verifications ≡ some v)
      × Answers rt now (match_input (identity r) b) v
      × (find (has_id id) s'.db.verifications ≡ some (set_verified now inbound_id v))
unfolding post_inbound_sms
post_inbound_sms_sound p rt limits ulids now req most s s' id inbound_id good e =
    let outcome : MatchOutcome = verification_matched id inbound_id in
    let (ri, t, n, g, headers, bytes, raw, redis, rest) =
      with_headers_inv p rt limits ulids now outcome s' req (all_headers req.headers) s e in
    let input = hmac_input ri t n g bytes in
    let (who, after, authentic, b, body, _, matched) =
      after_hmac_inv p rt limits ulids now outcome s' req.body s.db
        (verify_gateway_hmac p rt.config now input s.db redis) rest in
    let (r, ts, key, shown, named, _) =
      verify_gateway_hmac_inv p rt.config now input redis after who s.db authentic in
    let (v, found, why, left) =
      process_inbound_sound rt ulids now (match_input who b) most s.db s'.db id inbound_id good
        matched in
    (r, ts, key, redis, input, raw, headers, shown, b, body, v, found, rw (← named) why, left)
