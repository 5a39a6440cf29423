-- ===== src/Admin/Paired.antt =====
-- What adding a receiver means to its gateway.
use syrotp.Prelude.{
  ℕ, ◌/◌, ◌≤◌, ◌≡◌, refl, sym, ◌∙◌, ap, Text, same, same_refl, length, any, find, trim, Bool, true,
  false, not, List, [], ◌∷◌, ◌++◌, some, ◌==◌,
}
use syrotp.Tables.{find-new}
use syrotp.Schema.{Db}
use syrotp.Runtime.{Runtime, new_id, receiver_prefix}
use syrotp.Phone.{normalize_phone}
use syrotp.Crypto.{Primitives, safe_equal, hmac_sha256_hex}
use syrotp.Redis.{Redis, is_live_mark}
use syrotp.Aead.{Gcm, wrap, unwrap}
use syrotp.Aead.Roundtrip.{unwrap_wrapped}
use syrotp.Gateway.{
  VerifyHmacInput, accepted, Timestamp, skew_of, signed_payload, nonce_key, receiver_aad, parse_int,
  verify_gateway_hmac, is_receiver_id, is_hex_text,
}
use syrotp.Gateway.Sound.{kept, authentic_accepted}
use syrotp.Admin.{
  AdminError, done, check, or_fail, as_msisdn, AddReceiverOptions, AddReceiverResult, add_receiver,
  wrap_gateway_signing_key, added_row, has_id, is_app_id,
}
use syrotp.Crypto.{hex_text}
use syrotp.Crypto.Hex.{hex_text-ascii}
use syrotp.Admin.Inversion.{>>=-eq-done, or_fail-eq-done, done-injective}

absent : (t : Bool) {u : Unit {0}} → check (not t) AdminError.duplicate_id ≡ done u → t ≡ false
absent true e = cc
absent false e = refl

module _ (g : Gcm) (master_key : Text) (rt : Runtime) (ulid : Text) (bytes iv : List ℕ) (now : ℕ)
    (opts : AddReceiverOptions) (db db' : Db) (out : AddReceiverResult) where
  -- What a call that adds a receiver has done
  added :
      add_receiver g master_key rt ulid bytes iv now opts db ≡ done (out, db')
      → (id msisdn wrapped : Text) × (out.receiver_id ≡ id)
        × (out.msisdn ≡ msisdn)
        × (out.signing_key ≡ hex_text bytes)
        × (wrap g master_key (hex_text bytes) (some (receiver_aad id)) iv ≡ some wrapped)
        × (any (has_id id) db.receivers ≡ false)
        × (db'.receivers ≡ db.receivers ++ added_row opts id msisdn wrapped now ∷ [])
  unfolding add_receiver
  added h =
      let (_, a, h1) = >>=-eq-done (check (is_app_id opts.app_id) AdminError.invalid_app_id) _ h in
      let (_, b, h2) =
        >>=-eq-done (check (not (length (trim opts.name) == 0)) AdminError.invalid_name) _ h1 in
      let (phone, _, h3) =
        >>=-eq-done (as_msisdn (normalize_phone rt opts.msisdn rt.config.default_phone_region)) _
          h2 in
      let (app, _, h4) =
        >>=-eq-done (or_fail (find (λ a. same a.id opts.app_id) db.apps) AdminError.app_not_found) _
          h3 in
      let (_, _, h5) = >>=-eq-done (check (not app.disabled) AdminError.app_disabled) _ h4 in
      let id = new_id receiver_prefix ulid in
      let (wrapped, w, h6) =
        >>=-eq-done
          (or_fail (wrap_gateway_signing_key g master_key (hex_text bytes) id iv)
            AdminError.wrapping_failed)
          _ h5 in
      let (_, c, h7) =
        >>=-eq-done (check (not (any (has_id id) db.receivers)) AdminError.duplicate_id) _ h6 in
      let row = added_row opts id phone.e164 wrapped now in
      let made = done-injective h7 in
      (
        id,
        phone.e164,
        wrapped,
        sym (ap (λ r. r.0.receiver_id) made),
        sym (ap (λ r. r.0.msisdn) made),
        sym (ap (λ r. r.0.signing_key) made),
        or_fail-eq-done (wrap_gateway_signing_key g master_key (hex_text bytes) id iv)
            AdminError.wrapping_failed w,
        absent (any (has_id id) db.receivers) c,
        sym (ap (λ r. r.1.receivers) made),
      )

-- A receiver that was just added is heard: a request that names it, has its identifiers in their
-- shapes and its time within the skew, is signed with the key that the operator was given, and has
-- a nonce that the receiver does not hold, is accepted as this receiver's, with the number and the
-- app that it was added for. What `unwrap` of the request's side does is what lib/aead.ts does.
pub added_receiver_is_heard :
    (g : Gcm) (p : Primitives) (rt : Runtime) (ulid : Text) (bytes iv : List ℕ) (now : ℕ)
    (opts : AddReceiverOptions) (db db' : Db) (out : AddReceiverResult) (later : ℕ)
    (input : VerifyHmacInput) (redis : Redis) (t : Timestamp)
    → ((key wrapped aad : Text) → p.unwrap key wrapped aad ≡ unwrap g key wrapped (some aad))
    → add_receiver g p.master_key rt ulid bytes iv now opts db ≡ done (out, db')
    → input.receiver_id ≡ out.receiver_id
    → (is_receiver_id input.receiver_id ≡ true)
      × (is_hex_text 32 128 input.nonce_header ≡ true)
      × (is_hex_text 64 64 input.signature_header ≡ true)
    → parse_int input.timestamp_header ≡ some t
    → skew_of (later / 1000) t ≤ rt.config.inbound_timestamp_skew_seconds
    → safe_equal p
        (hmac_sha256_hex p out.signing_key (signed_payload p t input))
        input.signature_header
      ≡ true
    → any (is_live_mark later (nonce_key input)) redis.marks ≡ false
    → verify_gateway_hmac p rt.config later input db' redis ≡ (
      accepted (record { id = out.receiver_id; app_id = opts.app_id; msisdn = out.msisdn }),
      kept rt.config later input redis,
    )
added_receiver_is_heard g p rt ulid bytes iv now opts db db' out later input redis t aead h named
      shaped timed in_skew signed fresh =
    let (id, msisdn, wrapped, is_id, is_msisdn, is_key, wraps, new, rows) =
      added g p.master_key rt ulid bytes iv now opts db db' out h in
    let row = added_row opts id msisdn wrapped now in
    let opened : p.unwrap p.master_key wrapped (receiver_aad id) ≡ some (hex_text bytes) =
      aead p.master_key wrapped (receiver_aad id)
      ∙ unwrap_wrapped g p.master_key (hex_text bytes) (some (receiver_aad id)) iv wrapped
          (hex_text-ascii bytes) wraps in
    let known : find (λ s. same s.id input.receiver_id) db'.receivers ≡ some row =
      rw (rows, named, is_id) (find-new (has_id id) db.receivers row new (same_refl id)) in
    rw (is_id, is_msisdn)
      (authentic_accepted p rt.config later input db' redis row t (hex_text bytes) (record {
        shaped = shaped;
        timed = timed;
        in_skew = in_skew;
        known = known;
        enabled = refl;
        opened = opened;
        signed = rw (sym is_key) signed;
        fresh = fresh;
      }))
