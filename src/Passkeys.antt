-- ===== src/Passkeys.antt =====
-- apps/server/src/services/webauthn.ts: the challenges and credentials of the passkey fallback. The
-- package @simplewebauthn/server is a parameter.
pub mod Single
use syrotp.Prelude.{
  ℕ, ◌+◌, ◌*◌, Text, chars, same, any, find, select, update, Bool, true, false, not, ◌&&◌, List, [],
  ◌∷◌, ◌++◌, Option, none, some, ltb, if◌then◌else◌,
}
use syrotp.Errors.{
  Failure, Result, ok, err, unique_violation, bad_request, not_found, service_unavailable, require,
  ◌>>=◌, ◌>>◌,
}
use syrotp.Schema.{Db, WebauthnCredential, WebauthnChallenge, ChallengePurpose, register, login}
use syrotp.Runtime.{new_id}
use syrotp.Crypto.{Primitives, hash_secret}

pub record RegistrationInfo : Type 0 where
  pub id : Text
  pub public_key : List ℕ
  pub counter : ℕ
  pub transports : List Text
  pub backed_up : Bool
  pub is_multi_device : Bool

-- What the browser sent: its credential id, and the rest for the package
pub record PasskeyResponse : Type 0 where
  pub id : Text
  pub payload : Text

-- The settings, and the package's calls
pub record Passkeys : Type 0 where
  -- `isWebAuthnConfigured()`
  pub is_configured : Bool
  -- `rpId()` and `origins()`: a misconfiguration throws
  pub rp_id : Result Text
  pub origins : Result (List Text)
  pub challenge_ttl_seconds : ℕ
  -- `verifyRegistrationResponse`: the response, challenge, origins and RP id; `none` where the
  -- answer is not verified, an error where the call throws
  pub verify_registration :
      PasskeyResponse → Text → List Text → Text → Result (Option RegistrationInfo)
  -- `verifyAuthenticationResponse`, with the stored key and counter: the new counter
  pub verify_authentication :
      PasskeyResponse → Text → List Text → Text → WebauthnCredential → Result (Option ℕ)

abbrev pub challenge_prefix : Text
challenge_prefix = chars "wch"

abbrev pub credential_prefix : Text
credential_prefix = chars "wac"

abbrev pub new_challenge :
    Passkeys → Text → ℕ → Text → Text → ChallengePurpose → Text → WebauthnChallenge
new_challenge pk ulid now app_id client_ref purpose challenge = record {
  id = new_id challenge_prefix ulid;
  app_id = app_id;
  client_ref = client_ref;
  challenge = challenge;
  purpose = purpose;
  expires_at = now + pk.challenge_ttl_seconds * 1000;
  used_at = none;
  created_at = now;
}

-- The insert, with the primary key
unfoldable pub create_challenge :
    Passkeys → Text → ℕ → Text → Text → ChallengePurpose → Text → Db → Result Db
create_challenge pk ulid now app_id client_ref purpose challenge db =
    if any (λ c. same c.id (new_id challenge_prefix ulid)) db.webauthn_challenges
    then err (unique_violation "webauthn_challenges_pkey")
    else ok (record db {
      webauthn_challenges =
          db.webauthn_challenges
          ++ new_challenge pk ulid now app_id client_ref purpose challenge ∷ [];
    })

abbrev pub is_purpose : ChallengePurpose → ChallengePurpose → Bool
is_purpose register register = true
is_purpose login login = true
is_purpose _ _ = false

abbrev pub is_unused : WebauthnChallenge → Bool
is_unused c = elim c.used_at [ none ↦ true | some at ↦ false ]

abbrev pub is_active : ℕ → Text → Text → ChallengePurpose → WebauthnChallenge → Bool
is_active now app_id client_ref purpose c =
    same c.app_id app_id
    && same c.client_ref client_ref
    && is_purpose c.purpose purpose
    && is_unused c
    && ltb now c.expires_at

-- ORDER BY created_at DESC LIMIT 1: the first of the latest
unfoldable pub latest : List WebauthnChallenge → Option WebauthnChallenge
latest [] = none
latest (c ∷ cs) = elim (latest cs) [
  | none ↦ some c
  | some d ↦ if ltb c.created_at d.created_at then some d else some c
]

abbrev pub set_used : ℕ → WebauthnChallenge → WebauthnChallenge
set_used now c = record c { used_at = some now }

abbrev pub used : ℕ → Db → Option WebauthnChallenge → Option Text × Db
used now db none = (none, db)
used now db (some c) = (
  some c.challenge,
  record db {
    webauthn_challenges = update (λ d. same d.id c.id) (set_used now) db.webauthn_challenges;
  },
)

-- The row that `consumeChallenge` picks
abbrev pub picked_challenge : ℕ → Text → Text → ChallengePurpose → Db → Option WebauthnChallenge
picked_challenge now app_id client_ref purpose db =
    latest (select (is_active now app_id client_ref purpose) db.webauthn_challenges)

unfoldable pub consume_challenge : ℕ → Text → Text → ChallengePurpose → Db → Option Text × Db
consume_challenge now app_id client_ref purpose db =
    used now db (picked_challenge now app_id client_ref purpose db)

abbrev pub disabled : Failure
disabled = service_unavailable "webauthn_disabled" "WebAuthn fallback is disabled"

abbrev pub challenge_invalid : Failure
challenge_invalid = bad_request "challenge_invalid" "challenge missing or expired"

-- `buildRegisterOptions` and `buildLoginOptions`, given the challenge that the package generated
unfoldable pub build_options :
    Passkeys → Text → ℕ → Text → Text → ChallengePurpose → Text → Db → Result Db
build_options pk ulid now app_id client_ref purpose challenge db = do
  require pk.is_configured disabled
  rp_id ← pk.rp_id
  create_challenge pk ulid now app_id client_ref purpose challenge db

abbrev pub hash_credential_id : Primitives → Text → Text
hash_credential_id p raw = hash_secret p (chars "webauthn_cred_id") p.master_key raw

abbrev pub new_credential : Text → ℕ → Text → Text → Text → RegistrationInfo → WebauthnCredential
new_credential ulid now app_id client_ref hash info = record {
  id = new_id credential_prefix ulid;
  app_id = app_id;
  client_ref = client_ref;
  credential_id_hash = hash;
  public_key = info.public_key;
  sign_count = info.counter;
  transports = info.transports;
  backup_state = info.backed_up;
  backup_eligible = info.is_multi_device;
  created_at = now;
  last_used_at = none;
}

-- A known credential of the app is left as it is.
abbrev pub store_credential : Primitives → Text → ℕ → Text → Text → RegistrationInfo → Db → Db
store_credential p ulid now app_id client_ref info db =
    let hash = hash_credential_id p info.id in
    if any (λ c. same c.app_id app_id && same c.credential_id_hash hash) db.webauthn_credentials
    then db
    else record db {
      webauthn_credentials =
          db.webauthn_credentials ++ new_credential ulid now app_id client_ref hash info ∷ [];
    }

abbrev pub registered :
    Primitives → Text → ℕ → Text → Text → Db → Result (Option RegistrationInfo) → Result Text × Db
registered p ulid now app_id client_ref db (err e) = (err e, db)
registered p ulid now app_id client_ref db (ok none) =
    (err (bad_request "attestation_failed" "registration could not be verified"), db)
registered p ulid now app_id client_ref db (ok (some info)) =
    (ok info.id, store_credential p ulid now app_id client_ref info db)

-- The empty text counts as no challenge. The settings are read as arguments of the call, after the challenge was used.
abbrev pub register_with :
    Primitives
    → Passkeys
    → Text
    → ℕ
    → Text
    → Text
    → PasskeyResponse
    → Option Text × Db
    → Result Text × Db
register_with p pk ulid now app_id client_ref response (none, db) = (err challenge_invalid, db)
register_with p pk ulid now app_id client_ref response (some [], db) = (err challenge_invalid, db)
register_with p pk ulid now app_id client_ref response (some (c ∷ s), db) = elim pk.origins [
  | err e ↦ (err e, db)
  | ok origins ↦ elim pk.rp_id [
    | err e ↦ (err e, db)
    | ok rp_id ↦
        registered p ulid now app_id client_ref db
          (pk.verify_registration response (c ∷ s) origins rp_id)
  ]
]

unfoldable pub verify_register :
    Primitives → Passkeys → Text → ℕ → Text → Text → PasskeyResponse → Db → Result Text × Db
verify_register p pk ulid now app_id client_ref response db =
    if pk.is_configured
    then register_with p pk ulid now app_id client_ref response
        (consume_challenge now app_id client_ref register db)
    else (err disabled, db)

abbrev pub set_counter : ℕ → ℕ → WebauthnCredential → WebauthnCredential
set_counter now counter c = record c { sign_count = counter; last_used_at = some now }

abbrev pub logged_in : ℕ → WebauthnCredential → Db → Result (Option ℕ) → Result (Unit {0}) × Db
logged_in now row db (err e) = (err e, db)
logged_in now row db (ok none) =
    (err (bad_request "assertion_failed" "authentication could not be verified"), db)
logged_in now row db (ok (some counter)) = (
  ok tt,
  record db {
    webauthn_credentials =
        update (λ c. same c.id row.id) (set_counter now counter) db.webauthn_credentials;
  },
)

abbrev pub is_credential : Text → Text → Text → WebauthnCredential → Bool
is_credential app_id client_ref hash c =
    same c.app_id app_id && same c.client_ref client_ref && same c.credential_id_hash hash

abbrev pub login_credential :
    Passkeys → ℕ → PasskeyResponse → Text → Db → Option WebauthnCredential → Result (Unit {0}) × Db
login_credential pk now response challenge db none = (err (not_found "webauthn_credential"), db)
login_credential pk now response challenge db (some row) = elim pk.origins [
  | err e ↦ (err e, db)
  | ok origins ↦ elim pk.rp_id [
    | err e ↦ (err e, db)
    | ok rp_id ↦
        logged_in now row db (pk.verify_authentication response challenge origins rp_id row)
  ]
]

abbrev pub login_with :
    Primitives
    → Passkeys
    → ℕ
    → Text
    → Text
    → PasskeyResponse
    → Option Text × Db
    → Result (Unit {0}) × Db
login_with p pk now app_id client_ref response (none, db) = (err challenge_invalid, db)
login_with p pk now app_id client_ref response (some [], db) = (err challenge_invalid, db)
login_with p pk now app_id client_ref response (some (c ∷ s), db) =
    login_credential pk now response (c ∷ s) db (
      find (is_credential app_id client_ref (hash_credential_id p response.id))
        db.webauthn_credentials)

unfoldable pub verify_login :
    Primitives → Passkeys → ℕ → Text → Text → PasskeyResponse → Db → Result (Unit {0}) × Db
verify_login p pk now app_id client_ref response db =
    if pk.is_configured
    then login_with p pk now app_id client_ref response
        (consume_challenge now app_id client_ref login db)
    else (err disabled, db)
