-- ===== src/Admin.antt =====
-- apps/server/src/admin/receivers.ts: the receivers, as an operator keeps them.
pub mod Listed
pub mod Inversion
pub mod Paired
pub mod Switched
use syrotp.Prelude.{
  ℕ, ◌-◌, ◌*◌, ◌/◌, ◌%◌, Text, chars, same, length, drop, starts_with, trim, decimal, map, any,
  find, select, update, or_else, get_elem?, Bool, true, false, not, ◌&&◌, ◌||◌, List, [], ◌∷◌, ◌++◌,
  Option, none, some, ltb, leb, ◌==◌, if◌then◌else◌,
}
use syrotp.Errors
use syrotp.Schema.{Db, App, Receiver}
use syrotp.Runtime.{Runtime, Config, new_id, receiver_prefix}
use syrotp.Phone.{NormalizedPhone, normalize_phone}
use syrotp.Gateway.{is_alphanumeric, is_receiver_id, receiver_aad}
use syrotp.Crypto.{hex_text}
use syrotp.Aead.{Gcm, wrap}

-- `AdminError` by its code, and the two errors of other parts that pass through
pub data AdminError : Type 0 where
  invalid_app_id invalid_name invalid_msisdn app_not_found app_disabled : AdminError
  invalid_receiver_id receiver_not_found : AdminError
  wrapping_failed duplicate_id : AdminError

pub data AdminResult {ℓ} (A : Type ℓ) : Type ℓ where
  done : A → AdminResult A
  failed : AdminError → AdminResult A

infixl 5 ◌>>=◌ ◌>>◌
abbrev pub ◌>>=◌ {ℓ κ} :
    {A : Type ℓ} {B : Type κ} → AdminResult A → (A → AdminResult B) → AdminResult B
done a >>= f = f a
failed e >>= f = failed e

abbrev pub ◌>>◌ {ℓ} : {B : Type ℓ} → AdminResult (Unit {0}) → AdminResult B → AdminResult B
m >> k = m >>= (λ _. k)

abbrev pub check : Bool → AdminError → AdminResult (Unit {0})
check test e = if test then done tt else failed e

abbrev pub or_fail {ℓ} : {A : Type ℓ} → Option A → AdminError → AdminResult A
or_fail none e = failed e
or_fail (some a) e = done a

-- Every failure of `normalizePhone` is a `PhoneError`.
abbrev pub as_msisdn : Errors.Result NormalizedPhone → AdminResult NormalizedPhone
as_msisdn (Errors.ok phone) = done phone
as_msisdn (Errors.err e) = failed invalid_msisdn

pub record AddReceiverOptions : Type 0 where
  pub app_id : Text
  pub name : Text
  pub operator : Option Text
  pub msisdn : Text
  pub simulate_heartbeat : Bool

pub record AddReceiverResult : Type 0 where
  pub receiver_id : Text
  pub msisdn : Text
  pub signing_key : Text
  pub app_id : Text
  pub app_name : Text
  pub operator : Option Text
  pub name : Text

-- `/^app_[A-Za-z0-9]+$/`
abbrev pub is_app_id : Text → Bool
is_app_id s = starts_with s (chars "app_") && is_alphanumeric (drop 4 s)

-- `operator?.trim() || null`
abbrev pub some_text : Text → Option Text
some_text [] = none
some_text (c ∷ s) = some (c ∷ s)

abbrev pub trimmed_operator : Option Text → Option Text
trimmed_operator none = none
trimmed_operator (some operator) = some_text (trim operator)

-- services/hmac.ts: `wrapGatewaySigningKey`; `none` is a throw.
abbrev pub wrap_gateway_signing_key : Gcm → Text → Text → Text → (iv : List ℕ) → Option Text
wrap_gateway_signing_key g master_key signing_key receiver_id iv =
    wrap g master_key signing_key (some (receiver_aad receiver_id)) iv

abbrev pub added_row : AddReceiverOptions → (id msisdn wrapped : Text) → ℕ → Receiver
added_row opts id msisdn wrapped now = record {
  id = id;
  app_id = opts.app_id;
  name = trim opts.name;
  operator = trimmed_operator opts.operator;
  msisdn = msisdn;
  secret_hash = wrapped;
  enabled = true;
  last_heartbeat_at = if opts.simulate_heartbeat then some now else none;
  created_at = now;
}

-- `ulid`, `bytes` and `iv` are what `ulid()` and `randomBytes` return.
unfoldable pub add_receiver :
    Gcm
    → (master_key : Text) → Runtime
    → (ulid : Text) (bytes iv : List ℕ) → ℕ
    → AddReceiverOptions
    → Db
    → AdminResult (AddReceiverResult × Db)
add_receiver g master_key rt ulid bytes iv now opts db = do
  check (is_app_id opts.app_id) invalid_app_id
  check (not (length (trim opts.name) == 0)) invalid_name
  phone ← as_msisdn (normalize_phone rt opts.msisdn rt.config.default_phone_region)
  app ← or_fail (find (λ a. same a.id opts.app_id) db.apps) app_not_found
  check (not app.disabled) app_disabled
  let id = new_id receiver_prefix ulid
  let signing_key = hex_text bytes
  wrapped ← or_fail (wrap_gateway_signing_key g master_key signing_key id iv) wrapping_failed
  check (not (any (λ r. same r.id id) db.receivers)) duplicate_id
  done (
    record {
      receiver_id = id;
      msisdn = phone.e164;
      signing_key = signing_key;
      app_id = opts.app_id;
      app_name = app.name;
      operator = trimmed_operator opts.operator;
      name = trim opts.name;
    },
    record db { receivers = db.receivers ++ added_row opts id phone.e164 wrapped now ∷ [] },
  )

pub record DisableReceiverResult : Type 0 where
  pub id : Text
  pub was_enabled : Bool
  pub msisdn : Text

pub record EnableReceiverResult : Type 0 where
  pub id : Text
  pub was_disabled : Bool
  pub msisdn : Text

abbrev pub has_id : Text → Receiver → Bool
has_id id r = same r.id id

abbrev pub set_enabled : Bool → Receiver → Receiver
set_enabled enabled r = record r { enabled = enabled }

-- UPDATE receivers SET enabled = … WHERE id = …
abbrev pub switch : Bool → Text → Db → Db
switch enabled id db = record db {
  receivers = update (has_id id) (set_enabled enabled) db.receivers;
}

unfoldable pub disable_receiver : Text → Db → AdminResult (DisableReceiverResult × Db)
disable_receiver id db = do
  check (is_receiver_id id) invalid_receiver_id
  row ← or_fail (find (has_id id) db.receivers) receiver_not_found
  done (
    record { id = row.id; was_enabled = row.enabled; msisdn = row.msisdn },
    if not row.enabled then db else switch false id db,
  )

unfoldable pub enable_receiver : Text → Db → AdminResult (EnableReceiverResult × Db)
enable_receiver id db = do
  check (is_receiver_id id) invalid_receiver_id
  row ← or_fail (find (has_id id) db.receivers) receiver_not_found
  done (
    record { id = row.id; was_disabled = not row.enabled; msisdn = row.msisdn },
    if row.enabled then db else switch true id db,
  )
