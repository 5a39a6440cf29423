-- ===== src/ApiKeys.antt =====
-- apps/server/src/services/apiKeys.ts and plugins/auth.ts: who calls, and with which kind of key.
pub mod Sound
use syrotp.Prelude.{
  ℕ, Text, chars, same, length, drop, any, starts_with, trim, Bool, true, false, not, ◌&&◌, ◌||◌,
  List, [], ◌∷◌, ◌++◌, Option, none, some, find, update, ltb, ◌==◌, if◌then◌else◌,
}
use syrotp.Errors.{Result, ok, err, unauthorized, forbidden}
use syrotp.Schema.{Db, App, ApiKey, ApiKeyKind, public, secret, gateway}
use syrotp.Crypto.{Primitives, hash_secret}

pub record AuthedKey : Type 0 where
  pub id : Text
  pub app_id : Text
  pub kind : ApiKeyKind

-- What stands before the last `_`
abbrev pub before_last_underscore : Text → Option Text
before_last_underscore [] = none
before_last_underscore (c ∷ s) = elim (before_last_underscore s) [
  | some head ↦ some (c ∷ head)
  | none ↦ if c == b'_' then some [] else none
]

-- PREFIX_TO_KIND
abbrev pub kind_of_prefix : Text → Option ApiKeyKind
kind_of_prefix prefix =
    if same prefix (chars "pk_live")
    then some public
    else if same prefix (chars "sk_live")
    then some secret
    else if same prefix (chars "gw_live")
    then some gateway
    else none

abbrev pub kind_of_raw : Text → Option ApiKeyKind
kind_of_raw raw =
    if ltb (length raw) 16 || ltb 128 (length raw)
    then none
    else elim (before_last_underscore raw) [ none ↦ none | some prefix ↦ kind_of_prefix prefix ]

abbrev pub is_kind : ApiKeyKind → ApiKeyKind → Bool
is_kind public public = true
is_kind secret secret = true
is_kind gateway gateway = true
is_kind _ _ = false

abbrev pub app_of : Db → ApiKey → Option App
app_of db k = find (λ a. same a.id k.app_id) db.apps

abbrev pub is_enabled_app : Option App → Bool
is_enabled_app none = false
is_enabled_app (some a) = not a.disabled

abbrev pub is_unrevoked : ApiKey → Bool
is_unrevoked k = elim k.revoked_at [ none ↦ true | some at ↦ false ]

-- the first row of the join on the hash
abbrev pub key_of_hash : Db → Text → Option ApiKey
key_of_hash db hash =
    find (λ k. same k.key_hash hash && any (λ a. same a.id k.app_id) db.apps) db.api_keys

abbrev pub touch_key : ℕ → Text → Db → Db
touch_key now id db = record db {
  api_keys = update (λ k. same k.id id) (λ k. record k { last_used_at = some now }) db.api_keys;
}

abbrev pub authed : ℕ → ApiKeyKind → Option ApiKey → Db → Option AuthedKey × Db
authed now kind none db = (none, db)
authed now kind (some k) db =
    if is_unrevoked k && is_enabled_app (app_of db k) && is_kind k.kind kind
    then (some (record { id = k.id; app_id = k.app_id; kind = k.kind }), touch_key now k.id db)
    else (none, db)

-- The update of the time of last use runs in the background; it is taken to succeed.
unfoldable pub lookup_api_key : Primitives → ℕ → Text → Db → Option AuthedKey × Db
lookup_api_key p now raw db = elim (kind_of_raw raw) [
  | none ↦ (none, db)
  | some kind ↦
      authed now kind (key_of_hash db (hash_secret p (chars "api_key") p.master_key raw)) db
]

abbrev pub non_empty : Text → Option Text
non_empty [] = none
non_empty (c ∷ s) = some (c ∷ s)

-- The header `Authorization`, where there is one
unfoldable pub extract_bearer : Option Text → Option Text
extract_bearer none = none
extract_bearer (some h) =
    if starts_with h (chars "Bearer ") then non_empty (trim (drop 7 h)) else none

abbrev pub allowed_key : List ApiKeyKind → Option AuthedKey × Db → Result AuthedKey × Db
allowed_key allowed (none, db) = (err (unauthorized "missing or invalid credentials"), db)
allowed_key allowed (some k, db) =
    if any (is_kind k.kind) allowed
    then (ok k, db)
    else (err (forbidden "key kind not permitted for this endpoint"), db)

unfoldable pub require_key :
    Primitives → ℕ → Option Text → List ApiKeyKind → Db → Result AuthedKey × Db
require_key p now authorization allowed db = elim (extract_bearer authorization) [
  | none ↦ (err (unauthorized "missing or invalid credentials"), db)
  | some token ↦ allowed_key allowed (lookup_api_key p now token db)
]
