-- ===== src/Routes/Bindings.antt =====
-- apps/server/src/routes/phoneBindings.ts: the binding ceremony for an app's backend.
use syrotp.Prelude.{
  ℕ, Text, chars, starts_with, drop, Bool, true, false, ◌&&◌, [], ◌∷◌, ◌++◌, Option, none, some,
}
use syrotp.Errors.{Result, ok, err, bad_request, require}
use syrotp.Schema.{Db, PhoneBinding, secret}
use syrotp.Runtime.{Runtime}
use syrotp.Crypto.{Primitives}
use syrotp.Binding.{
  StartBindingInput, StartBindingResult, start_binding, get_binding, revoke_binding,
}
use syrotp.ApiKeys.{AuthedKey, require_key}
use syrotp.Gateway.{is_alphanumeric, is_receiver_id}
use syrotp.Routes.{Limits}
use syrotp.Routes.Inbound.{is_within}
use syrotp.Routes.Routed.{Routed, ◌>>=◌, ◌>>◌, on_db, on_commit, lift, limit_to}
use syrotp.Routes.Verifications.{ApiRequest, invalid_body}

-- What `startBody` reads, before the checks on the length and the pattern
pub record BindingBody : Type 0 where
  pub phone : Text
  pub receiver_id : Text

abbrev pub is_binding_body : BindingBody → Bool
is_binding_body b = is_within 4 32 b.phone && is_receiver_id b.receiver_id

abbrev pub checked_binding_body : Option BindingBody → Result BindingBody
checked_binding_body none = err invalid_body
checked_binding_body (some b) = elim (is_binding_body b) [ true ↦ ok b | false ↦ err invalid_body ]

-- `/^pbn_[A-Za-z0-9]+$/`
abbrev pub is_binding_id : Text → Bool
is_binding_id s = starts_with s (chars "pbn_") && is_alphanumeric (drop 4 s)

abbrev pub binding_input : AuthedKey → BindingBody → StartBindingInput
binding_input auth b = record { app_id = auth.app_id; receiver_id = b.receiver_id; phone = b.phone }

-- POST /v1/phone-bindings/start
unfoldable pub post_bindings :
    Primitives
    → Runtime
    → Limits
    → (ulid nonce : Text) → ℕ
    → ApiRequest
    → Option BindingBody
    → Routed StartBindingResult
post_bindings p rt limits ulid nonce now req body = do
  auth ← on_db (require_key p now req.authorization (secret ∷ []))
  limit_to now (chars "phone_binding_start:app:" ++ auth.app_id) limits.bindings_per_app
  b ← lift (checked_binding_body body)
  on_commit (start_binding rt ulid nonce now (binding_input auth b))

-- A read leaves the database.
abbrev pub on_read {ℓ} : {A : Type ℓ} → (Db → Result A) → Routed A
on_read f s = (f s.db, s)

-- GET /v1/phone-bindings/:id
unfoldable pub read_bindings : Primitives → Limits → ℕ → ApiRequest → Text → Routed PhoneBinding
read_bindings p limits now req id = do
  auth ← on_db (require_key p now req.authorization (secret ∷ []))
  limit_to now (chars "phone_binding_read:app:" ++ auth.app_id) limits.binding_read_per_app
  lift (require (is_binding_id id) (bad_request "validation_error" "invalid id"))
  on_read (get_binding auth.app_id id)

-- POST /v1/phone-bindings/:id/revoke
unfoldable pub revoke_bindings : Primitives → Limits → ℕ → ApiRequest → Text → Routed PhoneBinding
revoke_bindings p limits now req id = do
  auth ← on_db (require_key p now req.authorization (secret ∷ []))
  limit_to now (chars "phone_binding_revoke:app:" ++ auth.app_id) limits.binding_revoke_per_app
  lift (require (is_binding_id id) (bad_request "validation_error" "invalid id"))
  on_commit (revoke_binding now auth.app_id id)
