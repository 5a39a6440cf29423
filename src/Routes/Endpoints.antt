-- ===== src/Routes/Endpoints.antt =====
-- apps/server/src/routes/webhooks.ts: the webhook endpoints of an app's backend.
use syrotp.Prelude.{
  ℕ, Text, chars, length, starts_with, drop, all, Bool, true, false, ◌&&◌, List, [], ◌∷◌, ◌++◌,
  Option, none, some, leb,
}
use syrotp.Errors.{Result, ok, err, webhook_validation_error, bad_request, not_found, require}
use syrotp.Schema.{Db, WebhookEndpoint, secret}
use syrotp.Crypto.{Primitives}
use syrotp.Webhook.{
  CreateWebhookInput, WebhookEndpointWithSecret, WebhookEndpointPublic, to_public,
  is_valid_event_type, create_webhook_endpoint, list_webhook_endpoints, get_webhook_endpoint,
  delete_webhook_endpoint,
}
use syrotp.Webhook.Secrets.{Sealing}
use syrotp.ApiKeys.{AuthedKey, require_key}
use syrotp.Gateway.{is_alphanumeric}
use syrotp.Routes.{Limits}
use syrotp.Routes.Inbound.{is_within}
use syrotp.Routes.Routed.{Routed, ◌>>=◌, ◌>>◌, on_db, on_commit, lift, limit_to}
use syrotp.Routes.Verifications.{ApiRequest, invalid_body}
use syrotp.Routes.Bindings.{on_read}

-- What `createBody` reads, before the checks on the lengths and the names
pub record EndpointBody : Type 0 where
  pub url : Text
  pub event_types : List Text

abbrev pub is_endpoint_body : EndpointBody → Bool
is_endpoint_body b =
    is_within 1 2048 b.url
    && leb 1 (length b.event_types)
    && leb (length b.event_types) 3
    && all is_valid_event_type b.event_types

abbrev pub checked_endpoint_body : Option EndpointBody → Result EndpointBody
checked_endpoint_body none = err invalid_body
checked_endpoint_body (some b) = elim (is_endpoint_body b) [
  | true ↦ ok b
  | false ↦ err invalid_body
]

-- `webhookCrudRateLimit`
abbrev pub webhook_crud_rate_limit : ℕ → Limits → Text → Routed (Unit {0})
webhook_crud_rate_limit now limits app_id =
    limit_to now (chars "webhook_crud:app:" ++ app_id) limits.webhook_crud_per_app

-- `/^whk_[A-Za-z0-9]+$/`
abbrev pub is_endpoint_id : Text → Bool
is_endpoint_id s = starts_with s (chars "whk_") && is_alphanumeric (drop 4 s)

-- A refusal of the URL guard becomes a 400 with its code.
abbrev pub as_refused_url {ℓ} : {A : Type ℓ} → Result A → Result A
as_refused_url (err (webhook_validation_error code message)) = err (bad_request code message)
as_refused_url (err e) = err e
as_refused_url (ok a) = ok a

abbrev pub endpoint_input : AuthedKey → EndpointBody → CreateWebhookInput
endpoint_input auth b = record { app_id = auth.app_id; url = b.url; event_types = b.event_types }

-- POST /v1/webhooks
unfoldable pub post_webhooks :
    Primitives
    → (Text → Result (Unit {0}))
    → Limits
    → (ulid : Text) → Sealing
    → ℕ
    → ApiRequest
    → Option EndpointBody
    → Routed WebhookEndpointWithSecret
post_webhooks p validate_url limits ulid sealing now req body = do
  auth ← on_db (require_key p now req.authorization (secret ∷ []))
  webhook_crud_rate_limit now limits auth.app_id
  b ← lift (checked_endpoint_body body)
  on_commit (λ db.
      as_refused_url
        (create_webhook_endpoint validate_url ulid sealing now (endpoint_input auth b) db))

-- GET /v1/webhooks
unfoldable pub read_webhooks :
    Primitives → Limits → ℕ → ApiRequest → Routed (List WebhookEndpointPublic)
read_webhooks p limits now req = do
  auth ← on_db (require_key p now req.authorization (secret ∷ []))
  webhook_crud_rate_limit now limits auth.app_id
  on_read (λ db. ok (list_webhook_endpoints auth.app_id db))

abbrev pub shown_endpoint : Result WebhookEndpoint → Result WebhookEndpointPublic
shown_endpoint (err e) = err e
shown_endpoint (ok row) = ok (to_public row)

-- GET /v1/webhooks/:id
unfoldable pub read_webhook :
    Primitives → Limits → ℕ → ApiRequest → Text → Routed WebhookEndpointPublic
read_webhook p limits now req id = do
  auth ← on_db (require_key p now req.authorization (secret ∷ []))
  webhook_crud_rate_limit now limits auth.app_id
  lift (require (is_endpoint_id id) (not_found "webhook_endpoint"))
  on_read (λ db. shown_endpoint (get_webhook_endpoint auth.app_id id db))

abbrev pub emptied : Result Db → Result (Unit {0} × Db)
emptied (err e) = err e
emptied (ok db) = ok (tt, db)

-- DELETE /v1/webhooks/:id
unfoldable pub delete_webhooks : Primitives → Limits → ℕ → ApiRequest → Text → Routed (Unit {0})
delete_webhooks p limits now req id = do
  auth ← on_db (require_key p now req.authorization (secret ∷ []))
  webhook_crud_rate_limit now limits auth.app_id
  lift (require (is_endpoint_id id) (not_found "webhook_endpoint"))
  on_commit (λ db. emptied (delete_webhook_endpoint auth.app_id id db))
