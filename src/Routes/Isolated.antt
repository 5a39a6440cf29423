-- ===== src/Routes/Isolated.antt =====
-- No call of one app's backend reaches the rows of another app.
use syrotp.Prelude.{ℕ, ◌≡◌, ◌≢◌, refl, Text, List, [], ◌∷◌, Option}
use syrotp.Errors.{Result, ok, require, bad_request, not_found}
use syrotp.Schema.{secret}
use syrotp.Runtime.{Runtime}
use syrotp.Crypto.{Primitives}
use syrotp.Binding.{get_binding, revoke_binding}
use syrotp.Webhook.{get_webhook_endpoint, delete_webhook_endpoint}
use syrotp.Webhook.Secrets.{Sealing}
use syrotp.ApiKeys.{AuthedKey, require_key}
use syrotp.Routes.{State, Limits}
use syrotp.Routes.Routed.{Routed, continued, on_db, on_commit}
use syrotp.Routes.Verifications.{ApiRequest}
use syrotp.Routes.Bindings.{
  BindingBody, checked_binding_body, binding_input, post_bindings, read_bindings, revoke_bindings,
  on_read, is_binding_id,
}
use syrotp.Routes.Endpoints.{
  EndpointBody, checked_endpoint_body, endpoint_input, post_webhooks, read_webhooks, read_webhook,
  delete_webhooks, emptied, is_endpoint_id, shown_endpoint,
}
use syrotp.Routes.Tenants.{
  Kept, start_binding-Kept, revoke_binding-Kept, create_webhook_endpoint-Kept,
  delete_webhook_endpoint-Kept,
}
use syrotp.Routes.Steps.{
  Kept-trans, require_key-Kept, continued-Kept, limited-Kept, required-Kept, lifted-Kept,
}

-- The calls of an app's backend on its bindings and endpoints
pub data AppCall : Type 0 where
  start_binding_call : (ulid nonce : Text) → ℕ → ApiRequest → Option BindingBody → AppCall
  read_binding_call revoke_binding_call : ℕ → ApiRequest → Text → AppCall
  create_call : (ulid : Text) → Sealing → ℕ → ApiRequest → Option EndpointBody → AppCall
  list_call : ℕ → ApiRequest → AppCall
  read_call delete_call : ℕ → ApiRequest → Text → AppCall

module _ (p : Primitives) (rt : Runtime) (validate_url : Text → Result (Unit {0}))
    (limits : Limits) where
  -- The state that a call leaves, whatever it answers
  abbrev pub after : AppCall → State → State
  after (start_binding_call ulid nonce now req body) s =
      (post_bindings p rt limits ulid nonce now req body s).1
  after (read_binding_call now req id) s = (read_bindings p limits now req id s).1
  after (revoke_binding_call now req id) s = (revoke_bindings p limits now req id s).1
  after (create_call ulid sealing now req body) s =
      (post_webhooks p validate_url limits ulid sealing now req body s).1
  after (list_call now req) s = (read_webhooks p limits now req s).1
  after (read_call now req id) s = (read_webhook p limits now req id s).1
  after (delete_call now req id) s = (delete_webhooks p limits now req id s).1

  -- The caller's credentials are not those of a live secret key of the app.
  abbrev pub IsStranger : Text → ℕ → ApiRequest → State → Type 0
  IsStranger b now req s =
      (key : AuthedKey)
      → (require_key p now req.authorization (secret ∷ []) s.db).0 ≡ ok key
      → key.app_id ≢ b

  abbrev pub IsForeign : Text → AppCall → State → Type 0
  IsForeign b (start_binding_call ulid nonce now req body) s = IsStranger b now req s
  IsForeign b (read_binding_call now req id) s = IsStranger b now req s
  IsForeign b (revoke_binding_call now req id) s = IsStranger b now req s
  IsForeign b (create_call ulid sealing now req body) s = IsStranger b now req s
  IsForeign b (list_call now req) s = IsStranger b now req s
  IsForeign b (read_call now req id) s = IsStranger b now req s
  IsForeign b (delete_call now req id) s = IsStranger b now req s

  abbrev pub AllForeign : Text → List AppCall → State → Type 0
  AllForeign b [] s = Unit
  AllForeign b (c ∷ calls) s = IsForeign b c s × AllForeign b calls (after c s)

  abbrev pub after_all : List AppCall → State → State
  after_all [] s = s
  after_all (c ∷ calls) s = after_all calls (after c s)

  guarded-Kept {ℓ} :
      {A : Type ℓ} (b : Text) (now : ℕ) (req : ApiRequest) (s : State) (rest : AuthedKey → Routed A)
      → IsStranger b now req s
      → ((key : AuthedKey) → key.app_id ≢ b → (s1 : State) → Kept b s1.db (rest key s1).1.db)
      → Kept b s.db
          (continued (on_db (require_key p now req.authorization (secret ∷ [])) s) rest).1.db
  guarded-Kept b now req s rest stranger keeps =
      continued-Kept b s.db (on_db (require_key p now req.authorization (secret ∷ [])) s) rest
        (require_key-Kept p now req.authorization (secret ∷ []) s.db b)
        (λ key e.
          keeps key (stranger key e)
            (on_db (require_key p now req.authorization (secret ∷ [])) s).1)

  after-Kept : (b : Text) (c : AppCall) (s : State) → IsForeign b c s → Kept b s.db (after c s).db
  unfolding post_bindings read_bindings revoke_bindings post_webhooks read_webhooks read_webhook
      delete_webhooks
  after-Kept b (start_binding_call ulid nonce now req body) s h =
      guarded-Kept b now req s _ h (λ key n s1. limited-Kept b now _ _ s1 _ (λ s2.
        lifted-Kept b (checked_binding_body body) s2 _ (λ x.
          start_binding-Kept key.app_id b n rt ulid nonce now (binding_input key x) s2.db refl)))
  after-Kept b (read_binding_call now req id) s h = guarded-Kept b now req s _ h (λ key n s1.
      limited-Kept b now _ _ s1 _ (λ s2.
        required-Kept b (require (is_binding_id id) (bad_request "validation_error" "invalid id"))
          (on_read (get_binding key.app_id id)) s2 (λ s3. (refl, refl))))
  after-Kept b (revoke_binding_call now req id) s h = guarded-Kept b now req s _ h (λ key n s1.
      limited-Kept b now _ _ s1 _ (λ s2.
        required-Kept b (require (is_binding_id id) (bad_request "validation_error" "invalid id"))
          (on_commit (revoke_binding now key.app_id id)) s2
          (λ s3. revoke_binding-Kept key.app_id b n now id s3.db)))
  after-Kept b (create_call ulid sealing now req body) s h =
      guarded-Kept b now req s _ h (λ key n s1. limited-Kept b now _ _ s1 _ (λ s2.
        lifted-Kept b (checked_endpoint_body body) s2 _ (λ x.
          create_webhook_endpoint-Kept key.app_id b n validate_url ulid sealing now
            (endpoint_input key x) s2.db refl)))
  after-Kept b (list_call now req) s h =
      guarded-Kept b now req s _ h (λ key n s1. limited-Kept b now _ _ s1 _ (λ s2. (refl, refl)))
  after-Kept b (read_call now req id) s h = guarded-Kept b now req s _ h (λ key n s1.
      limited-Kept b now _ _ s1 _ (λ s2.
        required-Kept b (require (is_endpoint_id id) (not_found "webhook_endpoint"))
          (on_read (λ db. shown_endpoint (get_webhook_endpoint key.app_id id db))) s2
          (λ s3. (refl, refl))))
  after-Kept b (delete_call now req id) s h = guarded-Kept b now req s _ h (λ key n s1.
      limited-Kept b now _ _ s1 _ (λ s2.
        required-Kept b (require (is_endpoint_id id) (not_found "webhook_endpoint"))
          (on_commit (λ db. emptied (delete_webhook_endpoint key.app_id id db))) s2
          (λ s3. delete_webhook_endpoint-Kept key.app_id b n id s3.db)))

  -- Apps are apart: after any calls, answered or refused, that start, read and revoke bindings or
  -- create, list, read and delete endpoints, an app has the bindings and endpoints that it had,
  -- unless one of the calls came with a live secret key of that app.
  pub after_all-Kept :
      (b : Text) (calls : List AppCall) (s : State)
      → AllForeign b calls s
      → Kept b s.db (after_all calls s).db
  after_all-Kept b [] s h = (refl, refl)
  after_all-Kept b (c ∷ calls) s (h, hs) =
      Kept-trans b s.db (after c s).db (after_all calls (after c s)).db (after-Kept b c s h)
        (after_all-Kept b calls (after c s) hs)
