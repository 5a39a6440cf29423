-- ===== src/Webhook/Secrets.antt =====
-- apps/server/src/services/webhooks.ts: the secret of an endpoint, and the signature under it.
use syrotp.Prelude.{ℕ, Text, chars, decimal, List, Option, some, ◌++◌}
use syrotp.Errors.{Failure}
use syrotp.Crypto.{Primitives, hmac_sha256_hex, hex_text}
use syrotp.Aead.{Gcm, wrap}

-- `bytes` are the 32 that `randomBytes` returns.
unfoldable pub generate_webhook_secret : List ℕ → Text
unfolding hex_text
generate_webhook_secret bytes = chars "whsec_" ++ hex_text bytes

abbrev pub aad_for : Text → Text
aad_for endpoint_id = chars "webhook:" ++ endpoint_id

-- What `createWebhookEndpoint` stores; `none` is a throw.
abbrev pub wrapped_secret : Gcm → Text → (secret endpoint_id : Text) → (iv : List ℕ) → Option Text
wrapped_secret g master_key secret endpoint_id iv =
    wrap g master_key secret (some (aad_for endpoint_id)) iv

-- What `createWebhookEndpoint` takes from the settings and from node:crypto: the key
-- `config.MASTER_ENCRYPTION_KEY`, and the random bytes of the secret and of the IV
pub record Sealing : Type 0 where
  pub gcm : Gcm
  pub master_key : Text
  pub secret_bytes : List ℕ
  pub iv : List ℕ

-- What `wrap` throws
abbrev pub bad_master_key : Failure
bad_master_key = Failure.error "master key must be 32 bytes"

unfoldable pub sign_delivery_body : Primitives → Text → ℕ → Text → Text
sign_delivery_body p secret timestamp_seconds body =
    hmac_sha256_hex p secret (decimal timestamp_seconds ++ (chars "." ++ body))
