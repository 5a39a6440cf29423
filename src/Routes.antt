-- ===== src/Routes.antt =====
-- apps/server/src/routes: the order of the guards before the services. Children by route file.
pub mod Inbound
pub mod Verifications
pub mod Authentic
pub mod Heartbeat
pub mod Routed
pub mod Guarded
pub mod Bindings
pub mod Endpoints
pub mod Tenants
pub mod Steps
pub mod Isolated
pub mod Answers
use syrotp.Prelude.{ℕ, Text, chars, decimal, Bool, true, false, ◌++◌, length, ◌==◌}
use syrotp.Schema.{Db}
use syrotp.Redis.{Redis}
use syrotp.Errors.{Result, ok, err, rate_limited}
use syrotp.RateLimit.{RateCheck, rate_check}

-- What all server processes share
pub record State : Type 0 where
  pub db : Db
  pub redis : Redis

-- The settings of config.ts for the limits
pub record Limits : Type 0 where
  pub start_per_ip : ℕ
  pub status_per_ip : ℕ
  pub inbound_per_receiver : ℕ
  pub inbound_per_ip : ℕ
  pub heartbeat_per_receiver : ℕ
  pub verifications_per_app : ℕ
  pub inbound_per_app : ℕ
  pub cancel_per_app : ℕ
  pub bindings_per_app : ℕ
  pub binding_read_per_app : ℕ
  pub binding_revoke_per_app : ℕ
  pub webhook_crud_per_app : ℕ

-- `rateCheck` over a minute, and the throw where it does not allow. All calls are answered.
abbrev pub limited : RateCheck × Redis → Result (Unit {0}) × Redis
limited (answer, redis) = elim answer.allowed [
  | true ↦ (ok tt, redis)
  | false ↦ (err (rate_limited answer.reset_seconds), redis)
]

unfoldable pub limit_per_minute : ℕ → Text → ℕ → Redis → Result (Unit {0}) × Redis
limit_per_minute now key limit redis = limited (rate_check true now key limit 60 redis)
