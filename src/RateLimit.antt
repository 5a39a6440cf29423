-- ===== src/RateLimit.antt =====
-- apps/server/src/services/rateLimit.ts: the fixed window counter.
pub mod Window
use syrotp.Prelude.{ℕ, ◌+◌, ◌-◌, ◌/◌, ◌%◌, Text, chars, decimal, Bool, true, ◌++◌, leb}
use syrotp.Redis.{Redis, incr_expire}

pub record RateCheck : Type 0 where
  pub allowed : Bool
  pub count : ℕ
  pub remaining : ℕ
  pub reset_seconds : ℕ

-- `now` is in milliseconds.
abbrev pub bucket : Text → ℕ → ℕ → Text
bucket key window_seconds now =
    chars "syrotp:rl:" ++ (key ++ (chars ":" ++ decimal (now / 1000 / window_seconds)))

-- The answer where `exec` gave one.
abbrev pub rate_answer : ℕ → ℕ → ℕ → ℕ → RateCheck
rate_answer limit window_seconds now count = record {
  allowed = leb count limit;
  count = count;
  remaining = limit - count;
  reset_seconds = window_seconds - now / 1000 % window_seconds;
}

-- `answers` is whether `exec` gives the replies; where it does not, the check lets through.
unfoldable pub rate_check : (answers : Bool) → ℕ → Text → ℕ → ℕ → Redis → RateCheck × Redis
rate_check Bool.true now key limit window_seconds redis =
    let (count, redis') = incr_expire now (bucket key window_seconds now) window_seconds redis in
    (rate_answer limit window_seconds now count, redis')
rate_check Bool.false now key limit window_seconds redis =
    (record { allowed = true; count = 0; remaining = limit; reset_seconds = window_seconds }, redis)
