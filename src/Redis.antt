-- ===== src/Redis.antt =====
-- The commands of Redis that the services use, on the keys that they write: `SET … EX … NX`, and
-- `INCR` with `EXPIRE … NX` in one `MULTI`. A key is gone once its time has passed.
use syrotp.Prelude.{
  ℕ, ◌+◌, ◌*◌, Text, same, any, find, Bool, true, false, not, ◌&&◌, List, ◌∷◌, Option, none, some,
  ltb, if◌then◌else◌, select,
}

pub record Mark : Type 0 where
  pub key : Text
  pub expires_at : ℕ

pub record Counter : Type 0 where
  pub key : Text
  pub value : ℕ
  pub expires_at : ℕ

pub record Redis : Type 0 where
  pub marks : List Mark
  pub counters : List Counter

abbrev pub is_live_mark : ℕ → Text → Mark → Bool
is_live_mark now key m = same m.key key && ltb now m.expires_at

-- SET key "1" EX seconds NX; whether the answer is OK
unfoldable pub set_nx : ℕ → Text → ℕ → Redis → Bool × Redis
set_nx now key seconds redis = if any (is_live_mark now key) redis.marks then (false, redis) else (
  true,
  record redis { marks = record { key = key; expires_at = now + seconds * 1000 } ∷ redis.marks },
)

abbrev pub is_live_counter : ℕ → Text → Counter → Bool
is_live_counter now key c = same c.key key && ltb now c.expires_at

abbrev pub new_counter : ℕ → Text → ℕ → Counter
new_counter now key seconds = record { key = key; value = 1; expires_at = now + seconds * 1000 }

abbrev pub increased : Counter → Counter
increased c = record c { value = c.value + 1 }

-- The counters that are not of the key: a dead one of the key is replaced.
abbrev pub other_counters : Text → List Counter → List Counter
other_counters key counters = select (λ c. not (same c.key key)) counters

abbrev pub counted : ℕ → Text → ℕ → Option Counter → Counter
counted now key seconds none = new_counter now key seconds
counted now key seconds (some c) = increased c

-- MULTI; INCR key; EXPIRE key seconds NX; EXEC. The answer is that of INCR. A counter has its time
-- from its first increase, which the second command then leaves.
unfoldable pub incr_expire : ℕ → Text → ℕ → Redis → ℕ × Redis
incr_expire now key seconds redis =
    let c = counted now key seconds (find (is_live_counter now key) redis.counters) in
    (c.value, record redis { counters = c ∷ other_counters key redis.counters })
