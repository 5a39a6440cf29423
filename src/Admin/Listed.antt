-- ===== src/Admin/Listed.antt =====
-- apps/server/src/admin/receivers.ts: the list of the receivers, and how healthy it shows them.
use syrotp.Prelude.{
  ℕ, ◌+◌, ◌-◌, ◌*◌, ◌/◌, ◌≡◌, ◌↔◌, ◌⊎◌, inl, inr, refl, Text, same, same_refl, select, Bool, true,
  false, ◌&&◌, List, [], ◌∷◌, Option, none, some, ltb, leb, if◌then◌else◌, arith, Bool-cases,
}
use syrotp.Schema.{Db, App, Receiver}
use syrotp.Runtime.{Config}
use syrotp.Verification.Start.{is_healthy, is_fresh}

-- `Math.floor((now - at) / 1000)`
pub data Seconds : Type 0 where
  ago : ℕ → Seconds
  ahead : ℕ → Seconds

abbrev pub seconds_since : ℕ → ℕ → Seconds
seconds_since now at =
    if leb at now then ago ((now - at) / 1000) else ahead ((at - now + 999) / 1000)

pub record ReceiverRecord : Type 0 where
  pub id : Text
  pub app_id : Text
  pub app_name : Text
  pub name : Text
  pub operator : Option Text
  pub msisdn : Text
  pub enabled : Bool
  pub last_heartbeat_at : Option ℕ
  pub last_heartbeat_ago_seconds : Option Seconds
  pub healthy : Bool
  pub created_at : ℕ

pub record ListReceiversOptions : Type 0 where
  pub app_id : Option Text
  pub include_disabled : Bool

-- The empty string is no condition.
abbrev pub is_of_wanted : Option Text → Receiver → Bool
is_of_wanted none r = true
is_of_wanted (some []) r = true
is_of_wanted (some (c ∷ s)) r = same r.app_id (c ∷ s)

abbrev pub is_listed : ListReceiversOptions → Receiver → Bool
is_listed opts r = is_of_wanted opts.app_id r && (if opts.include_disabled then true else r.enabled)

abbrev pub since : ℕ → Option ℕ → Option Seconds
since now none = none
since now (some at) = some (seconds_since now at)

abbrev pub is_beating : Config → ℕ → Option ℕ → Bool
is_beating config now none = false
is_beating config now (some at) = leb now (at + config.receiver_heartbeat_timeout_seconds * 1000)

unfoldable pub to_record : Config → ℕ → App → Receiver → ReceiverRecord
to_record config now app r = record {
  id = r.id;
  app_id = r.app_id;
  app_name = app.name;
  name = r.name;
  operator = r.operator;
  msisdn = r.msisdn;
  enabled = r.enabled;
  last_heartbeat_at = r.last_heartbeat_at;
  last_heartbeat_ago_seconds = since now r.last_heartbeat_at;
  healthy = r.enabled && is_beating config now r.last_heartbeat_at;
  created_at = r.created_at;
}

-- ORDER BY created_at DESC; rows of one time stay in their order.
abbrev pub insert_newest : ReceiverRecord → List ReceiverRecord → List ReceiverRecord
insert_newest r [] = r ∷ []
insert_newest r (s ∷ rows) =
    if ltb r.created_at s.created_at then s ∷ insert_newest r rows else r ∷ s ∷ rows

-- The rows of the join with the receiver's app, in that order
unfoldable pub joined_apps :
    Config → ℕ → Receiver → List App → List ReceiverRecord → List ReceiverRecord
unfolding to_record
joined_apps config now r [] rows = rows
joined_apps config now r (a ∷ apps) rows =
    let rest = joined_apps config now r apps rows in
    if same a.id r.app_id then insert_newest (to_record config now a r) rest else rest

unfoldable pub listed : Config → ℕ → List App → List Receiver → List ReceiverRecord
unfolding joined_apps
listed config now apps [] = []
listed config now apps (r ∷ rs) = joined_apps config now r apps (listed config now apps rs)

unfoldable pub list_receivers : Config → ℕ → ListReceiversOptions → Db → List ReceiverRecord
unfolding listed
list_receivers config now opts db = listed config now db.apps (select (is_listed opts) db.receivers)

abbrev Beats : Config → ℕ → Bool → Option ℕ → Type 0
Beats config now enabled h = ((enabled && is_beating config now h) ≡ true) ↔ (
    ((true && enabled && is_fresh now config.receiver_heartbeat_timeout_seconds h && true) ≡ true)
    ⊎ ((enabled ≡ true)
        × (at : ℕ) × (h ≡ some at)
        × (now ≡ at + config.receiver_heartbeat_timeout_seconds * 1000)
        × ((true && enabled && is_fresh now config.receiver_heartbeat_timeout_seconds h && true)
            ≡ false)))

beats : (config : Config) (now : ℕ) (enabled : Bool) (h : Option ℕ) → Beats config now enabled h
beats config now false h =
    (λ e. cc, λ e. elim e [ inl a ↦ cc | inr b ↦ let (x, at, z, w, u) = b in cc ])
beats config now true none =
    (λ e. cc, λ e. elim e [ inl a ↦ cc | inr b ↦ let (x, at, z, w, u) = b in cc ])
beats config now true (some at) =
    let limit = at + config.receiver_heartbeat_timeout_seconds * 1000 in
    (
      λ e. elim (Bool-cases (ltb now limit)) [
        | inl y ↦ inl (rw y refl)
        | inr n ↦ inr (refl, at, refl, ground arith, rw n refl)
      ],
      λ e. elim e [ inl a ↦ ground arith | inr b ↦ let (x, at', z, w, u) = b in ground arith ],
    )

-- A receiver is shown as healthy exactly where a verification of its app may pick it, where no
-- operator is asked for, or where it is enabled and its last heartbeat is as old as the timeout to
-- the millisecond; then it is shown as healthy and is not picked.
pub healthy_as_picked :
    (config : Config) (now : ℕ) (app : App) (r : Receiver)
    → ((to_record config now app r).healthy ≡ true) ↔ (
        (is_healthy config now r.app_id none r ≡ true)
        ⊎ ((r.enabled ≡ true)
            × (at : ℕ) × (r.last_heartbeat_at ≡ some at)
            × (now ≡ at + config.receiver_heartbeat_timeout_seconds * 1000)
            × (is_healthy config now r.app_id none r ≡ false)))
unfolding to_record
healthy_as_picked config now app r =
    rw (same_refl r.app_id) (beats config now r.enabled r.last_heartbeat_at)
