-- ===== src/Abuse.antt =====
-- apps/server/src/services/abuseSignals.ts: what the health of an app over the last hour is counted
-- from. The rates and the score, which are floating point numbers, and the sorting are left out.
pub mod Tally
pub mod Exact
use syrotp.Prelude.{
  ℕ, ◌+◌, ◌*◌, ◌-◌, Text, chars, same, same_iff, Bool, true, false, ◌&&◌, List, [], ◌∷◌, ◌++◌,
  Option, none, some, select, map, find, ltb, if◌then◌else◌,
}
use syrotp.Schema.{
  Db, Verification, VerificationStatus, InboundSms, Receiver, PhoneBinding, PhoneBindingStatus,
}

-- A group of an aggregate: how many rows it has, and how many of them count as bad
pub record Group : Type 0 where
  pub app_id : Text
  pub receiver_id : Text
  pub total : ℕ
  pub bad : ℕ

-- A row of the table as an aggregate reads it
pub record Sample : Type 0 where
  pub app_id : Text
  pub receiver_id : Text
  pub is_bad : Bool

abbrev pub in_group : Sample → Group → Bool
in_group s g = same g.app_id s.app_id && same g.receiver_id s.receiver_id

abbrev pub weight : Bool → ℕ
weight b = if b then 1 else 0

-- GROUP BY app_id, receiver_id, with count(*) and a filtered count
unfoldable pub add_sample : Sample → List Group → List Group
add_sample s [] =
    record { app_id = s.app_id; receiver_id = s.receiver_id; total = 1; bad = weight s.is_bad } ∷ []
add_sample s (g ∷ groups) =
    if in_group s g
    then record g { total = g.total + 1; bad = g.bad + weight s.is_bad } ∷ groups
    else g ∷ add_sample s groups

unfoldable pub group_by : List Sample → List Group
unfolding add_sample
group_by [] = []
group_by (s ∷ samples) = add_sample s (group_by samples)

-- `x > now() - interval '1 hour'`
abbrev pub is_recent : (now time : ℕ) → Bool
is_recent now time = ltb now (time + 3600000)

abbrev pub is_failed : VerificationStatus → Bool
is_failed VerificationStatus.failed = true
is_failed VerificationStatus.pending = false
is_failed VerificationStatus.verified = false
is_failed VerificationStatus.expired = false
is_failed VerificationStatus.cancelled = false

abbrev pub is_waiting : PhoneBindingStatus → Bool
is_waiting PhoneBindingStatus.pending = true
is_waiting PhoneBindingStatus.verified = false
is_waiting PhoneBindingStatus.revoked = false

-- A verification or binding belongs to no receiver's group.
abbrev pub verification_samples : ℕ → Db → List Sample
verification_samples now db =
    map (λ v. record { app_id = v.app_id; receiver_id = []; is_bad = is_failed v.status })
      (select (λ v. is_recent now v.created_at) db.verifications)

abbrev pub is_unmatched : InboundSms → Bool
is_unmatched i = elim i.matched_verification_id [ none ↦ true | some id ↦ false ]

-- JOIN receivers r ON r.id = i.receiver_id
abbrev pub joined : List Receiver → List InboundSms → List Sample
joined receivers [] = []
joined receivers (i ∷ rows) =
    map (λ r. record { app_id = r.app_id; receiver_id = i.receiver_id; is_bad = is_unmatched i })
      (select (λ r. same r.id i.receiver_id) receivers)
    ++ joined receivers rows

abbrev pub inbound_samples : ℕ → Db → List Sample
inbound_samples now db =
    joined db.receivers (select (λ i. is_recent now i.received_at) db.inbound_sms)

abbrev pub binding_samples : ℕ → Db → List Sample
binding_samples now db =
    map
      (λ b. record {
        app_id = b.app_id;
        receiver_id = [];
        is_bad = is_waiting b.status && ltb b.expires_at now;
      })
      (select (λ b. is_recent now b.created_at) db.phone_bindings)

-- The counts of an `AppHealthRow`
pub record Counts : Type 0 where
  pub app_id : Text
  pub total_verifications : ℕ
  pub failed_verifications : ℕ
  pub total_inbounds : ℕ
  pub unmatched_inbounds : ℕ
  pub total_bindings : ℕ
  pub expired_bindings : ℕ

abbrev pub no_counts : Text → Counts
no_counts app_id = record {
  app_id = app_id;
  total_verifications = 0;
  failed_verifications = 0;
  total_inbounds = 0;
  unmatched_inbounds = 0;
  total_bindings = 0;
  expired_bindings = 0;
}

-- `const r = ensure(appId)`, and what is then done to `r`
unfoldable pub ensure : Text → (Counts → Counts) → List Counts → List Counts
ensure app_id f [] = f (no_counts app_id) ∷ []
ensure app_id f (r ∷ rows) = if same r.app_id app_id then f r ∷ rows else r ∷ ensure app_id f rows

abbrev pub set_verifications : Group → Counts → Counts
set_verifications g r = record r { total_verifications = g.total; failed_verifications = g.bad }

abbrev pub add_inbounds : Group → Counts → Counts
add_inbounds g r = record r {
  total_inbounds = r.total_inbounds + g.total;
  unmatched_inbounds = r.unmatched_inbounds + g.bad;
}

abbrev pub set_bindings : Group → Counts → Counts
set_bindings g r = record r { total_bindings = g.total; expired_bindings = g.bad }

-- One loop over the groups of an aggregate
unfoldable pub merge : (Group → Counts → Counts) → List Group → List Counts → List Counts
unfolding ensure
merge f [] rows = rows
merge f (g ∷ groups) rows = merge f groups (ensure g.app_id (f g) rows)

unfoldable pub count_apps : ℕ → Db → List Counts
unfolding group_by merge
count_apps now db = merge set_bindings (group_by (binding_samples now db)) (
    merge add_inbounds (group_by (inbound_samples now db))
      (merge set_verifications (group_by (verification_samples now db)) []))
