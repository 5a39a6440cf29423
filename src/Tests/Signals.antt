-- ===== src/Tests/Signals.antt =====
-- The counts of an app at a database with one verification, its phone's bindings and no message.
use syrotp.Prelude.{◌≡◌, chars, same, ◌&&◌, count, ltb}
use syrotp.Abuse.{count_apps, is_recent, is_failed, is_waiting, is_unmatched}
use syrotp.Abuse.Tally.{counts_of}
use syrotp.Abuse.Exact.{arrivals, count_apps_exact}
use syrotp.Tests.{started_db}

count_apps_exact_example :
    let r = counts_of (chars "app_1") (count_apps 2000 started_db) in
    let a = chars "app_1" in
    (r.total_verifications
      ≡ count (λ v. is_recent 2000 v.created_at && same v.app_id a) started_db.verifications)
    × (r.failed_verifications
        ≡ count
            (λ v. is_recent 2000 v.created_at && (same v.app_id a && is_failed v.status))
            started_db.verifications)
    × (r.total_inbounds
        ≡ arrivals a started_db.receivers
            (λ i. is_recent 2000 i.received_at)
            started_db.inbound_sms)
    × (r.unmatched_inbounds
        ≡ arrivals a started_db.receivers
            (λ i. is_recent 2000 i.received_at && is_unmatched i)
            started_db.inbound_sms)
    × (r.total_bindings
        ≡ count (λ b. is_recent 2000 b.created_at && same b.app_id a) started_db.phone_bindings)
    × (r.expired_bindings
        ≡ count
            (λ b.
              is_recent 2000 b.created_at
              && (same b.app_id a && (is_waiting b.status && ltb b.expires_at 2000)))
            started_db.phone_bindings)
count_apps_exact_example = count_apps_exact (chars "app_1") 2000 started_db
