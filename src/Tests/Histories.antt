-- ===== src/Tests/Histories.antt =====
-- The life of one verification, from its start to its match and a second delivery.
use syrotp.Prelude.{◌≡◌, refl, chars, same, is_space, trim, trim_start, strip_spaces, find, some}
use syrotp.Errors.{ok}
use syrotp.Schema.{Db, Verification}
use syrotp.Phone.{normalize_phone, mask_phone}
use syrotp.Webhook.{emit_verification_event_in_tx, fan_out, build_verification_event_data}
use syrotp.Extract.{extract, extract_code, extract_bind_nonce}
use syrotp.Verification.{emit_for}
use syrotp.Verification.Hosted.{has_id}
use syrotp.Verification.Start.{
  start_tx, insert_verification, pick_receiver, run_healthy_receiver_query, first_of_order,
}
use syrotp.Matching.{
  set_verified, sender, insert_inbound, claim_tx, process_inbound, match_body, match_code,
  duplicate,
}
use syrotp.History.{Reach, here, next, start, IsConsistent}
use syrotp.History.Consistent.{Reach-IsConsistent, IsNew-IsConsistent}
use syrotp.History.Settled.{IsSettled, Reach-IsSettled}
use syrotp.History.Handlers.{process_inbound-Reach}
use syrotp.History.Unmatched.{Untouched, process_inbound_unmatched}
use syrotp.History.Redelivery.{redelivered}
use syrotp.History.Sound.{Verified, process_inbound_sound}
use syrotp.Tests.{
  sample_runtime, new_db, started_db, started_row, start_input, sample_code, picked_receiver,
  numbered, answer,
}

started : Reach sample_runtime new_db started_db
unfolding start_tx insert_verification pick_receiver run_healthy_receiver_query first_of_order same
started = next here (start (chars "vrf_1") 1000 start_input sample_code picked_receiver refl)

new_db-IsConsistent : IsConsistent 3 new_db
new_db-IsConsistent = IsNew-IsConsistent 3 new_db (refl, refl)

Reach-IsConsistent_example : IsConsistent 3 started_db
Reach-IsConsistent_example =
    Reach-IsConsistent sample_runtime new_db started_db new_db-IsConsistent started

pub started-IsConsistent : IsConsistent 3 started_db
started-IsConsistent =
    Reach-IsConsistent sample_runtime new_db started_db new_db-IsConsistent started

abbrev answered : Db
answered = (process_inbound sample_runtime numbered 2000 answer started_db).0

process_inbound_sound_example :
    Verified sample_runtime 2000 answer (chars "vrf_1") (chars "in_A") started_db answered
unfolding process_inbound match_body match_code sender normalize_phone insert_inbound
    extract_bind_nonce extract_code extract claim_tx emit_for emit_verification_event_in_tx
    build_verification_event_data same is_space trim trim_start strip_spaces fan_out mask_phone
process_inbound_sound_example =
    process_inbound_sound sample_runtime numbered 2000 answer 3 started_db answered (chars "vrf_1")
      (chars "in_A") started-IsConsistent refl

abbrev again : Db
again = (process_inbound sample_runtime numbered 3000 answer answered).0

answered-IsConsistent : IsConsistent 3 answered
answered-IsConsistent =
    Reach-IsConsistent sample_runtime started_db answered started-IsConsistent
      (process_inbound-Reach sample_runtime numbered 2000 answer started_db)

abbrev verified_row : Verification
verified_row = set_verified 2000 (chars "in_A") started_row

answered_row : find (has_id (chars "vrf_1")) answered.verifications ≡ some verified_row
unfolding process_inbound match_body match_code sender normalize_phone insert_inbound
    extract_bind_nonce extract_code extract claim_tx emit_for emit_verification_event_in_tx
    build_verification_event_data same is_space trim trim_start strip_spaces fan_out mask_phone
answered_row = refl

Reach-IsSettled_example : IsSettled (chars "vrf_1") verified_row again
Reach-IsSettled_example =
    Reach-IsSettled sample_runtime (chars "vrf_1") verified_row answered again answered-IsConsistent
      (process_inbound-Reach sample_runtime numbered 3000 answer answered)
      (record { stands = answered_row; ended = refl })

redelivered_example :
    process_inbound sample_runtime numbered 3000 answer answered
    ≡ (answered, ok (duplicate (chars "in_A")))
redelivered_example =
    redelivered sample_runtime numbered numbered 2000 3000 answer answer started_db answered refl
      refl here refl refl

process_inbound_unmatched_example :
    Untouched started_db (process_inbound sample_runtime numbered 700000 answer started_db).0
unfolding process_inbound match_body match_code sender normalize_phone insert_inbound
    extract_bind_nonce extract_code extract claim_tx same is_space trim trim_start strip_spaces
process_inbound_unmatched_example =
    process_inbound_unmatched sample_runtime numbered 700000 answer started_db refl
