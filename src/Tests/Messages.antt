-- ===== src/Tests/Messages.antt =====
-- The texts of messages, and the message of one start.
use syrotp.Prelude.{
  ℕ, ◌≡◌, refl, arith, Text, chars, same, find, trim, trim_start, strip_spaces, is_space, some,
  none,
}
use syrotp.Errors.{ok}
use syrotp.Phone.{normalize_phone, mask_phone}
use syrotp.Extract.{extract, extract_code, extract_bind_nonce}
use syrotp.Verification.{PublicVerification}
use syrotp.Verification.Start.{
  start_verification, run_with_code_collision_retry, retry_from, start_tx, insert_verification,
  pick_receiver, run_healthy_receiver_query, first_of_order,
}
use syrotp.Verification.Hosted.{has_id}
use syrotp.Matching.{MatchInput, sender, process_inbound, verification_matched}
use syrotp.History.Started.{Started, start_verification_sound}
use syrotp.History.Sound.{Answers}
use syrotp.Tests.Histories.{started-IsConsistent}
use syrotp.Schema.{VerificationStatus}
use syrotp.History.Message.{started_message_verifies, IsCode}
use syrotp.History.Complete.{process_inbound_complete}
use syrotp.Tests.{
  sample_runtime, new_db, started_db, started_row, start_input, sample_code, phone, numbered,
  answer,
}

abbrev same_code : ℕ → Text
same_code i = sample_code

abbrev out : PublicVerification
out = record {
  id = chars "vrf_1";
  status = started_row.status;
  phone_masked = mask_phone phone;
  send_to = some (chars "+963990000000");
  message = some (chars "VERIFY A7K9P2");
  client_ref = none;
  purpose = chars "login";
  verified_at = none;
  expires_at = 601000;
  created_at = 1000;
  attempts = 0;
}

started_ok :
    start_verification sample_runtime (chars "1") same_code 1000 start_input new_db
    ≡ ok (out, started_db)
unfolding start_verification run_with_code_collision_retry retry_from start_tx insert_verification
    pick_receiver run_healthy_receiver_query first_of_order same
started_ok = refl

start_verification_sound_example :
    Started sample_runtime same_code 1000 start_input new_db started_db out
start_verification_sound_example =
    start_verification_sound sample_runtime (chars "1") same_code 1000 start_input new_db started_db
      out started_ok

sample_code-IsCode : IsCode sample_code
sample_code-IsCode = record { plain = refl; at_least = omega arith; at_most = omega arith }

abbrev sent : MatchInput
sent = record answer { body = chars "VERIFY A7K9P2" }

sender_of_sent : sender sample_runtime sent.from ≡ phone
unfolding sender normalize_phone trim trim_start is_space
sender_of_sent = refl

stored_row : find (has_id (chars "vrf_1")) started_db.verifications ≡ some started_row
unfolding same
stored_row = refl

started_message_verifies_example :
    (out.send_to ≡ started_row.receiver_msisdn_snapshot)
    × ((process_inbound sample_runtime numbered 2000 sent started_db).1
        ≡ ok (verification_matched (chars "vrf_1") (chars "in_A")))
started_message_verifies_example =
    started_message_verifies sample_runtime (chars "1") same_code 1000 start_input new_db started_db
      out started_row numbered 2000 sent (λ i. sample_code-IsCode) started_ok stored_row refl
      sender_of_sent refl (omega arith) refl refl

sent-Answers : Answers sample_runtime 2000 sent started_row
unfolding extract_code extract_bind_nonce extract trim trim_start strip_spaces is_space sender
    normalize_phone
sent-Answers = record {
  receiver = refl;
  phone = refl;
  code = refl;
  no_binding = refl;
  pending = refl;
  in_time = omega arith;
}

process_inbound_complete_example :
    ((process_inbound sample_runtime numbered 2000 sent started_db).1
      ≡ ok (verification_matched (chars "vrf_1") (chars "in_A")))
    × (find
          (has_id (chars "vrf_1"))
          (process_inbound sample_runtime numbered 2000 sent started_db).0.verifications
        ≡ some (record started_row {
          status = VerificationStatus.verified;
          verified_at = some 2000;
          matched_inbound_id = some (chars "in_A");
          attempts = 1;
        }))
process_inbound_complete_example =
    process_inbound_complete sample_runtime numbered 2000 sent 3 started_db started_row
      started-IsConsistent stored_row sent-Answers refl refl
