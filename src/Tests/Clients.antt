-- ===== src/Tests/Clients.antt =====
-- The clients of the API at concrete inputs: the controller of a page, the SDK, the command line.
use syrotp.Prelude.{
  ℕ, ◌+◌, ◌/◌, ◌*◌, ◌≤◌, ◌<◌, ◌≡◌, refl, Text, chars, same, true, false, List, [], ◌∷◌, arith, none,
  some, count, or_else, length, All,
}
use syrotp.Schema.{VerificationStatus}
use syrotp.Controller.{
  Verification, StatusResponse, response, failed, start_call, poll_fires, tick_fires, reply_comes,
  Event, new_controller, run, handle, stop,
}
use syrotp.Controller.Callbacks.{endings, due, shown, run-endings, quiet_after_stop}
use syrotp.Controller.Expiry.{expires_alone, revived_is_stuck, is_expiry, is_change}
use syrotp.Sdk.{
  Json, SyrotpClient, SdkResult, Round, answered, wait_interval, wait_for_verification,
}
use syrotp.Sdk.Wait.{wait_for_verification_total, IsAnswer, IsWaiting, IsSpaced}
use syrotp.Cli.{Flag, text, on, parse_flags, parsed, refusal, token}
use syrotp.Cli.Flags.{
  Argument, long, short, switch, separate, joined, word, print_all, ending, parse_flags-print,
}

abbrev shown_verification : Verification
shown_verification = record {
  id = chars "vrf_1";
  status = VerificationStatus.pending;
  send_to = some (chars "+963990000000");
  message = some (chars "VERIFY A7K9P2");
  phone_masked = chars "+96399*****67";
  expires_at = 10000;
  verified_at = none;
}

abbrev still_pending : StatusResponse
still_pending = record {
  status = VerificationStatus.pending;
  expires_at = 10000;
  verified_at = none;
}

abbrev is_verified : StatusResponse
is_verified = record {
  status = VerificationStatus.verified;
  expires_at = 10000;
  verified_at = some 4000;
}

abbrev visit : List Event
visit =
    start_call
    ∷ reply_comes (response still_pending) 100
    ∷ tick_fires 1000
    ∷ poll_fires
    ∷ tick_fires 2000
    ∷ reply_comes (response is_verified) 2600
    ∷ []

abbrev lonely_visit : List Event
lonely_visit = reply_comes failed 300 ∷ tick_fires 1000 ∷ poll_fires ∷ tick_fires 9500 ∷ []

run-endings_example :
    (endings (run visit (new_controller shown_verification 0)).1
      ≡ due VerificationStatus.pending (run visit (new_controller shown_verification 0)).1)
    × (shown VerificationStatus.pending (run visit (new_controller shown_verification 0)).1
        ≡ (run visit (new_controller shown_verification 0)).0.state.status)
run-endings_example = run-endings visit shown_verification 0

quiet_after_stop_example :
    ((run visit (stop (run visit (new_controller shown_verification 0)).0).0).1 ≡ [])
    × ((run visit (stop (run visit (new_controller shown_verification 0)).0).0).0.state
        ≡ (run visit (new_controller shown_verification 0)).0.state)
quiet_after_stop_example =
    quiet_after_stop visit (run visit (new_controller shown_verification 0)).0

expires_alone_example :
    (count is_expiry (run (start_call ∷ lonely_visit) (new_controller shown_verification 0)).1 ≡ 1)
    × ((run (start_call ∷ lonely_visit) (new_controller shown_verification 0)).0.state.status
        ≡ VerificationStatus.expired)
expires_alone_example =
    expires_alone lonely_visit shown_verification 0 refl (tt, (tt, (tt, (tt, tt)))) refl

-- The poll of the start is still under way when the countdown ends.
abbrev slow_visit : List Event
slow_visit = start_call ∷ tick_fires 9500 ∷ []

revived_is_stuck_example :
    let c = (run slow_visit (new_controller shown_verification 0)).0 in
    let out = run lonely_visit (handle (reply_comes (response still_pending) 9600) c).0 in
    (out.0.state.status ≡ VerificationStatus.pending)
    × (count is_change out.1 ≡ 0)
    × (out.0.requests < c.requests)
unfolding run new_controller handle
revived_is_stuck_example =
    revived_is_stuck slow_visit lonely_visit shown_verification 0 9600 still_pending refl refl
      (λ e. absurd (omega (arith, e))) refl (tt, (tt, (tt, (tt, tt))))

-- A `JSON` that reads every text as a status: "p" is pending.
abbrev json : Json Text
json = record {
  parse = λ s. some s;
  stringify = λ fields. [];
  error_of = λ v. some none;
  is_pending = λ v. some (elim v [ [] ↦ false | c ∷ s ↦ true ]);
  empty = [];
}

abbrev client : SyrotpClient
client = record { base_url = chars "https://a.example"; api_key = chars "sk"; user_agent = [] }

abbrev slow_rounds : ℕ → Round
slow_rounds i = record {
  aborted = false;
  fetch = λ r. answered 200 (chars "p");
  took = 100;
  woken = false;
  overslept = i;
}

wait_for_verification_total_example :
    (2000 ≤ wait_interval (some 50))
    × ((out : SdkResult Text × List ℕ) × (wait_for_verification json client
            (chars "vrf_1")
            (or_else (some 5000) 300000 / wait_interval (some 50) + 2)
            (some 50)
            (some 5000)
            slow_rounds
            0
          ≡ some out)
        × (length out.1 * wait_interval (some 50)
            < or_else (some 5000) 300000 + wait_interval (some 50))
        × IsAnswer json client (chars "vrf_1") slow_rounds out.0 (length out.1)
        × ((i : ℕ)
            → Prim.Native.Nat.suc i < length out.1
            → IsWaiting json client (chars "vrf_1") (slow_rounds i))
        × IsSpaced (wait_interval (some 50)) out.1
        × All (λ t. (0 ≤ t) × (t < 0 + or_else (some 5000) 300000)) out.1)
wait_for_verification_total_example =
    wait_for_verification_total json client (chars "vrf_1") (some 50) (some 5000) slow_rounds 0

abbrev url_flag : Flag
url_flag = record { name = chars "url"; value = true; alias = some (chars "u") }

abbrev quiet_flag : Flag
quiet_flag = record { name = chars "quiet"; value = false; alias = none }

abbrev sample_spec : List Flag
sample_spec = url_flag ∷ quiet_flag ∷ []

abbrev sample_arguments : List Argument
sample_arguments =
    separate (short (chars "u") url_flag) (chars "--x")
    ∷ word (chars "list")
    ∷ switch (long quiet_flag)
    ∷ joined (long url_flag) (chars "a=b")
    ∷ []

parse_flags-print_example :
    parse_flags (print_all sample_arguments (ending (some (chars "-q" ∷ [])))) sample_spec
    ≡ parsed
        ((chars "url", text (chars "a=b")) ∷ (chars "quiet", on) ∷ [])
        (chars "list" ∷ chars "-q" ∷ [])
unfolding same
parse_flags-print_example =
    parse_flags-print sample_spec sample_arguments (some (chars "-q" ∷ [])) (
      (((refl, (refl, tt)), refl, refl), refl),
      (
        refl,
        (
          (((refl, (refl, (refl, (refl, (refl, (refl, tt)))))), refl), refl),
          ((((refl, (refl, (refl, (refl, tt)))), refl), refl), tt),
        ),
      ),
    )

-- No flag of that name is given, and yet it is none that is unknown.
constructor_flag :
    parse_flags (chars "--constructor" ∷ []) sample_spec
    ≡ parsed ((chars "constructor", on) ∷ []) []
unfolding parse_flags token same
constructor_flag = refl

unknown_flag :
    parse_flags (chars "list" ∷ chars "--port=1" ∷ []) sample_spec
    ≡ refusal [] (chars "list" ∷ []) (chars "--port=1")
unfolding parse_flags token same
unknown_flag = refl
