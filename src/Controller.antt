-- ===== src/Controller.antt =====
-- packages/web-component/src/controller.ts: the polling controller behind `<syrotp-verification>`,
-- as a machine over the events of its page.
pub mod Callbacks
pub mod Expiry
use syrotp.Prelude.{
  ℕ, ◌-◌, ◌+◌, ◌/◌, Text, Bool, true, false, List, [], ◌∷◌, ◌++◌, Option, none, some, ◌==◌,
  if◌then◌else◌, not, ◌||◌, ◌&&◌,
}
use syrotp.Schema.{VerificationStatus}

pub record Verification : Type 0 where
  pub id : Text
  pub status : VerificationStatus
  pub send_to : Option Text
  pub message : Option Text
  pub phone_masked : Text
  pub expires_at : ℕ
  pub verified_at : Option ℕ

-- The calls of the page's functions, in their order
pub data Callback : Type 0 where
  on_change : Verification → ℕ → Callback
  on_verified on_expired on_cancelled : Verification → Callback
  on_error : Callback

pub record StatusResponse : Type 0 where
  pub status : VerificationStatus
  pub expires_at : ℕ
  pub verified_at : Option ℕ

-- How one `fetch` of the status, or the reading of its body, ends
pub data Reply : Type 0 where
  response : StatusResponse → Reply
  bad_status failed aborted : Reply

-- `poll_timer` and `tick_timer` are whether `pollId` and `tickId` hold a timer. `requests` counts
-- the polls whose `fetch` has not ended.
pub record VerificationController : Type 0 where
  pub state : Verification
  pub seconds_left : ℕ
  pub prev_status : VerificationStatus
  pub poll_timer : Bool
  pub tick_timer : Bool
  pub stopped : Bool
  pub started : Bool
  pub requests : ℕ

abbrev pub same_status : VerificationStatus → VerificationStatus → Bool
same_status VerificationStatus.pending VerificationStatus.pending = true
same_status VerificationStatus.verified VerificationStatus.verified = true
same_status VerificationStatus.expired VerificationStatus.expired = true
same_status VerificationStatus.cancelled VerificationStatus.cancelled = true
same_status VerificationStatus.failed VerificationStatus.failed = true
same_status _ _ = false

abbrev pub is_terminal : VerificationStatus → Bool
is_terminal s = not (same_status s VerificationStatus.pending)

-- A time before `now` gives a difference of zero here, as `Math.max` does there.
abbrev pub compute_seconds_left : (expires_at now : ℕ) → ℕ
compute_seconds_left expires_at now = (expires_at - now) / 1000

unfoldable pub new_controller : Verification → ℕ → VerificationController
new_controller v now = record {
  state = v;
  seconds_left = compute_seconds_left v.expires_at now;
  prev_status = v.status;
  poll_timer = false;
  tick_timer = false;
  stopped = false;
  started = false;
  requests = 0;
}

abbrev pub clear_timers : VerificationController → VerificationController
clear_timers c = record c { poll_timer = false; tick_timer = false }

-- The callback for the end of a pending verification
abbrev pub announce : Verification → VerificationStatus → List Callback
announce next VerificationStatus.verified = on_verified next ∷ []
announce next VerificationStatus.expired = on_expired next ∷ []
announce next VerificationStatus.cancelled = on_cancelled next ∷ []
announce next VerificationStatus.pending = []
announce next VerificationStatus.failed = []

unfoldable pub transition :
    Verification → ℕ → VerificationController → VerificationController × List Callback
transition next now c =
    let left = compute_seconds_left next.expires_at now in
    let moved = record c { state = next; prev_status = next.status; seconds_left = left } in
    let calls =
      if not (same_status c.prev_status next.status)
        && same_status c.prev_status VerificationStatus.pending
      then announce next next.status
      else [] in
    (if is_terminal next.status then clear_timers moved else moved, on_change next left ∷ calls)

-- `poll` up to its `await`
abbrev pub send_poll : VerificationController → VerificationController
send_poll c =
    if c.stopped || is_terminal c.state.status then c else record c { requests = c.requests + 1 }

unfoldable pub start : VerificationController → VerificationController × List Callback
start c =
    if c.started || c.stopped
    then (c, [])
    else let on = record c { started = true } in
      let polled = send_poll (record on { tick_timer = true }) in
      (
        if is_terminal c.state.status then on else record polled { poll_timer = true },
        on_change c.state c.seconds_left ∷ [],
      )

unfoldable pub stop : VerificationController → VerificationController × List Callback
stop c = (clear_timers (record c { stopped = true }), [])

unfoldable pub on_countdown_tick :
    ℕ → VerificationController → VerificationController × List Callback
unfolding transition
on_countdown_tick now c =
    let left = compute_seconds_left c.state.expires_at now in
    let expired = record c.state {
      status = VerificationStatus.expired;
      send_to = none;
      message = none;
    } in
    if is_terminal c.state.status
    then (c, [])
    else if left == 0
    then transition expired now (record c { seconds_left = left })
    else (record c { seconds_left = left }, on_change c.state left ∷ [])

-- What a new status of the server makes of the state
abbrev pub merged : StatusResponse → Verification → Verification
merged body v =
    let open_still = same_status body.status VerificationStatus.pending in
    record v {
      status = body.status;
      expires_at = body.expires_at;
      verified_at = body.verified_at;
      send_to = if open_still then v.send_to else none;
      message = if open_still then v.message else none;
    }

-- The body was read, and the controller is not stopped.
unfoldable pub on_body :
    StatusResponse → ℕ → VerificationController → VerificationController × List Callback
unfolding transition
on_body body now c =
    let left = compute_seconds_left body.expires_at now in
    let later = record c.state { expires_at = body.expires_at } in
    if same_status body.status c.state.status
    then if body.expires_at == c.state.expires_at
      then (c, [])
      else (record c { state = later; seconds_left = left }, on_change later left ∷ [])
    else transition (merged body c.state) now c

-- `poll` after its `await`s
unfoldable pub on_reply :
    Reply → ℕ → VerificationController → VerificationController × List Callback
unfolding on_body
on_reply (response body) now c = if c.stopped then (c, []) else on_body body now c
on_reply bad_status now c = (c, if c.stopped then [] else on_error ∷ [])
on_reply failed now c = (c, if c.stopped then [] else on_error ∷ [])
on_reply aborted now c = (c, [])

-- What happens to the controller. A timer that is cleared does not fire, and only a `fetch` that
-- was sent ends.
pub data Event : Type 0 where
  start_call stop_call poll_fires : Event
  tick_fires : ℕ → Event
  reply_comes : Reply → ℕ → Event

unfoldable pub handle : Event → VerificationController → VerificationController × List Callback
unfolding start stop on_countdown_tick on_reply
handle start_call c = start c
handle stop_call c = stop c
handle poll_fires c = (if c.poll_timer then send_poll c else c, [])
handle (tick_fires now) c = if c.tick_timer then on_countdown_tick now c else (c, [])
handle (reply_comes reply now) c =
    if c.requests == 0 then (c, []) else on_reply reply now (record c { requests = c.requests - 1 })

-- The controller after the events, and all calls on the way
unfoldable pub run : List Event → VerificationController → VerificationController × List Callback
unfolding handle
run [] c = (c, [])
run (e ∷ es) c =
    let (c', calls) = handle e c in let (last, later) = run es c' in (last, calls ++ later)
