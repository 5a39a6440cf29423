-- ===== src/Controller/Expiry.antt =====
-- The countdown of the page: what it does without the server, and what a late answer does to it.
use syrotp.Prelude.{
  ℕ, ◌+◌, ◌≡◌, ◌≢◌, ◌≤◌, ◌<◌, refl, ◌∙◌, Bool, true, false, List, [], ◌∷◌, arith, All, any, count,
  count-append, ltb, Bool-cases, inl, inr,
}
use syrotp.Schema.{VerificationStatus}
use syrotp.Controller.{
  Verification, VerificationController, Callback, on_change, on_verified, on_expired, on_cancelled,
  on_error, Event, Reply, StatusResponse, start_call, stop_call, poll_fires, tick_fires,
  reply_comes, response, bad_status, failed, aborted, new_controller, handle, run, is_terminal,
}

abbrev pub is_expiry : Callback → Bool
is_expiry (on_expired v) = true
is_expiry (on_change v left) = false
is_expiry (on_verified v) = false
is_expiry (on_cancelled v) = false
is_expiry on_error = false

abbrev pub is_change : Callback → Bool
is_change (on_change v left) = true
is_change (on_expired v) = false
is_change (on_verified v) = false
is_change (on_cancelled v) = false
is_change on_error = false

-- A poll that ends without a status
abbrev pub IsLost : Reply → Type 0
IsLost (response body) = ⊥
IsLost bad_status = Unit
IsLost failed = Unit
IsLost aborted = Unit

-- Nothing from the server, and no `stop`
abbrev pub IsSilent : Event → Type 0
IsSilent start_call = Unit
IsSilent stop_call = ⊥
IsSilent poll_fires = Unit
IsSilent (tick_fires now) = Unit
IsSilent (reply_comes reply now) = IsLost reply

-- A tick in the last second or later
abbrev pub is_late : ℕ → Event → Bool
is_late expires_at (tick_fires now) = ltb expires_at (now + 1000)
is_late expires_at start_call = false
is_late expires_at stop_call = false
is_late expires_at poll_fires = false
is_late expires_at (reply_comes reply now) = false

record IsOpen (expires_at : ℕ) (c : VerificationController) : Type 0 where
  waits : c.state.status ≡ VerificationStatus.pending
  waited : c.prev_status ≡ VerificationStatus.pending
  ticks : c.tick_timer ≡ true
  begun : c.started ≡ true
  same_expiry : c.state.expires_at ≡ expires_at

record IsOver (c : VerificationController) : Type 0 where
  over : c.state.status ≡ VerificationStatus.expired
  off : c.tick_timer ≡ false
  begun : c.started ≡ true

handle-IsOpen :
    (expires_at : ℕ) (e : Event) (c : VerificationController)
    → IsOpen expires_at c
    → IsSilent e
    → is_late expires_at e ≡ false
    → (count is_expiry (handle e c).1 ≡ 0) × IsOpen expires_at (handle e c).0
unfolding handle
handle-IsOpen expires_at start_call c h s l = ground arith
handle-IsOpen expires_at stop_call c h s l = absurd s
handle-IsOpen expires_at poll_fires c h s l = ground arith
handle-IsOpen expires_at (tick_fires now) c h s l = ground arith
handle-IsOpen expires_at (reply_comes (response body) now) c h s l = absurd s
handle-IsOpen expires_at (reply_comes bad_status now) c h s l = ground arith
handle-IsOpen expires_at (reply_comes failed now) c h s l = ground arith
handle-IsOpen expires_at (reply_comes aborted now) c h s l = ground arith

handle_late :
    (expires_at : ℕ) (e : Event) (c : VerificationController)
    → IsOpen expires_at c
    → is_late expires_at e ≡ true
    → (count is_expiry (handle e c).1 ≡ 1) × IsOver (handle e c).0
unfolding handle
handle_late expires_at start_call c h l = cc
handle_late expires_at stop_call c h l = cc
handle_late expires_at poll_fires c h l = cc
handle_late expires_at (tick_fires now) c h l = ground arith
handle_late expires_at (reply_comes reply now) c h l = cc

handle-IsOver :
    (e : Event) (c : VerificationController)
    → IsOver c
    → IsSilent e
    → (count is_expiry (handle e c).1 ≡ 0) × IsOver (handle e c).0
unfolding handle
handle-IsOver start_call c h s = ground arith
handle-IsOver stop_call c h s = absurd s
handle-IsOver poll_fires c h s = ground arith
handle-IsOver (tick_fires now) c h s = ground arith
handle-IsOver (reply_comes (response body) now) c h s = absurd s
handle-IsOver (reply_comes bad_status now) c h s = ground arith
handle-IsOver (reply_comes failed now) c h s = ground arith
handle-IsOver (reply_comes aborted now) c h s = ground arith

run-IsOver :
    (es : List Event) (c : VerificationController)
    → IsOver c
    → All IsSilent es
    → (count is_expiry (run es c).1 ≡ 0) × IsOver (run es c).0
unfolding run
run-IsOver [] c h s = (refl, h)
run-IsOver (e ∷ es) c h (s, ss) =
    let (none_now, over) = handle-IsOver e c h s in
    let (none_later, last) = run-IsOver es (handle e c).0 over ss in
    (
      count-append is_expiry (handle e c).1 (run es (handle e c).0).1
          ∙ omega (arith, none_now, none_later),
      last,
    )

run_open :
    (expires_at : ℕ) (es : List Event) (c : VerificationController)
    → IsOpen expires_at c
    → All IsSilent es
    → any (is_late expires_at) es ≡ true
    → (count is_expiry (run es c).1 ≡ 1) × IsOver (run es c).0
unfolding run
run_open expires_at [] c h s l = cc
run_open expires_at (e ∷ es) c h (s, ss) l = elim (Bool-cases (is_late expires_at e)) [
  | inl y ↦
      let (one_now, over) = handle_late expires_at e c h y in
      let (none_later, last) = run-IsOver es (handle e c).0 over ss in
      (
        count-append is_expiry (handle e c).1 (run es (handle e c).0).1
            ∙ omega (arith, one_now, none_later),
        last,
      )
  | inr n ↦
      let (none_now, still) = handle-IsOpen expires_at e c h s n in
      let (one_later, last) = run_open expires_at es (handle e c).0 still ss (ground arith) in
      (
        count-append is_expiry (handle e c).1 (run es (handle e c).0).1
            ∙ omega (arith, none_now, one_later),
        last,
      )
]

start-IsOpen :
    (v : Verification) (now : ℕ)
    → v.status ≡ VerificationStatus.pending
    → (count is_expiry (handle start_call (new_controller v now)).1 ≡ 0)
      × IsOpen v.expires_at (handle start_call (new_controller v now)).0
unfolding handle new_controller
start-IsOpen v now p = ground arith

-- Without the server a pending verification still ends on the page: where no poll brings a status
-- and nobody stops the controller, a tick in the last second before the expiry or later makes it
-- expired, which is told once.
pub expires_alone :
    (es : List Event) (v : Verification) (now : ℕ)
    → v.status ≡ VerificationStatus.pending
    → All IsSilent es
    → any (is_late v.expires_at) es ≡ true
    → let out = run (start_call ∷ es) (new_controller v now) in
      (count is_expiry out.1 ≡ 1) × (out.0.state.status ≡ VerificationStatus.expired)
unfolding run
expires_alone es v now p s l =
    let c = new_controller v now in
    let (none_now, opened) = start-IsOpen v now p in
    let (one_later, over) = run_open v.expires_at es (handle start_call c).0 opened s l in
    (
      count-append is_expiry (handle start_call c).1 (run es (handle start_call c).0).1
          ∙ omega (arith, none_now, one_later),
      over.over,
    )

-- The timers run only while the verification is pending, and polls only once it was started.
record IsTimed (c : VerificationController) : Type 0 where
  poll_off : is_terminal c.state.status ≡ true → c.poll_timer ≡ false
  tick_off : is_terminal c.state.status ≡ true → c.tick_timer ≡ false
  poll_begun : c.poll_timer ≡ true → c.started ≡ true
  begun : c.started ≡ false → c.requests ≡ 0

handle-IsTimed : (e : Event) (c : VerificationController) → IsTimed c → IsTimed (handle e c).0
unfolding handle
handle-IsTimed start_call c h = ground arith
handle-IsTimed stop_call c h = ground arith
handle-IsTimed poll_fires c h = ground arith
handle-IsTimed (tick_fires now) c h = ground arith
handle-IsTimed (reply_comes (response body) now) c h = ground arith
handle-IsTimed (reply_comes bad_status now) c h = ground arith
handle-IsTimed (reply_comes failed now) c h = ground arith
handle-IsTimed (reply_comes aborted now) c h = ground arith

run-IsTimed : (es : List Event) (c : VerificationController) → IsTimed c → IsTimed (run es c).0
unfolding run
run-IsTimed [] c h = h
run-IsTimed (e ∷ es) c h = run-IsTimed es (handle e c).0 (handle-IsTimed e c h)

-- Nothing from the server
abbrev pub IsUnanswered : Event → Type 0
IsUnanswered start_call = Unit
IsUnanswered stop_call = Unit
IsUnanswered poll_fires = Unit
IsUnanswered (tick_fires now) = Unit
IsUnanswered (reply_comes reply now) = IsLost reply

record IsStuck (c : VerificationController) : Type 0 where
  waits : c.state.status ≡ VerificationStatus.pending
  no_poll : c.poll_timer ≡ false
  no_tick : c.tick_timer ≡ false
  begun : c.started ≡ true

handle-IsStuck :
    (e : Event) (c : VerificationController)
    → IsStuck c
    → IsUnanswered e
    → (count is_change (handle e c).1 ≡ 0)
      × IsStuck (handle e c).0
      × ((handle e c).0.requests ≤ c.requests)
unfolding handle
handle-IsStuck start_call c h u = ground arith
handle-IsStuck stop_call c h u = ground arith
handle-IsStuck poll_fires c h u = ground arith
handle-IsStuck (tick_fires now) c h u = ground arith
handle-IsStuck (reply_comes (response body) now) c h u = absurd u
handle-IsStuck (reply_comes bad_status now) c h u = ground arith
handle-IsStuck (reply_comes failed now) c h u = ground arith
handle-IsStuck (reply_comes aborted now) c h u = ground arith

run-IsStuck :
    (es : List Event) (c : VerificationController)
    → IsStuck c
    → All IsUnanswered es
    → (count is_change (run es c).1 ≡ 0)
      × IsStuck (run es c).0
      × ((run es c).0.requests ≤ c.requests)
unfolding run
run-IsStuck [] c h u = (refl, h, omega arith)
run-IsStuck (e ∷ es) c h (u, us) =
    let (none_now, still, fewer) = handle-IsStuck e c h u in
    let (none_later, last, fewest) = run-IsStuck es (handle e c).0 still us in
    (
      count-append is_change (handle e c).1 (run es (handle e c).0).1
          ∙ omega (arith, none_now, none_later),
      last,
      omega (arith, fewer, fewest),
    )

new-IsTimed : (v : Verification) (now : ℕ) → IsTimed (new_controller v now)
unfolding new_controller
new-IsTimed v now = ground arith

revived :
    (body : StatusResponse) (now : ℕ) (c : VerificationController)
    → IsTimed c
    → is_terminal c.state.status ≡ true
    → c.stopped ≡ false
    → c.requests ≢ 0
    → body.status ≡ VerificationStatus.pending
    → IsStuck (handle (reply_comes (response body) now) c).0
      × ((handle (reply_comes (response body) now) c).0.requests + 1 ≡ c.requests)
unfolding handle
revived body now c h over going sent open_still = ground arith

-- Where the page's countdown has ended a verification and the answer to a poll that was sent before
-- comes after it and still says pending, the controller is pending again, but its timers are off:
-- no poll is sent any more, and until another answer that was under way comes, nothing that
-- happens, a `start` included, changes the status or shows the page a state.
pub revived_is_stuck :
    (before after : List Event) (v : Verification) (t now : ℕ) (body : StatusResponse)
    → (run before (new_controller v t)).0.state.status ≡ VerificationStatus.expired
    → (run before (new_controller v t)).0.stopped ≡ false
    → (run before (new_controller v t)).0.requests ≢ 0
    → body.status ≡ VerificationStatus.pending
    → All IsUnanswered after
    → let c = (run before (new_controller v t)).0 in
      let out = run after (handle (reply_comes (response body) now) c).0 in
      (out.0.state.status ≡ VerificationStatus.pending)
      × (count is_change out.1 ≡ 0)
      × (out.0.requests < c.requests)
revived_is_stuck before after v t now body over going sent open_still u =
    let c = (run before (new_controller v t)).0 in
    let timed = run-IsTimed before (new_controller v t) (new-IsTimed v t) in
    let (stuck, one_less) = revived body now c timed (rw over refl) going sent open_still in
    let (quiet, last, fewer) =
      run-IsStuck after (handle (reply_comes (response body) now) c).0 stuck u in
    (last.waits, quiet, omega (arith, fewer, one_less))
