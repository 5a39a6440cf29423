-- ===== src/Controller/Callbacks.antt =====
-- Which calls the page's functions get, over any list of events.
use mathlib.Core.List.{append_assoc}
use syrotp.Prelude.{
  ℕ, ◌-◌, ◌≡◌, refl, ap, sym, ◌∙◌, true, false, List, [], ◌∷◌, ◌++◌, arith, if◌then◌else◌,
  Bool-cases, inl, inr,
}
use syrotp.Schema.{VerificationStatus}
use syrotp.Controller.{
  Verification, VerificationController, Callback, on_change, on_verified, on_expired, on_cancelled,
  on_error, Event, Reply, start_call, stop_call, poll_fires, tick_fires, reply_comes, response,
  bad_status, failed, aborted, same_status, new_controller, handle, run, stop, transition, on_body,
  StatusResponse, merged, on_countdown_tick, on_reply,
}

-- The calls that end a verification, out of all
abbrev pub endings : List Callback → List Callback
endings [] = []
endings (on_verified v ∷ cs) = on_verified v ∷ endings cs
endings (on_expired v ∷ cs) = on_expired v ∷ endings cs
endings (on_cancelled v ∷ cs) = on_cancelled v ∷ endings cs
endings (on_change v left ∷ cs) = endings cs
endings (on_error ∷ cs) = endings cs

-- What the page is to be told of a verification that is no longer pending
abbrev pub ending_of : Verification → VerificationStatus → List Callback
ending_of v VerificationStatus.verified = on_verified v ∷ []
ending_of v VerificationStatus.expired = on_expired v ∷ []
ending_of v VerificationStatus.cancelled = on_cancelled v ∷ []
ending_of v VerificationStatus.pending = []
ending_of v VerificationStatus.failed = []

-- The calls that the states shown by `on_change` ask for, after a state of status `prev`: one at
-- each change from pending to verified, expired or cancelled
abbrev pub due : VerificationStatus → List Callback → List Callback
due prev [] = []
due prev (on_change v left ∷ cs) =
    (if same_status prev VerificationStatus.pending then ending_of v v.status else [])
    ++ due v.status cs
due prev (on_verified v ∷ cs) = due prev cs
due prev (on_expired v ∷ cs) = due prev cs
due prev (on_cancelled v ∷ cs) = due prev cs
due prev (on_error ∷ cs) = due prev cs

-- The status that was shown last
abbrev pub shown : VerificationStatus → List Callback → VerificationStatus
shown prev [] = prev
shown prev (on_change v left ∷ cs) = shown v.status cs
shown prev (on_verified v ∷ cs) = shown prev cs
shown prev (on_expired v ∷ cs) = shown prev cs
shown prev (on_cancelled v ∷ cs) = shown prev cs
shown prev (on_error ∷ cs) = shown prev cs

endings-append : (xs ys : List Callback) → endings (xs ++ ys) ≡ endings xs ++ endings ys
endings-append [] ys = refl
endings-append (on_verified v ∷ xs) ys = ap (λ cs. on_verified v ∷ cs) (endings-append xs ys)
endings-append (on_expired v ∷ xs) ys = ap (λ cs. on_expired v ∷ cs) (endings-append xs ys)
endings-append (on_cancelled v ∷ xs) ys = ap (λ cs. on_cancelled v ∷ cs) (endings-append xs ys)
endings-append (on_change v left ∷ xs) ys = endings-append xs ys
endings-append (on_error ∷ xs) ys = endings-append xs ys

due-append :
    (prev : VerificationStatus) (xs ys : List Callback)
    → due prev (xs ++ ys) ≡ due prev xs ++ due (shown prev xs) ys
due-append prev [] ys = refl
due-append prev (on_change v left ∷ xs) ys = simp (due-append v.status xs ys, append_assoc)
due-append prev (on_verified v ∷ xs) ys = due-append prev xs ys
due-append prev (on_expired v ∷ xs) ys = due-append prev xs ys
due-append prev (on_cancelled v ∷ xs) ys = due-append prev xs ys
due-append prev (on_error ∷ xs) ys = due-append prev xs ys

pub shown-append :
    (prev : VerificationStatus) (xs ys : List Callback)
    → shown prev (xs ++ ys) ≡ shown (shown prev xs) ys
shown-append prev [] ys = refl
shown-append prev (on_change v left ∷ xs) ys = shown-append v.status xs ys
shown-append prev (on_verified v ∷ xs) ys = shown-append prev xs ys
shown-append prev (on_expired v ∷ xs) ys = shown-append prev xs ys
shown-append prev (on_cancelled v ∷ xs) ys = shown-append prev xs ys
shown-append prev (on_error ∷ xs) ys = shown-append prev xs ys

-- What one event does, as the page sees it
record IsFair (prev : VerificationStatus) (out : VerificationController × List Callback)
    : Type 0 where
  ended : endings out.1 ≡ due prev out.1
  seen : shown prev out.1 ≡ out.0.state.status
  tracked : out.0.prev_status ≡ out.0.state.status

transition-IsFair :
    (next : Verification) (now : ℕ) (c : VerificationController) (prev : VerificationStatus)
    → c.prev_status ≡ prev
    → same_status prev next.status ≡ false
    → IsFair prev (transition next now c)
unfolding transition
transition-IsFair next now c prev e d = ground arith

on_body-IsFair :
    (body : StatusResponse) (now : ℕ) (c : VerificationController)
    → c.prev_status ≡ c.state.status
    → IsFair c.state.status (on_body body now c)
unfolding on_body
on_body-IsFair body now c e = elim (Bool-cases (same_status body.status c.state.status)) [
  | inl y ↦ rw y (ground arith)
  | inr n ↦ rw n (transition-IsFair (merged body c.state) now c c.state.status e (ground arith))
]

on_countdown_tick-IsFair :
    (now : ℕ) (c : VerificationController)
    → c.prev_status ≡ c.state.status
    → IsFair c.state.status (on_countdown_tick now c)
unfolding on_countdown_tick
on_countdown_tick-IsFair now c e = ground arith

on_reply-IsFair :
    (reply : Reply) (now : ℕ) (c : VerificationController)
    → c.prev_status ≡ c.state.status
    → IsFair c.state.status (on_reply reply now c)
unfolding on_reply
on_reply-IsFair (response body) now c e = ground (arith, on_body-IsFair body now c e)
on_reply-IsFair bad_status now c e = ground arith
on_reply-IsFair failed now c e = ground arith
on_reply-IsFair aborted now c e = ground arith

handle-IsFair :
    (e : Event) (c : VerificationController)
    → c.prev_status ≡ c.state.status
    → IsFair c.state.status (handle e c)
unfolding handle
handle-IsFair start_call c h = ground arith
handle-IsFair stop_call c h = ground arith
handle-IsFair poll_fires c h = ground arith
handle-IsFair (tick_fires now) c h = ground (arith, on_countdown_tick-IsFair now c h)
handle-IsFair (reply_comes reply now) c h =
    ground (arith, on_reply-IsFair reply now (record c { requests = c.requests - 1 }) h)

run-IsFair :
    (es : List Event) (c : VerificationController)
    → c.prev_status ≡ c.state.status
    → IsFair c.state.status (run es c)
unfolding run
run-IsFair [] c h = record { ended = refl; seen = refl; tracked = h }
run-IsFair (e ∷ es) c h =
    let now = handle-IsFair e c h in
    let next = handle e c in
    let rest = run-IsFair es next.0 now.tracked in
    let calls = (run es next.0).1 in
    record {
      ended =
          endings-append next.1 calls
          ∙ ap (λ cs. endings next.1 ++ cs) rest.ended
          ∙ (rw (now.ended, ← now.seen) (sym (due-append c.state.status next.1 calls)));
      seen = rw (shown-append c.state.status next.1 calls, now.seen) rest.seen;
      tracked = rest.tracked;
    }

-- Whatever events come in whatever order, the page is told that a verification was verified, has
-- expired or was cancelled once for each change from pending to that status among the states that
-- it was shown, in their order, and otherwise never; and the status shown last is the controller's.
pub run-endings :
    (es : List Event) (v : Verification) (now : ℕ)
    → let out = run es (new_controller v now) in
      (endings out.1 ≡ due v.status out.1) × (shown v.status out.1 ≡ out.0.state.status)
unfolding new_controller
run-endings es v now =
    let fair = run-IsFair es (new_controller v now) refl in (fair.ended, fair.seen)

handle_stopped :
    (e : Event) (c : VerificationController)
    → c.stopped ≡ true
    → c.tick_timer ≡ false
    → ((handle e c).1 ≡ [])
      × ((handle e c).0.state ≡ c.state)
      × ((handle e c).0.stopped ≡ true)
      × ((handle e c).0.tick_timer ≡ false)
unfolding handle
handle_stopped start_call c s t = ground arith
handle_stopped stop_call c s t = ground arith
handle_stopped poll_fires c s t = ground arith
handle_stopped (tick_fires now) c s t = ground arith
handle_stopped (reply_comes (response body) now) c s t = ground arith
handle_stopped (reply_comes bad_status now) c s t = ground arith
handle_stopped (reply_comes failed now) c s t = ground arith
handle_stopped (reply_comes aborted now) c s t = ground arith

run_stopped :
    (es : List Event) (c : VerificationController)
    → c.stopped ≡ true
    → c.tick_timer ≡ false
    → ((run es c).1 ≡ []) × ((run es c).0.state ≡ c.state)
unfolding run
run_stopped [] c s t = (refl, refl)
run_stopped (e ∷ es) c s t =
    let (calls, kept, stopped, off) = handle_stopped e c s t in
    let (later, state) = run_stopped es (handle e c).0 stopped off in (rw calls later, state ∙ kept)

-- After a `stop` nothing is called again, whatever comes later, a second `start` and the answers to
-- polls that were under way included, and the state shown stays.
pub quiet_after_stop :
    (es : List Event) (c : VerificationController)
    → ((run es (stop c).0).1 ≡ []) × ((run es (stop c).0).0.state ≡ c.state)
unfolding stop
quiet_after_stop es c = run_stopped es (stop c).0 refl refl
