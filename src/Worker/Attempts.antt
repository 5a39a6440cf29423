-- ===== src/Worker/Attempts.antt =====
-- The life of one delivery: how a response is read, and that six attempts end it.
use syrotp.Prelude.{
  ℕ, ◌+◌, ◌*◌, ◌≤◌, ◌<◌, ◌≡◌, refl, ap, ◌≢◌, ◌⊎◌, inl, inr, Text, length, true, false, List, [],
  ◌∷◌, Option, none, some, leb, if◌then◌else◌, arith, Bool-cases,
}
use syrotp.Schema.{WebhookDelivery, WebhookDeliveryStatus}
use syrotp.Webhook.{next_retry_delay_seconds}
use syrotp.Worker.{
  DeliveryOutcome, delivered, retry, permanent, endpoint_disabled, classify, set_outcome,
  is_pending_delivery, after_retry,
}

-- What an attempt leaves: it is counted, and either the delivery has ended, or fewer than six
-- attempts were made and it waits for the delay of the table.
abbrev pub Attempted : ℕ → ℕ → WebhookDelivery → Type 0
Attempted now attempt d =
    (d.attempt_count ≡ attempt)
    × ((is_pending_delivery d.status ≡ false)
        ⊎ ((attempt < 6)
            × (delay : ℕ) × (next_retry_delay_seconds attempt ≡ some delay)
            × (d.next_attempt_at ≡ now + delay * 1000)))

retried :
    (now attempt : ℕ) (status_code : Option ℕ) (message : Text) (delay : Option ℕ)
    (d : WebhookDelivery)
    → next_retry_delay_seconds attempt ≡ delay
    → Attempted now attempt (after_retry now attempt status_code message delay d)
retried now attempt status_code message none d e = (refl, inl refl)
retried now attempt status_code message (some delay) d e = elim (Bool-cases (leb 6 attempt)) [
  | inl y ↦ rw y (refl, inl refl)
  | inr n ↦ rw n (refl, inr (ground arith, delay, e, refl))
]

-- Whatever the outcome of an attempt, it is counted; the delivery then has ended, or fewer than six
-- attempts were made and it waits for the delay of the retry table.
pub set_outcome-Attempted :
    (now attempt : ℕ) (o : DeliveryOutcome) (d : WebhookDelivery)
    → Attempted now attempt (set_outcome now attempt o d)
unfolding set_outcome
set_outcome-Attempted now attempt (delivered s) d = (refl, inl refl)
set_outcome-Attempted now attempt endpoint_disabled d = (refl, inl refl)
set_outcome-Attempted now attempt (permanent r s m) d = (refl, inl refl)
set_outcome-Attempted now attempt (retry r s m) d =
    retried now attempt s m (next_retry_delay_seconds attempt) d refl

-- The life of one row under successive attempts, each with its time: only a pending row is tried.
pub run_attempts : List (ℕ × DeliveryOutcome) → WebhookDelivery → WebhookDelivery
run_attempts [] d = d
run_attempts ((now, o) ∷ os) d =
    run_attempts os
      (if is_pending_delivery d.status then set_outcome now (d.attempt_count + 1) o d else d)

run_attempts_ended :
    (os : List (ℕ × DeliveryOutcome)) (d : WebhookDelivery)
    → is_pending_delivery d.status ≡ false
    → run_attempts os d ≡ d
unfolding run_attempts
run_attempts_ended [] d h = refl
run_attempts_ended ((now, o) ∷ os) d h = rw h (run_attempts_ended os d h)

run_attempts_step :
    (now : ℕ) (o : DeliveryOutcome) (os : List (ℕ × DeliveryOutcome)) (d : WebhookDelivery)
    → is_pending_delivery d.status ≡ true
    → run_attempts ((now, o) ∷ os) d ≡ run_attempts os (set_outcome now (d.attempt_count + 1) o d)
unfolding run_attempts
run_attempts_step now o os d h = rw h

six_from :
    (os : List (ℕ × DeliveryOutcome)) (d : WebhookDelivery)
    → is_pending_delivery d.status ≡ true
    → d.attempt_count < 6
    → 6 ≤ d.attempt_count + length os
    → (is_pending_delivery (run_attempts os d).status ≡ false)
      × ((run_attempts os d).attempt_count ≤ 6)
six_from [] d h lt enough = absurd (omega arith)
six_from ((now, o) ∷ os) d h lt enough =
    let d' = set_outcome now (d.attempt_count + 1) o d in
    rw (run_attempts_step now o os d h)
      (go d' (set_outcome-Attempted now (d.attempt_count + 1) o d) (λ p a b. six_from os d' p a b))
  where
    End : WebhookDelivery → Type 0
    End e =
        (is_pending_delivery (run_attempts os e).status ≡ false)
        × ((run_attempts os e).attempt_count ≤ 6)

    go :
        (e : WebhookDelivery)
        → Attempted now (d.attempt_count + 1) e
        → (is_pending_delivery e.status ≡ true
            → e.attempt_count < 6
            → 6 ≤ e.attempt_count + length os
            → End e)
        → End e
    go e (counted, inl ended) ih =
        rw (run_attempts_ended os e ended) (ended, omega (arith, counted))
    go e (counted, inr (few, _, _, _)) ih = elim (Bool-cases (is_pending_delivery e.status)) [
      | inl p ↦ ih p (omega (arith, counted, few)) (omega (arith, counted, enough))
      | inr ended ↦ rw (run_attempts_ended os e ended) (ended, omega (arith, counted))
    ]

-- A new delivery has ended after any six attempts or more, whatever their outcomes, and no more
-- than six of them were made.
pub six_attempts :
    (os : List (ℕ × DeliveryOutcome)) (d : WebhookDelivery)
    → d.status ≡ WebhookDeliveryStatus.pending
    → d.attempt_count ≡ 0
    → 6 ≤ length os
    → (is_pending_delivery (run_attempts os d).status ≡ false)
      × ((run_attempts os d).attempt_count ≤ 6)
six_attempts os d p z h =
    six_from os d (ap is_pending_delivery p) (omega (arith, z)) (omega (arith, z, h))

-- What the tests on the status sort it into
abbrev pub Sorted : ℕ → DeliveryOutcome → Type 0
Sorted s (delivered t) = (200 ≤ s) × (s < 300) × (t ≡ s)
Sorted s (retry r t m) = ((s ≡ 429) ⊎ ((500 ≤ s) × (s < 600))) × (t ≡ some s)
Sorted s (permanent r t m) = ((s < 200) ⊎ ((300 ≤ s) × (s < 500) × (s ≢ 429)) ⊎ (600 ≤ s)) × (t ≡ s)
Sorted s endpoint_disabled = ⊥

-- A response counts as delivered exactly for 2xx, is tried again exactly for 429 and 5xx, and
-- fails for good for all else; the outcome keeps the status.
pub classify-Sorted : (s : ℕ) → Sorted s (classify s)
unfolding classify
classify-Sorted s = ground arith
