-- ===== src/Sdk/Wait.antt =====
-- How long `waitForVerification` waits, and what it answers.
use syrotp.Prelude.{
  ℕ, zero, suc, ◌+◌, ◌*◌, ◌/◌, ◌≤◌, ◌<◌, ◌≡◌, refl, sym, ltb→lt, Text, true, false, arith, Option,
  none, some, or_else, ltb, Bool-cases, ap, length, List, [], ◌∷◌, All, Option-cases, inl, inr, ◌⊎◌,
}
use mathlib.Core.Path.{subst}
use native.Mathlib.Decide.{dec_lt}
use syrotp.Tables.{All-map}
use syrotp.Sdk.{
  SdkError, SdkResult, throws, returns, Json, SyrotpClient, Round, wait_interval, wait_from,
  called_at, wait_for_verification, get_verification,
}

interval_bound : (asked : Option ℕ) → 2000 ≤ wait_interval asked
interval_bound none = omega arith
interval_bound (some ms) = ground arith

quotient_covers : (t w now : ℕ) → 0 < w → now + t ≤ now + (t / w + 1) * w
quotient_covers t w now h = grind arith

SdkResult-cases {ℓ} :
    {A : Type ℓ} (r : SdkResult A) → ((e : SdkError) × (r ≡ throws e)) ⊎ ((a : A) × (r ≡ returns a))
SdkResult-cases (throws e) = inl (e, refl)
SdkResult-cases (returns a) = inr (a, refl)

-- The calls lie an interval or more apart.
abbrev pub IsSpaced : ℕ → List ℕ → Type 0
IsSpaced interval [] = Unit
IsSpaced interval (t ∷ []) = Unit
IsSpaced interval (t ∷ u ∷ times) = (t + interval ≤ u) × IsSpaced interval (u ∷ times)

IsSpaced-cons :
    (interval end now later : ℕ) (times : List ℕ)
    → now + interval ≤ later
    → IsSpaced interval times
    → All (λ t. (later ≤ t) × (t < end)) times
    → IsSpaced interval (now ∷ times)
IsSpaced-cons interval end now later [] apart spaced within = tt
IsSpaced-cons interval end now later (t ∷ times) apart spaced ((at, _), _) = (omega arith, spaced)

module _ {Value : Type 0} (json : Json Value) (c : SyrotpClient) (id : Text) where
  -- The call of one round was answered with a pending verification.
  abbrev pub IsWaiting : Round → Type 0
  IsWaiting r =
      (v : Value) × (get_verification json c id r.fetch ≡ returns v)
      × (json.is_pending v ≡ some true)

  -- What an answer of the wait stands on, after `calls` calls and a time
  abbrev pub IsAnswer : (ℕ → Round) → SdkResult Value → ℕ → Type 0
  IsAnswer rounds (returns v) calls =
      (last : ℕ) × (calls ≡ suc last)
      × (get_verification json c id (rounds last).fetch ≡ returns v)
      × (json.is_pending v ≡ some false)
  IsAnswer rounds (throws e) calls = Unit

  -- What holds of the wait after `calls` calls
  abbrev pub Counted : (ℕ → Round) → ℕ → ℕ → SdkResult Value → ℕ → Type 0
  Counted rounds interval timeout answer calls =
      (calls * interval < timeout + interval)
      × IsAnswer rounds answer calls
      × ((i : ℕ) → suc i < calls → IsWaiting (rounds i))

  abbrev Outcome :
      (ℕ → Round)
      → (interval start timeout now calls : ℕ) → Option (SdkResult Value × List ℕ)
      → Type 0
  Outcome rounds interval start timeout now calls found =
      (out : SdkResult Value × List ℕ) × (found ≡ some out)
      × Counted rounds interval timeout out.0 (calls + length out.1)
      × IsSpaced interval out.1
      × All (λ t. (now ≤ t) × (t < start + timeout)) out.1

  one_more :
      (rounds : ℕ → Round) (calls : ℕ)
      → ((i : ℕ) → i < calls → IsWaiting (rounds i))
      → IsWaiting (rounds calls)
      → (i : ℕ) → i < calls + 1
      → IsWaiting (rounds i)
  one_more rounds calls before last i h = elim (dec_lt i calls) [
    | yes p ↦ before i p
    | no p ↦ let e : i ≡ calls = omega arith in subst (λ (j : ℕ). IsWaiting (rounds j)) (sym e) last
  ]

  module _ (rounds : ℕ → Round) (interval start timeout : ℕ) where
    recount :
        (answer : SdkResult Value) (n m : ℕ)
        → n ≡ m
        → Counted rounds interval timeout answer n
        → Counted rounds interval timeout answer m
    recount answer n m e h = subst (λ (k : ℕ). Counted rounds interval timeout answer k) e h

    no_call :
        (now calls : ℕ) (answer : SdkResult Value)
        → Counted rounds interval timeout answer calls
        → Outcome rounds interval start timeout now calls (some (answer, []))
    no_call now calls answer h =
        ((answer, []), refl, recount answer calls (calls + 0) (omega arith) h, tt, tt)

    last_call :
        (now calls : ℕ) (answer : SdkResult Value)
        → now < start + timeout
        → Counted rounds interval timeout answer (calls + 1)
        → Outcome rounds interval start timeout now calls (some (answer, now ∷ []))
    last_call now calls answer early h =
        ((answer, now ∷ []), refl, h, tt, ((omega arith, early), tt))

    next_call :
        (now later calls : ℕ) (found : Option (SdkResult Value × List ℕ))
        → now < start + timeout
        → now + interval ≤ later
        → Outcome rounds interval start timeout later (calls + 1) found
        → Outcome rounds interval start timeout now calls (called_at now found)
    next_call now later calls found early apart ((answer, times), e, counted, spaced, within) = (
      (answer, now ∷ times),
      ap (called_at now) e,
      recount answer (calls + 1 + length times) (calls + suc (length times)) (omega arith) counted,
      IsSpaced-cons interval (start + timeout) now later times apart spaced within,
      (
        (omega arith, early),
        All-map (λ t. (later ≤ t) × (t < start + timeout)) (λ t. (now ≤ t) × (t < start + timeout))
            times (λ t h. (omega arith, h.1)) within,
      ),
    )

    wait_from_total :
        (fuel now calls : ℕ)
        → start + calls * interval ≤ now
        → calls * interval < timeout + interval
        → start + timeout ≤ now + fuel * interval
        → ((i : ℕ) → i < calls → IsWaiting (rounds i))
        → Outcome rounds interval start timeout now calls
            (wait_from json c id (suc fuel) interval (start + timeout) rounds now calls)
    unfolding wait_from
    wait_from_total zero now calls at few enough waits =
        let late : ltb now (start + timeout) ≡ false = ground arith in
        rw late (no_call now calls _ (few, tt, λ i h. waits i (omega arith)))
    wait_from_total (suc fuel) now calls at few enough waits =
        let r = rounds calls in
        let next : (calls + 1) * interval ≡ calls * interval + interval = grind arith in
        let before : (i : ℕ) → suc i < calls + 1 → IsWaiting (rounds i) =
          λ i h. waits i (omega arith) in
        elim (Bool-cases (ltb now (start + timeout))) [
          | inr late ↦ rw late (no_call now calls _ (few, tt, λ i h. waits i (omega arith)))
          | inl early ↦
              let in_time : now < start + timeout = ltb→lt _ _ early in
              let more : (calls + 1) * interval < timeout + interval =
                omega (arith, next, in_time) in
              rw early (elim (Bool-cases r.aborted) [
                | inl y ↦ rw y (no_call now calls _ (few, tt, λ i h. waits i (omega arith)))
                | inr n ↦ rw n (elim (SdkResult-cases (get_verification json c id r.fetch)) [
                  | inl (e, thrown) ↦ rw thrown (last_call now calls _ in_time (more, tt, before))
                  | inr (v, got) ↦ rw got (elim (Option-cases (json.is_pending v)) [
                    | inl unread ↦ rw unread (last_call now calls _ in_time (more, tt, before))
                    | inr (false, ended) ↦ rw ended (
                        last_call now calls _ in_time
                          (more, (calls, omega arith, got, ended), before))
                    | inr (true, waiting) ↦ rw waiting (elim (Bool-cases r.woken) [
                      | inl y ↦ rw y (last_call now calls _ in_time (more, tt, before))
                      | inr asleep ↦ rw asleep (
                          next_call now (now + r.took + interval + r.overslept) calls _ in_time
                            (omega arith)
                            (wait_from_total fuel (now + r.took + interval + r.overslept)
                              (calls + 1) (omega (arith, next)) more (grind arith)
                              (one_more rounds calls waits (v, got, waiting))))
                    ])
                  ])
                ])
              ])
        ]

  -- The wait ends, with fuel for one call in each interval and two rounds more, however long the
  -- calls and sleeps take. The interval is two seconds or more, whatever was asked for; the calls are
  -- made within the timeout, each of them an interval or more after the one before, so that all but
  -- one of their intervals fit into the timeout. What is returned is the answer to the last call, a
  -- verification that is not pending, and each call before the last was answered with a pending one.
  pub wait_for_verification_total :
      (interval_ms timeout_ms : Option ℕ) (rounds : ℕ → Round) (now : ℕ)
      → let interval = wait_interval interval_ms in
        let timeout = or_else timeout_ms 300000 in
        (2000 ≤ interval)
        × ((out : SdkResult Value × List ℕ) × (wait_for_verification json c id
                (timeout / interval + 2)
                interval_ms
                timeout_ms
                rounds
                now
              ≡ some out)
            × (length out.1 * interval < timeout + interval)
            × IsAnswer rounds out.0 (length out.1)
            × ((i : ℕ) → suc i < length out.1 → IsWaiting (rounds i))
            × IsSpaced interval out.1
            × All (λ t. (now ≤ t) × (t < now + timeout)) out.1)
  unfolding wait_for_verification
  wait_for_verification_total interval_ms timeout_ms rounds now =
      let interval = wait_interval interval_ms in
      let timeout : ℕ = or_else timeout_ms 300000 in
      let long : 2000 ≤ interval = interval_bound interval_ms in
      let fuel : timeout / interval + 2 ≡ suc (timeout / interval + 1) = omega arith in
      let (out, e, counted, spaced, within) =
        wait_from_total rounds interval now timeout (timeout / interval + 1) now 0 (omega arith)
          (omega (arith, long)) (quotient_covers timeout interval now (omega (arith, long)))
          (λ i h. absurd (omega arith)) in
      let (few, answered, waits) =
        recount rounds interval now timeout out.0 (0 + length out.1) (length out.1) (omega arith)
          counted in
      (long, (out, rw fuel e, few, answered, waits, spaced, within))
