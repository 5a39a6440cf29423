-- ===== src/RateLimit/Window.antt =====
-- The limit holds in each window, whatever other keys are checked in between.
use mathlib.Core.List.{◌++◌}
use mathlib.Core.Path.{subst}
use syrotp.Prelude.{
  ℕ, ◌*◌, ◌+◌, ◌-◌, ◌/◌, ◌≤◌, ◌<◌, ◌≡◌, ◌≢◌, refl, sym, ◌∙◌, ap, Text, chars, decimal, decimal-All,
  decimal-injective, is_digit, same, same_iff, same_refl, Bool, true, false, ◌&&◌, ◌==◌, List, [],
  ◌∷◌, arith, All, any, find, find_sound, ◌⊎◌, drop, Bool-cases, Option-cases, inl, inr, some, none,
  ltb, if◌then◌else◌,
}
use syrotp.Redis.{
  Redis, Counter, incr_expire, is_live_counter, counted, other_counters, increased, new_counter,
}
use syrotp.RateLimit.{bucket, rate_check}

within_window : (w t u : ℕ) → 0 < w → t / 1000 / w ≡ u / 1000 / w → t < u + w * 1000
within_window w t u h e = grind arith

no_colon : (k d e : Text) → All (λ c. is_digit c ≡ true) d → d ≢ k ++ (58 ∷ e)
no_colon [] [] e h q = cc
no_colon [] (c ∷ d) e (h, hs) q = absurd (ground arith)
no_colon (x ∷ k) [] e h q = cc
no_colon (x ∷ k) (c ∷ d) e (h, hs) q = no_colon k d e hs (ap (drop 1) q)

colon_split :
    (k k' d d' : Text)
    → All (λ c. is_digit c ≡ true) d
    → All (λ c. is_digit c ≡ true) d'
    → k ++ (58 ∷ d) ≡ k' ++ (58 ∷ d')
    → (k ≡ k') × (d ≡ d')
colon_split [] [] d d' h h' q = (refl, ap (drop 1) q)
colon_split [] (x ∷ k') d d' h h' q = absurd (no_colon k' d d' h (ap (drop 1) q))
colon_split (x ∷ k) [] d d' h h' q = absurd (no_colon k d' d h' (sym (ap (drop 1) q)))
colon_split (x ∷ k) (y ∷ k') d d' h h' q =
    let (a, b) = colon_split k k' d d' h h' (ap (drop 1) q) in (ground arith, b)

abbrev pub window_bucket : Text → ℕ → Text
window_bucket key window = chars "syrotp:rl:" ++ (key ++ (chars ":" ++ decimal window))

bucket_parts : (i j : ℕ) (k k' : Text) → window_bucket k i ≡ window_bucket k' j → (k ≡ k') × (i ≡ j)
bucket_parts i j k k' q =
    let (a, b) =
      colon_split k k' (decimal i) (decimal j) (decimal-All i) (decimal-All j) (ap (drop 10) q) in
    (a, decimal-injective i j b)

pub record Check : Type 0 where
  pub key : Text
  pub limit : ℕ
  pub now : ℕ

abbrev pub in_window : Text → ℕ → ℕ → Check → Bool
in_window key w window c = same c.key key && (c.now / 1000 / w == window)

-- How many checks of the key are allowed in one window, of a sequence of checks
unfoldable pub allowed_in : Text → ℕ → ℕ → List Check → Redis → ℕ
allowed_in key w window [] redis = 0
allowed_in key w window (c ∷ cs) redis =
    let (answer, redis') = rate_check true c.now c.key c.limit w redis in
    (if in_window key w window c && answer.allowed then 1 else 0)
    + allowed_in key w window cs redis'

abbrev pub has_key : Text → Counter → Bool
has_key b c = same c.key b

-- What the counters hold of one bucket: none of it, or one with this value that outlives the window
abbrev Counted : Text → ℕ → ℕ → ℕ → List Counter → Type 0
Counted b w window v cs =
    ((v ≡ 0) × (any (has_key b) cs ≡ false))
    ⊎ ((c : Counter) × (find (has_key b) cs ≡ some c)
        × (c.value ≡ v)
        × ((u : ℕ) → u / 1000 / w ≡ window → u < c.expires_at))

find_live :
    (now : ℕ) (b : Text) (cs : List Counter) (c : Counter)
    → find (has_key b) cs ≡ some c
    → now < c.expires_at
    → find (is_live_counter now b) cs ≡ some c
find_live now b [] c e h = cc
find_live now b (x ∷ cs) c e h = elim (Bool-cases (has_key b x)) [
  | inl hit ↦
      let first : x ≡ c = ground arith in
      let in_time : ltb now x.expires_at ≡ true = rw first (ground (arith, h)) in
      rw (hit, in_time) (ap some first)
  | inr miss ↦ rw miss (find_live now b cs c (rw miss at e) h)
]

none_live :
    (now : ℕ) (b : Text) (cs : List Counter)
    → any (has_key b) cs ≡ false
    → find (is_live_counter now b) cs ≡ none
none_live now b [] e = refl
none_live now b (x ∷ cs) e = ground (arith, none_live now b cs)

find-other :
    (b k : Text) (cs : List Counter)
    → same k b ≡ false
    → find (has_key b) (other_counters k cs) ≡ find (has_key b) cs
find-other b k [] n = refl
find-other b k (x ∷ cs) n = elim (Bool-cases (same x.key k)) [
  | inl y ↦
      let miss : has_key b x ≡ false = rw ((same_iff x.key k).0 y) n in
      rw (y, miss) (find-other b k cs n)
  | inr z ↦
      rw z
        (elim (Bool-cases (has_key b x)) [ inl y ↦ rw y refl | inr m ↦ rw m (find-other b k cs n) ])
]

any-other :
    (b k : Text) (cs : List Counter)
    → any (has_key b) cs ≡ false
    → any (has_key b) (other_counters k cs) ≡ false
any-other b k [] e = refl
any-other b k (x ∷ cs) e = ground (arith, any-other b k cs)

counted-key :
    (now : ℕ) (k : Text) (w : ℕ) (cs : List Counter)
    → (counted now k w (find (is_live_counter now k) cs)).key ≡ k
counted-key now k w cs = elim (Option-cases (find (is_live_counter now k) cs)) [
  | inl n ↦ rw n refl
  | inr (c, e) ↦
      rw e
        ((same_iff c.key k).0 (let hit = find_sound (is_live_counter now k) cs e in ground arith))
]

-- A check of another bucket leaves this one alone.
other_check :
    (b : Text) (w window v now : ℕ) (k : Text) (cs : List Counter)
    → same k b ≡ false
    → Counted b w window v cs
    → Counted b w window v (counted now k w (find (is_live_counter now k) cs) ∷ other_counters k cs)
other_check b w window v now k cs n h =
    let miss : has_key b (counted now k w (find (is_live_counter now k) cs)) ≡ false =
      rw (counted-key now k w cs) n in
    elim h [
      | inl (z, absent) ↦ inl (z, rw miss (any-other b k cs absent))
      | inr (c, found, value, alive) ↦ inr (c, rw (miss, find-other b k cs n) found, value, alive)
    ]

-- A check of the bucket counts one more.
own_check :
    (b : Text) (w window v now : ℕ) (cs : List Counter)
    → 0 < w
    → now / 1000 / w ≡ window
    → Counted b w window v cs
    → ((counted now b w (find (is_live_counter now b) cs)).value ≡ v + 1)
      × Counted b w window
          (v + 1)
          (counted now b w (find (is_live_counter now b) cs) ∷ other_counters b cs)
own_check b w window v now cs pos at_window (inl (z, absent)) = rw (none_live now b cs absent) (
  omega (arith, z),
  inr (
    new_counter now b w,
    rw (same_refl b) refl,
    omega (arith, z),
    λ u e. within_window w u now pos (e ∙ sym at_window),
  ),
)
own_check b w window v now cs pos at_window (inr (c, found, value, alive)) =
    rw (find_live now b cs c found (alive now at_window)) (
      omega (arith, value),
      inr (increased c, rw (find_sound (has_key b) cs found) refl, omega (arith, value), alive),
    )

limit_from :
    (key : Text) (w window most : ℕ) (cs : List Check) (redis : Redis) (v : ℕ)
    → 0 < w
    → All (λ c. in_window key w window c ≡ true → c.limit ≡ most) cs
    → Counted (window_bucket key window) w window v redis.counters
    → allowed_in key w window cs redis ≤ most - v
unfolding allowed_in rate_check incr_expire
limit_from key w window most [] redis v pos limits held = omega arith
limit_from key w window most (c ∷ cs) redis v pos (l, limits) held =
    let k = bucket c.key w c.now in
    elim (Bool-cases (in_window key w window c)) [
      | inl y ↦
          let at_window : c.now / 1000 / w ≡ window = ground arith in
          let own : k ≡ window_bucket key window =
            rw ((same_iff c.key key).0 (ground arith), at_window) refl in
          let (value, next) =
            own_check k w window v c.now redis.counters pos at_window (rw own held) in
          let rest =
            limit_from key w window most cs (rate_check true c.now c.key c.limit w redis).1 (v + 1)
              pos limits
              (subst
                (λ (b : Text).
                  Counted b w window (v + 1)
                    (rate_check true c.now c.key c.limit w redis).1.counters)
                own next) in
          rw (y, l y) (ground (arith, rest, value))
      | inr n ↦
          let other : same k (window_bucket key window) ≡ false =
            elim (Bool-cases (same k (window_bucket key window))) [
              | inl s ↦
                  let (a, b) =
                    bucket_parts (c.now / 1000 / w) window c.key key
                      ((same_iff k (window_bucket key window)).0 s) in
                  absurd (ground (arith, same_iff c.key key))
              | inr z ↦ z
            ] in
          let rest =
            limit_from key w window most cs (rate_check true c.now c.key c.limit w redis).1 v pos
              limits
              (other_check (window_bucket key window) w window v c.now k redis.counters other
                held) in
          rw n (omega (arith, rest))
    ]

-- Of any sequence of answered checks, in which those of the key in one window have the same limit
-- and nothing of it was counted before, no more than the limit are allowed in that window.
pub rate_check_limit :
    (key : Text) (w window most : ℕ) (cs : List Check) (redis : Redis)
    → 0 < w
    → All (λ c. in_window key w window c ≡ true → c.limit ≡ most) cs
    → any (has_key (window_bucket key window)) redis.counters ≡ false
    → allowed_in key w window cs redis ≤ most
rate_check_limit key w window most cs redis pos limits absent =
    omega (arith, limit_from key w window most cs redis 0 pos limits (inl (refl, absent)))
