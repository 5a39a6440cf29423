-- ===== src/Prelude/Decimal.antt =====
-- `String(n)` of a number, and the value of a text of decimal digits.
use Prim.Native.Nat.{ℕ, zero, suc, ◌+◌, ◌-◌, ◌*◌, ◌/◌, ◌%◌, ◌<◌}
use mathlib.Core.Path.{◌≡◌, ap, sym, ◌∙◌}
use mathlib.Core.Logic.{inl, inr}
use mathlib.Core.Bool.{true}
use mathlib.Core.List.{[], ◌∷◌}
use native.Mathlib.Omega.{arith}
use syrotp.Prelude.Tests.{ltb, if◌then◌else◌, Bool-cases}
use syrotp.Prelude.Lists.{All}
use syrotp.Prelude.Texts.{Text, is_digit}

decimal_from : ℕ → ℕ → Text → Text
decimal_from zero n acc = acc
decimal_from (suc fuel) n acc =
    let rest = decimal_from fuel (n / 10) ((48 + n % 10) ∷ acc) in
    if ltb n 10 then (48 + n) ∷ acc else rest

unfoldable pub decimal : ℕ → Text
unfolding decimal_from
decimal n = decimal_from (suc n) n []

-- The value of more digits after a number
unfoldable pub digits_value : ℕ → Text → ℕ
digits_value n [] = n
digits_value n (c ∷ s) = digits_value (n * 10 + (c - 48)) s

digits_value-decimal_from :
    (fuel n : ℕ) (acc : Text)
    → n < fuel
    → digits_value 0 (decimal_from fuel n acc) ≡ digits_value n acc
unfolding decimal_from digits_value
digits_value-decimal_from zero n acc h = absurd (omega arith)
digits_value-decimal_from (suc fuel) n acc h = elim (Bool-cases (ltb n 10)) [
  | inl y ↦ rw y (ap (λ (k : ℕ). digits_value k acc) (omega arith))
  | inr b ↦ rw b (
      digits_value-decimal_from fuel (n / 10) ((48 + n % 10) ∷ acc) (ground arith)
      ∙ ap (λ (k : ℕ). digits_value k acc) (omega arith))
]

pub digits_value-decimal : (n : ℕ) → digits_value 0 (decimal n) ≡ n
unfolding decimal digits_value
digits_value-decimal n = digits_value-decimal_from (suc n) n [] (omega arith)

pub decimal-injective : (m n : ℕ) → decimal m ≡ decimal n → m ≡ n
decimal-injective m n e =
    sym (digits_value-decimal m) ∙ ap (digits_value 0) e ∙ digits_value-decimal n

decimal_from-All :
    (fuel n : ℕ) (acc : Text)
    → All (λ c. is_digit c ≡ true) acc
    → All (λ c. is_digit c ≡ true) (decimal_from fuel n acc)
unfolding decimal_from
decimal_from-All zero n acc h = h
decimal_from-All (suc fuel) n acc h = elim (Bool-cases (ltb n 10)) [
  | inl y ↦ rw y (ground arith, h)
  | inr b ↦ rw b (decimal_from-All fuel (n / 10) ((48 + n % 10) ∷ acc) (ground arith, h))
]

-- Only digits are printed.
pub decimal-All : (n : ℕ) → All (λ c. is_digit c ≡ true) (decimal n)
unfolding decimal
decimal-All n = decimal_from-All (suc n) n [] tt
