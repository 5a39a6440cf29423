-- ===== src/Prelude/Rows.antt =====
-- Tables as lists of rows, in the order in which the database returns them, and SQL's statements:
-- `SELECT … WHERE`, `SELECT … LIMIT 1`, `UPDATE … SET … WHERE … RETURNING`.
use mathlib.Core.Path.{◌≡◌, refl}
use mathlib.Core.Logic.{inl, inr}
use mathlib.Core.Bool.{Bool, true, false, not}
use mathlib.Core.Option.{Option, none, some}
use mathlib.Core.List.{List, [], ◌∷◌, ◌++◌, map}
use native.Mathlib.Omega.{arith}
use syrotp.Prelude.Tests.{if◌then◌else◌, Bool-cases}
use syrotp.Prelude.Lists.{any, All}

module _ {ℓ} {A : Type ℓ} where
  -- SELECT … WHERE p
  abbrev pub select : (A → Bool) → List A → List A
  select p [] = []
  select p (x ∷ xs) = if p x then x ∷ select p xs else select p xs

  -- SELECT … WHERE p LIMIT 1
  abbrev pub find : (A → Bool) → List A → Option A
  find p [] = none
  find p (x ∷ xs) = if p x then some x else find p xs

  -- UPDATE … SET f WHERE p
  abbrev pub update : (A → Bool) → (A → A) → List A → List A
  update p f [] = []
  update p f (x ∷ xs) = (if p x then f x else x) ∷ update p f xs

  -- the rows that `UPDATE … SET f WHERE p RETURNING *` returns
  abbrev pub returning : (A → Bool) → (A → A) → List A → List A
  returning p f xs = map f (select p xs)

  -- DELETE … WHERE p
  abbrev pub delete : (A → Bool) → List A → List A
  delete p xs = select (λ x. not (p x)) xs

  pub find_sound : (p : A → Bool) (xs : List A) {a : A} → find p xs ≡ some a → p a ≡ true
  find_sound p [] e = cc
  find_sound p (x ∷ xs) e = elim (Bool-cases (p x)) [
    | inl hit ↦ ground arith
    | inr miss ↦ find_sound p xs (ground arith)
  ]

  pub find-All {κ} :
      (P : A → Type κ) (p : A → Bool) (xs : List A) {a : A} → find p xs ≡ some a → All P xs → P a
  find-All P p [] e h = cc
  find-All P p (x ∷ xs) {a} e (k, h) = elim (Bool-cases (p x)) [
    | inl hit ↦ let same_row : x ≡ a = ground arith in rw (← same_row) k
    | inr miss ↦ find-All P p xs (ground arith) h
  ]

  pub find-any : (p : A → Bool) (xs : List A) → find p xs ≡ none → any p xs ≡ false
  find-any p [] e = refl
  find-any p (x ∷ xs) e = ground (arith, find-any p xs)

  -- An update that keeps a test keeps what the test finds among the rows that it leaves alone.
  pub any-update :
      (q p : A → Bool) (f : A → A) (xs : List A)
      → ((x : A) → q (f x) ≡ q x)
      → any q (update p f xs) ≡ any q xs
  any-update q p f [] h = refl
  any-update q p f (x ∷ xs) h = ground (arith, h x, any-update q p f xs h)

  pub any-append : (p : A → Bool) (xs ys : List A) → any p ys ≡ true → any p (xs ++ ys) ≡ true
  any-append p [] ys h = h
  any-append p (x ∷ xs) ys h = ground (arith, any-append p xs ys h)

  pub any-append_left : (p : A → Bool) (xs ys : List A) → any p xs ≡ true → any p (xs ++ ys) ≡ true
  any-append_left p [] ys h = cc
  any-append_left p (x ∷ xs) ys h = ground (arith, any-append_left p xs ys)
