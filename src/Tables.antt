-- ===== src/Tables.antt =====
-- Laws of tables in which at most one row passes a test.
use mathlib.Core.List.{Mem, mem-cons_self, mem-cons_of_mem}
use syrotp.Prelude.{
  ◌≤◌, ◌+◌, ◌≡◌, refl, ap, ◌∙◌, Bool, true, false, List, [], ◌∷◌, ◌++◌, some, arith, All, any,
  count, find, select, update, any_of_count, Bool-cases, inl, inr,
}

module _ {ℓ} {A : Type ℓ} where
  pub All-map {κ μ} :
      (P : A → Type κ) (Q : A → Type μ) (xs : List A) → ((x : A) → P x → Q x) → All P xs → All Q xs
  All-map P Q [] h k = tt
  All-map P Q (x ∷ xs) h (p, k) = (h x p, All-map P Q xs h k)

  pub All-update {κ} :
      (P : A → Type κ) (p : A → Bool) (f : A → A) (xs : List A)
      → All (λ x. (p x ≡ true → P (f x)) × (p x ≡ false → P x)) xs
      → All P (update p f xs)
  All-update P p f [] h = tt
  All-update P p f (x ∷ xs) ((yes_case, no_case), h) = (
    elim (Bool-cases (p x)) [ inl e ↦ rw e (yes_case e) | inr e ↦ rw e (no_case e) ],
    All-update P p f xs h,
  )

  pub All-of_not_any : (p : A → Bool) (xs : List A) → any p xs ≡ false → All (λ x. p x ≡ false) xs
  All-of_not_any p [] h = tt
  All-of_not_any p (x ∷ xs) h = (ground arith, All-of_not_any p xs (ground arith))

  pub any_of_any :
      (p q : A → Bool) (xs : List A)
      → ((x : A) → p x ≡ true → q x ≡ true)
      → any p xs ≡ true
      → any q xs ≡ true
  any_of_any p q [] h k = cc
  any_of_any p q (x ∷ xs) h k = ground (arith, h x, any_of_any p q xs h)

  pub count_of_any : (p : A → Bool) (xs : List A) → any p xs ≡ true → 1 ≤ count p xs
  count_of_any p [] h = cc
  count_of_any p (x ∷ xs) h = ground (arith, count_of_any p xs)

  -- Where one row at most passes `q`, and one passes the narrower `p`, no other passes `q`.
  pub others :
      (p q : A → Bool) (xs : List A)
      → ((x : A) → p x ≡ true → q x ≡ true)
      → count q xs ≤ 1
      → any p xs ≡ true
      → All (λ x. p x ≡ false → q x ≡ false) xs
  others p q [] h c a = tt
  others p q (x ∷ xs) h c a = elim (Bool-cases (p x)) [
    | inl e ↦
        let e' = h x e in
        (
          λ n. cc,
          All-map (λ y. q y ≡ false) (λ y. p y ≡ false → q y ≡ false) xs (λ y k _. k)
              (All-of_not_any q xs (any_of_count q xs (ground arith))),
        )
    | inr e ↦
        let a' : any p xs ≡ true = ground arith in
        let c' = count_of_any q xs (any_of_any p q xs h a') in
        (λ n. ground arith, others p q xs h (ground arith) a')
  ]

  pub any_of_find : (p : A → Bool) (xs : List A) {a : A} → find p xs ≡ some a → any p xs ≡ true
  any_of_find p [] e = cc
  any_of_find p (x ∷ xs) {a} e = ground (arith, any_of_find p xs {a = a})

  pub any_of_found :
      (p q : A → Bool) (xs : List A) {a : A} → find p xs ≡ some a → q a ≡ true → any q xs ≡ true
  any_of_found p q [] e h = cc
  any_of_found p q (x ∷ xs) {a} e h = elim (Bool-cases (p x)) [
    | inl hit ↦ let r : x ≡ a = ground arith in rw (r, h)
    | inr miss ↦ ground (arith, any_of_found p q xs {a = a})
  ]

  -- The row found by `p` is the only one that passes `q`.
  pub unique_row :
      (p q : A → Bool) (xs : List A) (a : A)
      → find p xs ≡ some a
      → q a ≡ true
      → count q xs ≤ 1
      → All (λ x. q x ≡ true → x ≡ a) xs
  unique_row p q [] a e h c = tt
  unique_row p q (x ∷ xs) a e h c = elim (Bool-cases (p x)) [
    | inl hit ↦
        let same_row : x ≡ a = ground arith in
        let here : q x ≡ true = rw same_row h in
        (
          λ _. same_row,
          All-map (λ y. q y ≡ false) (λ y. q y ≡ true → y ≡ a) xs (λ y k k'. cc)
              (All-of_not_any q xs (any_of_count q xs (ground arith))),
        )
    | inr miss ↦
        let rest : find p xs ≡ some a = ground arith in
        let later = count_of_any q xs (any_of_found p q xs rest h) in
        (λ k. absurd (ground arith), unique_row p q xs a rest h (ground arith))
  ]

  pub update_of_none :
      (p : A → Bool) (f : A → A) (xs : List A) → any p xs ≡ false → update p f xs ≡ xs
  update_of_none p f [] h = refl
  update_of_none p f (x ∷ xs) h = ground (arith, update_of_none p f xs)

  pub select_of_none : (p : A → Bool) (xs : List A) → any p xs ≡ false → select p xs ≡ []
  select_of_none p [] h = refl
  select_of_none p (x ∷ xs) h = ground (arith, select_of_none p xs)

  -- The first row of a selection
  pub select_of_any :
      (p : A → Bool) (xs : List A)
      → any p xs ≡ true
      → (x : A) × (rest : List A) × (select p xs ≡ x ∷ rest) × (p x ≡ true)
  select_of_any p [] h = cc
  select_of_any p (x ∷ xs) h = elim (Bool-cases (p x)) [
    | inl e ↦ (x, select p xs, rw e, e)
    | inr e ↦
        let (y, rest, k, py) = select_of_any p xs (ground arith) in (y, rest, ground arith, py)
  ]

  pub any_of_positive : (p : A → Bool) (xs : List A) → 1 ≤ count p xs → any p xs ≡ true
  any_of_positive p [] h = absurd (omega arith)
  any_of_positive p (x ∷ xs) h = ground (arith, any_of_positive p xs)

  count-update_keep :
      (q p : A → Bool) (f : A → A) (xs : List A)
      → ((x : A) → p x ≡ true → q x ≡ false)
      → count q xs ≤ count q (update p f xs)
  count-update_keep q p f [] h = omega arith
  count-update_keep q p f (x ∷ xs) h = ground (arith, h x, count-update_keep q p f xs h)

  -- An update that changes no row counted by `q`, and makes one that is.
  pub count-update_gain :
      (q p : A → Bool) (f : A → A) (xs : List A) (b : A)
      → ((x : A) → p x ≡ true → q x ≡ false)
      → find p xs ≡ some b
      → q (f b) ≡ true
      → count q xs + 1 ≤ count q (update p f xs)
  count-update_gain q p f [] b h e k = cc
  count-update_gain q p f (x ∷ xs) b h e k = elim (Bool-cases (p x)) [
    | inl y ↦
        let first : x ≡ b = ground arith in
        let made : q (f x) ≡ true = ap (λ z. q (f z)) first ∙ k in
        rw (y, made, h x y) (omega (arith, count-update_keep q p f xs h))
    | inr n ↦ rw n (omega (arith, count-update_gain q p f xs b h (rw n at e) k))
  ]

  -- A row that is appended is found, where none before it is.
  pub find-new :
      (q : A → Bool) (xs : List A) (row : A)
      → any q xs ≡ false
      → q row ≡ true
      → find q (xs ++ row ∷ []) ≡ some row
  find-new q [] row h e = rw e refl
  find-new q (x ∷ xs) row h e = ground (arith, find-new q xs row)

  -- The row that is found is one of the table's.
  pub find-Mem : (p : A → Bool) (xs : List A) {a : A} → find p xs ≡ some a → Mem a xs
  find-Mem p [] e = cc
  find-Mem p (x ∷ xs) {a} e = elim (Bool-cases (p x)) [
    | inl hit ↦ let it : x ≡ a = ground arith in rw (← it) mem-cons_self
    | inr miss ↦ mem-cons_of_mem x (find-Mem p xs (ground arith))
  ]

  -- Where one row at most passes `q`, any test that finds a row of `q` finds the one that `q` finds.
  pub find_unique :
      (p q : A → Bool) (xs : List A) (v : A)
      → find p xs ≡ some v
      → q v ≡ true
      → count q xs ≤ 1
      → find q xs ≡ some v
  find_unique p q [] v e h c = cc
  find_unique p q (x ∷ xs) v e h c = elim (Bool-cases (p x)) [
    | inl hit ↦ let first : x ≡ v = ground arith in rw (ap q first, h) (ap some first)
    | inr miss ↦
        let rest : find p xs ≡ some v = ground arith in
        let later = count_of_any q xs (any_of_found p q xs rest h) in
        let other : q x ≡ false = ground arith in
        rw other (find_unique p q xs v rest h (ground arith))
  ]
