-- ===== src/Abuse/Tally.antt =====
-- What `group_by` counts, and what a loop over its groups leaves in a row.
use syrotp.Prelude.{
  ℕ, ◌+◌, ◌≤◌, ◌≡◌, refl, ap, sym, ◌∙◌, Text, same, same_iff, same_refl, Bool, true, false, ◌&&◌,
  All, List, [], ◌∷◌, arith, or_else, count, find, if◌then◌else◌, Bool-cases, inl, inr,
}
use syrotp.Abuse.{
  Group, Sample, in_group, weight, add_sample, group_by, Counts, no_counts, ensure, merge,
}

-- The rows of the groups of an app, all and the bad ones
abbrev pub totals : Text → List Group → ℕ
totals a [] = 0
totals a (g ∷ gs) = (if same g.app_id a then g.total else 0) + totals a gs

abbrev pub bads : Text → List Group → ℕ
bads a [] = 0
bads a (g ∷ gs) = (if same g.app_id a then g.bad else 0) + bads a gs

abbrev pub of_app : Text → Sample → Bool
of_app a s = same s.app_id a

abbrev pub bad_of_app : Text → Sample → Bool
bad_of_app a s = same s.app_id a && s.is_bad

add_sample-sums :
    (a : Text) (s : Sample) (gs : List Group)
    → (totals a (add_sample s gs) ≡ weight (of_app a s) + totals a gs)
      × (bads a (add_sample s gs) ≡ weight (bad_of_app a s) + bads a gs)
unfolding add_sample
add_sample-sums a s [] = ground arith
add_sample-sums a s (g ∷ gs) = ground (arith, add_sample-sums a s gs, same_iff g.app_id s.app_id)

pub group_by-sums :
    (a : Text) (samples : List Sample)
    → (totals a (group_by samples) ≡ count (of_app a) samples)
      × (bads a (group_by samples) ≡ count (bad_of_app a) samples)
unfolding group_by
group_by-sums a [] = (refl, refl)
group_by-sums a (s ∷ samples) =
    let (t, b) = add_sample-sums a s (group_by samples) in
    let (u, c) = group_by-sums a samples in (omega (arith, t, u), omega (arith, b, c))

abbrev pub has_app : Text → Group → Bool
has_app a g = same g.app_id a

abbrev pub Unassigned : Group → Type 0
Unassigned g = g.receiver_id ≡ []

add_other :
    (a : Text) (s : Sample) (gs : List Group)
    → same s.app_id a ≡ false
    → count (has_app a) (add_sample s gs) ≡ count (has_app a) gs
unfolding add_sample
add_other a s [] n = rw n refl
add_other a s (g ∷ gs) n = ground (arith, add_other a s gs n)

add_once :
    (a : Text) (s : Sample) (gs : List Group)
    → s.receiver_id ≡ []
    → All Unassigned gs
    → count (has_app a) gs ≤ 1
    → (count (has_app a) (add_sample s gs) ≤ 1) × All Unassigned (add_sample s gs)
unfolding add_sample
add_once a s [] e h c = (ground arith, (e, tt))
add_once a s (g ∷ gs) e (u, h) c = elim (Bool-cases (in_group s g)) [
  | inl y ↦ rw y (c, (u, h))
  | inr n ↦
      let (once, kept) = add_once a s gs e h (omega (arith, c)) in
      let apart : same g.app_id s.app_id ≡ false = elim (Bool-cases (same g.app_id s.app_id)) [
        | inl y ↦
            let own : in_group s g ≡ true = rw (y, u, e) (same_refl []) in absurd (ground arith)
        | inr m ↦ m
      ] in
      let fits : count (has_app a) (g ∷ add_sample s gs) ≤ 1 = elim (Bool-cases (same g.app_id a)) [
        | inl mine ↦
            let others : same s.app_id a ≡ false =
              rw (← (same_iff g.app_id a).0 mine)
                (ground (arith, same_iff g.app_id s.app_id, same_iff s.app_id g.app_id)) in
            rw mine (omega (arith, rw mine at c, add_other a s gs others))
        | inr m ↦ rw m (omega (arith, once))
      ] in
      rw n (fits, (u, kept))
]

pub group_by-once :
    (a : Text) (samples : List Sample)
    → All (λ s. s.receiver_id ≡ []) samples
    → (count (has_app a) (group_by samples) ≤ 1) × All Unassigned (group_by samples)
unfolding group_by
group_by-once a [] h = (omega arith, tt)
group_by-once a (s ∷ samples) (e, h) =
    let (once, kept) = group_by-once a samples h in add_once a s (group_by samples) e kept once

-- The row of an app, or the counts that it would begin with
abbrev pub counts_of : Text → List Counts → Counts
counts_of a rows = or_else (find (λ r. same r.app_id a) rows) (no_counts a)

-- What the groups of an app do to its row
abbrev pub applied : Text → (Group → Counts → Counts) → List Group → Counts → Counts
applied a f [] r = r
applied a f (g ∷ gs) r = applied a f gs (if same g.app_id a then f g r else r)

counts_of_first :
    (a id : Text) (r : Counts) (rows : List Counts)
    → id ≡ r.app_id
    → counts_of a (r ∷ rows) ≡ (if same id a then r else counts_of a rows)
counts_of_first a id r rows e =
    rw e (elim (Bool-cases (same r.app_id a)) [ inl y ↦ rw y refl | inr m ↦ rw m refl ])

counts_of-ensure :
    (a id : Text) (f : Counts → Counts) (rows : List Counts)
    → ((r : Counts) → (f r).app_id ≡ r.app_id)
    → counts_of a (ensure id f rows)
      ≡ (if same id a then f (counts_of a rows) else counts_of a rows)
unfolding ensure
counts_of-ensure a id f [] keeps =
    counts_of_first a id (f (no_counts id)) [] (sym (keeps (no_counts id)))
    ∙ (elim (Bool-cases (same id a)) [
      | inl y ↦ rw y (ap (λ t. f (no_counts t)) ((same_iff id a).0 y))
      | inr m ↦ rw m refl
    ])
counts_of-ensure a id f (r ∷ rows) keeps = elim (Bool-cases (same r.app_id id)) [
  | inl y ↦
      let e : r.app_id ≡ id = (same_iff r.app_id id).0 y in
      rw (y, counts_of_first a id r rows (sym e))
        (counts_of_first a id (f r) rows (sym e ∙ sym (keeps r))
          ∙ (elim (Bool-cases (same id a)) [ inl z ↦ rw z refl | inr m ↦ rw m refl ]))
  | inr n ↦ rw n (elim (Bool-cases (same r.app_id a)) [
    | inl z ↦
        let other : same id a ≡ false =
          rw (← (same_iff r.app_id a).0 z)
            (ground (arith, same_iff r.app_id id, same_iff id r.app_id)) in
        rw (z, other) refl
    | inr m ↦ rw m (counts_of-ensure a id f rows keeps)
  ])
]

pub counts_of-merge :
    (a : Text) (f : Group → Counts → Counts) (gs : List Group) (rows : List Counts)
    → ((g : Group) (r : Counts) → (f g r).app_id ≡ r.app_id)
    → counts_of a (merge f gs rows) ≡ applied a f gs (counts_of a rows)
unfolding merge
counts_of-merge a f [] rows keeps = refl
counts_of-merge a f (g ∷ gs) rows keeps =
    counts_of-merge a f gs (ensure g.app_id (f g) rows) keeps
    ∙ ap (applied a f gs) (counts_of-ensure a g.app_id (f g) rows (keeps g))
