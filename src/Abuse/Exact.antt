-- ===== src/Abuse/Exact.antt =====
-- The counts of an app are those of its rows in the tables.
use native.Mathlib.Nat.{zero-add}
use syrotp.Prelude.{
  ℕ, ◌+◌, ◌≤◌, ◌≡◌, refl, ap, ◌∙◌, Text, same, Bool, false, ◌&&◌, All, List, [], ◌∷◌, arith, count,
  count-append, select, map, ltb, if◌then◌else◌, Bool-cases, inl, inr,
}
use syrotp.Schema.{Db, InboundSms, Receiver}
use syrotp.Abuse.{
  Group, Sample, Counts, no_counts, set_verifications, add_inbounds, set_bindings, group_by, merge,
  count_apps, is_recent, is_failed, is_waiting, is_unmatched, joined, verification_samples,
  inbound_samples, binding_samples,
}
use syrotp.Abuse.Tally.{
  totals, bads, has_app, applied, counts_of, counts_of-merge, group_by-sums, group_by-once, of_app,
  bad_of_app,
}

module _ {ℓ κ} {A : Type ℓ} {B : Type κ} where
  count-map-select :
      (q : B → Bool) (f : A → B) (p : A → Bool) (xs : List A)
      → count q (map f (select p xs)) ≡ count (λ x. p x && q (f x)) xs
  count-map-select q f p [] = refl
  count-map-select q f p (x ∷ xs) = ground (arith, count-map-select q f p xs)

none_of_app :
    (a : Text) (gs : List Group)
    → count (has_app a) gs ≡ 0
    → (totals a gs ≡ 0)
      × (bads a gs ≡ 0)
      × ((f : Group → Counts → Counts) (r : Counts) → applied a f gs r ≡ r)
none_of_app a [] h = (refl, refl, λ f r. refl)
none_of_app a (g ∷ gs) h = elim (Bool-cases (same g.app_id a)) [
  | inl y ↦ absurd (ground arith)
  | inr m ↦
      let (t, b, same_row) = none_of_app a gs (ground arith) in
      rw m (omega (arith, t), omega (arith, b), same_row)
]

applied_set :
    (a : Text) (gs : List Group) (r : Counts)
    → count (has_app a) gs ≤ 1
    → r.total_verifications ≡ 0
    → r.failed_verifications ≡ 0
    → applied a set_verifications gs r
      ≡ record r { total_verifications = totals a gs; failed_verifications = bads a gs }
applied_set a [] r c t b = ground arith
applied_set a (g ∷ gs) r c t b = elim (Bool-cases (same g.app_id a)) [
  | inl y ↦
      let (tz, bz, same_row) = none_of_app a gs (ground arith) in
      rw (y, same_row set_verifications (set_verifications g r), tz, bz) (ground arith)
  | inr m ↦
      rw (m, zero-add (totals a gs), zero-add (bads a gs))
        (applied_set a gs r (omega (arith, rw m at c)) t b)
]

applied_bindings :
    (a : Text) (gs : List Group) (r : Counts)
    → count (has_app a) gs ≤ 1
    → r.total_bindings ≡ 0
    → r.expired_bindings ≡ 0
    → applied a set_bindings gs r
      ≡ record r { total_bindings = totals a gs; expired_bindings = bads a gs }
applied_bindings a [] r c t b = ground arith
applied_bindings a (g ∷ gs) r c t b = elim (Bool-cases (same g.app_id a)) [
  | inl y ↦
      let (tz, bz, same_row) = none_of_app a gs (ground arith) in
      rw (y, same_row set_bindings (set_bindings g r), tz, bz) (ground arith)
  | inr m ↦
      rw (m, zero-add (totals a gs), zero-add (bads a gs))
        (applied_bindings a gs r (omega (arith, rw m at c)) t b)
]

applied_inbounds :
    (a : Text) (gs : List Group) (r : Counts)
    → applied a add_inbounds gs r ≡ record r {
      total_inbounds = r.total_inbounds + totals a gs;
      unmatched_inbounds = r.unmatched_inbounds + bads a gs;
    }
applied_inbounds a [] r = ground arith
applied_inbounds a (g ∷ gs) r = elim (Bool-cases (same g.app_id a)) [
  | inl y ↦ rw y (applied_inbounds a gs (add_inbounds g r) ∙ ground arith)
  | inr m ↦ rw (m, zero-add (totals a gs), zero-add (bads a gs)) (applied_inbounds a gs r)
]

module _ {ℓ} {A : Type ℓ} where
  map_unassigned :
      (f : A → Sample) (xs : List A)
      → ((x : A) → (f x).receiver_id ≡ [])
      → All (λ s. s.receiver_id ≡ []) (map f xs)
  map_unassigned f [] h = tt
  map_unassigned f (x ∷ xs) h = (h x, map_unassigned f xs h)

-- How many receivers of the app the rows of a kind came through; with ids that are unique, each row
-- has one at most.
abbrev pub arrivals : Text → List Receiver → (InboundSms → Bool) → List InboundSms → ℕ
arrivals a receivers p [] = 0
arrivals a receivers p (i ∷ rows) =
    (if p i then count (λ r. same r.id i.receiver_id && same r.app_id a) receivers else 0)
    + arrivals a receivers p rows

never {ℓ} : {A : Type ℓ} (p : A → Bool) (xs : List A) → ((x : A) → p x ≡ false) → count p xs ≡ 0
never p [] h = refl
never p (x ∷ xs) h = rw (h x) (omega (arith, never p xs h))

bad_pairs :
    (a : Text) (i : InboundSms) (receivers : List Receiver)
    → count (λ r. same r.id i.receiver_id && (same r.app_id a && is_unmatched i)) receivers ≡ (
        if is_unmatched i
        then count (λ r. same r.id i.receiver_id && same r.app_id a) receivers
        else 0)
bad_pairs a i [] = ground arith
bad_pairs a i (r ∷ receivers) = ground (arith, bad_pairs a i receivers)

joined-arrivals :
    (a : Text) (receivers : List Receiver) (p : InboundSms → Bool) (rows : List InboundSms)
    → (count (of_app a) (joined receivers (select p rows)) ≡ arrivals a receivers p rows)
      × (count (bad_of_app a) (joined receivers (select p rows))
          ≡ arrivals a receivers (λ i. p i && is_unmatched i) rows)
joined-arrivals a receivers p [] = (refl, refl)
joined-arrivals a receivers p (i ∷ rows) =
    let (u, v) = joined-arrivals a receivers p rows in
    let sample : Receiver → Sample =
      λ r. record { app_id = r.app_id; receiver_id = i.receiver_id; is_bad = is_unmatched i } in
    let own : Receiver → Bool = λ r. same r.id i.receiver_id in
    let here = map sample (select own receivers) in
    let later = joined receivers (select p rows) in
    elim (Bool-cases (p i)) [
      | inl y ↦ rw y (
        count-append (of_app a) here later
            ∙ omega (arith, count-map-select (of_app a) sample own receivers, u),
        count-append (bad_of_app a) here later
            ∙ omega (
              arith,
              count-map-select (bad_of_app a) sample own receivers ∙ bad_pairs a i receivers,
              v,
            ),
      )
      | inr m ↦ rw m (omega (arith, u), omega (arith, v))
    ]

merged_counts :
    (a : Text) (gv gi gb : List Group)
    → count (has_app a) gv ≤ 1
    → count (has_app a) gb ≤ 1
    → counts_of a (merge set_bindings gb (merge add_inbounds gi (merge set_verifications gv [])))
      ≡ record {
        app_id = a;
        total_verifications = totals a gv;
        failed_verifications = bads a gv;
        total_inbounds = 0 + totals a gi;
        unmatched_inbounds = 0 + bads a gi;
        total_bindings = totals a gb;
        expired_bindings = bads a gb;
      }
merged_counts a gv gi gb v b =
    let first = merge set_verifications gv [] in
    let second = merge add_inbounds gi first in
    let counted = record (no_counts a) {
      total_verifications = totals a gv;
      failed_verifications = bads a gv;
    } in
    let received = record counted {
      total_inbounds = 0 + totals a gi;
      unmatched_inbounds = 0 + bads a gi;
    } in
    counts_of-merge a set_bindings gb second (λ g r. refl)
    ∙ ap (applied a set_bindings gb) (
        counts_of-merge a add_inbounds gi first (λ g r. refl)
        ∙ ap (applied a add_inbounds gi) (
            counts_of-merge a set_verifications gv [] (λ g r. refl)
            ∙ applied_set a gv (no_counts a) v refl refl)
        ∙ applied_inbounds a gi counted)
    ∙ applied_bindings a gb received b refl refl

-- The counts of every app that the signals are made of are exact: its verifications of the last
-- hour and the failed ones among them; its bindings of the last hour and the pending ones among
-- them whose time is over; and the messages of the last hour that came through a receiver of it,
-- and those among them that match nothing.
pub count_apps_exact :
    (a : Text) (now : ℕ) (db : Db)
    → let r = counts_of a (count_apps now db) in
      (r.total_verifications
        ≡ count (λ v. is_recent now v.created_at && same v.app_id a) db.verifications)
      × (r.failed_verifications
          ≡ count
              (λ v. is_recent now v.created_at && (same v.app_id a && is_failed v.status))
              db.verifications)
      × (r.total_inbounds
          ≡ arrivals a db.receivers (λ i. is_recent now i.received_at) db.inbound_sms)
      × (r.unmatched_inbounds
          ≡ arrivals a db.receivers
              (λ i. is_recent now i.received_at && is_unmatched i)
              db.inbound_sms)
      × (r.total_bindings
          ≡ count (λ b. is_recent now b.created_at && same b.app_id a) db.phone_bindings)
      × (r.expired_bindings
          ≡ count
              (λ b.
                is_recent now b.created_at
                && (same b.app_id a && (is_waiting b.status && ltb b.expires_at now)))
              db.phone_bindings)
unfolding count_apps
count_apps_exact a now db =
    let vs = verification_samples now db in
    let is = inbound_samples now db in
    let bs = binding_samples now db in
    let (v, _) = group_by-once a vs (map_unassigned _ _ (λ x. refl)) in
    let (b, _) = group_by-once a bs (map_unassigned _ _ (λ x. refl)) in
    let full = merged_counts a (group_by vs) (group_by is) (group_by bs) v b in
    let (vt, vb) = group_by-sums a vs in
    let (it, ib) = group_by-sums a is in
    let (bt, bb) = group_by-sums a bs in
    let (ja, jb) =
      joined-arrivals a db.receivers (λ i. is_recent now i.received_at) db.inbound_sms in
    (
      ap (λ r. r.total_verifications) full ∙ vt ∙ count-map-select (of_app a) _ _ db.verifications,
      ap (λ r. r.failed_verifications) full
          ∙ vb
          ∙ count-map-select (bad_of_app a) _ _ db.verifications,
      ap (λ r. r.total_inbounds) full ∙ zero-add _ ∙ it ∙ ja,
      ap (λ r. r.unmatched_inbounds) full ∙ zero-add _ ∙ ib ∙ jb,
      ap (λ r. r.total_bindings) full ∙ bt ∙ count-map-select (of_app a) _ _ db.phone_bindings,
      ap (λ r. r.expired_bindings) full
          ∙ bb
          ∙ count-map-select (bad_of_app a) _ _ db.phone_bindings,
    )
