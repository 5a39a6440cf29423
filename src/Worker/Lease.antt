-- ===== src/Worker/Lease.antt =====
-- What a batch holds, and that the lease keeps other workers from it.
use syrotp.Prelude.{
  ℕ, zero, suc, ◌+◌, ◌≤◌, ◌<◌, ◌≡◌, same, length, length-take, take, false, List, [], ◌∷◌, Option,
  none, some, All, All-append, any, select, update, ltb, arith, Bool-cases, inl, inr,
}
use syrotp.Schema.{Db, WebhookDelivery, WebhookEndpoint, WebhookEvent}
use syrotp.Worker.{
  DueRow, is_due, is_claimed, set_lease, insert_by_time, order_by_time, with_event, join_row,
  join_all, due_rows, claim_batch, batch_size,
}

module _ {κ} (P : WebhookDelivery → Type κ) where
  insert_by_time-All :
      (d : WebhookDelivery) (ds : List WebhookDelivery)
      → P d
      → All P ds
      → All P (insert_by_time d ds)
  unfolding insert_by_time
  insert_by_time-All d [] h k = (h, tt)
  insert_by_time-All d (e ∷ es) h (k, ks) =
      elim (Bool-cases (ltb e.next_attempt_at d.next_attempt_at)) [
        | inl y ↦ rw y (k, insert_by_time-All d es h ks)
        | inr n ↦ rw n (h, (k, ks))
      ]

  order_by_time-All : (ds : List WebhookDelivery) → All P ds → All P (order_by_time ds)
  unfolding order_by_time
  order_by_time-All [] h = tt
  order_by_time-All (d ∷ ds) (h, hs) =
      insert_by_time-All d (order_by_time ds) h (order_by_time-All ds hs)

module _ {κ} (Q : DueRow → Type κ) (P : WebhookDelivery → Type κ)
    (of_delivery : (d : WebhookDelivery) (e : Option WebhookEndpoint) (ev : Option WebhookEvent)
      → P d
      → All Q (with_event d e ev)) where
  join_all-All : (db : Db) (ds : List WebhookDelivery) → All P ds → All Q (join_all db ds)
  unfolding join_all join_row
  join_all-All db [] h = tt
  join_all-All db (d ∷ ds) (h, hs) = All-append Q _ _ (of_delivery d _ _ h) (join_all-All db ds hs)

  take-All : (n : ℕ) (rows : List DueRow) → All Q rows → All Q (take n rows)
  take-All zero rows h = tt
  take-All (suc n) [] h = tt
  take-All (suc n) (r ∷ rows) (h, hs) = (h, take-All n rows hs)

  due_rows-All :
      (now : ℕ) (db : Db)
      → All P (select (is_due now) db.webhook_deliveries)
      → All Q (due_rows now db)
  unfolding due_rows
  due_rows-All now db h = take-All batch_size _ (join_all-All db _ (order_by_time-All P _ h))

not_due :
    (now later : ℕ) (d : WebhookDelivery)
    → later < now + 60000
    → is_due later (set_lease now d) ≡ false
not_due now later d h = ground arith

-- A leased delivery is due to nobody until the lease ends.
leased :
    (rows : List DueRow) (now later : ℕ) (ds : List WebhookDelivery)
    → later < now + 60000
    → All
        (λ d. is_claimed rows d ≡ false)
        (select (is_due later) (update (is_claimed rows) (set_lease now) ds))
leased rows now later [] h = tt
leased rows now later (d ∷ ds) h =
    let rest = leased rows now later ds h in
    elim (Bool-cases (is_claimed rows d)) [
      | inl y ↦ rw (y, not_due now later d h) rest
      | inr n ↦ elim (Bool-cases (is_due later d)) [
        | inl due ↦ rw (n, due) (n, rest)
        | inr idle ↦ rw (n, idle) rest
      ]
    ]

named :
    (rows : List DueRow) (d : WebhookDelivery) (e : Option WebhookEndpoint)
    (ev : Option WebhookEvent)
    → is_claimed rows d ≡ false
    → All
        (λ (r : DueRow). any (λ s. same s.delivery_id r.delivery_id) rows ≡ false)
        (with_event d e ev)
named rows d none ev h = tt
named rows d (some e) none h = tt
named rows d (some e) (some ev) h = (h, tt)

batch_le : (now : ℕ) (db : Db) → length (due_rows now db) ≤ 25
unfolding due_rows
batch_le now db =
    let all_rows = join_all db (order_by_time (select (is_due now) db.webhook_deliveries)) in
    omega (arith, length-take 25 all_rows)

-- A claim takes 25 deliveries at most, and a claim that follows it directly, at a time less than a
-- minute later, takes none of them again.
pub claim_batch_lease :
    (now later : ℕ) (db : Db)
    → later < now + 60000
    → (length (claim_batch now db).0 ≤ 25)
      × All
          (λ (r : DueRow).
            any (λ s. same s.delivery_id r.delivery_id) (claim_batch now db).0 ≡ false)
          (claim_batch later (claim_batch now db).1).0
unfolding claim_batch
claim_batch_lease now later db h = (
  batch_le now db,
  due_rows-All _ (λ d. is_claimed (due_rows now db) d ≡ false) (named (due_rows now db)) later _
      (leased (due_rows now db) now later db.webhook_deliveries h),
)
