-- ===== src/Outbox/Bounds.antt =====
-- The retry budget of src/lib/pos/outbox.ts: the counter of a delivery's attempts.
use restaurant_app.Prelude.{
  ℕ, ◌≤◌, ◌<◌, ◌≡◌, refl, inl, inr, true, ◌&&◌, List, [], ◌∷◌, Option, none, some, String, arith,
  ◌==◌, All, All-append, find_first, Bool-cases, Option-cases,
}
use restaurant_app.Prelude.Rows.{All-update_many, find_first-All}
use restaurant_app.Schema.{PosDelivery}
use restaurant_app.Schema.Status.{Adapter, is_pending, is_claimed}
use restaurant_app.Outbox.Push.{All-update_unique, attempt_delivery-All, attempt_all-All}
use restaurant_app.Outbox.{
  max_attempts, Delivered, has_id, after_push, enqueue_row, claimable, claim_write, poll,
  candidates, settle_row, ack_read, ack_write, ack, retry, reconcile, sweep,
}

-- The counter is at most five, and that of a row that waits is below.
pub record IsBounded (d : PosDelivery) : Type 0 where
  pub within : d.attempts ≤ max_attempts
  pub has_room : is_pending d.status ≡ true → d.attempts < max_attempts

module _ (deliver : Adapter → String → Delivered) where
  after_push-IsBounded :
      (d : PosDelivery)
      → IsBounded d
      → is_pending d.status ≡ true
      → IsBounded (after_push deliver d d)
  unfolding after_push
  after_push-IsBounded d h p = ground (arith, h.has_room p)

pub claim_write-IsBounded :
    (venue now later claim : ℕ) (ids : List ℕ) (rows : List PosDelivery)
    → All IsBounded rows
    → All IsBounded (claim_write venue now later claim ids rows)
unfolding claim_write claimable
claim_write-IsBounded venue now later claim ids rows h =
    All-update_many _ _ (λ d hd p. ground arith) (λ d hd _. hd) rows h

pub poll-IsBounded :
    (venue now later claim : ℕ) (rows : List PosDelivery)
    → All IsBounded rows
    → All IsBounded (poll venue now later claim rows)
unfolding poll
poll-IsBounded venue now later claim rows h = go (candidates venue now rows) refl
  where
    go :
        (ids : List ℕ)
        → candidates venue now rows ≡ ids
        → All IsBounded (poll venue now later claim rows)
    go [] e = rw (e, poll) h
    go (i ∷ ids) e = rw (e, poll) (claim_write-IsBounded venue now later claim (i ∷ ids) rows h)

settle_row-IsBounded :
    (outcome : Option String) (d : PosDelivery) → IsBounded d → IsBounded (settle_row outcome d d)
settle_row-IsBounded none d h = ground arith
settle_row-IsBounded (some why) d h = ground arith

pub ack-IsBounded :
    (venue i : ℕ) (outcome : Option String) (rows : List PosDelivery)
    → All IsBounded rows
    → All IsBounded (ack venue i outcome rows).0
unfolding ack ack_read ack_write
ack-IsBounded venue i outcome rows h = elim (Option-cases (find_first (has_id i) rows)) [
  | inl e ↦ rw e h
  | inr (d, e) ↦
      let settled = settle_row-IsBounded outcome d (find_first-All IsBounded _ rows h e) in
      let written = All-update_unique IsBounded i (settle_row outcome d) rows h e settled in
      elim (Bool-cases (d.venue_id == venue)) [
        | inl own ↦ elim (Bool-cases (is_claimed d.status)) [
          | inl p ↦ rw (e, own, p) written
          | inr p ↦ rw (e, own, p) h
        ]
        | inr other ↦ rw (e, other) h
      ]
]

pub retry-IsBounded :
    (venue i : ℕ) (rows : List PosDelivery)
    → All IsBounded rows
    → All IsBounded (retry venue i rows).0
unfolding retry
retry-IsBounded venue i rows h =
    elim (Option-cases (find_first (λ d. has_id i d && (d.venue_id == venue)) rows)) [
      | inl e ↦ rw (e, retry) h
      | inr (d, e) ↦
          rw (e, retry) (All-update_many _ _ (λ x hx _. ground arith) (λ x hx _. hx) rows h)
    ]

-- Between the bulk writes a row may wait with its budget spent.
reconcile-IsBounded :
    (now : ℕ) (rows : List PosDelivery) → All IsBounded rows → All IsBounded (reconcile now rows)
unfolding reconcile
reconcile-IsBounded now rows h =
    All-update_many {P = λ d. d.attempts ≤ max_attempts} _ _ (λ d hd p. ground arith)
      (λ d hd p. ground arith) _
      (All-update_many {P = λ d. d.attempts ≤ max_attempts} _ _ (λ d hd p. hd) (λ d hd p. hd) _
        (All-update_many _ _ (λ d hd p. hd.within) (λ d hd p. hd.within) rows h))

pub sweep-IsBounded :
    (deliver : Adapter → String → Delivered) (now : ℕ) (rows : List PosDelivery)
    → All IsBounded rows
    → All IsBounded (sweep deliver now rows).0
unfolding sweep
sweep-IsBounded deliver now rows h =
    attempt_all-All deliver IsBounded (after_push-IsBounded deliver) _ _
      (reconcile-IsBounded now rows h)

pub enqueue_row-IsBounded :
    (deliver : Adapter → String → Delivered) (d : PosDelivery) (rows : List PosDelivery)
    → d.attempts ≡ 0
    → All IsBounded rows
    → All IsBounded (enqueue_row deliver d rows)
unfolding enqueue_row
enqueue_row-IsBounded deliver d rows e h =
    attempt_delivery-All deliver IsBounded (after_push-IsBounded deliver) d.id _ (
      All-append IsBounded rows (d ∷ []) h
        (record { within = omega arith; has_room = λ _. omega arith }, tt))
