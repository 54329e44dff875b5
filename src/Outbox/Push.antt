-- ===== src/Outbox/Push.antt =====
-- `attemptDelivery` and the retry loop of src/lib/pos/outbox.ts: a property of rows that one push
-- keeps is kept by both.
use restaurant_app.Prelude.{
  ℕ, ◌≡◌, inl, inr, true, List, [], ◌∷◌, String, some, arith, All, find_first, Bool-cases,
  Option-cases,
}
use restaurant_app.Prelude.Rows.{find_first-All}
use restaurant_app.Schema.{PosDelivery}
use restaurant_app.Schema.Status.{Adapter, is_pending}
use restaurant_app.Outbox.{
  Delivered, has_id, update_unique, after_push, attempt_read, attempt_write, attempt_delivery,
  attempt_all,
}

-- A write by id, of the row that was found by that id.
pub All-update_unique :
    (P : PosDelivery → Type 0) (i : ℕ) (f : PosDelivery → PosDelivery) (rows : List PosDelivery)
    {d : PosDelivery}
    → All P rows
    → find_first (has_id i) rows ≡ some d
    → P (f d)
    → All P (update_unique i f rows)
unfolding update_unique find_first
All-update_unique P i f [] h e k = tt
All-update_unique P i f (x ∷ rows) {d} (h, hs) e k = elim (Bool-cases (has_id i x)) [
  | inl hit ↦ let same : x ≡ d = ground (arith, rw hit at e) in rw (hit, same) (k, hs)
  | inr miss ↦ rw miss (h, All-update_unique P i f rows hs (rw miss at e) k)
]

module _ (deliver : Adapter → String → Delivered) (P : PosDelivery → Type 0)
    (keep : (d : PosDelivery) → P d → is_pending d.status ≡ true → P (after_push deliver d d)) where
  pub attempt_delivery-All :
      (i : ℕ) (rows : List PosDelivery) → All P rows → All P (attempt_delivery deliver i rows)
  unfolding attempt_delivery attempt_read attempt_write
  attempt_delivery-All i rows h = elim (Option-cases (find_first (has_id i) rows)) [
    | inl e ↦ rw e h
    | inr (d, e) ↦ elim (Bool-cases (is_pending d.status)) [
      | inl p ↦
          rw (e, p)
            (All-update_unique P i (after_push deliver d) rows h e
              (keep d (find_first-All P _ rows h e) p))
      | inr p ↦ rw (e, p) h
    ]
  ]

  pub attempt_all-All :
      (ds rows : List PosDelivery) → All P rows → All P (attempt_all deliver ds rows)
  unfolding attempt_all
  attempt_all-All [] rows h = h
  attempt_all-All (d ∷ ds) rows h = attempt_all-All ds _ (attempt_delivery-All d.id rows h)
