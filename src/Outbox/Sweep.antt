-- ===== src/Outbox/Sweep.antt =====
-- What a run of `sweepPosDeliveries` (src/lib/pos/outbox.ts) leaves behind.
use restaurant_app.Prelude.{ℕ, ◌≡◌, true, false, List, String, arith, All}
use restaurant_app.Prelude.Rows.{All-update_many, All-always, All-mono, update_many_none}
use restaurant_app.Schema.{PosDelivery}
use restaurant_app.Schema.Status.{Adapter, is_pending}
use restaurant_app.Outbox.Push.{attempt_all-All}
use restaurant_app.Outbox.{
  Delivered, after_push, is_stale, is_undated, is_exhausted, reconcile, sweep,
}

-- Not stranded: no claim has outlived the timeout or has no date, and nothing waits with its tries
-- used up.
pub record IsReconciled (now : ℕ) (d : PosDelivery) : Type 0 where
  pub not_stale : is_stale now d ≡ false
  pub not_undated : is_undated d ≡ false
  pub not_exhausted : is_exhausted d ≡ false

reconcile-IsReconciled :
    (now : ℕ) (rows : List PosDelivery) → All (IsReconciled now) (reconcile now rows)
unfolding reconcile
reconcile-IsReconciled now rows =
    All-update_many {P = λ d. (is_stale now d ≡ false) × (is_undated d ≡ false)} _ _
      (λ d h p. ground arith) (λ d h p. ground arith) _
      (All-update_many {P = λ d. is_stale now d ≡ false} _ _ (λ d h p. ground arith)
        (λ d h p. (h, p)) _
        (All-update_many {P = λ _. Unit {0}} _ _ (λ d _ p. ground arith) (λ d _ p. p) rows
          (All-always (λ _. tt) rows)))

module _ (deliver : Adapter → String → Delivered) (now : ℕ) where
  after_push-IsReconciled :
      (d : PosDelivery)
      → IsReconciled now d
      → is_pending d.status ≡ true
      → IsReconciled now (after_push deliver d d)
  unfolding after_push
  after_push-IsReconciled d h p = ground arith

-- After a sweep no delivery is stranded: every claim is dated and younger than the timeout, and
-- every pending delivery has a try left. This holds of every table and whatever the adapters answer.
pub sweep-IsReconciled :
    (deliver : Adapter → String → Delivered) (now : ℕ) (rows : List PosDelivery)
    → All (IsReconciled now) (sweep deliver now rows).0
unfolding sweep
sweep-IsReconciled deliver now rows =
    attempt_all-All deliver (IsReconciled now) (after_push-IsReconciled deliver now) _ _
      (reconcile-IsReconciled now rows)

-- A table in which nothing is stranded is left as it is by the three bulk writes.
pub reconcile_of_IsReconciled :
    (now : ℕ) (rows : List PosDelivery) → All (IsReconciled now) rows → reconcile now rows ≡ rows
unfolding reconcile
reconcile_of_IsReconciled now rows h =
    rw (update_many_none (is_stale now) _ rows (All-mono (λ d k. k.not_stale) rows h)) (
      rw (update_many_none is_undated _ rows (All-mono (λ d k. k.not_undated) rows h))
        (update_many_none is_exhausted _ rows (All-mono (λ d k. k.not_exhausted) rows h)))
