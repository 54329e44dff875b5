-- ===== src/OrderEdit/Laws.antt =====
-- The correctness of `editOrder` (src/lib/orderEdit.ts).
use mathlib.Core.Bool.{false≢true}
use restaurant_app.Prelude.{
  ℕ, ◌≡◌, sym, ap, ◌∙◌, false, ◌&&◌, List, [], ◌∷◌, some, arith, All, find_many, find_first, count,
  update_many, Bool-cases, refl, inl, inr, Bool, ltb, ◌==◌, if◌then◌else◌,
}
use restaurant_app.Prelude.Sums.{sum_by-find_many, sum_by-All}
use restaurant_app.Prelude.Int.{sum_by, ℤ, pos, ◌*ℤ◌, *ℤ_zero}
use restaurant_app.Prelude.Rows.{
  Distinct, find_first-Distinct, find_first_passes, All-mono, All-always, All-update_many,
}
use restaurant_app.Prelude.Keys.{
  find_first-find_many, find_first_self, Distinct-find_many, All-swap,
}
use restaurant_app.Schema.{Db, Order, OrderItem}
use restaurant_app.Api.{StaffClaims}
use restaurant_app.OrderStatus.{order_is}
use restaurant_app.OrderStatus.Lifecycle.{DistinctIds}
use restaurant_app.OrderEdit.{
  EditLine, LineEdit, EditPlan, done, item_is, live_of, live_items, qty_after, edits_of, line_total,
  total_after, still_editable, set_total, edit_read, edit_write,
}
use restaurant_app.OrderEdit.Plan.{
  target, DistinctLines, edits_of-DistinctEdits, Lowers, edits_of-Lowers, target-qty_after,
}
use restaurant_app.OrderEdit.Total.{share, Fits, sum_by-write_lines}
use restaurant_app.OrderEdit.Commit.{edit_read-eq-done, edit_write-eq-done, IsPlanned, IsCommitted}

abbrev pub DistinctItems : List OrderItem → Type 0
DistinctItems = Distinct (λ it. it.id)

-- Lines that end at quantity 0 add nothing, so the source may leave them out of its sum.
total_after_remaining :
    (lines : List EditLine) (live : List OrderItem)
    → sum_by (total_after lines) (find_many (λ it. ltb 0 (qty_after lines it)) live)
      ≡ sum_by (total_after lines) live
total_after_remaining lines live =
    sum_by-find_many (total_after lines) (λ it. ltb 0 (qty_after lines it)) live
    ∙ sum_by-All _ _ live (All-always (λ it. none_left it) live)
  where
    none_left :
        (it : OrderItem)
        → (if ltb 0 (qty_after lines it) then total_after lines it else pos 0)
          ≡ total_after lines it
    none_left it = ground (arith, *ℤ_zero it.unit_price_kurus)

module _ (i : ℕ) (items : List OrderItem) (lines : List EditLine) (es : List LineEdit)
    (ids : DistinctItems items) (lines_once : DistinctLines lines)
    (read : edits_of (live_items i items) lines ≡ some es) where
  -- The total that the source computes is the sum of the shares.
  total_after-share : sum_by (total_after lines) (live_items i items) ≡ sum_by (share i es) items
  total_after-share =
      sum_by-All _ (λ it. it.unit_price_kurus *ℤ pos (target es it)) _
        (All-mono {P = λ it. find_first (item_is it.id) (live_items i items) ≡ some it}
          {Q = λ it. total_after lines it ≡ it.unit_price_kurus *ℤ pos (target es it)}
          (λ it self.
            ap (λ q. it.unit_price_kurus *ℤ pos q)
              (sym (target-qty_after (live_items i items) lines es it read lines_once self)))
          (live_items i items)
          (find_first_self (λ it. it.id) _
            (Distinct-find_many (λ it. it.id) (live_of i) items ids)))
      ∙ sum_by-find_many _ (live_of i) items

  Fits-of_Lowers : (e : LineEdit) → Lowers (live_items i items) e → All (Fits e) items
  Fits-of_Lowers e (it, found, q, _) =
      All-mono {P = λ y. y.id ≡ e.id → y ≡ it} {Q = Fits e}
        (λ y only live same. ap (λ z. z.qty) (only same) ∙ q) items
        (find_first-Distinct (λ it. it.id) _ e.id items (λ y h. ground arith) ids
          (sym (find_first-find_many (item_is e.id) (live_of i) items) ∙ found))

  All-Fits : All (λ it. All (λ e. Fits e it) es) items
  All-Fits =
      All-swap (λ it e. Fits e it) items es
        (All-mono Fits-of_Lowers es (edits_of-Lowers (live_items i items) lines es read))

share_done :
    (i : ℕ) (items : List OrderItem)
    → sum_by (share i []) items ≡ sum_by line_total (live_items i items)
unfolding find_first
share_done i items = sym (sum_by-find_many line_total (live_of i) items)

count-find_first :
    {A : Type 0} (p : A → Bool) (xs : List A)
    → (count p xs == 0) ≡ false
    → (x : A) × (find_first p xs ≡ some x)
unfolding count find_first
count-find_first p [] h = cc
count-find_first p (x ∷ xs) h = elim (Bool-cases (p x)) [
  | inl e ↦ (x, rw e refl)
  | inr e ↦ rw e (count-find_first p xs (rw e at h))
]

-- Every row of the order has got the total.
pub orders_written :
    (i : ℕ) (t : ℤ) (orders : List Order)
    → DistinctIds orders
    → (count (still_editable i) orders == 0) ≡ false
    → All (λ o. o.id ≡ i → o.total_kurus ≡ t) (update_many (still_editable i) (set_total t) orders)
orders_written i t orders ids some_open =
    let (m, found) = count-find_first (still_editable i) orders some_open in
    All-update_many {P = λ x. x.id ≡ i → x ≡ m} {Q = λ x. x.id ≡ i → x.total_kurus ≡ t} _ _
      (λ x only hit same. refl)
      (λ x only miss same. absurd (
        false≢true (
          sym miss
          ∙ ap (still_editable i) (only same)
          ∙ find_first_passes (still_editable i) orders found)))
      orders (find_first-Distinct (λ o. o.id) _ i orders (λ y h. ground arith) ids found)

-- Other requests may run between the edit's read, on `db`, and its transaction, on `met`. If they
-- leave the order's live lines as they were, then after an edit that succeeds the order's stored
-- total is the sum, over the lines of the order that are not voided, of unit price times quantity.
-- Rows have unique ids, and no item is named by two lines of the input.
pub edit_write-total :
    (staff : StaffClaims) (now i : ℕ) (lines : List EditLine) (db met db' : Db) (plan : EditPlan)
    → DistinctIds met.orders
    → DistinctItems met.items
    → DistinctLines lines
    → live_items i met.items ≡ live_items i db.items
    → edit_write staff now (edit_read staff.venue_id i lines db) met ≡ (db', done plan)
    → All (λ o. o.id ≡ i → o.total_kurus ≡ sum_by line_total (live_items i db'.items)) db'.orders
edit_write-total staff now i lines db met db' plan ids item_ids once unchanged e =
    let (read, c) = edit_write-eq-done staff now _ plan met db' e in
    let (o, found, p) = edit_read-eq-done staff.venue_id i lines db plan read in
    let o_id : o.id ≡ i = ground (
      arith,
      find_first_passes (λ x. order_is i x && (x.venue_id == staff.venue_id)) db.orders found,
    ) in
    let plan_id : plan.order.id ≡ i = ap (λ x. x.id) p.order ∙ o_id in
    rw (c.orders, plan_id, value o o_id p c)
      (orders_written i (sum_by line_total (live_items i db'.items)) met.orders ids
        (rw plan_id at c.there))
  where
    value :
        (o : Order)
        → o.id ≡ i
        → IsPlanned db.items lines o plan
        → IsCommitted now plan met db'
        → plan.total_kurus ≡ sum_by line_total (live_items i db'.items)
    value o k p c =
        let edits : edits_of (live_items i met.items) lines ≡ some plan.edits =
          rw (unchanged, ← k) p.edits in
        p.total
        ∙ total_after_remaining lines (live_items o.id db.items)
        ∙ rw (k, ← unchanged) (total_after-share i met.items lines plan.edits item_ids once edits)
        ∙ sum_by-write_lines now i plan.edits met.items db'.items c.lines
            (edits_of-DistinctEdits _ lines plan.edits edits once)
            (All-Fits i met.items lines plan.edits item_ids once edits)
        ∙ share_done i db'.items
