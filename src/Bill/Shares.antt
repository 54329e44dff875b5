-- ===== src/Bill/Shares.antt =====
-- The total of a bill: by lines, by phones, and by the stored totals of the orders
-- (src/lib/visit.ts).
use mathlib.Core.Path.{ap₂}
use restaurant_app.Prelude.{
  ℕ, suc, ◌≡◌, refl, sym, ap, ◌∙◌, List, [], ◌∷◌, map, some, arith, ◌==◌, All, find_many,
  find_first, Bool-cases, Option-cases, inl, inr,
}
use restaurant_app.Prelude.Int.{ℤ, pos, ◌+ℤ◌, sum_by, +ℤ_zero, +ℤ_comm, int_laws}
use restaurant_app.Prelude.Rows.{All-find_many}
use restaurant_app.Prelude.Sums.{sum_by-append, sum_by-order_by, sum_by-All}
use restaurant_app.Schema.{Db, Order, OrderItem, TableVisit}
use restaurant_app.OrderEdit.{live_items, line_total}
use restaurant_app.Bill.{
  Bill, is_visit, owed, owed_orders, line_of, lines_of, order_due, Share, add_share, shares_of,
  phones_from, bill_of, bill_found, build_bill,
}

pub sum_by-lines_of :
    (items : List OrderItem) (orders : List Order)
    → sum_by (λ l. l.line_total_kurus) (lines_of items orders) ≡ sum_by (order_due items) orders
sum_by-lines_of items [] = refl
sum_by-lines_of items (o ∷ os) =
    sum_by-append (λ l. l.line_total_kurus) (map line_of (live_items o.id items))
      (lines_of items os)
    ∙ ap₂ ◌+ℤ◌ (of_lines (live_items o.id items)) (sum_by-lines_of items os)
  where
    of_lines :
        (its : List OrderItem)
        → sum_by (λ l. l.line_total_kurus) (map line_of its) ≡ sum_by line_total its
    of_lines [] = refl
    of_lines (it ∷ its) = ap (◌+ℤ◌ (line_total it)) (of_lines its)

sum_by-add_share :
    (session : ℕ) (amount : ℤ) (shares : List Share)
    → sum_by (λ s. s.total_kurus) (add_share session amount shares)
      ≡ sum_by (λ s. s.total_kurus) shares +ℤ amount
unfolding add_share
sum_by-add_share session amount [] = +ℤ_comm amount (pos 0)
sum_by-add_share session amount (s ∷ shares) = elim (Bool-cases (s.session_id == session)) [
  | inl e ↦ rw e (omega int_laws)
  | inr e ↦ rw (e, sum_by-add_share session amount shares) (omega int_laws)
]

sum_by-shares_of :
    (items : List OrderItem) (shares : List Share) (orders : List Order)
    → sum_by (λ s. s.total_kurus) (shares_of items shares orders)
      ≡ sum_by (λ s. s.total_kurus) shares +ℤ sum_by (order_due items) orders
unfolding shares_of
sum_by-shares_of items shares [] = omega int_laws
sum_by-shares_of items shares (o ∷ os) =
    sum_by-shares_of items (add_share o.session_id (order_due items o) shares) os
    ∙ rw (sum_by-add_share o.session_id (order_due items o) shares) (omega int_laws)

sum_by-phones_from :
    (k : ℕ) (shares : List Share)
    → sum_by (λ p. p.total_kurus) (phones_from k shares) ≡ sum_by (λ s. s.total_kurus) shares
unfolding phones_from
sum_by-phones_from k [] = refl
sum_by-phones_from k (s ∷ shares) = ap (◌+ℤ◌ s.total_kurus) (sum_by-phones_from (suc k) shares)

pub build_bill-eq-some :
    (i : ℕ) (db : Db) (b : Bill)
    → build_bill i db ≡ some b
    → (v : TableVisit) × (b ≡ bill_of db.items (owed_orders i db.orders) v)
unfolding build_bill bill_found
build_bill-eq-some i db b e = elim (Option-cases (find_first (is_visit i) db.visits)) [
  | inl none_there ↦ cc
  | inr (v, there) ↦ (v, ground (arith, e, there))
]

-- The shares of the phones add up to the bill.
pub build_bill-phones :
    (i : ℕ) (db : Db) (b : Bill)
    → build_bill i db ≡ some b
    → sum_by (λ p. p.total_kurus) b.phones ≡ b.total_kurus
build_bill-phones i db b e =
    let (v, is) = build_bill-eq-some i db b e in
    rw is (
      unfold bill_of in
      sum_by-phones_from 1 _
      ∙ sum_by-shares_of db.items [] (owed_orders i db.orders)
      ∙ +ℤ_zero _
      ∙ sym (sum_by-lines_of db.items (owed_orders i db.orders)))

-- If the stored total of every order is that of its live items, the bill is the sum of the stored
-- totals of the party's orders that are neither rejected nor cancelled.
pub build_bill-total :
    (i : ℕ) (db : Db) (b : Bill)
    → All (λ o. o.total_kurus ≡ order_due db.items o) db.orders
    → build_bill i db ≡ some b
    → b.total_kurus ≡ sum_by (λ o. o.total_kurus) (find_many (owed i) db.orders)
build_bill-total i db b h e =
    let (v, is) = build_bill-eq-some i db b e in
    rw is (
      unfold bill_of in
      sum_by-lines_of db.items (owed_orders i db.orders)
      ∙ sum_by-order_by (order_due db.items) (λ o. o.created_at) (find_many (owed i) db.orders)
      ∙ sym (sum_by-All _ _ _ (All-find_many _ (owed i) db.orders h)))
