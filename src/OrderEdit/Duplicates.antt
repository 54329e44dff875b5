-- ===== src/OrderEdit/Duplicates.antt =====
-- An input that names one item twice. The total is computed from the first line about an item, the
-- rows are written by every line that asks for a change (src/lib/orderEdit.ts).
use restaurant_app.Prelude.{
  ℕ, ◌<◌, ◌≡◌, refl, sym, not, ◌∙◌, inl, inr, Bool, true, false, ◌&&◌, List, [], ◌∷◌, map, some,
  arith, All, ◌==◌, find_many, find_first, count, update_many, Bool-cases,
}
use restaurant_app.Prelude.Int.{pos, ◌+ℤ◌, ◌*ℤ◌}
use restaurant_app.Prelude.Rows.{find_first-Distinct, All-mono}
use restaurant_app.Prelude.Keys.{find_first-find_many}
use restaurant_app.Schema.{Db, Order, OrderItem}
use restaurant_app.Api.{StaffClaims}
use restaurant_app.OrderStatus.{order_is}
use restaurant_app.OrderStatus.Lifecycle.{DistinctIds}
use restaurant_app.OrderEdit.{
  editable, EditLine, LineEdit, EditPlan, done, item_is, live_of, live_items, unchanged_since,
  write_qty, edits_of, qty_after, plan_lines, plan_order, edit_read, write_lines, still_editable,
  set_total, commit_written, edit_commit, finish, edit_write, edit_order,
}
use restaurant_app.OrderEdit.Laws.{DistinctItems, orders_written}

abbrev pub twice_named : OrderItem → ℕ → List EditLine
twice_named it less =
    record { item_id = it.id; qty = it.qty } ∷ record { item_id = it.id; qty = less } ∷ []

All-both :
    {A : Type 0} {P Q R : A → Type 0}
    → ((y : A) → P y → Q y → R y)
    → (xs : List A) → All P xs
    → All Q xs
    → All R xs
All-both f [] h k = tt
All-both f (y ∷ ys) (h, hs) (k, ks) = (f y h k, All-both f ys hs ks)

module _ {A : Type 0} (p q : A → Bool) where
  All-find_many_none : (xs : List A) → find_many p xs ≡ [] → All (λ y. p y ≡ false) xs
  unfolding find_many
  All-find_many_none [] e = tt
  All-find_many_none (y ∷ ys) e = elim (Bool-cases (p y)) [
    | inl h ↦ cc (rw h at e)
    | inr h ↦ (h, All-find_many_none ys (rw h at e))
  ]

  -- The only row that a search finds.
  All-find_many_one :
      (xs : List A) {x : A} → find_many p xs ≡ x ∷ [] → All (λ y. p y ≡ true → y ≡ x) xs
  unfolding find_many
  All-find_many_one [] e = tt
  All-find_many_one (y ∷ ys) {x} e = elim (Bool-cases (p y)) [
    | inl h ↦
        let e' : y ∷ find_many p ys ≡ x ∷ [] = rw h at e in
        (
          λ _. ground arith,
          All-mono {P = λ z. p z ≡ false} {Q = λ z. p z ≡ true → z ≡ x} (λ z no yes. cc) ys
              (All-find_many_none ys (ground arith)),
        )
    | inr h ↦ (λ yes. cc, All-find_many_one ys (rw h at e))
  ]

  find_many_passes : (xs : List A) {x : A} → find_many p xs ≡ x ∷ [] → p x ≡ true
  unfolding find_many
  find_many_passes [] e = cc
  find_many_passes (y ∷ ys) {x} e = elim (Bool-cases (p y)) [
    | inl h ↦ let e' : y ∷ find_many p ys ≡ x ∷ [] = rw h at e in ground arith
    | inr h ↦ find_many_passes ys (rw h at e)
  ]

  count-find_many :
      (xs : List A) {x : A} → find_many p xs ≡ x ∷ [] → q x ≡ true → (count q xs == 0) ≡ false
  unfolding find_many count
  count-find_many [] e k = cc
  count-find_many (y ∷ ys) {x} e k = elim (Bool-cases (p y)) [
    | inl h ↦ let e' : y ∷ find_many p ys ≡ x ∷ [] = rw h at e in ground arith
    | inr h ↦ let rest = count-find_many ys {x = x} (rw h at e) k in ground (arith, rest)
  ]

  count-find_first :
      (xs : List A) {x : A} → find_first p xs ≡ some x → q x ≡ true → (count q xs == 0) ≡ false
  unfolding find_first count
  count-find_first [] e k = cc
  count-find_first (y ∷ ys) {x} e k = elim (Bool-cases (p y)) [
    | inl h ↦ let e' : some y ≡ some x = rw h at e in ground arith
    | inr h ↦ let rest = count-find_first ys {x = x} (rw h at e) k in ground (arith, rest)
  ]

  find_many-update_many_same :
      (f : A → A) (xs : List A)
      → All
          (λ y.
            (p y ≡ true → q y ≡ true) × (q y ≡ true → p y ≡ true) × (q y ≡ true → p (f y) ≡ true))
          xs
      → find_many p (update_many q f xs) ≡ map f (find_many p xs)
  unfolding find_many update_many
  find_many-update_many_same f [] h = refl
  find_many-update_many_same f (y ∷ ys) (h, hs) =
      ground (arith, h.0, h.1, h.2, find_many-update_many_same f ys hs)

module _ (less : ℕ) (it : OrderItem) (some_left : 0 < less) (lt : less < it.qty) where
  twice_edit : LineEdit
  twice_edit = record { id = it.id; name = it.name_snapshot; from_qty = it.qty; to_qty = less }

  twice_plan : Order → Bool → EditPlan
  twice_plan o printed = record {
    order = o;
    edits = twice_edit ∷ [];
    total_kurus = it.unit_price_kurus *ℤ pos it.qty +ℤ pos 0;
    after_print = printed;
  }

  twice_edits : edits_of (it ∷ []) (twice_named it less) ≡ some (twice_edit ∷ [])
  unfolding edits_of find_first twice_edit
  twice_edits = ground (arith, some_left, lt)

  twice_planned :
      (o : Order) (printed : Bool)
      → plan_lines o printed (it ∷ []) (twice_named it less) (some (twice_edit ∷ []))
        ≡ done (twice_plan o printed)
  unfolding plan_lines find_many find_first qty_after twice_plan twice_edit
  twice_planned o printed = ground (arith, some_left, lt)

  module _ (staff : StaffClaims) (now : ℕ) (db : Db) (o : Order)
      (found : find_first (λ x. order_is o.id x && (x.venue_id == staff.venue_id)) db.orders
        ≡ some o)
      (open_status : editable o.status ≡ true) (live : live_items o.id db.items ≡ it ∷ []) where
    printed : Bool
    printed = not (count (λ d. d.order_id == o.id) db.deliveries == 0)

    twice_read :
        edit_read staff.venue_id o.id (twice_named it less) db ≡ done (twice_plan o printed)
    unfolding edit_read plan_order printed
    twice_read = rw (found, open_status, live, twice_edits) (twice_planned o printed)

    it_live : live_of o.id it ≡ true
    it_live = find_many_passes (live_of o.id) (live_of o.id) db.items live

    counted : (count (unchanged_since twice_edit) db.items == 0) ≡ false
    counted =
        count-find_many (live_of o.id) (unchanged_since twice_edit) db.items live
          (unfold twice_edit in ground (arith, it_live))

    open_counted : (count (still_editable o.id) db.orders == 0) ≡ false
    open_counted =
        count-find_first (λ x. order_is o.id x && (x.venue_id == staff.venue_id))
          (still_editable o.id) db.orders found (ground (arith, open_status))

    twice_written :
        let db' = (edit_order staff now o.id (twice_named it less) db).0 in
        (db'.orders
          ≡ update_many
              (still_editable o.id)
              (set_total (it.unit_price_kurus *ℤ pos it.qty +ℤ pos 0))
              db.orders)
        × (db'.items ≡ update_many (unchanged_since twice_edit) (write_qty now less) db.items)
    unfolding edit_order edit_write edit_commit finish commit_written write_lines twice_plan
        twice_edit
    twice_written = rw (twice_read, counted, open_counted) (refl, refl)

    live_after :
        DistinctItems db.items
        → live_items o.id (update_many (unchanged_since twice_edit) (write_qty now less) db.items)
          ≡ record it { qty = less } ∷ []
    live_after ids =
        find_many-update_many_same (live_of o.id) (unchanged_since twice_edit) (write_qty now less)
          db.items
          (All-both only db.items (All-find_many_one (live_of o.id) (live_of o.id) db.items live) (
            find_first-Distinct (λ y. y.id) _ it.id db.items (λ y h. ground arith) ids
              (sym (find_first-find_many (item_is it.id) (live_of o.id) db.items)
                ∙ rw live (unfold find_first in ground arith))))
        ∙ rw live (ground (arith, some_left))
      where
        only :
            (y : OrderItem)
            → (live_of o.id y ≡ true → y ≡ it)
            → (y.id ≡ it.id → y ≡ it)
            → (live_of o.id y ≡ true → unchanged_since twice_edit y ≡ true)
              × (unchanged_since twice_edit y ≡ true → live_of o.id y ≡ true)
              × (unchanged_since twice_edit y ≡ true → live_of o.id (write_qty now less y) ≡ true)
        only y of_live of_id =
            unfold twice_edit in
            (
              λ h. rw (of_live h) (ground (arith, it_live)),
              λ h. rw (of_id (ground (arith, h))) it_live,
              λ h. rw (of_id (ground (arith, h))) (ground (arith, it_live, some_left)),
            )

-- If the order, of the venue and not closed, has one line that is not voided, `q` of it, and the input
-- says "`q` of it" and then "fewer of it", but not none, that line has the lower quantity afterwards,
-- but the stored total of the order is still that of `q`. Rows have unique ids.
pub edit_order-twice_named :
    (staff : StaffClaims) (now less : ℕ) (db : Db) (o : Order) (it : OrderItem)
    → DistinctIds db.orders
    → DistinctItems db.items
    → find_first (λ x. order_is o.id x && (x.venue_id == staff.venue_id)) db.orders ≡ some o
    → editable o.status ≡ true
    → live_items o.id db.items ≡ it ∷ []
    → 0 < less
    → less < it.qty
    → let db' = (edit_order staff now o.id (twice_named it less) db).0 in
      (live_items o.id db'.items ≡ record it { qty = less } ∷ [])
      × All
          (λ x. x.id ≡ o.id → x.total_kurus ≡ it.unit_price_kurus *ℤ pos it.qty +ℤ pos 0)
          db'.orders
edit_order-twice_named staff now less db o it ids item_ids found open_status live some_left lt =
    let (orders, items) =
      twice_written less it some_left lt staff now db o found open_status live in
    (
      rw items (live_after less it some_left lt staff now db o found open_status live item_ids),
      rw orders (
          orders_written o.id _ db.orders ids
            (open_counted less it some_left lt staff now db o found open_status live)),
    )
