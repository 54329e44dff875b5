-- ===== src/Reporting/Takings.antt =====
-- What a settlement (`settleVisit` of src/lib/visit.ts) does to the day's figures
-- (src/lib/reporting.ts).
use mathlib.Core.Path.{ap₂}
use restaurant_app.Prelude.{
  ℕ, suc, ◌≤◌, ◌<◌, ◌≡◌, ◌≢◌, refl, sym, ◌∙◌, ap, inl, inr, Bool, true, false, ◌&&◌, List, [], ◌∷◌,
  some, none, String, arith, ◌==◌, if◌then◌else◌, find_many, find_first, count, update_many, any,
  length, Bool-cases, str_eq,
}
use restaurant_app.Schema.{Db, TableVisit}
use restaurant_app.Schema.Status.{is_closed}
use restaurant_app.Bill.{is_visit}
use restaurant_app.Visit.{Payment, settled, settle_visit, close_settled, still_open}
use restaurant_app.Visit.Settlement.{
  settle_visit-IsSettled, settle_visit-items, settle_visit-orders,
}
use restaurant_app.Reporting.{
  PeriodReport, period_report, is_taken, amount_of, text_is, sold_in, sum_qty,
}
use restaurant_app.Prelude.Int.{+ℤ_assoc, +ℤ_zero, +ℤ_comm, ℤ, pos, ◌+ℤ◌, sum_by, int_laws}
use restaurant_app.Prelude.Rows.{
  Distinct, All-mono, update_many_none, find_first-All, find_first_passes,
}
use restaurant_app.Prelude.Keys.{find_many_ext}
use restaurant_app.Prelude.Sums.{sum_by-find_many}

module _ {A : Type 0} (key : A → ℕ) (q p : A → Bool) (g : A → A) (i : ℕ) where
  -- A write to the one row with a key changes a sum by that row's change.
  pub sum_by-update_one :
      (f : A → ℤ) (xs : List A) {x : A}
      → ((y : A) → q y ≡ true → key y ≡ i)
      → ((y : A) → p y ≡ true → key y ≡ i)
      → Distinct key xs
      → find_first q xs ≡ some x
      → p x ≡ true
      → sum_by f (update_many p g xs) +ℤ f x ≡ sum_by f xs +ℤ f (g x)
  unfolding find_first update_many
  sum_by-update_one f [] hq hp d e px = cc
  sum_by-update_one f (y ∷ ys) {x} hq hp (d, ds) e px = elim (Bool-cases (q y)) [
    | inl t ↦
        let same : y ≡ x = ground arith in
        let untouched : update_many p g ys ≡ ys =
          update_many_none p g ys (All-mono (λ z ne. other z (λ k. ne (hq y t ∙ sym k))) ys d) in
        rw (untouched, same, px) (omega int_laws)
    | inr t ↦
        let found : find_first q ys ≡ some x = ground arith in
        let ne = find_first-All (λ z. key y ≢ key z) q ys d found in
        let miss = other y (λ k. ne (k ∙ sym (hq x (find_first_passes q ys found)))) in
        let rest = sum_by-update_one f ys hq hp ds found px in
        rw miss (
          +ℤ_assoc (f y) (sum_by f (update_many p g ys)) (f x)
          ∙ ap (◌+ℤ◌ (f y)) rest
          ∙ sym (+ℤ_assoc (f y) (sum_by f ys) (f (g x))))
  ]
    where
      other : (z : A) → ¬ (key z ≡ i) → p z ≡ false
      other z ne = elim (Bool-cases (p z)) [ inl h ↦ absurd (ne (hp z h)) | inr h ↦ h ]

pos-length : {A : Type 0} (xs : List A) → pos (length xs) ≡ sum_by (λ _. pos 1) xs
pos-length [] = refl
pos-length (x ∷ xs) = rw (sym (pos-length xs)) (unfold ◌+ℤ◌ in ground arith)

module _ {A : Type 0} (q p : A → Bool) (f : A → A) (same : (x : A) → q (f x) ≡ q x) where
  count-update_many_same : (xs : List A) → count q (update_many p f xs) ≡ count q xs
  unfolding count update_many
  count-update_many_same [] = refl
  count-update_many_same (x ∷ xs) = ground (arith, same x, count-update_many_same xs)

  any-update_many_same : (xs : List A) → any q (update_many p f xs) ≡ any q xs
  unfolding update_many
  any-update_many_same [] = refl
  any-update_many_same (x ∷ xs) = ground (arith, same x, any-update_many_same xs)

abbrev pub taken_amount : Payment → ℤ → ℤ
taken_amount p total = elim p.paid_amount_kurus [ none ↦ total | some paid ↦ paid ]

module _ (now i venue from to : ℕ) (p : Payment) (total : ℤ) (v : TableVisit) where
  was_not_taken : is_closed v.status ≡ false → is_taken venue from to v ≡ false
  unfolding is_taken
  was_not_taken h = ground (arith, h)

  is_taken_now :
      v.venue_id ≡ venue
      → from ≤ now
      → now < to
      → is_taken venue from to (close_settled now p total v) ≡ true
  unfolding is_taken
  is_taken_now h l u = ground (arith, h, l, u)

  -- A sum over the visits that were settled in the period grows by the visit's share of it.
  sum_by-taken :
      (h : TableVisit → ℤ) (visits : List TableVisit)
      → Distinct (λ v. v.id) visits
      → find_first (λ v. is_visit i v && (v.venue_id == venue)) visits ≡ some v
      → is_closed v.status ≡ false
      → from ≤ now
      → now < to
      → sum_by h (
          find_many
            (is_taken venue from to)
            (update_many (still_open i) (close_settled now p total) visits))
        ≡ sum_by h (find_many (is_taken venue from to) visits) +ℤ h (close_settled now p total v)
  sum_by-taken h visits d e o l u =
      let t = is_taken venue from to in
      let f : TableVisit → ℤ = λ w. if t w then h w else pos 0 in
      let passes = find_first_passes _ visits e in
      let g = close_settled now p total in
      let one =
        sum_by-update_one (λ v. v.id) _ (still_open i) g i f visits (λ y k. ground (arith, k))
          (λ y k. ground (arith, k)) d e (ground (arith, passes, o)) in
      let before : f v ≡ pos 0 = rw (was_not_taken o) refl in
      let after : f (g v) ≡ h (g v) = rw (is_taken_now (ground (arith, passes)) l u) refl in
      sum_by-find_many h t (update_many (still_open i) g visits)
      ∙ sym (+ℤ_zero _)
      ∙ +ℤ_comm _ _
      ∙ ap (◌+ℤ◌ _) (sym before)
      ∙ one
      ∙ ap₂ ◌+ℤ◌ (sym (sum_by-find_many h t visits)) after

-- What the figures `r'` have on top of `r` after a settlement.
pub record TakesIn (p : Payment) (amount : ℤ) (r r' : PeriodReport) : Type 0 where
  pub takings : r'.settled_kurus ≡ r.settled_kurus +ℤ amount
  pub cash :
      r'.cash_kurus ≡ r.cash_kurus +ℤ (if str_eq p.payment_method "cash" then amount else pos 0)
  pub card :
      r'.card_kurus ≡ r.card_kurus +ℤ (if str_eq p.payment_method "card" then amount else pos 0)
  pub visits : r'.settled_visits ≡ suc r.settled_visits
  pub orders_placed : r'.orders_placed ≡ r.orders_placed
  pub orders_rejected : r'.orders_rejected ≡ r.orders_rejected
  pub items_sold : r'.items_sold ≡ r.items_sold

suc_of_pos : (a b : ℕ) → pos a ≡ pos b +ℤ pos 1 → a ≡ suc b
unfolding ◌+ℤ◌
suc_of_pos a b h = ground (arith, h)

-- A settlement that succeeds within a period adds to the figures of the period one visit and the
-- amount that was paid, or the bill's total if none is given, in the column of its payment method,
-- and leaves the kitchen's figures as they are. Visits have distinct ids.
pub settle_visit-TakesIn :
    (now i venue : ℕ) (p : Payment) (db db' : Db) (total : ℤ) (from to : ℕ)
    → Distinct (λ v. v.id) db.visits
    → from ≤ now
    → now < to
    → settle_visit now i venue p db ≡ (db', settled total)
    → TakesIn p
        (taken_amount p total)
        (period_report venue from to db)
        (period_report venue from to db')
unfolding period_report
settle_visit-TakesIn now i venue p db db' total from to d l u e =
    let s = settle_visit-IsSettled now i venue p db db' total e in
    let written = settle_visit-orders now i venue p db db' total e in
    let raised = λ (h : TableVisit → ℤ).
      sum_by-taken now i venue from to p total s.visit h db.visits d s.there s.was_open l u in
    let grows = λ (h : TableVisit → ℤ).
      ap (λ vs. sum_by h (find_many (is_taken venue from to) vs)) s.visits ∙ raised h in
    let by = λ (k : String).
      sum_by-find_many amount_of (λ v. text_is k v.payment_method)
        (find_many (is_taken venue from to) db'.visits)
      ∙ grows (λ v. if text_is k v.payment_method then amount_of v else pos 0)
      ∙ ap (λ a. a +ℤ (if str_eq p.payment_method k then taken_amount p total else pos 0))
          (sym (
            sum_by-find_many amount_of (λ v. text_is k v.payment_method)
              (find_many (is_taken venue from to) db.visits))) in
    record {
      takings = grows amount_of;
      cash = by "cash";
      card = by "card";
      visits =
          suc_of_pos _ _
            (pos-length _ ∙ grows (λ _. pos 1) ∙ ap (λ a. a +ℤ pos 1) (sym (pos-length _)));
      orders_placed = ap (count _) written ∙ count-update_many_same _ _ _ (λ o. refl) db.orders;
      orders_rejected = ap (count _) written ∙ count-update_many_same _ _ _ (λ o. refl) db.orders;
      items_sold = ap sum_qty (
          find_many_ext _ (sold_in venue from to db.orders)
            (λ it. ap (any _) written ∙ any-update_many_same _ _ _ (λ o. refl) db.orders) db'.items
          ∙ ap (find_many _) (settle_visit-items now i venue p db db' total e));
    }
