-- ===== src/OrderEdit/Conflicts.antt =====
-- Edits whose transaction runs after other requests have changed the database
-- (src/lib/orderEdit.ts): the plan is computed on `then_db`, and written on `db`.
use restaurant_app.Prelude.{
  ℕ, ◌<◌, ◌≤◌, ◌≡◌, ◌≢◌, refl, ap, ◌∙◌, true, false, List, [], ◌∷◌, some, arith, All, Pointwise,
  count, update_many,
}
use restaurant_app.Prelude.Rows.{
  All-mono, All-always, Pointwise-refl, Pointwise-trans, Pointwise-update_many,
}
use restaurant_app.Schema.{Db, OrderItem}
use restaurant_app.Api.{StaffClaims}
use restaurant_app.OrderEdit.{
  EditLine, LineEdit, EditPlan, done, is_live, unchanged_since, write_qty, write_lines, edit_read,
  edit_write,
}
use restaurant_app.OrderEdit.Plan.{
  DistinctLines, DistinctEdits, edits_of-DistinctEdits, edits_of-Lowers,
}
use restaurant_app.OrderEdit.Total.{written_rows, write_lines-cons}
use restaurant_app.OrderEdit.Commit.{edit_read-eq-done, edit_write-eq-done}

-- A row after corrections: no more of the item than before, at the same price; a voided row stays
-- as it was.
pub record NoMore (it it' : OrderItem) : Type 0 where
  pub same : it' ≡ record it { qty = it'.qty; voided_at = it'.voided_at }
  pub fewer : it'.qty ≤ it.qty
  pub voided : is_live it ≡ false → it' ≡ it

NoMore-refl : (it : OrderItem) → NoMore it it
NoMore-refl it = record { same = refl; fewer = omega arith; voided = λ _. refl }

NoMore-trans : (a b c : OrderItem) → NoMore a b → NoMore b c → NoMore a c
NoMore-trans a b c h k = record {
  same = ground (arith, h.same, k.same);
  fewer = omega (arith, h.fewer, k.fewer);
  voided = λ dead. trans_dead dead;
}
  where
    trans_dead : is_live a ≡ false → c ≡ a
    trans_dead dead = let e = h.voided dead in k.voided (ap is_live e ∙ dead) ∙ e

write_qty-NoMore :
    (now : ℕ) (e : LineEdit) (it : OrderItem)
    → e.to_qty < e.from_qty
    → unchanged_since e it ≡ true
    → NoMore it (write_qty now e.to_qty it)
write_qty-NoMore now e it lt u = record {
  same = ground arith;
  fewer = ground arith;
  voided = λ dead. ground arith;
}

write_lines-NoMore :
    (now : ℕ) (es : List LineEdit) (items items' : List OrderItem)
    → All (λ e. e.to_qty < e.from_qty) es
    → write_lines now es items ≡ some items'
    → Pointwise NoMore items items'
write_lines-NoMore now [] items items' lt w =
    let e : items ≡ items' = unfold write_lines in ground arith in
    rw (← e) (Pointwise-refl NoMore NoMore-refl items)
write_lines-NoMore now (e ∷ es) items items' (lt, lts) w =
    Pointwise-trans NoMore NoMore-trans items (written_rows now e items) items'
      (Pointwise-update_many NoMore NoMore-refl _ _ items
        (All-always (λ it u. write_qty-NoMore now e it lt u) items))
      (write_lines-NoMore now es (written_rows now e items) items' lts
        (write_lines-cons now e es items items' w))

-- No correction adds anything: after a successful one every item row is what it was, but that its
-- quantity may be lower and that it may be voided; and voided rows are never touched.
pub edit_write-NoMore :
    (staff : StaffClaims) (now i : ℕ) (lines : List EditLine) (then_db db db' : Db)
    (plan : EditPlan)
    → edit_write staff now (edit_read staff.venue_id i lines then_db) db ≡ (db', done plan)
    → Pointwise NoMore db.items db'.items
edit_write-NoMore staff now i lines then_db db db' plan e =
    let (read, c) = edit_write-eq-done staff now _ plan db db' e in
    let (o, found, p) = edit_read-eq-done staff.venue_id i lines then_db plan read in
    write_lines-NoMore now plan.edits db.items db'.items
      (All-mono (λ x l. l.3) plan.edits (edits_of-Lowers _ lines plan.edits p.edits)) c.lines

write_lines-count :
    (now : ℕ) (e : LineEdit) (es : List LineEdit) (items items' : List OrderItem)
    → write_lines now (e ∷ es) items ≡ some items'
    → count (unchanged_since e) items ≢ 0
unfolding write_lines
write_lines-count now e es items items' w z = ground (arith, z)

-- A write of another edit is not seen by the test of this one.
count-written_rows :
    (now : ℕ) (e g : LineEdit) (items : List OrderItem)
    → e.id ≢ g.id
    → count (unchanged_since g) (written_rows now e items) ≡ count (unchanged_since g) items
unfolding count update_many
count-written_rows now e g [] ne = refl
count-written_rows now e g (it ∷ items) ne = ground (arith, count-written_rows now e g items ne, ne)

abbrev pub StillThere : List OrderItem → LineEdit → Type 0
StillThere items e = count (unchanged_since e) items ≢ 0

StillThere-before :
    (now : ℕ) (e : LineEdit) (items : List OrderItem) (es : List LineEdit)
    → All (λ g. e.id ≢ g.id) es
    → All (StillThere (written_rows now e items)) es
    → All (StillThere items) es
StillThere-before now e items [] a h = tt
StillThere-before now e items (g ∷ es) (a, as') (h, hs) =
    ((λ z. h (count-written_rows now e g items a ∙ z)), StillThere-before now e items es as' hs)

write_lines-StillThere :
    (now : ℕ) (es : List LineEdit) (items items' : List OrderItem)
    → DistinctEdits es
    → write_lines now es items ≡ some items'
    → All (StillThere items) es
write_lines-StillThere now [] items items' d w = tt
write_lines-StillThere now (e ∷ es) items items' (a, d) w = (
  write_lines-count now e es items items' w,
  StillThere-before now e items es a (
      write_lines-StillThere now es (written_rows now e items) items' d
        (write_lines-cons now e es items items' w)),
)

-- No stale arithmetic: an edit succeeds only if every line it changes still exists, is not voided and
-- has the quantity that the edit was computed from, when its transaction runs. No item is named by
-- two lines of the input.
pub edit_write-StillThere :
    (staff : StaffClaims) (now i : ℕ) (lines : List EditLine) (then_db db db' : Db)
    (plan : EditPlan)
    → DistinctLines lines
    → edit_write staff now (edit_read staff.venue_id i lines then_db) db ≡ (db', done plan)
    → All (StillThere db.items) plan.edits
edit_write-StillThere staff now i lines then_db db db' plan once e =
    let (read, c) = edit_write-eq-done staff now _ plan db db' e in
    let (o, found, p) = edit_read-eq-done staff.venue_id i lines then_db plan read in
    write_lines-StillThere now plan.edits db.items db'.items
      (edits_of-DistinctEdits _ lines plan.edits p.edits once) c.lines
