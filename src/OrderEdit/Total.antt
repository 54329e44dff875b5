-- ===== src/OrderEdit/Total.antt =====
-- The order's stored total after an edit is the sum of its live lines.
use mathlib.Core.Path.{ap₂}
use native.Mathlib.Decide.{ℕ_discrete}
use restaurant_app.Prelude.{
  ℕ, ◌≡◌, ◌≢◌, refl, ap, ◌∙◌, inl, inr, true, List, [], ◌∷◌, none, some, arith, All, find_first,
  update_many, Bool-cases, ◌==◌, if◌then◌else◌,
}
use restaurant_app.Prelude.Int.{sum_by, ℤ, pos, ◌+ℤ◌, ◌*ℤ◌, *ℤ_zero}
use restaurant_app.Prelude.Rows.{All-mono}
use restaurant_app.Schema.{OrderItem}
use restaurant_app.OrderEdit.{LineEdit, is_live, live_of, unchanged_since, write_qty, write_lines}
use restaurant_app.OrderEdit.Plan.{edit_for, edit_for_absent, target, DistinctEdits}

-- What a row will add to the order's total once the edits are written; a row that is voided or
-- belongs to another order adds nothing.
abbrev pub share : ℕ → List LineEdit → OrderItem → ℤ
share i es it = if live_of i it then it.unit_price_kurus *ℤ pos (target es it) else pos 0

-- A live row that an edit is about has the quantity that the edit was computed from.
abbrev pub Fits : LineEdit → OrderItem → Type 0
Fits e it = is_live it ≡ true → it.id ≡ e.id → it.qty ≡ e.from_qty

abbrev written : ℕ → LineEdit → OrderItem → OrderItem
written now e it = if unchanged_since e it then write_qty now e.to_qty it else it

share-written_hit :
    (now i : ℕ) (e : LineEdit) (es : List LineEdit) (it : OrderItem)
    → it.id ≡ e.id
    → Fits e it
    → edit_for es it ≡ none
    → share i (e ∷ es) it ≡ share i es (written now e it)
unfolding find_first
share-written_hit now i e es it k f a = elim (Bool-cases (e.to_qty == 0)) [
  | inl z ↦ ground (arith, f, a, *ℤ_zero it.unit_price_kurus)
  | inr z ↦ ground (arith, f, a)
]

share-written_miss :
    (now i : ℕ) (e : LineEdit) (es : List LineEdit) (it : OrderItem)
    → it.id ≢ e.id
    → share i (e ∷ es) it ≡ share i es (written now e it)
unfolding find_first
share-written_miss now i e es it k = ground arith

share-written :
    (now i : ℕ) (e : LineEdit) (es : List LineEdit) (it : OrderItem)
    → All (λ g. e.id ≢ g.id) es
    → Fits e it
    → share i (e ∷ es) it ≡ share i es (written now e it)
share-written now i e es it a f = elim (ℕ_discrete it.id e.id) [
  | yes k ↦ share-written_hit now i e es it k f (edit_for_absent es it (rw k a))
  | no k ↦ share-written_miss now i e es it k
]

abbrev pub written_rows : ℕ → LineEdit → List OrderItem → List OrderItem
written_rows now e = update_many (unchanged_since e) (write_qty now e.to_qty)

sum_by-written :
    (now i : ℕ) (e : LineEdit) (es : List LineEdit) (items : List OrderItem)
    → All (λ g. e.id ≢ g.id) es
    → All (Fits e) items
    → sum_by (share i (e ∷ es)) items ≡ sum_by (share i es) (written_rows now e items)
unfolding update_many
sum_by-written now i e es [] a f = refl
sum_by-written now i e es (it ∷ items) a (f, fs) =
    ap₂ ◌+ℤ◌ (share-written now i e es it a f) (sum_by-written now i e es items a fs)

-- A write leaves the rows of the later edits as those edits found them.
Fits-written :
    (now : ℕ) (e g : LineEdit) (it : OrderItem)
    → e.id ≢ g.id
    → Fits g it
    → Fits g (written now e it)
Fits-written now e g it ne f live same = ground (arith, ne, f)

All-Fits-written :
    (now : ℕ) (e : LineEdit) (es : List LineEdit) (it : OrderItem)
    → All (λ g. e.id ≢ g.id) es
    → All (λ g. Fits g it) es
    → All (λ g. Fits g (written now e it)) es
All-Fits-written now e [] it a f = tt
All-Fits-written now e (g ∷ es) it (a, as') (f, fs) =
    (Fits-written now e g it a f, All-Fits-written now e es it as' fs)

All-All-Fits-written :
    (now : ℕ) (e : LineEdit) (es : List LineEdit) (items : List OrderItem)
    → All (λ g. e.id ≢ g.id) es
    → All (λ it. All (λ g. Fits g it) es) items
    → All (λ it. All (λ g. Fits g it) es) (written_rows now e items)
unfolding update_many
All-All-Fits-written now e es [] a f = tt
All-All-Fits-written now e es (it ∷ items) a (f, fs) =
    (All-Fits-written now e es it a f, All-All-Fits-written now e es items a fs)

pub write_lines-cons :
    (now : ℕ) (e : LineEdit) (es : List LineEdit) (items items' : List OrderItem)
    → write_lines now (e ∷ es) items ≡ some items'
    → write_lines now es (written_rows now e items) ≡ some items'
unfolding write_lines
write_lines-cons now e es items items' h = ground arith

-- The loop of writes moves the shares into the rows.
pub sum_by-write_lines :
    (now i : ℕ) (es : List LineEdit) (items items' : List OrderItem)
    → write_lines now es items ≡ some items'
    → DistinctEdits es
    → All (λ it. All (λ g. Fits g it) es) items
    → sum_by (share i es) items ≡ sum_by (share i []) items'
sum_by-write_lines now i [] items items' h d f =
    unfold write_lines in ap (sum_by (share i [])) (ground arith)
sum_by-write_lines now i (e ∷ es) items items' h (a, d) f =
    sum_by-written now i e es items a
      (All-mono {P = λ it. Fits e it × All (λ g. Fits g it) es} {Q = Fits e} (λ it k. k.0) items f)
    ∙ sum_by-write_lines now i es (written_rows now e items) items'
        (write_lines-cons now e es items items' h) d
        (All-All-Fits-written now e es items a (
          All-mono {P = λ it. Fits e it × All (λ g. Fits g it) es}
            {Q = λ it. All (λ g. Fits g it) es} (λ it k. k.1) items f))
