-- ===== src/OrderEdit/Plan.antt =====
-- What `edit_read` decides to write, against the lines that were asked for.
use native.Mathlib.Decide.{ℕ_discrete}
use restaurant_app.Prelude.{
  ℕ, ◌<◌, ◌≡◌, ◌≢◌, refl, ◌∙◌, ◌⊎◌, inl, inr, false, List, [], ◌∷◌, Option, none, some, arith, All,
  find_first, ◌==◌, ==_iff,
}
use restaurant_app.Prelude.Rows.{Distinct, find_first_passes, All-mono}
use restaurant_app.Prelude.Keys.{find_first-none}
use restaurant_app.Schema.{OrderItem}
use restaurant_app.OrderEdit.{EditLine, LineEdit, edit_of, edit_line, item_is, qty_after, edits_of}

abbrev pub edit_for : List LineEdit → OrderItem → Option LineEdit
edit_for es it = find_first (λ e. e.id == it.id) es

abbrev to_or : Option LineEdit → ℕ → ℕ
to_or none q = q
to_or (some e) q = e.to_qty

-- The quantity of a line once the edits are written.
abbrev pub target : List LineEdit → OrderItem → ℕ
target es it = to_or (edit_for es it) it.qty

-- What a line of input has led to: the item it is about, and one edit or none.
abbrev Asked : List OrderItem → EditLine → List EditLine → List LineEdit → Type 0
Asked live l ls es =
    (rs : List LineEdit) × (edits_of live ls ≡ some rs)
    × (it : OrderItem) × (find_first (item_is l.item_id) live ≡ some it)
    × (((l.qty ≡ it.qty) × (es ≡ rs)) ⊎ ((l.qty < it.qty) × (es ≡ edit_of it l ∷ rs)))

edit_line-eq-some :
    (live : List OrderItem) (l : EditLine) (found : Option OrderItem)
    (rest : Option (List LineEdit)) (es : List LineEdit)
    → find_first (item_is l.item_id) live ≡ found
    → edit_line l found rest ≡ some es
    → (rs : List LineEdit) × (rest ≡ some rs)
      × (it : OrderItem) × (find_first (item_is l.item_id) live ≡ some it)
      × (((l.qty ≡ it.qty) × (es ≡ rs)) ⊎ ((l.qty < it.qty) × (es ≡ edit_of it l ∷ rs)))
unfolding edit_line
edit_line-eq-some live l none rest es f h = cc
edit_line-eq-some live l (some it) none es f h = cc
edit_line-eq-some live l (some it) (some rs) es f h = (rs, refl, it, f, ground arith)

edits_of-cons :
    (live : List OrderItem) (l : EditLine) (ls : List EditLine) (es : List LineEdit)
    → edits_of live (l ∷ ls) ≡ some es
    → Asked live l ls es
unfolding edits_of
edits_of-cons live l ls es h =
    let (rs, r, it, f, c) = edit_line-eq-some live l _ (edits_of live ls) es refl h in
    (rs, r, it, f, c)

edits_of-nil : (live : List OrderItem) (es : List LineEdit) → edits_of live [] ≡ some es → es ≡ []
unfolding edits_of
edits_of-nil live es h = ground arith

found_id :
    (live : List OrderItem) (l : EditLine) (it : OrderItem)
    → find_first (item_is l.item_id) live ≡ some it
    → it.id ≡ l.item_id
found_id live l it f = (==_iff _ _).0 (find_first_passes (item_is l.item_id) live f)

-- An item that no line is about has no edit.
edits_of_absent :
    (live : List OrderItem) (k : ℕ) (ls : List EditLine) (es : List LineEdit)
    → edits_of live ls ≡ some es
    → All (λ l. k ≢ l.item_id) ls
    → All (λ e. k ≢ e.id) es
edits_of_absent live k [] es h a = let e : es ≡ [] = edits_of-nil live es h in rw e tt
edits_of_absent live k (l ∷ ls) es h (a, as') =
    let (rs, r, it, f, c) = edits_of-cons live l ls es h in
    let ih = edits_of_absent live k ls rs r as' in
    elim c [
      | inl (q, e) ↦ rw e ih
      | inr (q, e) ↦ rw e ((λ same. a (same ∙ found_id live l it f)), ih)
    ]

abbrev pub DistinctLines : List EditLine → Type 0
DistinctLines = Distinct (λ l. l.item_id)

abbrev pub DistinctEdits : List LineEdit → Type 0
DistinctEdits = Distinct (λ e. e.id)

pub edits_of-DistinctEdits :
    (live : List OrderItem) (ls : List EditLine) (es : List LineEdit)
    → edits_of live ls ≡ some es
    → DistinctLines ls
    → DistinctEdits es
edits_of-DistinctEdits live [] es h d = rw (edits_of-nil live es h) tt
edits_of-DistinctEdits live (l ∷ ls) es h (d, ds) =
    let (rs, r, it, f, c) = edits_of-cons live l ls es h in
    let ih = edits_of-DistinctEdits live ls rs r ds in
    elim c [
      | inl (q, e) ↦ rw e ih
      | inr (q, e) ↦ rw e (rw (found_id live l it f) (edits_of_absent live l.item_id ls rs r d), ih)
    ]

-- Every edit lowers the quantity that its live item has.
abbrev pub Lowers : List OrderItem → LineEdit → Type 0
Lowers live e =
    (it : OrderItem) × (find_first (item_is e.id) live ≡ some it)
    × (it.qty ≡ e.from_qty)
    × (e.to_qty < e.from_qty)

pub edits_of-Lowers :
    (live : List OrderItem) (ls : List EditLine) (es : List LineEdit)
    → edits_of live ls ≡ some es
    → All (Lowers live) es
edits_of-Lowers live [] es h = rw (edits_of-nil live es h) tt
edits_of-Lowers live (l ∷ ls) es h =
    let (rs, r, it, f, c) = edits_of-cons live l ls es h in
    let ih = edits_of-Lowers live ls rs r in
    elim c [
      | inl (q, e) ↦ rw e ih
      | inr (q, e) ↦ rw e ((it, rw (found_id live l it f) f, refl, q), ih)
    ]

pub edit_for_absent :
    (es : List LineEdit) (it : OrderItem) → All (λ e. it.id ≢ e.id) es → edit_for es it ≡ none
edit_for_absent es it a =
    find_first-none (λ e. e.id == it.id) es
      (All-mono {P = λ e. it.id ≢ e.id} {Q = λ e. (e.id == it.id) ≡ false}
        (λ e ne. ground (arith, ne)) es a)

target_absent :
    (es : List LineEdit) (it : OrderItem) → All (λ e. it.id ≢ e.id) es → target es it ≡ it.qty
target_absent es it a = rw (edit_for_absent es it a)

target-qty_after_here :
    (l : EditLine) (ls : List EditLine) (rs es : List LineEdit) (it it' : OrderItem)
    → l.item_id ≡ it.id
    → it' ≡ it
    → target rs it ≡ it.qty
    → ((l.qty ≡ it'.qty) × (es ≡ rs)) ⊎ ((l.qty < it'.qty) × (es ≡ edit_of it' l ∷ rs))
    → target es it ≡ qty_after (l ∷ ls) it
unfolding qty_after find_first
target-qty_after_here l ls rs es it it' k s a (inl (q, e)) = rw e (ground arith)
target-qty_after_here l ls rs es it it' k s a (inr (q, e)) = rw e (ground arith)

target-qty_after_there :
    (l : EditLine) (ls : List EditLine) (rs es : List LineEdit) (it it' : OrderItem)
    → l.item_id ≢ it.id
    → it'.id ≡ l.item_id
    → target rs it ≡ qty_after ls it
    → ((l.qty ≡ it'.qty) × (es ≡ rs)) ⊎ ((l.qty < it'.qty) × (es ≡ edit_of it' l ∷ rs))
    → target es it ≡ qty_after (l ∷ ls) it
unfolding qty_after find_first
target-qty_after_there l ls rs es it it' k s ih (inl (q, e)) = rw e (ground arith)
target-qty_after_there l ls rs es it it' k s ih (inr (q, e)) = rw e (ground arith)

-- With one line for an item at most, the edits bring every live item to what its line says.
pub target-qty_after :
    (live : List OrderItem) (ls : List EditLine) (es : List LineEdit) (it : OrderItem)
    → edits_of live ls ≡ some es
    → DistinctLines ls
    → find_first (item_is it.id) live ≡ some it
    → target es it ≡ qty_after ls it
target-qty_after live [] es it h d s =
    rw (edits_of-nil live es h) (unfold qty_after find_first in refl)
target-qty_after live (l ∷ ls) es it h (d, ds) s =
    let (rs, r, it', f, c) = edits_of-cons live l ls es h in
    elim (ℕ_discrete l.item_id it.id) [
      | yes k ↦
          let absent = edits_of_absent live l.item_id ls rs r d in
          target-qty_after_here l ls rs es it it' k (same k it' f)
            (target_absent rs it (rw (← k) absent)) c
      | no k ↦
          target-qty_after_there l ls rs es it it' k (found_id live l it' f)
            (target-qty_after live ls rs it r ds s) c
    ]
  where
    same :
        l.item_id ≡ it.id → (x : OrderItem) → find_first (item_is l.item_id) live ≡ some x → x ≡ it
    same k x f = let f' : find_first (item_is it.id) live ≡ some x = rw (← k) f in ground arith
