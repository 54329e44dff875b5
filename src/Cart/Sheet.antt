-- ===== src/Cart/Sheet.antt =====
-- Taps on the options of an item: src/components/customer/ItemSheet.tsx.
use restaurant_app.Prelude.{
  ℕ, ◌≤◌, ◌≡◌, ◌≢◌, refl, sym, ◌∙◌, ap, inl, inr, Bool, true, false, not, ◌&&◌, List, [], ◌∷◌, ◌++◌,
  arith, leb, ◌==◌, find_many, count, includes_id, Bool-cases,
}
use restaurant_app.Prelude.Rows.{count_append}
use restaurant_app.Schema.{ModifierGroup, ModifierOption}
use restaurant_app.Cart.{in_group, toggle}
use restaurant_app.Cart.Totals.{NoRepeat}

count-find_many_le : (q p : ℕ → Bool) (is : List ℕ) → count q (find_many p is) ≤ count q is
unfolding count find_many
count-find_many_le q p [] = omega arith
count-find_many_le q p (i ∷ is) = ground (arith, count-find_many_le q p is)

count-find_many_zero :
    (q p : ℕ → Bool) (is : List ℕ)
    → ((i : ℕ) → p i ≡ true → q i ≡ false)
    → count q (find_many p is) ≡ 0
unfolding count find_many
count-find_many_zero q p [] h = refl
count-find_many_zero q p (i ∷ is) h = ground (arith, h i, count-find_many_zero q p is h)

count-find_many_same :
    (q p : ℕ → Bool) (is : List ℕ)
    → ((i : ℕ) → q i ≡ true → p i ≡ true)
    → count q (find_many p is) ≡ count q is
unfolding count find_many
count-find_many_same q p [] h = refl
count-find_many_same q p (i ∷ is) h = ground (arith, h i, count-find_many_same q p is h)

includes_id-find_many :
    (p : ℕ → Bool) (j : ℕ) (is : List ℕ)
    → includes_id is j ≡ false
    → includes_id (find_many p is) j ≡ false
unfolding find_many
includes_id-find_many p j [] h = refl
includes_id-find_many p j (i ∷ is) h = ground (arith, h, includes_id-find_many p j is)

includes_id-dropped :
    (p : ℕ → Bool) (j : ℕ) (is : List ℕ) → p j ≡ false → includes_id (find_many p is) j ≡ false
unfolding find_many
includes_id-dropped p j [] h = refl
includes_id-dropped p j (i ∷ is) h = elim (Bool-cases (p i)) [
  | inr e ↦ rw e (includes_id-dropped p j is h)
  | inl e ↦ rw e (
      ground (
        arith,
        other (λ same. absurd (true-ne (sym e ∙ ap p same ∙ h))),
        includes_id-dropped p j is h,
      ))
]
  where
    true-ne : true ≢ false
    true-ne z = cc

    other : ¬ (i ≡ j) → (i == j) ≡ false
    other ne = ground (arith, ne)

NoRepeat-find_many : (p : ℕ → Bool) (is : List ℕ) → NoRepeat is → NoRepeat (find_many p is)
unfolding find_many
NoRepeat-find_many p [] n = tt
NoRepeat-find_many p (i ∷ is) (new, n) = elim (Bool-cases (p i)) [
  | inl e ↦ rw e (includes_id-find_many p i is new, NoRepeat-find_many p is n)
  | inr e ↦ rw e (NoRepeat-find_many p is n)
]

includes_id-append :
    (is : List ℕ) (j k : ℕ)
    → includes_id is k ≡ false
    → (j == k) ≡ false
    → includes_id (is ++ j ∷ []) k ≡ false
includes_id-append [] j k h e = ground (arith, e)
includes_id-append (i ∷ is) j k h e = ground (arith, h, e, includes_id-append is j k)

NoRepeat-append :
    (is : List ℕ) (j : ℕ) → NoRepeat is → includes_id is j ≡ false → NoRepeat (is ++ j ∷ [])
NoRepeat-append [] j n h = (refl, tt)
NoRepeat-append (i ∷ is) j (new, n) h =
    (includes_id-append is j i new (ground (arith, h)), NoRepeat-append is j n (ground (arith, h)))

-- A choice that the sheet may hold: no option twice, and of the group at most as many as it allows.
abbrev pub IsWithin : ModifierGroup → List ℕ → Type 0
IsWithin g ids = NoRepeat ids × (count (in_group g) ids ≤ g.max_select)

module _ (g : ModifierGroup) (o : ModifierOption) (mine : in_group g o.id ≡ true) where
  cleared-IsWithin :
      (ids : List ℕ)
      → 1 ≤ g.max_select
      → NoRepeat ids
      → IsWithin g (find_many (λ i. not (in_group g i)) ids)
        × IsWithin g (find_many (λ i. not (in_group g i)) ids ++ o.id ∷ [])
  cleared-IsWithin ids l n =
      let none_left =
        count-find_many_zero (in_group g) (λ i. not (in_group g i)) ids
          (λ i h. ground (arith, h)) in
      let kept = NoRepeat-find_many (λ i. not (in_group g i)) ids n in
      (
        (kept, omega (arith, none_left)),
        (
          NoRepeat-append _ o.id kept
              (includes_id-dropped (λ i. not (in_group g i)) o.id ids (ground (arith, mine))),
          rw
              (
                count_append (in_group g) (find_many (λ i. not (in_group g i)) ids) o.id,
                mine,
                none_left,
              )
              l,
        ),
      )

  toggle-IsWithin : (ids : List ℕ) → 1 ≤ g.max_select → IsWithin g ids → IsWithin g (toggle g o ids)
  unfolding toggle
  toggle-IsWithin ids l (n, h) =
      let c = cleared-IsWithin ids l n in
      elim (Bool-cases (g.max_select == 1)) [
        | inl one ↦ elim (Bool-cases (includes_id ids o.id && (g.min_select == 0))) [
          | inl e ↦ rw (one, e) c.0
          | inr e ↦ rw (one, e) c.1
        ]
        | inr more ↦ elim (Bool-cases (includes_id ids o.id)) [
          | inl there ↦
              rw (more, there)
                (
                  NoRepeat-find_many _ ids n,
                  omega (arith, h, count-find_many_le (in_group g) (λ i. not (i == o.id)) ids),
                )
          | inr new ↦ elim (Bool-cases (leb g.max_select (count (in_group g) ids))) [
            | inl full ↦ rw (more, new, full) (n, h)
            | inr room ↦
                rw (more, new, room)
                  (
                    NoRepeat-append ids o.id n new,
                    rw (count_append (in_group g) ids o.id, mine) (ground (arith, room)),
                  )
          ]
        ]
      ]

  -- Another group's choices are left alone.
  toggle-others :
      (k : ModifierGroup) (ids : List ℕ)
      → ((i : ℕ) → in_group k i ≡ true → in_group g i ≡ false)
      → count (in_group k) (toggle g o ids) ≡ count (in_group k) ids
  unfolding toggle
  toggle-others k ids apart =
      let cleared =
        count-find_many_same (in_group k) (λ i. not (in_group g i)) ids
          (λ i h. ground (arith, apart i h)) in
      elim (Bool-cases (g.max_select == 1)) [
        | inl one ↦ elim (Bool-cases (includes_id ids o.id && (g.min_select == 0))) [
          | inl e ↦ rw (one, e) cleared
          | inr e ↦ rw (one, e) (added _ ∙ cleared)
        ]
        | inr more ↦ elim (Bool-cases (includes_id ids o.id)) [
          | inl there ↦
              rw (more, there)
                (count-find_many_same (in_group k) (λ i. not (i == o.id)) ids
                  (λ i h.
                    other_id i (λ same. true-ne-false (sym h ∙ ap (in_group k) same ∙ not_of_k))))
          | inr new ↦ elim (Bool-cases (leb g.max_select (count (in_group g) ids))) [
            | inl full ↦ rw (more, new, full) refl
            | inr room ↦ rw (more, new, room) (added ids)
          ]
        ]
      ]
    where
      not_of_k : in_group k o.id ≡ false
      not_of_k = elim (Bool-cases (in_group k o.id)) [
        | inl e ↦ absurd (ground (arith, apart o.id e, mine))
        | inr e ↦ e
      ]

      true-ne-false : true ≢ false
      true-ne-false z = cc

      other_id : (i : ℕ) → ¬ (i ≡ o.id) → not (i == o.id) ≡ true
      other_id i ne = ground (arith, ne)

      added : (is : List ℕ) → count (in_group k) (is ++ o.id ∷ []) ≡ count (in_group k) is
      added is = rw (count_append (in_group k) is o.id, not_of_k) (omega arith)

-- A tap on an option of a group that allows at least one keeps the choice sound: no option is named
-- twice, and the group has no more options than it allows; a group that shares no option with it
-- has as many as before.
pub toggle-Sound :
    (g : ModifierGroup) (o : ModifierOption) (ids : List ℕ)
    → in_group g o.id ≡ true
    → 1 ≤ g.max_select
    → IsWithin g ids
    → IsWithin g (toggle g o ids)
      × ((k : ModifierGroup)
          → ((i : ℕ) → in_group k i ≡ true → in_group g i ≡ false)
          → count (in_group k) (toggle g o ids) ≡ count (in_group k) ids)
toggle-Sound g o ids mine l h =
    (toggle-IsWithin g o mine ids l h, λ k apart. toggle-others g o mine k ids apart)
