-- ===== src/Prelude/Sums.antt =====
-- Sums over the rows of a list.
use mathlib.Core.Path.{ap₂}
use restaurant_app.Prelude.{
  ℕ, ◌≡◌, refl, sym, ap, ◌∙◌, inl, inr, Bool, List, [], ◌∷◌, ◌++◌, All, leb, if◌then◌else◌,
  find_many, order_by, insert_by, Bool-cases,
}
use restaurant_app.Prelude.Int.{ℤ, pos, ◌+ℤ◌, sum_by, +ℤ_zero, +ℤ_assoc, int_laws}

module _ {ℓ} {A : Type ℓ} (f : A → ℤ) where
  pub sum_by-append : (xs ys : List A) → sum_by f (xs ++ ys) ≡ sum_by f xs +ℤ sum_by f ys
  sum_by-append [] ys = sym (+ℤ_zero _)
  sum_by-append (x ∷ xs) ys =
      ap (◌+ℤ◌ (f x)) (sum_by-append xs ys) ∙ sym (+ℤ_assoc (f x) (sum_by f xs) (sum_by f ys))

  -- The order of the rows makes no difference.
  pub sum_by-order_by : (key : A → ℕ) (xs : List A) → sum_by f (order_by key xs) ≡ sum_by f xs
  unfolding order_by
  sum_by-order_by key [] = refl
  sum_by-order_by key (x ∷ xs) =
      inserted (order_by key xs) ∙ ap (◌+ℤ◌ (f x)) (sum_by-order_by key xs)
    where
      inserted : (ys : List A) → sum_by f (insert_by key x ys) ≡ f x +ℤ sum_by f ys
      inserted [] = refl
      inserted (y ∷ ys) = elim (Bool-cases (leb (key x) (key y))) [
        | inl e ↦ rw e refl
        | inr e ↦ rw (e, inserted ys) (omega int_laws)
      ]

module _ {ℓ} {A : Type ℓ} where
  pub sum_by-find_many :
      (f : A → ℤ) (p : A → Bool) (xs : List A)
      → sum_by f (find_many p xs) ≡ sum_by (λ x. if p x then f x else pos 0) xs
  unfolding find_many
  sum_by-find_many f p [] = refl
  sum_by-find_many f p (x ∷ xs) = elim (Bool-cases (p x)) [
    | inl e ↦ rw e (ap (◌+ℤ◌ (f x)) (sum_by-find_many f p xs))
    | inr e ↦ rw e (sum_by-find_many f p xs ∙ sym (+ℤ_zero _))
  ]

  pub sum_by-All : (f g : A → ℤ) (xs : List A) → All (λ x. f x ≡ g x) xs → sum_by f xs ≡ sum_by g xs
  sum_by-All f g [] h = refl
  sum_by-All f g (x ∷ xs) (h, hs) = ap₂ ◌+ℤ◌ h (sum_by-All f g xs hs)
