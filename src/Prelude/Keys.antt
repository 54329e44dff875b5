-- ===== src/Prelude/Keys.antt =====
-- Tables whose rows have unique ids.
use restaurant_app.Prelude.{
  ℕ, ◌≡◌, ◌≢◌, refl, inl, inr, Bool, true, false, ◌&&◌, List, [], ◌∷◌, ◌++◌, none, some, arith, All,
  find_many, find_first, update_many, any, Bool-cases, ◌==◌,
}
use restaurant_app.Prelude.Rows.{Distinct, All-find_many, All-mono, All-always}

module _ {ℓ} {A : Type ℓ} where
  pub All-pair {κ ι} :
      (P : A → Type κ) (Q : A → Type ι) (xs : List A)
      → All P xs
      → All Q xs
      → All (λ x. P x × Q x) xs
  All-pair P Q [] h k = tt
  All-pair P Q (x ∷ xs) (h, hs) (k, ks) = ((h, k), All-pair P Q xs hs ks)

  -- A search among the rows that pass `p` is a search by both tests.
  pub find_first-find_many :
      (q p : A → Bool) (xs : List A)
      → find_first q (find_many p xs) ≡ find_first (λ x. p x && q x) xs
  unfolding find_first find_many
  find_first-find_many q p [] = refl
  find_first-find_many q p (x ∷ xs) = ground (arith, find_first-find_many q p xs)

  pub find_first-none :
      (p : A → Bool) (xs : List A) → All (λ x. p x ≡ false) xs → find_first p xs ≡ none
  unfolding find_first
  find_first-none p [] h = refl
  find_first-none p (x ∷ xs) (h, hs) = ground (arith, h, find_first-none p xs hs)

  -- Every row that a read returns passes its test.
  pub find_many_passes : (p : A → Bool) (xs : List A) → All (λ x. p x ≡ true) (find_many p xs)
  unfolding find_many
  find_many_passes p [] = tt
  find_many_passes p (x ∷ xs) = elim (Bool-cases (p x)) [
    | inl e ↦ rw e (e, find_many_passes p xs)
    | inr e ↦ rw e (find_many_passes p xs)
  ]

module _ {ℓ} {A : Type ℓ} (key : A → ℕ) where
  pub Distinct-find_many :
      (p : A → Bool) (xs : List A) → Distinct key xs → Distinct key (find_many p xs)
  unfolding find_many
  Distinct-find_many p [] d = tt
  Distinct-find_many p (x ∷ xs) (d, ds) = elim (Bool-cases (p x)) [
    | inl e ↦ rw e (All-find_many _ p xs d, Distinct-find_many p xs ds)
    | inr e ↦ rw e (Distinct-find_many p xs ds)
  ]

  -- Every row is the one that its id finds.
  pub find_first_self :
      (xs : List A) → Distinct key xs → All (λ x. find_first (λ y. key y == key x) xs ≡ some x) xs
  unfolding find_first
  find_first_self [] d = tt
  find_first_self (x ∷ xs) (d, ds) = (
    ground arith,
    All-mono {P = λ z. (key x ≢ key z) × (find_first (λ y. key y == key z) xs ≡ some z)}
        {Q = λ z. find_first (λ y. key y == key z) (x ∷ xs) ≡ some z} (λ z h. skip z h.0 h.1) xs
        (All-pair _ _ xs d (find_first_self xs ds)),
  )
    where
      skip :
          (z : A)
          → key x ≢ key z
          → find_first (λ y. key y == key z) xs ≡ some z
          → find_first (λ y. key y == key z) (x ∷ xs) ≡ some z
      skip z ne e = ground (arith, ne, e)

module _ {A B : Type 0} (R : A → B → Type 0) where
  All-cons :
      (b : B) (bs : List B) (xs : List A)
      → All (λ x. R x b) xs
      → All (λ x. All (R x) bs) xs
      → All (λ x. All (R x) (b ∷ bs)) xs
  All-cons b bs [] h k = tt
  All-cons b bs (x ∷ xs) (h, hs) (k, ks) = ((h, k), All-cons b bs xs hs ks)

  -- Two "for all" the other way round.
  pub All-swap :
      (xs : List A) (bs : List B) → All (λ b. All (λ x. R x b) xs) bs → All (λ x. All (R x) bs) xs
  All-swap xs [] h = All-always (λ x. tt) xs
  All-swap xs (b ∷ bs) (h, hs) = All-cons b bs xs h (All-swap xs bs hs)

module _ {ℓ} {A : Type ℓ} (p : A → Bool) where
  pub find_many-append :
      (xs ys : List A) → find_many p (xs ++ ys) ≡ find_many p xs ++ find_many p ys
  unfolding find_many
  find_many-append [] ys = refl
  find_many-append (x ∷ xs) ys = ground (arith, find_many-append xs ys)

  pub find_many_none : (xs : List A) → All (λ x. p x ≡ false) xs → find_many p xs ≡ []
  unfolding find_many
  find_many_none [] h = refl
  find_many_none (x ∷ xs) (h, hs) = ground (arith, h, find_many_none xs hs)

module _ {ℓ} {A : Type ℓ} (p : A → Bool) where
  pub find_first-append_new :
      (xs : List A) (x : A) → any p xs ≡ false → p x ≡ true → find_first p (xs ++ x ∷ []) ≡ some x
  unfolding find_first
  find_first-append_new [] x h t = ground (arith, t)
  find_first-append_new (y ∷ ys) x h t = ground (arith, find_first-append_new ys x, h, t)

  -- A row that replaces those that pass, and passes itself.
  pub find_first-update_many_const :
      (xs : List A) (x : A)
      → any p xs ≡ true
      → p x ≡ true
      → find_first p (update_many p (λ _. x) xs) ≡ some x
  unfolding find_first update_many
  find_first-update_many_const [] x h t = cc
  find_first-update_many_const (y ∷ ys) x h t =
      ground (arith, find_first-update_many_const ys x, h, t)

pub find_many_ext :
    {A : Type 0} (p q : A → Bool)
    → ((x : A) → p x ≡ q x)
    → (xs : List A) → find_many p xs ≡ find_many q xs
unfolding find_many
find_many_ext p q h [] = refl
find_many_ext p q h (x ∷ xs) = rw (h x, find_many_ext p q h xs) refl
