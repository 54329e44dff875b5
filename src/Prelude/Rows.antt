-- ===== src/Prelude/Rows.antt =====
-- Laws of the table reads and writes.
use mathlib.Core.Option
use restaurant_app.Prelude.{
  ℕ, ◌+◌, ◌≡◌, ◌≢◌, refl, sym, subst, ◌∙◌, inl, inr, Bool, true, false, ◌&&◌, List, [], ◌∷◌, ◌++◌,
  map, some, arith, All, Pointwise, find_many, find_first, count, update_many, Bool-cases, ◌==◌,
  if◌then◌else◌,
}

module _ {ℓ} {A : Type ℓ} where
  -- A write keeps a property of rows if `f` does where the test passes.
  pub All-update_many {κ ι} :
      {P : A → Type κ} {Q : A → Type ι} (p : A → Bool) (f : A → A)
      → ((x : A) → P x → p x ≡ true → Q (f x))
      → ((x : A) → P x → p x ≡ false → Q x)
      → (xs : List A) → All P xs
      → All Q (update_many p f xs)
  unfolding update_many
  All-update_many p f hit miss [] h = tt
  All-update_many p f hit miss (x ∷ xs) (h, hs) = elim (Bool-cases (p x)) [
    | inl e ↦ rw e (hit x h e, All-update_many p f hit miss xs hs)
    | inr e ↦ rw e (miss x h e, All-update_many p f hit miss xs hs)
  ]

  pub All-find_many {κ} :
      (P : A → Type κ) (p : A → Bool) (xs : List A) → All P xs → All P (find_many p xs)
  unfolding find_many
  All-find_many P p [] h = tt
  All-find_many P p (x ∷ xs) (h, hs) = elim (Bool-cases (p x)) [
    | inl e ↦ rw e (h, All-find_many P p xs hs)
    | inr e ↦ rw e (All-find_many P p xs hs)
  ]

  -- What was found passes the test and has every property that all rows have.
  pub find_first-All {κ} :
      (P : A → Type κ) (p : A → Bool) (xs : List A) {x : A}
      → All P xs
      → find_first p xs ≡ some x
      → P x
  unfolding find_first
  find_first-All P p [] h e = cc
  find_first-All P p (y ∷ ys) {x} (h, hs) e = elim (Bool-cases (p y)) [
    | inl t ↦ subst P (ground arith) h
    | inr t ↦ find_first-All P p ys hs (ground arith)
  ]

  pub find_first_passes :
      (p : A → Bool) (xs : List A) {x : A} → find_first p xs ≡ some x → p x ≡ true
  unfolding find_first
  find_first_passes p [] e = cc
  find_first_passes p (y ∷ ys) {x} e = ground (arith, find_first_passes p ys {x = x})

  -- A read does not see a write to other rows that leaves them other rows.
  pub find_many-update_many :
      (q p : A → Bool) (f : A → A) (xs : List A)
      → All (λ x. q x ≡ true → p x ≡ false) xs
      → All (λ x. p x ≡ true → q (f x) ≡ false) xs
      → find_many q (update_many p f xs) ≡ find_many q xs
  unfolding find_many update_many
  find_many-update_many q p f [] h k = refl
  find_many-update_many q p f (x ∷ xs) (h, hs) (k, ks) =
      ground (arith, h, k, find_many-update_many q p f xs hs ks)

  -- A read of exactly the rows that a write has made.
  pub find_many-update_many_new :
      (q p : A → Bool) (f : A → A) (xs : List A)
      → All (λ x. q x ≡ false) xs
      → ((x : A) → q (f x) ≡ true)
      → find_many q (update_many p f xs) ≡ map f (find_many p xs)
  unfolding find_many update_many
  find_many-update_many_new q p f [] h k = refl
  find_many-update_many_new q p f (x ∷ xs) (h, hs) k =
      ground (arith, h, k x, find_many-update_many_new q p f xs hs k)

  pub All-mono {κ ι} :
      {P : A → Type κ} {Q : A → Type ι}
      → ((x : A) → P x → Q x)
      → (xs : List A) → All P xs
      → All Q xs
  All-mono f [] h = tt
  All-mono f (x ∷ xs) (h, hs) = (f x h, All-mono f xs hs)

  pub All-always {κ} : {P : A → Type κ} → ((x : A) → P x) → (xs : List A) → All P xs
  All-always f [] = tt
  All-always f (x ∷ xs) = (f x, All-always f xs)

  -- A write that no row asks for.
  pub update_many_none :
      (p : A → Bool) (f : A → A) (xs : List A) → All (λ x. p x ≡ false) xs → update_many p f xs ≡ xs
  unfolding update_many
  update_many_none p f [] h = refl
  update_many_none p f (x ∷ xs) (h, hs) = ground (arith, h, update_many_none p f xs hs)

  -- A search by a test that the write does not change finds the same row, as it has become.
  pub find_first-update_many :
      (q p : A → Bool) (f : A → A) (xs : List A)
      → ((x : A) → q (f x) ≡ q x)
      → find_first q (update_many p f xs)
        ≡ Option.map (λ x. if p x then f x else x) (find_first q xs)
  unfolding find_first update_many
  find_first-update_many q p f [] k = refl
  find_first-update_many q p f (x ∷ xs) k = ground (arith, k x, find_first-update_many q p f xs k)

  pub count-update_many_zero :
      (q p : A → Bool) (f : A → A) (xs : List A)
      → ((x : A) → q (if p x then f x else x) ≡ false)
      → count q (update_many p f xs) ≡ 0
  unfolding count update_many
  count-update_many_zero q p f [] k = refl
  count-update_many_zero q p f (x ∷ xs) k = ground (arith, k x, count-update_many_zero q p f xs k)

-- Rows that differ in their key.
module _ {ℓ} {A : Type ℓ} (key : A → ℕ) where
  abbrev pub Distinct : List A → Type ℓ
  Distinct [] = Unit
  Distinct (x ∷ xs) = All (λ y. key x ≢ key y) xs × Distinct xs

  -- A row found by a test that implies the key is the only one with that key.
  pub find_first-Distinct :
      (p : A → Bool) (i : ℕ) (xs : List A) {x : A}
      → ((y : A) → p y ≡ true → key y ≡ i)
      → Distinct xs
      → find_first p xs ≡ some x
      → All (λ y. key y ≡ i → y ≡ x) xs
  unfolding find_first
  find_first-Distinct p i [] k d e = tt
  find_first-Distinct p i (y ∷ ys) {x} k (d, ds) e = elim (Bool-cases (p y)) [
    | inl t ↦ (λ _. ground arith, All-mono (λ z ne same. absurd (ne (k y t ∙ sym same))) ys d)
    | inr t ↦
        let found : find_first p ys ≡ some x = ground arith in
        (
          λ same. absurd (
              find_first-All (λ z. key y ≢ key z) p ys d found
                (same ∙ sym (k x (find_first_passes p ys found)))),
          find_first-Distinct p i ys k ds found,
        )
  ]

module _ {A : Type 0} (R : A → A → Type 0) where
  pub Pointwise-refl : ((x : A) → R x x) → (xs : List A) → Pointwise R xs xs
  Pointwise-refl r [] = tt
  Pointwise-refl r (x ∷ xs) = (r x, Pointwise-refl r xs)

  pub Pointwise-trans :
      ((x y z : A) → R x y → R y z → R x z)
      → (xs ys zs : List A) → Pointwise R xs ys
      → Pointwise R ys zs
      → Pointwise R xs zs
  Pointwise-trans t [] [] [] h k = tt
  Pointwise-trans t [] [] (z ∷ zs) h k = elim k [ ]
  Pointwise-trans t [] (y ∷ ys) zs h k = elim h [ ]
  Pointwise-trans t (x ∷ xs) [] zs h k = elim h [ ]
  Pointwise-trans t (x ∷ xs) (y ∷ ys) [] h k = elim k [ ]
  Pointwise-trans t (x ∷ xs) (y ∷ ys) (z ∷ zs) (h, hs) (k, ks) =
      (t x y z h k, Pointwise-trans t xs ys zs hs ks)

  pub Pointwise-update_many :
      ((x : A) → R x x)
      → (p : A → Bool) (f : A → A) (xs : List A) → All (λ x. p x ≡ true → R x (f x)) xs
      → Pointwise R xs (update_many p f xs)
  unfolding update_many
  Pointwise-update_many r p f [] h = tt
  Pointwise-update_many r p f (x ∷ xs) (h, hs) = elim (Bool-cases (p x)) [
    | inl e ↦ rw e (h e, Pointwise-update_many r p f xs hs)
    | inr e ↦ rw e (r x, Pointwise-update_many r p f xs hs)
  ]

  All-Pointwise_key :
      (key : A → ℕ)
      → ((x y : A) → R x y → key y ≡ key x)
      → (k : ℕ) (xs ys : List A) → Pointwise R xs ys
      → All (λ y. k ≢ key y) xs
      → All (λ y. k ≢ key y) ys
  All-Pointwise_key key same k [] [] h a = tt
  All-Pointwise_key key same k [] (y ∷ ys) h a = elim h [ ]
  All-Pointwise_key key same k (x ∷ xs) [] h a = elim h [ ]
  All-Pointwise_key key same k (x ∷ xs) (y ∷ ys) (h, hs) (a, as') =
      (λ e. a (e ∙ same x y h), All-Pointwise_key key same k xs ys hs as')

  -- Rows stay distinct where each keeps its key.
  pub Distinct-Pointwise :
      (key : A → ℕ)
      → ((x y : A) → R x y → key y ≡ key x)
      → (xs ys : List A) → Pointwise R xs ys
      → Distinct key xs
      → Distinct key ys
  Distinct-Pointwise key same [] [] h d = tt
  Distinct-Pointwise key same [] (y ∷ ys) h d = elim h [ ]
  Distinct-Pointwise key same (x ∷ xs) [] h d = elim h [ ]
  Distinct-Pointwise key same (x ∷ xs) (y ∷ ys) (h, hs) (d, ds) = (
    subst (λ k. All (λ z. k ≢ key z) ys) (sym (same x y h))
        (All-Pointwise_key key same (key x) xs ys hs d),
    Distinct-Pointwise key same xs ys hs ds,
  )

pub count_pos {ℓ} :
    {A : Type ℓ} (p : A → Bool) (xs : List A) {x : A}
    → find_first p xs ≡ some x
    → (count p xs == 0) ≡ false
unfolding find_first count
count_pos p [] e = cc
count_pos p (y ∷ ys) {x} e = ground (arith, count_pos p ys {x = x})

-- A stricter search finds the same row, if that row passes.
pub find_first-and {ℓ} :
    {A : Type ℓ} (p q : A → Bool) (xs : List A) {x : A}
    → find_first p xs ≡ some x
    → q x ≡ true
    → find_first (λ y. p y && q y) xs ≡ some x
unfolding find_first
find_first-and p q [] e h = cc
find_first-and p q (y ∷ ys) {x} e h = elim (Bool-cases (p y)) [
  | inl t ↦ ground (arith, t)
  | inr t ↦ rw t (find_first-and p q ys {x = x} (ground arith) h)
]

pub count_append {ℓ} :
    {A : Type ℓ} (p : A → Bool) (xs : List A) (x : A)
    → count p (xs ++ x ∷ []) ≡ count p xs + (if p x then 1 else 0)
unfolding count
count_append p [] x = ground arith
count_append p (y ∷ ys) x = ground (arith, count_append p ys x)
