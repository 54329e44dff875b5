-- ===== src/Menu/Admin/Effects.antt =====
-- What the admin's requests on the menu do to the rows and to the copy that is kept:
-- src/app/api/admin.
use restaurant_app.Prelude.{
  ℕ, ◌≡◌, refl, inl, inr, ◌⊎◌, str_eq, ◌||◌, any, [], none, some, String, arith, ◌==◌, Bool-cases,
}
use restaurant_app.Prelude.Int.{ℤ}
use restaurant_app.Api.{StaffClaims}
use restaurant_app.Menu.{Catalog, Menus, publish_changed}
use restaurant_app.Menu.Admin.{
  CategoryPatch, ItemInput, ItemPatch, available_only, whole, is_given, valid_item, NewIds,
  VenueSettings, post_item, create_item, patch_item, change_item, delete_item, remove_item,
  post_category, patch_category, category_found, delete_category, remove_category,
  update_venue_settings,
}

-- A request of an admin that may change the menu.
pub data Change : Type 0 where
  new_item : NewIds → ItemInput → Change
  changed_item : NewIds → ℕ → ItemPatch → Change
  removed_item : ℕ → Change
  new_category : (id : ℕ) → (name_tr name_en : String) → ℤ → Change
  changed_category : ℕ → CategoryPatch → Change
  removed_category : ℕ → Change
  new_settings : VenueSettings → Change

unfoldable pub apply : StaffClaims → Change → Menus → Menus
apply staff (new_item ids d) s = (post_item (some staff) ids d s).0
apply staff (changed_item ids i p) s = (patch_item (some staff) ids i p s).0
apply staff (removed_item i) s = (delete_item (some staff) i s).0
apply staff (new_category id t e k) s = (post_category (some staff) id t e k s).0
apply staff (changed_category i p) s = (patch_category (some staff) i p s).0
apply staff (removed_category i) s = (delete_category (some staff) i s).0
apply staff (new_settings d) s = (update_venue_settings staff.venue_id d s).0

abbrev pub starting : Catalog → Menus
starting db = record { db = db; cache = []; events = [] }

-- Each request by itself.
module _ (venue : ℕ) where
  -- A result that is the state itself, or published.
  abbrev Done : {A : Type 0} → Menus → Menus × A → Type 0
  Done s r = (r.0 ≡ s) ⊎ ((t : Menus) × (r.0 ≡ publish_changed venue t))

  create_item-Done :
      (ids : NewIds) (d : ItemInput) (c : _) (s : Menus) → Done s (create_item ids venue d c s)
  unfolding create_item
  create_item-Done ids d none s = inl refl
  create_item-Done ids d (some c) s = inr (_, refl)

  change_item-Done :
      (ids : NewIds) (i : ℕ) (p : ItemPatch) (m : _) (s : Menus)
      → Done s (change_item ids i venue p m s)
  unfolding change_item
  change_item-Done ids i p none s = inl refl
  change_item-Done ids i (available_only b) (some m) s = inr (_, refl)
  change_item-Done ids i (whole d) (some m) s = elim (Bool-cases (valid_item d)) [
    | inr e ↦ rw e (inl refl)
    | inl e ↦ elim (Bool-cases (any (λ c. c.id == d.category_id) s.db.categories)) [
      | inl k ↦ rw (e, k) (inr (_, refl))
      | inr k ↦ rw (e, k) (inl refl)
    ]
  ]

  remove_item-Done : (i : ℕ) (m : _) (s : Menus) → Done s (remove_item i venue m s)
  unfolding remove_item
  remove_item-Done i none s = inl refl
  remove_item-Done i (some m) s = inr (_, refl)

  category_found-Done :
      (i : ℕ) (p : CategoryPatch) (c : _) (s : Menus) → Done s (category_found i venue p c s)
  unfolding category_found
  category_found-Done i p none s = inl refl
  category_found-Done i p (some c) s = inr (_, refl)

  remove_category-Done : (i : ℕ) (c : _) (s : Menus) → Done s (remove_category i venue c s)
  unfolding remove_category
  remove_category-Done i none s = inl refl
  remove_category-Done i (some c) s = elim (Bool-cases (any (λ m. m.category_id == i) s.db.items)) [
    | inl e ↦ rw e (inl refl)
    | inr e ↦ rw e (inr (_, refl))
  ]

  update_venue_settings-Done :
      (d : VenueSettings) (s : Menus) → Done s (update_venue_settings venue d s)
  unfolding update_venue_settings
  update_venue_settings-Done d s =
      elim (Bool-cases (
        is_given d.name
        || is_given d.currency
        || is_given d.default_locale
        || is_given d.pos_adapter)) [ inl e ↦ rw e (inr (_, refl)) | inr e ↦ rw e (inl refl) ]

module _ (staff : StaffClaims) where
  post_item-Done :
      (ids : NewIds) (d : ItemInput) (s : Menus)
      → Done staff.venue_id s (post_item (some staff) ids d s)
  unfolding post_item
  post_item-Done ids d s = elim (Bool-cases (valid_item d)) [
    | inl e ↦ rw e (create_item-Done staff.venue_id ids d _ s)
    | inr e ↦ rw e (inl refl)
  ]

  post_category-Done :
      (id : ℕ) (name_tr name_en : String) (k : ℤ) (s : Menus)
      → Done staff.venue_id s (post_category (some staff) id name_tr name_en k s)
  unfolding post_category
  post_category-Done id name_tr name_en k s = elim (Bool-cases (str_eq name_tr "")) [
    | inl e ↦ rw e (inl refl)
    | inr e ↦ rw e (inr (_, refl))
  ]

  pub apply-Done :
      (c : Change) (s : Menus)
      → (apply staff c s ≡ s) ⊎ ((t : Menus) × (apply staff c s ≡ publish_changed staff.venue_id t))
  unfolding apply post_item patch_item delete_item post_category patch_category delete_category
  apply-Done (new_item ids d) s = post_item-Done ids d s
  apply-Done (changed_item ids i p) s = change_item-Done staff.venue_id ids i p _ s
  apply-Done (removed_item i) s = remove_item-Done staff.venue_id i _ s
  apply-Done (new_category id t e k) s = post_category-Done id t e k s
  apply-Done (changed_category i p) s = category_found-Done staff.venue_id i p _ s
  apply-Done (removed_category i) s = remove_category-Done staff.venue_id i _ s
  apply-Done (new_settings d) s = update_venue_settings-Done staff.venue_id d s

  pub apply-rows :
      (c : Change) (s : Menus) → (apply staff c s).db ≡ (apply staff c (starting s.db)).db
  unfolding apply post_item create_item patch_item change_item delete_item remove_item post_category
      patch_category category_found delete_category remove_category update_venue_settings
      publish_changed
  apply-rows (new_item ids d) s = ground arith
  apply-rows (changed_item ids i p) s = ground arith
  apply-rows (removed_item i) s = ground arith
  apply-rows (new_category id t e k) s = ground arith
  apply-rows (changed_category i p) s = ground arith
  apply-rows (removed_category i) s = ground arith
  apply-rows (new_settings d) s = ground arith
