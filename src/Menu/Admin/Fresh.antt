-- ===== src/Menu/Admin/Fresh.antt =====
-- The copy of the menu that is kept (src/lib/menu.ts) under the admin's requests.
use mathlib.Core.Path.{ap₂}
use restaurant_app.Prelude.{
  ℕ, ◌≡◌, refl, sym, ◌∙◌, ap, inl, inr, subst, true, List, [], ◌∷◌, Option, none, some, arith, All,
  find_first, Option-cases, All-append,
}
use restaurant_app.Prelude.Rows.{All-mono, find_first-All, find_first_passes}
use restaurant_app.Prelude.Keys.{find_many_passes}
use restaurant_app.Api.{StaffClaims}
use restaurant_app.Menu.{
  Catalog, Menus, VenueMenu, entry_of, load_venue_menu, publish_changed, venue_menu, read_cached,
  read_loaded,
}
use restaurant_app.Menu.Admin.Effects.{Change, apply, starting, apply-Done, apply-rows}

-- What happens at a venue: the phones read, the admins change.
pub data Request : Type 0 where
  read : Request
  change : StaffClaims → Change → Request

-- The menus that the reads of a venue are given.
unfoldable pub run : ℕ → List Request → Menus → List (Option VenueMenu)
unfolding apply
run venue [] s = []
run venue (read ∷ rs) s = let r = venue_menu venue s in r.1 ∷ run venue rs r.0
run venue (change staff c ∷ rs) s = run venue rs (apply staff c s)

-- The specification: no copies, every read loads the menu from the rows.
unfoldable pub run_uncached : ℕ → List Request → Catalog → List (Option VenueMenu)
unfolding apply
run_uncached venue [] db = []
run_uncached venue (read ∷ rs) db = load_venue_menu venue db ∷ run_uncached venue rs db
run_uncached venue (change staff c ∷ rs) db = run_uncached venue rs (apply staff c (starting db)).db

-- Every copy of a venue's menu is what a load would give.
abbrev IsFresh : ℕ → Menus → Type 0
IsFresh venue s =
    All (λ e. entry_of venue e ≡ true → load_venue_menu venue s.db ≡ some e.menu) s.cache

publish_changed-IsFresh : (venue : ℕ) (s : Menus) → IsFresh venue (publish_changed venue s)
unfolding publish_changed
publish_changed-IsFresh venue s =
    All-mono (λ e h. λ k. ground (arith, h, k)) _ (find_many_passes _ s.cache)

module _ (staff : StaffClaims) where
  apply-IsFresh :
      (c : Change) (s : Menus) → IsFresh staff.venue_id s → IsFresh staff.venue_id (apply staff c s)
  apply-IsFresh c s h = elim (apply-Done staff c s) [
    | inl e ↦ subst (IsFresh staff.venue_id) (sym e) h
    | inr (t, e) ↦ subst (IsFresh staff.venue_id) (sym e) (publish_changed-IsFresh staff.venue_id t)
  ]

record IsRead (venue : ℕ) (s : Menus) (r : Menus × Option VenueMenu) : Type 0 where
  answer : r.1 ≡ load_venue_menu venue s.db
  rows : r.0.db ≡ s.db
  fresh : IsFresh venue r.0

read_loaded-IsRead :
    (venue : ℕ) (s : Menus) (m : Option VenueMenu)
    → load_venue_menu venue s.db ≡ m
    → IsFresh venue s
    → IsRead venue s (read_loaded venue s m)
unfolding read_loaded
read_loaded-IsRead venue s none l h = record { answer = sym l; rows = refl; fresh = h }
read_loaded-IsRead venue s (some m) l h = record {
  answer = sym l;
  rows = refl;
  fresh = All-append _ s.cache _ h (λ k. l, tt);
}

venue_menu-IsRead : (venue : ℕ) (s : Menus) → IsFresh venue s → IsRead venue s (venue_menu venue s)
unfolding venue_menu read_cached
venue_menu-IsRead venue s h = elim (Option-cases (find_first (entry_of venue) s.cache)) [
  | inr (e, f) ↦ rw f (record {
    answer = sym (
        find_first-All _ (entry_of venue) s.cache h f
          (find_first_passes (entry_of venue) s.cache f));
    rows = refl;
    fresh = h;
  })
  | inl f ↦ rw f (read_loaded-IsRead venue s (load_venue_menu venue s.db) refl h)
]

-- The changes are made by staff of the venue.
unfoldable pub OfVenue : ℕ → List Request → Type 0
OfVenue venue [] = Unit
OfVenue venue (read ∷ rs) = OfVenue venue rs
OfVenue venue (change staff c ∷ rs) = (staff.venue_id ≡ venue) × OfVenue venue rs

run-IsFresh :
    (venue : ℕ) (rs : List Request) (s : Menus) (db : Catalog)
    → OfVenue venue rs
    → IsFresh venue s
    → s.db ≡ db
    → run venue rs s ≡ run_uncached venue rs db
unfolding run run_uncached OfVenue
run-IsFresh venue [] s db o h e = refl
run-IsFresh venue (read ∷ rs) s db o h e =
    let r = venue_menu-IsRead venue s h in
    ap₂ ◌∷◌ (r.answer ∙ ap (load_venue_menu venue) e)
      (run-IsFresh venue rs (venue_menu venue s).0 db o r.fresh (r.rows ∙ e))
run-IsFresh venue (change staff c ∷ rs) s db (o, os) h e =
    run-IsFresh venue rs (apply staff c s) (apply staff c (starting db)).db os
      (subst (λ v. IsFresh v (apply staff c s)) o
        (apply-IsFresh staff c s (subst (λ v. IsFresh v s) (sym o) h)))
      (apply-rows staff c s ∙ ap (λ d. (apply staff c (starting d)).db) e)

-- Whatever the admins of a venue change in between, every read of its menu is given exactly what a
-- server without copies would load from the rows at that moment. A change and its event are one
-- step; the server starts with no copy, and each change is made by staff of the venue.
pub run-refines :
    (venue : ℕ) (rs : List Request) (db : Catalog)
    → OfVenue venue rs
    → run venue rs (starting db) ≡ run_uncached venue rs db
run-refines venue rs db o = run-IsFresh venue rs (starting db) db o tt refl
