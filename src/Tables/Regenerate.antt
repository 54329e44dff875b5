-- ===== src/Tables/Regenerate.antt =====
-- What regenerating a table's code does (src/app/api/admin/tables/[id]/route.ts).
use restaurant_app.Prelude.{
  ℕ, ◌≡◌, refl, true, ◌&&◌, some, String, arith, ◌==◌, find_first, count, str_eq, ◌∙◌, Bool-cases,
  inl, inr,
}
use restaurant_app.Prelude.Rows.{find_first-update_many, count-update_many_zero}
use restaurant_app.Schema.{Db, Table}
use restaurant_app.Api.{StaffClaims}
use restaurant_app.Session.{revoke}
use restaurant_app.Tables.{
  TableChange, patch_table, patch_found, regenerate, next_version, table_is, live_at,
}

pub patch_table-regenerate :
    (staff : StaffClaims) (now i : ℕ) (c : TableChange) (db : Db) {t : Table}
    → c.regenerate_qr ≡ true
    → find_first (λ t. table_is i t && (t.venue_id == staff.venue_id)) db.tables ≡ some t
    → (patch_table (some staff) now i c db).0 ≡ regenerate now i db
unfolding patch_table patch_found
patch_table-regenerate staff now i c db r f = rw (f, r) refl

module _ (now i : ℕ) (db : Db) where
  -- The table is still found by its code, with the next version.
  pub regenerate-table :
      (code : String) {t : Table}
      → find_first (λ t. str_eq t.code code) db.tables ≡ some t
      → t.id ≡ i
      → find_first (λ t. str_eq t.code code) (regenerate now i db).tables ≡ some (next_version t)
  unfolding regenerate
  regenerate-table code f e =
      find_first-update_many (λ t. str_eq t.code code) (table_is i) next_version db.tables
        (λ t. refl)
      ∙ rw f (ground (arith, e))

  pub regenerate-sessions : count (live_at i) (regenerate now i db).sessions ≡ 0
  unfolding regenerate
  regenerate-sessions =
      count-update_many_zero (live_at i) (live_at i) (revoke now) db.sessions (λ s.
        elim (Bool-cases (live_at i s)) [ inl e ↦ ground (arith, e) | inr e ↦ ground (arith, e) ])
