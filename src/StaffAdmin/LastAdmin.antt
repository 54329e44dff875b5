-- ===== src/StaffAdmin/LastAdmin.antt =====
-- A venue keeps an administrator: `updateStaff` of src/lib/staffAdmin.ts.
use restaurant_app.Prelude.{
  ℕ, ◌≡◌, ◌≢◌, sym, subst, inl, inr, Bool, true, false, not, ◌&&◌, ◌||◌, List, [], ◌∷◌, some,
  String, arith, All, any, ◌==◌, find_first, count, update_many, Bool-cases, Option-cases,
}
use restaurant_app.Prelude.Rows.{Distinct, find_first-Distinct, All-mono}
use restaurant_app.StaffAdmin.{
  StaffUser, StaffUpdate, staff_is, manages, is_admin, deactivates, demotes, other_active_admins,
  apply_update, update_decide, update_read, update_write,
}

module _ {A : Type 0} (p d : A → Bool) (f : A → A) where
  any-update_many_other :
      (xs : List A) → count (λ x. p x && not (d x)) xs ≢ 0 → any p (update_many d f xs) ≡ true
  unfolding count update_many
  any-update_many_other [] h = ground (arith, h)
  any-update_many_other (x ∷ xs) h = ground (arith, h, any-update_many_other xs)

  any-update_many :
      (xs : List A)
      → All (λ x. p x ≡ true → d x ≡ true → p (f x) ≡ true) xs
      → any p xs ≡ true
      → any p (update_many d f xs) ≡ true
  unfolding update_many
  any-update_many [] h e = cc
  any-update_many (x ∷ xs) (h, hs) e = ground (arith, h, e, any-update_many xs hs)

module _ (trim hash : String → String) (venue target actor : ℕ) (i : StaffUpdate) where
  still_manages :
      (u : StaffUser)
      → (is_admin u.role && u.active && (deactivates i || demotes i)) ≡ false
      → manages venue u ≡ true
      → manages venue (apply_update trim hash i u) ≡ true
  still_manages u keeps m = ground (arith, keeps, m)

  written-others :
      (users : List StaffUser)
      → (other_active_admins venue target users == 0) ≡ false
      → any (manages venue) (update_many (staff_is target) (apply_update trim hash i) users) ≡ true
  unfolding other_active_admins
  written-others users others =
      any-update_many_other (manages venue) (staff_is target) (apply_update trim hash i) users
        (λ e. ground (arith, others, e))

  written-keeps :
      (u : StaffUser) (users : List StaffUser)
      → Distinct (λ u. u.id) users
      → find_first (λ u. staff_is target u && (u.venue_id == venue)) users ≡ some u
      → (is_admin u.role && u.active && (deactivates i || demotes i)) ≡ false
      → any (manages venue) users ≡ true
      → any (manages venue) (update_many (staff_is target) (apply_update trim hash i) users) ≡ true
  written-keeps u users ids f keeps some_admin =
      any-update_many (manages venue) (staff_is target) (apply_update trim hash i) users
        (All-mono {P = λ v. v.id ≡ target → v ≡ u}
          (λ v only m hit.
            still_manages v
              (subst (λ w. (is_admin w.role && w.active && (deactivates i || demotes i)) ≡ false)
                (sym (only (ground (arith, hit)))) keeps)
              m)
          users (find_first-Distinct (λ u. u.id) _ target users (λ y h. ground (arith, h)) ids f))
        some_admin

  update_decided-admin :
      (u : StaffUser) (users : List StaffUser)
      → Distinct (λ u. u.id) users
      → find_first (λ u. staff_is target u && (u.venue_id == venue)) users ≡ some u
      → any (manages venue) users ≡ true
      → (let decided =
            update_decide target actor i (some u) (other_active_admins venue target users) in
          any (manages venue) (update_write trim hash target i decided users).0)
        ≡ true
  unfolding update_decide update_write
  update_decided-admin u users ids f some_admin =
      elim (Bool-cases (is_admin u.role && u.active && (deactivates i || demotes i))) [
        | inl loses ↦ elim (Bool-cases (other_active_admins venue target users == 0)) [
          | inl alone ↦ ground (arith, loses, alone, some_admin)
          | inr others ↦ ground (arith, some_admin, written-others users others)
        ]
        | inr keeps ↦ ground (arith, some_admin, written-keeps u users ids f keeps some_admin)
      ]

-- Other requests may run between the reads of a change of an account, in `users`, and its write, in
-- `met`. If they leave the account and the number of the venue's other active administrators as they
-- were, and the venue has an active administrator, then it has one after the change. Accounts have
-- distinct ids.
pub update_write-admin :
    (trim hash : String → String) (venue target actor : ℕ) (i : StaffUpdate)
    (users met : List StaffUser)
    → Distinct (λ u. u.id) met
    → find_first (λ u. staff_is target u && (u.venue_id == venue)) met
      ≡ find_first (λ u. staff_is target u && (u.venue_id == venue)) users
    → other_active_admins venue target met ≡ other_active_admins venue target users
    → any (manages venue) met ≡ true
    → any
        (manages venue)
        (update_write trim hash target i (update_read venue target actor i users) met).0
      ≡ true
unfolding update_read
update_write-admin trim hash venue target actor i users met ids same others some_admin =
    rw (← same, ← others)
      (elim (Option-cases (find_first (λ u. staff_is target u && (u.venue_id == venue)) met)) [
        | inl f ↦ rw f (unfold update_decide update_write in some_admin)
        | inr (u, f) ↦
            rw f (update_decided-admin trim hash venue target actor i u met ids f some_admin)
      ])
