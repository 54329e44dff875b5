-- ===== src/Retention/Kept.antt =====
-- What the nightly removal leaves: src/lib/retention.ts.
use restaurant_app.Prelude.{
  ℕ, ◌+◌, ◌*◌, ◌≤◌, ◌<◌, ◌∙◌, ◌≡◌, refl, inl, inr, Bool, true, false, not, List, [], ◌∷◌, arith,
  All, find_many, Bool-cases,
}
use restaurant_app.Prelude.Rows.{
  All-find_many, All-update_many, All-always, All-mono, find_many-update_many,
}
use restaurant_app.Prelude.Keys.{find_many_passes}
use restaurant_app.Schema.{Db}
use restaurant_app.Retention.{
  is_older, ip_retention_days, row_retention_days, session_retention_days, day_ms, identifies,
  ordered_from, prune_retained_data,
}

-- What the removal leaves at time `now`: of an old attempt no address and no browser, of an older
-- one nothing, and an old session only if something was ordered in it. The recent attempts and the
-- sessions that something was ordered in are those of before.
pub record IsPruned (now : ℕ) (db db' : Db) : Type 0 where
  pub blanked :
      All (λ a. a.created_at + ip_retention_days * day_ms < now → identifies a ≡ false) db'.attempts
  pub gone : All (λ a. now ≤ a.created_at + row_retention_days * day_ms) db'.attempts
  pub sessions :
      All
        (λ s.
          s.created_at + session_retention_days * day_ms < now → ordered_from db.orders s.id ≡ true)
        db'.sessions
  pub recent :
      find_many (λ a. not (is_older ip_retention_days now a.created_at)) db'.attempts
      ≡ find_many (λ a. not (is_older ip_retention_days now a.created_at)) db.attempts
  pub ordered :
      find_many (λ s. ordered_from db.orders s.id) db'.sessions
      ≡ find_many (λ s. ordered_from db.orders s.id) db.sessions
  pub orders : db'.orders ≡ db.orders

find_many-find_many :
    {A : Type 0} (q p : A → Bool)
    → ((x : A) → q x ≡ true → p x ≡ true)
    → (xs : List A) → find_many q (find_many p xs) ≡ find_many q xs
unfolding find_many
find_many-find_many q p h [] = refl
find_many-find_many q p h (x ∷ xs) = elim (Bool-cases (q x)) [
  | inl e ↦ ground (arith, e, h x e, find_many-find_many q p h xs)
  | inr e ↦ ground (arith, e, find_many-find_many q p h xs)
]

-- After the nightly removal no attempt older than 30 days names an address or a browser, none is
-- older than 180 days, and every session older than 90 days has had an order; the attempts of the
-- last 30 days, the sessions that something was ordered in, and the orders are those of before.
pub prune_retained_data-IsPruned :
    (now : ℕ) (db : Db) → IsPruned now db (prune_retained_data now db).0
unfolding prune_retained_data
prune_retained_data-IsPruned now db = record {
  blanked = All-find_many _ _ _ (
      All-update_many {P = λ _. Unit {0}} _ _ (λ a _ t. λ _. refl)
        (λ a _ t. λ old. ground (arith, old, t)) db.attempts (All-always (λ _. tt) db.attempts));
  gone = All-mono (λ a k. ground (arith, k)) _ (find_many_passes _ _);
  sessions = All-mono (λ s k. λ old. ground (arith, k, old)) _ (find_many_passes _ _);
  recent =
      find_many-find_many _ _ (λ a k. ground (arith, k)) _
      ∙ find_many-update_many _ _ _ _ (All-always (λ a k. ground (arith, k)) _)
          (All-always (λ a k. ground (arith, k)) _);
  ordered = find_many-find_many _ _ (λ s k. ground (arith, k)) db.sessions;
  orders = refl;
}
