-- ===== src/Retention/Tests.antt =====
-- A night's removal, and the theorem at it.
use restaurant_app.Prelude.{◌≡◌, refl, [], ◌∷◌, none, ℕ, find_many, count, update_many}
use restaurant_app.Schema.{Db, OrderAttempt}
use restaurant_app.Examples.{party_db}
use restaurant_app.Retention.{prune_retained_data}
use restaurant_app.Retention.Kept.{IsPruned, prune_retained_data-IsPruned}

abbrev attempt : ℕ → OrderAttempt
attempt t = record {
  outcome = "scan_ok";
  ip = "10.0.0.7";
  user_agent = "Safari";
  venue_id = none;
  table_id = none;
  session_id = none;
  order_id = none;
  created_at = t;
}

abbrev long_ago : Db
long_ago = record party_db {
  attempts = attempt 0 ∷ attempt 16_000_000_000 ∷ attempt 20_000_000_000 ∷ [];
}

counts :
    (prune_retained_data 20_000_000_000 long_ago).1
    ≡ record { anonymised = 2; deleted_attempts = 1; deleted_sessions = 0 }
unfolding prune_retained_data find_many count update_many
counts = refl

prune_retained_data-IsPruned_example :
    IsPruned 20_000_000_000 long_ago (prune_retained_data 20_000_000_000 long_ago).0
prune_retained_data-IsPruned_example = prune_retained_data-IsPruned 20_000_000_000 long_ago
