-- ===== src/RateLimit/Tests.antt =====
-- A burst of hits at one key, and the theorem at it.
use restaurant_app.Prelude.{
  ◌≡◌, refl, true, false, List, [], ◌∷◌, arith, count, find_first, update_many, find_many,
}
use restaurant_app.RateLimit.{
  Window, rate_limit, write_budget, first_hit, next_hit, hit, set_window, evict_expired,
}
use restaurant_app.RateLimit.Windows.{hits, is_yes, rate_limit-window}

counting : Unit {0}
unfolding rate_limit hit first_hit next_hit set_window evict_expired write_budget find_first
    update_many find_many
counting = tt

abbrev other : List Window
other = record { key = "login:10.0.0.8"; count = 9; reset_at = 70_000 } ∷ []

third_refused :
    hits "login:10.0.0.7" 2 60 (10_000 ∷ 20_000 ∷ 30_000 ∷ []) other ≡ true ∷ true ∷ false ∷ []
unfolding counting hits
third_refused = refl

refused_by_all :
    (write_budget "scan:ip:10.0.0.7" "scan:all"
      (record { limit = 5; window_sec = 60 })
      (record { limit = 3; window_sec = 60 })
      20_000
      (record { key = "scan:all"; count = 3; reset_at = 70_000 } ∷ [])).1
    ≡ false
unfolding counting
refused_by_all = refl

rate_limit-window_example :
    count is_yes (hits "login:10.0.0.7" 2 60 (10_000 ∷ 20_000 ∷ 30_000 ∷ []) other) ≡ 2
rate_limit-window_example =
    rate_limit-window "login:10.0.0.7" 2 60 10_000 (20_000 ∷ 30_000 ∷ []) other (omega arith)
      (ground arith) (omega arith)
