-- ===== src/RateLimit.antt =====
-- The fixed-window counters of src/lib/rateLimit.ts. The map keeps its entries in the order in which
-- they were added; the clock is an argument. `clientIp` reads headers and is left out: the address
-- is an argument of `write_budget`.
pub mod Windows
mod Tests
use restaurant_app.Prelude.{
  ℕ, ◌+◌, ◌-◌, ◌*◌, ◌/◌, Bool, true, false, not, ◌&&◌, List, [], ◌∷◌, ◌++◌, Option, none, some,
  String, ltb, leb, max, str_eq, if◌then◌else◌, find_many, find_first, update_many, length, any,
}

pub record Window : Type 0 where
  pub key : String
  pub count : ℕ
  pub reset_at : ℕ

abbrev max_keys : ℕ
max_keys = 10_000

pub record RateLimitResult : Type 0 where
  pub allowed : Bool
  pub remaining : ℕ
  pub retry_after_sec : ℕ

abbrev pub has_key : String → Window → Bool
has_key k w = str_eq w.key k

-- `windows.set`, `windows.delete`.
unfoldable pub set_window : Window → List Window → List Window
set_window w ws =
    if any (has_key w.key) ws then update_many (has_key w.key) (λ _. w) ws else ws ++ w ∷ []

pub evict_expired : ℕ → List Window → List Window
evict_expired now ws = find_many (λ w. ltb now w.reset_at) ws

unfoldable pub first_hit :
    String → (limit window_sec now : ℕ) → List Window → List Window × RateLimitResult
unfolding set_window evict_expired
first_hit k limit window_sec now ws =
    let room = if leb max_keys (length ws) then evict_expired now ws else ws in
    (
      set_window (record { key = k; count = 1; reset_at = now + window_sec * 1_000 }) room,
      record { allowed = true; remaining = limit - 1; retry_after_sec = 0 },
    )

-- `remaining` of a first hit is `limit - 1`, of which the limits in use, all at least 1, are not
-- below.
pub next_hit : Window → (limit now : ℕ) → List Window → List Window × RateLimitResult
unfolding set_window
next_hit w limit now ws = (
  set_window (record w { count = w.count + 1 }) ws,
  record {
    allowed = leb (w.count + 1) limit;
    remaining = limit - (w.count + 1);
    retry_after_sec = max 1 ((w.reset_at - now + 999) / 1_000);
  },
)

unfoldable pub hit :
    Option Window
    → String
    → (limit window_sec now : ℕ) → List Window
    → List Window × RateLimitResult
unfolding first_hit next_hit
hit none k limit window_sec now ws = first_hit k limit window_sec now ws
hit (some w) k limit window_sec now ws =
    if leb w.reset_at now then first_hit k limit window_sec now ws else next_hit w limit now ws

unfoldable pub rate_limit :
    String → (limit window_sec now : ℕ) → List Window → List Window × RateLimitResult
unfolding hit
rate_limit k limit window_sec now ws = hit (find_first (has_key k) ws) k limit window_sec now ws

pub clear_rate_limit : String → List Window → List Window
clear_rate_limit k ws = find_many (λ w. not (has_key k w)) ws

pub record Budget : Type 0 where
  pub limit : ℕ
  pub window_sec : ℕ

-- Both windows count the hit, whichever refuses.
pub write_budget :
    (scope_ip scope_all : String) → Budget → Budget → ℕ → List Window → List Window × Bool
unfolding rate_limit
write_budget scope_ip scope_all per_ip global now ws =
    let by_ip = rate_limit scope_ip per_ip.limit per_ip.window_sec now ws in
    let overall = rate_limit scope_all global.limit global.window_sec now by_ip.0 in
    (overall.0, by_ip.1.allowed && overall.1.allowed)
