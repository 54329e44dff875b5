-- ===== src/RateLimit/Windows.antt =====
-- How many hits a window lets through (src/lib/rateLimit.ts).
use restaurant_app.Prelude.{
  ℕ, suc, ◌+◌, ◌-◌, ◌*◌, ◌≤◌, ◌<◌, ◌≡◌, refl, subst, inl, inr, Bool, true, List, [], ◌∷◌, some,
  String, arith, All, leb, min, str_eq, str_eq_iff, if◌then◌else◌, find_first, count, any, length,
  Bool-cases, Option-cases,
}
use restaurant_app.Prelude.Rows.{find_first-All, find_first_passes}
use restaurant_app.Prelude.Keys.{find_first-append_new, find_first-update_many_const}
use restaurant_app.RateLimit.{Window, has_key, set_window, first_hit, next_hit, hit, rate_limit}

str_eq_refl : (k : String) → str_eq k k ≡ true
str_eq_refl k = (str_eq_iff k k).1 refl

-- What was set is found.
find_first-set_window :
    (w : Window) (ws : List Window) → find_first (has_key w.key) (set_window w ws) ≡ some w
unfolding set_window
find_first-set_window w ws = elim (Bool-cases (any (has_key w.key) ws)) [
  | inl e ↦ rw e (find_first-update_many_const (has_key w.key) ws w e (str_eq_refl w.key))
  | inr e ↦ rw e (find_first-append_new (has_key w.key) ws w e (str_eq_refl w.key))
]

-- The answers to hits on one key at the given times.
unfoldable pub hits : String → (limit window_sec : ℕ) → List ℕ → List Window → List Bool
hits k limit window_sec [] ws = []
hits k limit window_sec (now ∷ nows) ws =
    let r = rate_limit k limit window_sec now ws in r.1.allowed ∷ hits k limit window_sec nows r.0

abbrev pub is_yes : Bool → Bool
is_yes b = b

-- No window of the key is running.
abbrev pub NotRunning : String → ℕ → List Window → Type 0
NotRunning k now ws = All (λ w. has_key k w ≡ true → w.reset_at ≤ now) ws

one_more :
    (n c limit : ℕ)
    → (let rest = min n (limit - (c + 1)) in if leb (c + 1) limit then suc rest else rest)
      ≡ min (suc n) (limit - c)
one_more n c limit = ground arith

module _ (k : String) (limit window_sec : ℕ) where
  rate_limit-running :
      (w : Window) (now : ℕ) (ws : List Window)
      → find_first (has_key k) ws ≡ some w
      → now < w.reset_at
      → rate_limit k limit window_sec now ws ≡ next_hit w limit now ws
  unfolding rate_limit hit
  rate_limit-running w now ws f h = rw f (ground (arith, h))

  next_hit-found :
      (w : Window) (now : ℕ) (ws : List Window)
      → w.key ≡ k
      → find_first (has_key k) (next_hit w limit now ws).0 ≡ some (record w { count = w.count + 1 })
  unfolding next_hit
  next_hit-found w now ws e =
      subst
        (λ j.
          find_first (has_key j) (set_window (record w { count = w.count + 1 }) ws)
          ≡ some (record w { count = w.count + 1 }))
        e (find_first-set_window (record w { count = w.count + 1 }) ws)

  next_hit-allowed :
      (w : Window) (now : ℕ) (ws : List Window)
      → (next_hit w limit now ws).1.allowed ≡ leb (w.count + 1) limit
  unfolding next_hit
  next_hit-allowed w now ws = refl

  hits-running :
      (w : Window) (nows : List ℕ) (ws : List Window)
      → find_first (has_key k) ws ≡ some w
      → w.key ≡ k
      → All (λ t. t < w.reset_at) nows
      → count is_yes (hits k limit window_sec nows ws) ≡ min (length nows) (limit - w.count)
  unfolding hits count
  hits-running w [] ws f e h = ground arith
  hits-running w (now ∷ nows) ws f e (h, hs) =
      let later =
        hits-running (record w { count = w.count + 1 }) nows (next_hit w limit now ws).0
          (next_hit-found w now ws e) e hs in
      rw (rate_limit-running w now ws f h, later, next_hit-allowed)
        (one_more (length nows) w.count limit)

  -- The window that a first hit opens, and its answer.
  rate_limit-first :
      (now : ℕ) (ws : List Window)
      → NotRunning k now ws
      → rate_limit k limit window_sec now ws ≡ first_hit k limit window_sec now ws
  unfolding rate_limit hit
  rate_limit-first now ws h = elim (Option-cases (find_first (has_key k) ws)) [
    | inl f ↦ rw f refl
    | inr (w, f) ↦
        let old = find_first-All _ (has_key k) ws h f (find_first_passes (has_key k) ws f) in
        rw f (ground (arith, old))
  ]

  first_hit-found :
      (now : ℕ) (ws : List Window)
      → find_first (has_key k) (first_hit k limit window_sec now ws).0
        ≡ some (record { key = k; count = 1; reset_at = now + window_sec * 1_000 })
  unfolding first_hit
  first_hit-found now ws = find_first-set_window _ _

  first_hit-allowed :
      (now : ℕ) (ws : List Window) → (first_hit k limit window_sec now ws).1.allowed ≡ true
  unfolding first_hit
  first_hit-allowed now ws = refl

-- Of the hits on a key from the one that opens its window until the window ends, exactly the first
-- `limit` are allowed, whatever the other keys' windows. The limit is at least 1.
pub rate_limit-window :
    (k : String) (limit window_sec now : ℕ) (nows : List ℕ) (ws : List Window)
    → 1 ≤ limit
    → NotRunning k now ws
    → All (λ t. t < now + window_sec * 1_000) nows
    → count is_yes (hits k limit window_sec (now ∷ nows) ws) ≡ min (length (now ∷ nows)) limit
unfolding hits count
rate_limit-window k limit window_sec now nows ws l h within =
    let w : Window = record { key = k; count = 1; reset_at = now + window_sec * 1_000 } in
    let rest =
      hits-running k limit window_sec w nows (first_hit k limit window_sec now ws).0
        (first_hit-found k limit window_sec now ws) refl within in
    rw (rate_limit-first k limit window_sec now ws h, rest, first_hit-allowed) (ground arith)
