-- ===== src/Visit/Opening.antt =====
-- Scans that open a visit, or join one: `openOrJoinVisit` of src/lib/visit.ts.
use restaurant_app.Prelude.{
  ℕ, ◌≤◌, ◌<◌, ◌≡◌, ◌≢◌, refl, sym, ap, subst, ◌∙◌, not, List, [], ◌∷◌, ◌++◌, arith, All,
  All-append, ◌==◌, find_many, order_by, length,
}
use restaurant_app.Schema.{TableVisit}
use restaurant_app.Visit.{
  is_open_at, newest, open_read, new_visit, open_create, settle_race, open_check, open_or_join,
}

module _ (table : ℕ) where
  open_visits-create :
      (id venue now : ℕ) (visits : List TableVisit)
      → find_many (is_open_at table) (open_create (new_visit id table venue now) visits)
        ≡ find_many (is_open_at table) visits ++ new_visit id table venue now ∷ []
  unfolding find_many
  open_visits-create id venue now [] = ground arith
  open_visits-create id venue now (v ∷ vs) = ground (arith, open_visits-create id venue now vs)

open_check-found :
    (mine : TableVisit) (visits found : List TableVisit)
    → find_many (is_open_at mine.table_id) visits ≡ found
    → open_check mine visits ≡ settle_race mine (order_by (λ v. v.opened_at) found) visits
unfolding open_check
open_check-found mine visits found e =
    ap (λ f. settle_race mine (order_by (λ v. v.opened_at) f) visits) e

open_read-found :
    (table : ℕ) (visits found : List TableVisit)
    → find_many (is_open_at table) visits ≡ found
    → open_read table visits ≡ newest (order_by (λ v. v.opened_at) found)
unfolding open_read
open_read-found table visits found e = ap (λ f. newest (order_by (λ v. v.opened_at) f)) e

-- The phone has joined the one open visit of the table.
abbrev pub HasJoined : ℕ → List TableVisit × ℕ → Type 0
HasJoined table joined =
    (v : TableVisit) × (find_many (is_open_at table) joined.0 ≡ v ∷ []) × (joined.1 ≡ v.id)

-- If a table has no open visit, or one, then after a scan with nothing in between it has exactly one,
-- and that is the visit the phone joins.
pub open_or_join-HasJoined :
    (id table venue now : ℕ) (visits : List TableVisit)
    → length (find_many (is_open_at table) visits) ≤ 1
    → HasJoined table (open_or_join (new_visit id table venue now) visits)
unfolding open_or_join newest settle_race order_by
open_or_join-HasJoined id table venue now visits h = go (find_many (is_open_at table) visits) refl h
  where
    mine : TableVisit
    mine = new_visit id table venue now

    go :
        (found : List TableVisit)
        → find_many (is_open_at table) visits ≡ found
        → length found ≤ 1
        → HasJoined table (open_or_join mine visits)
    go [] e k =
        let made : find_many (is_open_at table) (open_create mine visits) ≡ mine ∷ [] =
          open_visits-create table id venue now visits ∙ ap (λ f. f ++ mine ∷ []) e in
        let opens : open_or_join mine visits ≡ (open_create mine visits, id) =
          rw (open_or_join, open_read-found table visits [] e)
            (open_check-found mine (open_create mine visits) (mine ∷ []) made) in
        subst (HasJoined table) (sym opens) (mine, made, refl)
    go (v ∷ []) e k =
        let joins : open_or_join mine visits ≡ (visits, v.id) =
          rw (open_or_join, open_read-found table visits (v ∷ []) e) refl in
        subst (HasJoined table) (sym joins) (v, e, refl)
    go (v ∷ w ∷ vs) e k = ground (arith, k)

without_last :
    (other : TableVisit) (visits : List TableVisit)
    → All (λ v. v.id ≢ other.id) visits
    → find_many (λ v. not (v.id == other.id)) (open_create other visits) ≡ visits
unfolding find_many
without_last other [] h = ground arith
without_last other (v ∷ vs) (h, hs) = ground (arith, h, without_last other vs hs)

-- Two phones scan at an idle table, and both have found no visit before either creates one. The first
-- to create, `a`, opens strictly earlier, and the number `b` of the other is new. If the second has
-- created its visit before the first takes its second look, then in whichever order they look, the
-- later visit goes and both join the earlier one; and so it is if the first takes its second look
-- before the second has created its visit.
pub two_scans :
    (a b table venue t u : ℕ) (visits : List TableVisit)
    → find_many (is_open_at table) visits ≡ []
    → All (λ v. v.id ≢ b) visits
    → a ≢ b
    → t < u
    → let mine = new_visit a table venue t in
      let other = new_visit b table venue u in
      let both = open_create other (open_create mine visits) in
      let mine_first = open_check other (open_check mine both).0 in
      let other_first = open_check mine (open_check other both).0 in
      let alone = open_check mine (open_create mine visits) in
      let apart = open_check other (open_create other alone.0) in
      ((open_check mine both).1 ≡ a)
      × (mine_first ≡ (open_create mine visits, a))
      × (other_first ≡ (open_create mine visits, a))
      × ((open_check other both).1 ≡ a)
      × (alone.1 ≡ a)
      × (apart ≡ (open_create mine visits, a))
unfolding settle_race order_by
two_scans a b table venue t u visits idle fresh ne le =
    let one : find_many (is_open_at table) (open_create mine visits) ≡ mine ∷ [] =
      open_visits-create table a venue t visits ∙ ap (λ f. f ++ mine ∷ []) idle in
    let two : find_many (is_open_at table) both ≡ mine ∷ other ∷ [] =
      open_visits-create table b venue u (open_create mine visits)
      ∙ ap (λ f. f ++ other ∷ []) one in
    let keeps : open_check mine both ≡ (both, a) =
      open_check-found mine both (mine ∷ other ∷ []) two ∙ ground (arith, le) in
    let goes : open_check other both ≡ (open_create mine visits, a) =
      open_check-found other both (mine ∷ other ∷ []) two
      ∙ ground (
        arith,
        le,
        ne,
        without_last other (open_create mine visits)
            (All-append (λ v. v.id ≢ b) visits (mine ∷ []) fresh (ne, tt)),
      ) in
    let stays : open_check mine (open_create mine visits) ≡ (open_create mine visits, a) =
      open_check-found mine (open_create mine visits) (mine ∷ []) one in
    (
      ap (λ r. r.1) keeps,
      ap (λ r. open_check other r.0) keeps ∙ goes,
      ap (λ r. open_check mine r.0) goes ∙ stays,
      ap (λ r. r.1) goes,
      ap (λ r. r.1) stays,
      ap (λ r. open_check other (open_create other r.0)) stays ∙ goes,
    )
  where
    mine : TableVisit
    mine = new_visit a table venue t

    other : TableVisit
    other = new_visit b table venue u

    both : List TableVisit
    both = open_create other (open_create mine visits)
