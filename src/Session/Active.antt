-- ===== src/Session/Active.antt =====
-- The window in which a phone stays signed in: `getActiveSession` of src/lib/tableSession.ts.
use restaurant_app.Prelude.{
  ℕ, ◌+◌, ◌≤◌, ◌≡◌, refl, sym, ap, ◌∙◌, inl, inr, Bool, false, Option, none, some, String, arith,
  leb, ◌==◌, if◌then◌else◌, find_first, Bool-cases,
}
use restaurant_app.Prelude.Rows.{find_first-update_many}
use restaurant_app.Schema.{Db, Table, TableSession}
use restaurant_app.Api.{ActiveSession}
use restaurant_app.Session.{
  idle_ms, touch_interval_ms, touch, touch_session, refused_session, active_of, check_session,
  table_of, get_active_session,
}

abbrev has_token : ℕ → TableSession → Bool
has_token token s = s.token == token

-- What an answer of success rests on.
record IsAnswered (code : Option String) (now : ℕ) (s : TableSession) (db db' : Db)
    (a : ActiveSession) : Type 0 where
  table : Table
  there : find_first (λ t. t.id == s.table_id) db.tables ≡ some table
  passed : refused_session code now s table ≡ false
  touched : db' ≡ touch_session now s db
  answer : a ≡ active_of s table

check_session-IsAnswered :
    (code : Option String) (now : ℕ) (s : TableSession) (t : Option Table) (db db' : Db)
    (a : ActiveSession)
    → find_first (λ t. t.id == s.table_id) db.tables ≡ t
    → check_session code now (some s) t db ≡ (db', some a)
    → IsAnswered code now s db db' a
unfolding check_session
check_session-IsAnswered code now s none db db' a f e = cc
check_session-IsAnswered code now s (some t) db db' a f e = record {
  table = t;
  there = f;
  passed = ground arith;
  touched = ground arith;
  answer = ground arith;
}

get_active_session-found :
    (code : Option String) (token now : ℕ) (db : Db) (s : TableSession)
    → find_first (has_token token) db.sessions ≡ some s
    → get_active_session code (some token) now db
      ≡ check_session code now (some s) (find_first (λ t. t.id == s.table_id) db.tables) db
unfolding get_active_session table_of
get_active_session-found code token now db s f = rw f refl

-- The session as the answer leaves it.
abbrev seen : ℕ → TableSession → TableSession
seen now s = if leb (s.last_seen_at + touch_interval_ms) now then touch now s else s

touch_session-found :
    (token now : ℕ) (db : Db) (s : TableSession)
    → find_first (has_token token) db.sessions ≡ some s
    → find_first (has_token token) (touch_session now s db).sessions ≡ some (seen now s)
touch_session-found token now db s f =
    elim (Bool-cases (leb (s.last_seen_at + touch_interval_ms) now)) [
      | inl e ↦ rw e (
          find_first-update_many (has_token token) (λ r. r.id == s.id) (touch now) db.sessions
            (λ x. refl)
          ∙ rw f (ground arith))
      | inr e ↦ rw e f
    ]

touch_session-tables :
    (now : ℕ) (s : TableSession) (db : Db) → (touch_session now s db).tables ≡ db.tables
touch_session-tables now s db = ground arith

seen-passes :
    (code : Option String) (now now' seen_at : ℕ) (s : TableSession) (t : Table)
    → refused_session code now s t ≡ false
    → (seen now s).last_seen_at ≤ seen_at
    → now' ≤ s.expires_at
    → now' + touch_interval_ms ≤ now + idle_ms
    → refused_session code now' (record (seen now s) { last_seen_at = seen_at }) t ≡ false
unfolding refused_session
seen-passes code now now' seen_at s t h late le w = ground (arith, h, late, le, w)

seen-table_id : (now : ℕ) (s : TableSession) → (seen now s).table_id ≡ s.table_id
seen-table_id now s = ground arith

seen-active_of :
    (now seen_at : ℕ) (s : TableSession) (t : Table)
    → active_of (record (seen now s) { last_seen_at = seen_at }) t ≡ active_of s t
seen-active_of now seen_at s t = ground arith

some_injective : {A : Type 0} {a b : A} → some a ≡ some b → a ≡ b
some_injective e = cc

check_session-passes :
    (code : Option String) (now : ℕ) (s : TableSession) (t : Table) (found : Option Table) (db : Db)
    → found ≡ some t
    → refused_session code now s t ≡ false
    → (check_session code now (some s) found db).1 ≡ some (active_of s t)
unfolding check_session
check_session-passes code now s t found db f h = rw (f, h) refl

-- A phone whose request was accepted is accepted again, as the same session, until its hard cap, if
-- it asks within 29 minutes, the idle time less the interval in which a request leaves no stamp.
-- Other requests may run in between, on whatever tables of the database, if they leave the row of the
-- session as the first request left it, but for a later time at which it was seen, and the row of its
-- table as it was: the session is not revoked or displaced, and the table keeps its code.
pub get_active_session_again :
    (code : Option String) (token now now' seen_at : ℕ) (db db' met : Db) (s s' : TableSession)
    (a : ActiveSession)
    → find_first (λ s. s.token == token) db.sessions ≡ some s
    → get_active_session code (some token) now db ≡ (db', some a)
    → find_first (λ s. s.token == token) db'.sessions ≡ some s'
    → s'.last_seen_at ≤ seen_at
    → find_first (λ s. s.token == token) met.sessions ≡ some (record s' { last_seen_at = seen_at })
    → find_first (λ t. t.id == s.table_id) met.tables
      ≡ find_first (λ t. t.id == s.table_id) db.tables
    → now' ≤ s.expires_at
    → now' + touch_interval_ms ≤ now + idle_ms
    → (get_active_session code (some token) now' met).1 ≡ some a
get_active_session_again code token now now' seen_at db db' met s s' a f e left later found kept le
      w =
    let h =
      check_session-IsAnswered code now s _ db db' a refl
        (sym (get_active_session-found code token now db s f) ∙ e) in
    let is : seen now s ≡ s' =
      some_injective (sym (rw h.touched (touch_session-found token now db s f)) ∙ left) in
    let late : (seen now s).last_seen_at ≤ seen_at = rw is later in
    let found' : find_first (has_token token) met.sessions
        ≡ some (record (seen now s) { last_seen_at = seen_at }) =
      rw is found in
    let table : find_first (λ t. t.id == (seen now s).table_id) met.tables ≡ some h.table =
      ap (λ i. find_first (λ t. t.id == i) met.tables) (seen-table_id now s) ∙ kept ∙ h.there in
    ap (λ r. r.1)
      (get_active_session-found code token now' met (record (seen now s) { last_seen_at = seen_at })
        found')
    ∙ check_session-passes code now' (record (seen now s) { last_seen_at = seen_at }) h.table _ met
        table (seen-passes code now now' seen_at s h.table h.passed late le w)
    ∙ ap some (seen-active_of now seen_at s h.table ∙ sym h.answer)
