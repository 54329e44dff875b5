-- ===== src/Retention.antt =====
-- The nightly removal of old data: src/lib/retention.ts.
pub mod Kept
mod Tests
use restaurant_app.Prelude.{
  ℕ, ◌+◌, ◌*◌, Bool, not, ◌&&◌, ◌||◌, List, String, ltb, ◌==◌, find_many, count, any, update_many,
  str_eq,
}
use restaurant_app.Schema.{Db, Order, OrderAttempt, TableSession}

abbrev pub ip_retention_days : ℕ
ip_retention_days = 30

abbrev pub row_retention_days : ℕ
row_retention_days = 180

abbrev pub session_retention_days : ℕ
session_retention_days = 90

abbrev pub day_ms : ℕ
day_ms = 86_400_000

-- `createdAt: { lt: daysAgo(d) }`.
abbrev pub is_older : ℕ → ℕ → ℕ → Bool
is_older days now t = ltb (t + days * day_ms) now

pub record RetentionResult : Type 0 where
  pub anonymised : ℕ
  pub deleted_attempts : ℕ
  pub deleted_sessions : ℕ

abbrev pub identifies : OrderAttempt → Bool
identifies a = not (str_eq a.ip "") || not (str_eq a.user_agent "")

abbrev pub to_blank : ℕ → OrderAttempt → Bool
to_blank now a = is_older ip_retention_days now a.created_at && identifies a

abbrev pub blank : OrderAttempt → OrderAttempt
blank a = record a { ip = ""; user_agent = "" }

abbrev pub expired_row : ℕ → OrderAttempt → Bool
expired_row now a = is_older row_retention_days now a.created_at

abbrev pub ordered_from : List Order → ℕ → Bool
ordered_from orders session = any (λ o. o.session_id == session) orders

abbrev pub expired_session : List Order → ℕ → TableSession → Bool
expired_session orders now s =
    is_older session_retention_days now s.created_at && not (ordered_from orders s.id)

pub prune_retained_data : ℕ → Db → Db × RetentionResult
prune_retained_data now db =
    let blanked = update_many (to_blank now) blank db.attempts in
    (
      record db {
        attempts = find_many (λ a. not (expired_row now a)) blanked;
        sessions = find_many (λ s. not (expired_session db.orders now s)) db.sessions;
      },
      record {
        anonymised = count (to_blank now) db.attempts;
        deleted_attempts = count (expired_row now) blanked;
        deleted_sessions = count (expired_session db.orders now) db.sessions;
      },
    )
