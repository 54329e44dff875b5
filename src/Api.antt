-- ===== src/Api.antt =====
-- What the route handlers share: replies, the caller's identity, `publish` (src/lib/bus.ts) and
-- `logAttempt` (src/lib/attempts.ts). A handler is a function from the database to the database
-- and a reply. The identity is the answer of `requireStaff` (src/lib/staffAuth.ts) or
-- `getActiveSession` (src/lib/tableSession.ts), none if it was refused.
use restaurant_app.Prelude.{ℕ, [], ◌∷◌, ◌++◌, Option, none, some, String}
use restaurant_app.Schema.{Db, BusEvent, Job, OrderAttempt}
use restaurant_app.Schema.Status.{OrderStatus}

pub data Role : Type 0 where
  admin desk : Role

pub record StaffClaims : Type 0 where
  pub sub : ℕ
  pub venue_id : ℕ
  pub role : Role
  pub name : String
  pub ver : ℕ

pub record ActiveSession : Type 0 where
  pub id : ℕ
  pub venue_id : ℕ
  pub table_id : ℕ
  pub table_code : String
  pub table_name : String
  pub visit_id : Option ℕ

-- The address that `clientIp` finds and the user agent.
pub record Client : Type 0 where
  pub ip : String
  pub user_agent : String

pub data ApiError : Type 0 where
  unauthorized no_session not_found invalid invalid_order rate_limited order_failed : ApiError
  reason_required already_accepted no_visit visit_closed uncaught : ApiError
  already_closed orders_in_flight not_requested name_required too_many invalid_credentials :
      ApiError
  bad_category category_not_empty nothing_to_do email_taken wrong_password : ApiError
  invalid_transition : OrderStatus → ApiError
  accepted_since : OrderStatus → ApiError
  item_unavailable invalid_modifiers : ℕ → ApiError

-- `NextResponse.json(body)`, or an error body with its HTTP status.
pub data Reply (A : Type 0) : Type 0 where
  ok : A → Reply A
  fail : ℕ → ApiError → Reply A

abbrev pub publish : BusEvent → Db → Db
publish e db = record db { events = db.events ++ e ∷ [] }

abbrev pub background : Job → Db → Db
background j db = record db { jobs = db.jobs ++ j ∷ [] }

pub record Subject : Type 0 where
  pub venue_id : Option ℕ
  pub table_id : Option ℕ
  pub session_id : Option ℕ
  pub order_id : Option ℕ

abbrev pub subject_of : ActiveSession → Option ℕ → Subject
subject_of s order = record {
  venue_id = some s.venue_id;
  table_id = some s.table_id;
  session_id = some s.id;
  order_id = order;
}

abbrev pub nobody : Subject
nobody = record { venue_id = none; table_id = none; session_id = none; order_id = none }

abbrev pub log_attempt : Client → ℕ → String → Subject → Db → Db
log_attempt c now outcome s db = record db { attempts = db.attempts ++ row ∷ [] }
  where
    row : OrderAttempt
    row = record {
      outcome = outcome;
      ip = c.ip;
      user_agent = c.user_agent;
      venue_id = s.venue_id;
      table_id = s.table_id;
      session_id = s.session_id;
      order_id = s.order_id;
      created_at = now;
    }
