-- ===== src/Schema.antt =====
-- The data model: prisma/schema.prisma, and the enumerations of src/lib/orderStatus.ts,
-- src/lib/visit.ts, src/lib/bus.ts and src/lib/pos/types.ts. A row is a record, a nullable column
-- an `Option`. Row ids are numbers that are only compared, times are milliseconds, and amounts of
-- money are integers, since a modifier may lower a price. `modifiers` is what `modifiersJson`
-- encodes. Columns that no modelled code reads or writes are left out.
pub mod Status
use restaurant_app.Prelude.{ℕ, Bool, List, Option, String}
use restaurant_app.Prelude.Int.{ℤ}
use Status.{OrderStatus, VisitStatus, DeliveryStatus, Adapter}

pub record ModifierSnapshot : Type 0 where
  pub name : String
  pub price_delta_kurus : ℤ

pub record OrderItem : Type 0 where
  pub id : ℕ
  pub order_id : ℕ
  pub item_id : Option ℕ
  pub name_snapshot : String
  pub unit_price_kurus : ℤ
  pub qty : ℕ
  pub note : String
  pub modifiers : List ModifierSnapshot
  pub voided_at : Option ℕ

pub record Order : Type 0 where
  pub id : ℕ
  pub venue_id : ℕ
  pub table_id : ℕ
  pub session_id : ℕ
  pub visit_id : Option ℕ
  pub number : ℕ
  pub status : OrderStatus
  pub reject_reason : Option String
  pub total_kurus : ℤ
  pub paid : Bool
  pub payment_provider : Option String
  pub idempotency_key : Option String
  pub created_at : ℕ

pub record LineChange : Type 0 where
  pub name : String
  pub from_qty : ℕ
  pub to_qty : ℕ

pub record OrderEdit : Type 0 where
  pub order_id : ℕ
  pub staff_id : ℕ
  pub staff_name : String
  pub changes : List LineChange
  pub after_print : Bool
  pub created_at : ℕ

pub record TableSession : Type 0 where
  pub id : ℕ
  pub venue_id : ℕ
  pub table_id : ℕ
  pub token : ℕ
  pub visit_id : Option ℕ
  pub created_at : ℕ
  pub last_seen_at : ℕ
  pub expires_at : ℕ
  pub revoked_at : Option ℕ

pub record TableVisit : Type 0 where
  pub id : ℕ
  pub venue_id : ℕ
  pub table_id : ℕ
  pub status : VisitStatus
  pub opened_at : ℕ
  pub bill_requested_at : Option ℕ
  pub closed_at : Option ℕ
  pub closed_reason : Option String
  pub total_kurus : Option ℤ
  pub payment_method : Option String
  pub paid_amount_kurus : Option ℤ
  pub closed_by_staff_id : Option ℕ

pub record PosDelivery : Type 0 where
  pub id : ℕ
  pub venue_id : ℕ
  pub order_id : ℕ
  pub adapter : Adapter
  pub status : DeliveryStatus
  pub attempts : ℕ
  pub last_error : Option String
  pub claimed_at : Option ℕ
  pub claim_id : Option ℕ
  pub payload : String
  pub created_at : ℕ

pub record ModifierOption : Type 0 where
  pub id : ℕ
  pub name_tr : String
  pub price_delta_kurus : ℤ

pub record ModifierGroup : Type 0 where
  pub id : ℕ
  pub min_select : ℕ
  pub max_select : ℕ
  pub options : List ModifierOption

-- A menu item with its groups and their options, as the order route reads it.
pub record MenuItem : Type 0 where
  pub id : ℕ
  pub venue_id : ℕ
  pub name_tr : String
  pub price_kurus : ℤ
  pub available : Bool
  pub modifier_groups : List ModifierGroup

pub record Table : Type 0 where
  pub id : ℕ
  pub venue_id : ℕ
  pub code : String
  pub name : String
  pub qr_version : ℕ
  pub active : Bool

-- The ledger of attempts. Its free text `detail` is left out.
pub record OrderAttempt : Type 0 where
  pub outcome : String
  pub ip : String
  pub user_agent : String
  pub venue_id : Option ℕ
  pub table_id : Option ℕ
  pub session_id : Option ℕ
  pub order_id : Option ℕ
  pub created_at : ℕ

pub data BusEvent : Type 0 where
  order_created order_updated : (venue order session table : ℕ) → BusEvent
  menu_changed : (venue : ℕ) → BusEvent
  session_revoked : (venue session : ℕ) → BusEvent
  bill_requested bill_updated visit_closed : (venue visit table : ℕ) → BusEvent

-- Work that a handler leaves running in the background: printing an order, or its amendment.
pub data Job : Type 0 where
  print_order : (order : ℕ) → Job
  print_amendment : (order : ℕ) (changes : List LineChange) (by_staff : String) → Job

-- Everything that the handlers share: the tables, the events published, the jobs left behind.
pub record Db : Type 0 where
  pub tables : List Table
  pub menu : List MenuItem
  pub sessions : List TableSession
  pub visits : List TableVisit
  pub orders : List Order
  pub items : List OrderItem
  pub edits : List OrderEdit
  pub deliveries : List PosDelivery
  pub attempts : List OrderAttempt
  pub events : List BusEvent
  pub jobs : List Job
