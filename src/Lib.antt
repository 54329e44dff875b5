-- ===== src/Lib.antt =====
-- The orders of a restaurant in which guests order by phone: what the server does from the tap that
-- places an order to the ticket on the kitchen's printer. The program is a web server over a
-- relational database; beside it the handlers share the counters of RateLimit, the cached accounts
-- of StaffAuth and the kept menus of Menu. The state is one record of tables (Schema), a handler is
-- a function from the database to the database and a reply, and where a property depends on
-- what other requests do between a handler's read and its write, the two are separate functions.
--
-- The parts, the files that model them, and the code they are translated from:
--   Schema, Schema/Status   the tables and enumerations: prisma/schema.prisma,
--                           src/lib/orderStatus.ts, src/lib/bus.ts
--   Api                     identities, replies, events, the ledger of attempts: src/lib/bus.ts,
--                           src/lib/attempts.ts
--   Pricing                 the checks and the pricing of a new order: src/app/api/orders/route.ts
--   Ordering                placing an order, with the replay check, the limits and the loop that
--                           finds a ticket number: the same file
--   OrderStatus             the desk's transitions and the guest's withdrawal:
--                           src/app/api/desk/orders/[id]/route.ts and
--                           src/app/api/orders/[id]/cancel/route.ts
--   OrderEdit               corrections by the desk: src/lib/orderEdit.ts and
--                           src/app/api/desk/orders/[id]/items/route.ts
--   Bill                    the bill of a party and the lists that show it: src/lib/visit.ts,
--                           src/app/api/bill/route.ts, src/app/api/desk/bills/route.ts
--   Visit                   the party at a table, from the first scan to the payment:
--                           src/lib/visit.ts and the routes src/app/api/bill/route.ts,
--                           src/app/api/desk/bills/[id] (its PATCH and settle/route.ts)
--   Session                 the phones at a table: src/lib/tableSession.ts
--   RateLimit               counters against floods of requests: src/lib/rateLimit.ts
--   StaffAdmin              changes of staff accounts: src/lib/staffAdmin.ts
--   StaffAuth               who a request of the staff comes from, and the token's life:
--                           src/lib/staffAuth.ts
--   Menu, Menu/Admin        the menu that the phones read, the copy kept of it, and the admin's
--                           requests on it: src/lib/menu.ts, src/lib/validation.ts,
--                           src/app/api/admin/items, src/app/api/admin/categories,
--                           src/lib/venueSettings.ts
--   Cart                    the phone's side of an order: src/components/CustomerApp.tsx,
--                           src/components/customer/ItemSheet.tsx
--   Tables                  the tables under the admin's requests: src/app/api/admin/tables,
--                           src/app/api/admin/sessions/[id]/route.ts, src/lib/venueSettings.ts
--   Scan                    a guest scans a table's code: src/app/scan/[code]/route.ts, src/lib/qr.ts
--   StaffLogin              new accounts and sign-in: src/lib/staffAdmin.ts, src/lib/staffAuth.ts,
--                           src/app/api/auth, src/app/api/admin/staff/route.ts
--   BridgeKeys              the keys of the agents at the printers: src/lib/bridgeKey.ts,
--                           src/lib/venueSettings.ts, src/app/api/admin/bridge-keys/route.ts
--   DeskOrders              the desk's list of orders: src/app/api/desk/orders/route.ts
--   Streams                 what the live streams let through: src/app/api/session/stream/route.ts,
--                           src/app/api/desk/stream/route.ts
--   Export                  the log as CSV: src/app/api/admin/orders/export/route.ts
--   OrderLog                the admin's paged log: src/lib/pagination.ts,
--                           src/app/api/admin/orders/route.ts
--   Reporting               the figures of a day: src/lib/reporting.ts
--   Retention               what is removed at night: src/lib/retention.ts
--   Ticket                  the kitchen's ticket: src/lib/pos/ticket.ts, src/lib/pos/outbox.ts
--   Outbox                  the printer's queue: src/lib/pos/outbox.ts, src/lib/pos/adapters.ts, the
--                           routes src/app/api/bridge and src/app/api/admin/pos/[id]/retry
-- The child modules hold the theorems, by subject, and the tests. Prelude has what all share: lists
-- of rows with the database's reads and writes, integers, and lemmas on them; Examples has a small
-- restaurant for the tests.
--
-- How the code is rendered. A row's id is a number that is only compared; a time is in milliseconds
-- and is an argument; a price is an integer, since a modifier may lower it; JavaScript's numbers are
-- taken as exact, which they are below 2 ^ 53. The database's columns of amounts hold 32 bits: an
-- amount from 2 ^ 31 on makes the insertion fail, and that error is left out. A text's length counts
-- characters. Text lost in the model: the ledger's free text and the cut of an error message at 500
-- characters. The statements of one transaction run at once; the conditional writes of the database
-- (`updateMany`) are single steps. An admin's change of the menu and the event that it publishes are
-- one step.
--
-- Reads and writes. Two functions, with one more for the two of them with nothing in between, are
-- given for the correction of an order, the desk's change of a status, the guest's withdrawal, the
-- change of an account, a push of a ticket and its acknowledgement. The claim of a printer's agent and
-- the opening of a visit are cut at each of their statements; the creation of an order runs any other
-- requests between its rounds. The other handlers that read first and write by id afterwards (printing
-- again, the request for a bill and its answer, one's own password, the admin's changes of tables, of
-- the menu and of sessions) are one function each and so one step: what is stated of them is stated
-- with no other request in between.
--
-- Bounds. The creation loop has its own bound of five rounds and the model runs those; no other loop
-- of the code is unbounded. Fuel that the code does not have is given twice: the digits of a number
-- (Prelude/Texts), where the number itself and one more is proved to be enough, and the reading of
-- the log page by page (OrderLog/Pages), which is a reader's and not the code's, where one more than
-- the orders is proved to be enough.
--
-- Parameters. `between` is what other requests do between a read and an insert; `key_first` says
-- which of two broken indexes the database reports; `new_ids` are the ids of new rows; `deliver` is
-- what an adapter answers when a ticket is pushed; `hash`, `matches` and `trim` are those of the
-- password library and of texts; `sign` is the keyed hash that signs a table's code and `secret` a
-- venue's key; `upper`, `clock` and `money` are the platform's text functions on a ticket, `iso` and
-- `fixed` those of the export; `normalize`, `valid_email`, `account_key` and `change_key` stand for
-- those of the sign-in, and `digits` for the random part of a key.
--
-- Not modelled: rendering of pages and of QR images, the connections of event streams, the reading
-- of headers, cookies, the server's calendar and percentages in floating point, the timers, the
-- uploads, and the bridge agent at the printer.
pub mod Prelude
pub mod Schema
pub mod Examples
pub mod Api
pub mod OrderStatus
pub mod OrderEdit
pub mod Pricing
pub mod Ordering
pub mod Outbox
pub mod Bill
pub mod Visit
pub mod RateLimit
pub mod Session
pub mod StaffAdmin
pub mod StaffAuth
pub mod StaffLogin
pub mod Ticket
pub mod Tables
pub mod Scan
pub mod Menu
pub mod Cart
pub mod OrderLog
pub mod Retention
pub mod Reporting
pub mod DeskOrders
pub mod Streams
pub mod BridgeKeys
pub mod Export
