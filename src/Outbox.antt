-- ===== src/Outbox.antt =====
-- The printer outbox: lib/pos/outbox.ts, lib/pos/adapters.ts, app/api/bridge/pending/route.ts,
-- app/api/bridge/ack/route.ts and app/api/admin/pos/[id]/retry/route.ts (all under src/).
-- The rows are the PosDelivery table, oldest insertion first; the clock is an argument. What an
-- adapter answers when a ticket is pushed to it is the parameter `deliver`.
pub mod Push
pub mod Bounds
pub mod Step
pub mod Claims
pub mod Sweep
mod Tests
use restaurant_app.Prelude.{
  ℕ, ◌+◌, Bool, true, false, not, ◌&&◌, ◌||◌, List, [], ◌∷◌, ◌++◌, map, Option, none, some, String,
  ltb, leb, ◌==◌, if◌then◌else◌, find_many, find_first, count, update_many, order_by, take, length,
  includes_id,
}
use restaurant_app.Schema.{PosDelivery}
use restaurant_app.Schema.Status.{
  pending, claimed, sent, failed, Adapter, console, escpos_bridge, is_pending, is_claimed,
  is_bridge,
}

abbrev pub max_attempts : ℕ
max_attempts = 5

abbrev pub claim_timeout_ms : ℕ
claim_timeout_ms = 60_000

abbrev pub batch : ℕ
batch = 10

abbrev pub has_id : ℕ → PosDelivery → Bool
has_id i d = d.id == i

-- `claimedAt: { lt: now - CLAIM_TIMEOUT_MS }`, which is false of null.
abbrev older_than : ℕ → Option ℕ → Bool
older_than now none = false
older_than now (some t) = ltb (t + claim_timeout_ms) now

abbrev is_null {ℓ} : {A : Type ℓ} → Option A → Bool
is_null none = true
is_null (some a) = false

-- What pushing a ticket answers: `{ done: true }`, `{ done: false }`, `{ done: false, error }`.
pub data Delivered : Type 0 where
  done waiting : Delivered
  error : String → Delivered

-- The two adapters of the program.
unfoldable pub adapter_deliver : Adapter → String → Delivered
adapter_deliver console payload = done
adapter_deliver escpos_bridge payload = waiting

-- `String(new Error(message))`, without the cut at 500 characters.
abbrev error_text : String → String
error_text m = Prim.Native.String.◌++◌ "Error: " m

-- `update({ where: { id } })`: one row, since ids are unique.
pub update_unique : ℕ → (PosDelivery → PosDelivery) → List PosDelivery → List PosDelivery
update_unique i f [] = []
update_unique i f (d ∷ rows) =
    let rest = update_unique i f rows in if has_id i d then f d ∷ rows else d ∷ rest

pending_of : Option PosDelivery → Option PosDelivery
pending_of none = none
pending_of (some d) = if is_pending d.status then some d else none

-- The read of `attemptDelivery`: the row, if it is there and pending.
pub attempt_read : ℕ → List PosDelivery → Option PosDelivery
unfolding pending_of
attempt_read i rows = pending_of (find_first (has_id i) rows)

module _ (deliver : Adapter → String → Delivered) where
  -- The row `x` after a push of the row that was read as `d`.
  pub after_push : (d x : PosDelivery) → PosDelivery
  after_push d x = elim (deliver d.adapter d.payload) [
    | done ↦ record x { status = sent; attempts = x.attempts + 1 }
    | waiting ↦ x
    | error m ↦ record x {
      attempts = d.attempts + 1;
      last_error = some (error_text m);
      status = if leb max_attempts (d.attempts + 1) then failed else pending;
    }
  ]

  -- The write of `attemptDelivery`, which tests nothing again.
  pub attempt_write : ℕ → Option PosDelivery → List PosDelivery → List PosDelivery
  unfolding after_push
  attempt_write i none rows = rows
  attempt_write i (some d) rows = update_unique i (after_push d) rows

  -- The whole, with no other request in between.
  pub attempt_delivery : ℕ → List PosDelivery → List PosDelivery
  unfolding attempt_read attempt_write
  attempt_delivery i rows = attempt_write i (attempt_read i rows) rows

  -- The outbox half of `enqueuePosDelivery`: the row is written, then pushed once.
  pub enqueue_row : PosDelivery → List PosDelivery → List PosDelivery
  unfolding attempt_delivery
  enqueue_row d rows = attempt_delivery d.id (rows ++ d ∷ [])

-- The rows that a bridge agent of the venue may be handed.
pub claimable : ℕ → ℕ → PosDelivery → Bool
claimable venue now d =
    (d.venue_id == venue)
    && is_bridge d.adapter
    && ltb d.attempts max_attempts
    && (is_pending d.status
        || is_claimed d.status && older_than now d.claimed_at
        || is_claimed d.status && is_null d.claimed_at)

-- The first query of a poll: the ids of the ten oldest claimable rows.
pub candidates : ℕ → ℕ → List PosDelivery → List ℕ
candidates venue now rows =
    map (λ d. d.id)
      (take batch (order_by (λ d. d.created_at) (find_many (claimable venue now) rows)))

abbrev pub claim_row : ℕ → ℕ → PosDelivery → PosDelivery
claim_row now claim d = record d {
  status = claimed;
  claimed_at = some now;
  claim_id = some claim;
  attempts = d.attempts + 1;
}

-- The second: the conditional write, which tests `claimable` once more. `now` is the time of the
-- first query and `later` that of the write.
pub claim_write : ℕ → ℕ → ℕ → ℕ → List ℕ → List PosDelivery → List PosDelivery
claim_write venue now later claim ids =
    update_many (λ d. includes_id ids d.id && claimable venue now d) (claim_row later claim)

abbrev pub held_by : ℕ → PosDelivery → Bool
held_by claim d = elim d.claim_id [ none ↦ false | some c ↦ c == claim ]

-- The third: what is handed to the agent.
pub handed : ℕ → List PosDelivery → List PosDelivery
handed claim rows = order_by (λ d. d.created_at) (find_many (held_by claim) rows)

-- A poll that nothing interrupts.
pub poll : ℕ → ℕ → ℕ → ℕ → List PosDelivery → List PosDelivery
unfolding candidates claim_write claimable
poll venue now later claim rows = elim (candidates venue now rows) [
  | [] ↦ rows
  | i ∷ ids ↦ claim_write venue now later claim (i ∷ ids) rows
]

pub data AckReply : Type 0 where
  not_found ignored acknowledged : AckReply

-- The row `x` after an acknowledgement, of the row that was read as `d`, that the ticket was printed,
-- or that it was not and why.
abbrev pub settle_row : Option String → (d x : PosDelivery) → PosDelivery
settle_row none d x = record x {
  status = sent;
  claimed_at = none;
  claim_id = none;
  last_error = none;
}
settle_row (some why) d x = record x {
  status = if leb max_attempts d.attempts then failed else pending;
  claimed_at = none;
  claim_id = none;
  last_error = some why;
}

of_venue : ℕ → Option PosDelivery → Option PosDelivery
of_venue venue none = none
of_venue venue (some d) = if d.venue_id == venue then some d else none

-- The read of an acknowledgement, `findFirst({ where: { id, venueId } })`: at most one row has the id.
pub ack_read : (venue i : ℕ) → List PosDelivery → Option PosDelivery
unfolding of_venue
ack_read venue i rows = of_venue venue (find_first (has_id i) rows)

-- Its write, which tests nothing again.
pub ack_write :
    ℕ → Option String → Option PosDelivery → List PosDelivery → List PosDelivery × AckReply
unfolding update_unique
ack_write i outcome none rows = (rows, not_found)
ack_write i outcome (some d) rows =
    if is_claimed d.status
    then (update_unique i (settle_row outcome d) rows, acknowledged)
    else (rows, ignored)

-- The whole, with no other request in between.
pub ack : ℕ → ℕ → Option String → List PosDelivery → List PosDelivery × AckReply
unfolding ack_read ack_write
ack venue i outcome rows = ack_write i outcome (ack_read venue i rows) rows

abbrev pub retry_row : PosDelivery → PosDelivery
retry_row d = record d {
  status = pending;
  attempts = 0;
  claimed_at = none;
  claim_id = none;
  last_error = none;
}

retry_found : ℕ → Option PosDelivery → List PosDelivery → List PosDelivery × Bool
retry_found i none rows = (rows, false)
retry_found i (some d) rows = (update_many (has_id i) retry_row rows, true)

-- "Print again" on the admin screen; false if the venue has no such row.
pub retry : ℕ → ℕ → List PosDelivery → List PosDelivery × Bool
unfolding retry_found
retry venue i rows = retry_found i (find_first (λ d. has_id i d && (d.venue_id == venue)) rows) rows

abbrev pub is_stale : ℕ → PosDelivery → Bool
is_stale now d = is_claimed d.status && older_than now d.claimed_at

abbrev pub is_undated : PosDelivery → Bool
is_undated d = is_claimed d.status && is_null d.claimed_at

abbrev pub is_exhausted : PosDelivery → Bool
is_exhausted d = is_pending d.status && leb max_attempts d.attempts

abbrev claim_expired : Option String
claim_expired = some "claim expired — agent did not ack"

abbrev release_stale : PosDelivery → PosDelivery
release_stale d = record d {
  status = pending;
  claim_id = none;
  claimed_at = none;
  last_error = claim_expired;
}

abbrev release_undated : PosDelivery → PosDelivery
release_undated d = record d { status = pending; claim_id = none; last_error = claim_expired }

abbrev give_up : PosDelivery → PosDelivery
give_up d = record d { status = failed }

-- The three bulk writes of the sweep.
pub reconcile : ℕ → List PosDelivery → List PosDelivery
reconcile now rows =
    update_many is_exhausted give_up
      (update_many is_undated release_undated (update_many (is_stale now) release_stale rows))

abbrev pub retryable : PosDelivery → Bool
retryable d = is_pending d.status && not (is_bridge d.adapter) && ltb d.attempts max_attempts

abbrev sweep_batch : ℕ
sweep_batch = 50

pub record SweepResult : Type 0 where
  pub reclaimed : ℕ
  pub retried : ℕ
  pub exhausted : ℕ

module _ (deliver : Adapter → String → Delivered) where
  pub attempt_all : List PosDelivery → List PosDelivery → List PosDelivery
  attempt_all [] rows = rows
  attempt_all (d ∷ ds) rows = attempt_all ds (attempt_delivery deliver d.id rows)

  pub sweep : ℕ → List PosDelivery → List PosDelivery × SweepResult
  unfolding reconcile
  sweep now rows =
      let stale = update_many (is_stale now) release_stale rows in
      let dated = update_many is_undated release_undated stale in
      let swept = reconcile now rows in
      let batch = take sweep_batch (order_by (λ d. d.created_at) (find_many retryable swept)) in
      (
        attempt_all batch swept,
        record {
          reclaimed = count (is_stale now) rows + count is_undated stale;
          retried = length batch;
          exhausted = count is_exhausted dated;
        },
      )
