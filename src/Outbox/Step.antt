-- ===== src/Outbox/Step.antt =====
-- The outbox over a whole service: every call that reaches the PosDelivery table, in any order.
use restaurant_app.Prelude.{ℕ, refl, List, [], ◌∷◌, Option, none, String, All}
use restaurant_app.Schema.{PosDelivery}
use restaurant_app.Schema.Status.{pending, Adapter}
use restaurant_app.Outbox.{Delivered, enqueue_row, claim_write, poll, ack, retry, sweep}
use restaurant_app.Outbox.Bounds.{
  IsBounded, claim_write-IsBounded, poll-IsBounded, ack-IsBounded, retry-IsBounded, sweep-IsBounded,
  enqueue_row-IsBounded,
}

-- The row that `enqueuePosDelivery` creates, with the schema's defaults.
abbrev pub new_delivery : (id venue order : ℕ) → Adapter → String → ℕ → PosDelivery
new_delivery id venue order adapter payload now = record {
  id = id;
  venue_id = venue;
  order_id = order;
  adapter = adapter;
  status = pending;
  attempts = 0;
  last_error = none;
  claimed_at = none;
  claim_id = none;
  payload = payload;
  created_at = now;
}

-- `polls` runs its three queries at once. `claims` is the write of a poll whose first query found
-- `ids` at any time before: other calls may stand between the two.
pub data Call : Type 0 where
  enqueues : (id venue order : ℕ) → Adapter → String → ℕ → Call
  polls : (venue now later claim : ℕ) → Call
  claims : (venue now later claim : ℕ) → List ℕ → Call
  acks : (venue i : ℕ) → Option String → Call
  retries : (venue i : ℕ) → Call
  sweeps : (now : ℕ) → Call

module _ (deliver : Adapter → String → Delivered) where
  unfoldable pub step : Call → List PosDelivery → List PosDelivery
  step (enqueues id venue order adapter payload now) rows =
      enqueue_row deliver (new_delivery id venue order adapter payload now) rows
  step (polls venue now later claim) rows = poll venue now later claim rows
  step (claims venue now later claim ids) rows = claim_write venue now later claim ids rows
  step (acks venue i outcome) rows = (ack venue i outcome rows).0
  step (retries venue i) rows = (retry venue i rows).0
  step (sweeps now) rows = (sweep deliver now rows).0

  unfoldable pub run : List Call → List PosDelivery → List PosDelivery
  run [] rows = rows
  run (c ∷ cs) rows = run cs (step c rows)

  step-IsBounded :
      (c : Call) (rows : List PosDelivery) → All IsBounded rows → All IsBounded (step c rows)
  unfolding step
  step-IsBounded (enqueues id venue order adapter payload now) rows h =
      enqueue_row-IsBounded deliver (new_delivery id venue order adapter payload now) rows refl h
  step-IsBounded (polls venue now later claim) rows h = poll-IsBounded venue now later claim rows h
  step-IsBounded (claims venue now later claim ids) rows h =
      claim_write-IsBounded venue now later claim ids rows h
  step-IsBounded (acks venue i outcome) rows h = ack-IsBounded venue i outcome rows h
  step-IsBounded (retries venue i) rows h = retry-IsBounded venue i rows h
  step-IsBounded (sweeps now) rows h = sweep-IsBounded deliver now rows h

  pub run-IsBounded :
      (cs : List Call) (rows : List PosDelivery) → All IsBounded rows → All IsBounded (run cs rows)
  unfolding run
  run-IsBounded [] rows h = h
  run-IsBounded (c ∷ cs) rows h = run-IsBounded cs (step c rows) (step-IsBounded c rows h)

-- From an empty outbox on, whatever the calls, their order and what the adapters answer, no delivery's
-- counter of attempts is above MAX_ATTEMPTS, and a pending one's is below it. The counter starts
-- again at 0 when an admin has the ticket printed again. A poll's write may stand apart from its
-- first query; of the other calls each runs with nothing in between.
pub run_empty-IsBounded :
    (deliver : Adapter → String → Delivered) (cs : List Call) → All IsBounded (run deliver cs [])
run_empty-IsBounded deliver cs = run-IsBounded deliver cs [] tt
