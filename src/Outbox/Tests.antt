-- ===== src/Outbox/Tests.antt =====
-- Runs of the printer outbox, and the theorems at concrete inputs.
use restaurant_app.Prelude.{
  ℕ, ◌+◌, ◌≡◌, refl, List, [], ◌∷◌, none, some, arith, All, find_many, find_first, count,
  update_many, order_by,
}
use restaurant_app.Schema.{PosDelivery}
use restaurant_app.Schema.Status.{claimed, sent, failed, escpos_bridge}
use restaurant_app.Outbox.{
  adapter_deliver, ignored, acknowledged, claim_write, enqueue_row, handed, poll, ack, reconcile,
  sweep, attempt_all,
}
use restaurant_app.Outbox.Bounds.{IsBounded}
use restaurant_app.Outbox.Step.{
  Call, enqueues, polls, acks, sweeps, new_delivery, step, run, run_empty-IsBounded,
}
use restaurant_app.Outbox.Claims.{handed-claim_write_other}
use restaurant_app.Outbox.Sweep.{IsReconciled, sweep-IsReconciled}

abbrev ticket : ℕ → PosDelivery
ticket id = new_delivery id 1 (id + 100) escpos_bridge "ticket" id

abbrev stranded : PosDelivery
stranded = record (ticket 3) {
  status = claimed;
  attempts = 5;
  claimed_at = some 10;
  claim_id = some 7;
}

abbrev two_tickets : List PosDelivery
two_tickets = ticket 1 ∷ ticket 2 ∷ []

printing : Unit {0}
unfolding run step enqueue_row poll ack sweep reconcile attempt_all claim_write handed
    adapter_deliver find_many find_first count update_many order_by
printing = tt

-- A ticket is claimed, refused once by the printer, claimed again and printed.
abbrev service : List Call
service =
    enqueues 1 1 101 escpos_bridge "ticket" 1
    ∷ polls 1 2 2 40
    ∷ acks 1 1 (some "out of paper")
    ∷ polls 1 5 5 41
    ∷ acks 1 1 none
    ∷ sweeps 70_000
    ∷ []

printed : run adapter_deliver service [] ≡ record (ticket 1) { status = sent; attempts = 2 } ∷ []
unfolding printing
printed = refl

given_up :
    (sweep adapter_deliver 60_011 (stranded ∷ [])).0
    ≡ record stranded {
      status = failed;
      claimed_at = none;
      claim_id = none;
      last_error = some "claim expired — agent did not ack";
    }
      ∷ []
unfolding printing
given_up = refl

late_replies :
    ((ack 1 3 none (stranded ∷ [])).1 ≡ acknowledged) × ((ack 1 1 none two_tickets).1 ≡ ignored)
unfolding printing
late_replies = (refl, refl)

run_empty-IsBounded_example : All IsBounded (run adapter_deliver service [])
run_empty-IsBounded_example = run_empty-IsBounded adapter_deliver service

handed-claim_write_other_example :
    let mine = claim_write 1 5 6 40 (1 ∷ []) two_tickets in
    handed 40 (claim_write 1 5 8 41 (1 ∷ 2 ∷ []) mine) ≡ handed 40 mine
handed-claim_write_other_example =
    handed-claim_write_other 1 5 6 40 (1 ∷ []) 1 5 8 41 (1 ∷ 2 ∷ []) two_tickets (refl, (refl, tt))
      (λ e. omega arith) (omega arith)

sweep-IsReconciled_example :
    All (IsReconciled 60_011) (sweep adapter_deliver 60_011 (stranded ∷ two_tickets)).0
sweep-IsReconciled_example = sweep-IsReconciled adapter_deliver 60_011 (stranded ∷ two_tickets)
