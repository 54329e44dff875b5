-- ===== src/Outbox/Claims.antt =====
-- The atomic claim of app/api/bridge/pending/route.ts, and the late acknowledgement of
-- app/api/bridge/ack/route.ts (under src/).
use restaurant_app.Prelude.{
  ℕ, ◌+◌, ◌≤◌, ◌≡◌, ◌≢◌, refl, ap, true, false, ◌&&◌, List, [], ◌∷◌, map, Option, some, String,
  arith, All, find_many, find_first, order_by, includes_id,
}
use restaurant_app.Prelude.Rows.{
  All-update_many, All-mono, All-always, find_many-update_many, find_many-update_many_new,
}
use restaurant_app.Schema.{PosDelivery}
use restaurant_app.Schema.Status.{claimed}
use restaurant_app.Outbox.{
  claim_timeout_ms, claimable, claim_row, claim_write, held_by, handed, ack,
}

abbrev pub NotHeld : ℕ → List PosDelivery → Type 0
NotHeld claim rows = All (λ d. held_by claim d ≡ false) rows

-- A poll is handed exactly the rows it asked for that are still claimable when it writes, each
-- marked as claimed and with one more attempt; its claim id must be new.
pub handed-claim_write :
    (venue now later claim : ℕ) (ids : List ℕ) (rows : List PosDelivery)
    → NotHeld claim rows
    → handed claim (claim_write venue now later claim ids rows)
      ≡ order_by
          (λ d. d.created_at)
          (map
            (claim_row later claim)
            (find_many (λ d. includes_id ids d.id && claimable venue now d) rows))
unfolding handed claim_write
handed-claim_write venue now later claim ids rows h =
    ap (order_by (λ d. d.created_at))
      (find_many-update_many_new (held_by claim) _ _ rows h (λ d. ground arith))

-- What a claim holds is dated with the time of the claim.
abbrev HeldSince : ℕ → ℕ → PosDelivery → Type 0
HeldSince claim t d = held_by claim d ≡ true → (d.status ≡ claimed) × (d.claimed_at ≡ some t)

claim_write-HeldSince :
    (venue now later claim : ℕ) (ids : List ℕ) (rows : List PosDelivery)
    → NotHeld claim rows
    → All (HeldSince claim later) (claim_write venue now later claim ids rows)
unfolding claim_write
claim_write-HeldSince venue now later claim ids rows h =
    All-update_many _ _ (λ d hd p _. (refl, refl)) (λ d hd p q. cc) rows h

not-claimable_fresh :
    (venue now since : ℕ) (d : PosDelivery)
    → d.status ≡ claimed
    → d.claimed_at ≡ some since
    → now ≤ since + claim_timeout_ms
    → claimable venue now d ≡ false
unfolding claimable
not-claimable_fresh venue now since d s c t = ground arith

-- Two agents, whatever each has read before: what the first was handed is still its own after the
-- second has claimed too, unless the first claim has been held for longer than the timeout.
-- Claim ids are new and distinct.
pub handed-claim_write_other :
    (venue now later claim : ℕ) (ids : List ℕ) (venue' now' later' claim' : ℕ) (ids' : List ℕ)
    (rows : List PosDelivery)
    → NotHeld claim rows
    → claim ≢ claim'
    → now' ≤ later + claim_timeout_ms
    → let mine = claim_write venue now later claim ids rows in
      handed claim (claim_write venue' now' later' claim' ids' mine) ≡ handed claim mine
unfolding handed
handed-claim_write_other venue now later claim ids venue' now' later' claim' ids' rows h ne t =
    ap (order_by (λ d. d.created_at)) (
      unfold claim_write in
      find_many-update_many (held_by claim) _ _ _
        (All-mono (blocked) _ (claim_write-HeldSince venue now later claim ids rows h))
        (All-always (λ d p. other d) _))
  where
    other : (d : PosDelivery) → held_by claim (claim_row later' claim' d) ≡ false
    other d = ground arith

    blocked :
        (d : PosDelivery)
        → HeldSince claim later d
        → held_by claim d ≡ true
        → (includes_id ids' d.id && claimable venue' now' d) ≡ false
    blocked d k e = ground (arith, k e, not-claimable_fresh venue' now' later d (k e).0 (k e).1 t)

-- The same delivery, held by another claim or since another time.
abbrev pub reheld : (PosDelivery → Option ℕ) → (PosDelivery → Option ℕ) → PosDelivery → PosDelivery
reheld holder since d = record d { claim_id = holder d; claimed_at = since d }

-- An acknowledgement does not ask whose claim it is about: which claim holds each row, and since
-- when, makes no difference to the reply.
pub ack-reheld :
    (venue i : ℕ) (outcome : Option String) (holder since : PosDelivery → Option ℕ)
    (rows : List PosDelivery)
    → (ack venue i outcome (map (reheld holder since) rows)).1 ≡ (ack venue i outcome rows).1
unfolding ack find_first
ack-reheld venue i outcome holder since [] = refl
ack-reheld venue i outcome holder since (d ∷ rows) =
    ground (arith, ack-reheld venue i outcome holder since rows)
