-- ===== src/Orders/Edges.antt =====
-- The moves of an order written out as relations, and that the tables of
-- packages/core/src/orders/index.ts and server.ts have these moves and no others.
use ecom_platform.Base.{
  ◌≡◌, refl, Bool, true, List, [], ◌∷◌, any, All, Bool-cases, inl, inr, arith, some, ◌&&◌,
}
use ecom_platform.Orders.{
  OrderStatus, pending_payment, confirmed, processing, ready_to_ship, shipped, out_for_delivery,
  delivered, rto_initiated, rto_delivered, return_requested, return_picked, refunded, cancelled,
  abandoned, order_transitions, manual_order_transitions, can_transition, same_status, is_manual,
  OrderEventName, order_processing, order_ready_to_ship, order_shipped, order_out_for_delivery,
  order_delivered, manual_event_by_target,
}
use ecom_platform.Orders.Door.{same_status→eq}

-- A step of an order's life.
pub data Edge : OrderStatus → OrderStatus → Type 0 where
  is_paid_for : Edge pending_payment confirmed
  is_given_up : Edge pending_payment abandoned
  is_cancelled_unpaid : Edge pending_payment cancelled
  is_taken_up : Edge confirmed processing
  is_cancelled_confirmed : Edge confirmed cancelled
  is_packed : Edge processing ready_to_ship
  is_cancelled_processing : Edge processing cancelled
  is_handed_over : Edge ready_to_ship shipped
  goes_out : Edge shipped out_for_delivery
  turns_back : Edge shipped rto_initiated
  arrives : Edge out_for_delivery delivered
  is_refused : Edge out_for_delivery rto_initiated
  comes_back : Edge rto_initiated rto_delivered
  is_sent_back : Edge delivered return_requested
  is_picked_up : Edge return_requested return_picked
  is_repaid : Edge return_picked refunded

-- A step of the console's ladder, with the event that it is logged under.
pub data Rung : OrderStatus → OrderStatus → OrderEventName → Type 0 where
  to_processing : Rung confirmed processing order_processing
  to_packed : Rung processing ready_to_ship order_ready_to_ship
  to_shipped : Rung ready_to_ship shipped order_shipped
  to_out : Rung shipped out_for_delivery order_out_for_delivery
  to_delivered : Rung out_for_delivery delivered order_delivered

pub Edge→can_transition : {from to : OrderStatus} → Edge from to → can_transition from to ≡ true
unfolding can_transition
Edge→can_transition is_paid_for = refl
Edge→can_transition is_given_up = refl
Edge→can_transition is_cancelled_unpaid = refl
Edge→can_transition is_taken_up = refl
Edge→can_transition is_cancelled_confirmed = refl
Edge→can_transition is_packed = refl
Edge→can_transition is_cancelled_processing = refl
Edge→can_transition is_handed_over = refl
Edge→can_transition goes_out = refl
Edge→can_transition turns_back = refl
Edge→can_transition arrives = refl
Edge→can_transition is_refused = refl
Edge→can_transition comes_back = refl
Edge→can_transition is_sent_back = refl
Edge→can_transition is_picked_up = refl
Edge→can_transition is_repaid = refl

drawn : (from : OrderStatus) → All (Edge from) (order_transitions from)
drawn pending_payment = (is_paid_for, (is_given_up, (is_cancelled_unpaid, tt)))
drawn confirmed = (is_taken_up, (is_cancelled_confirmed, tt))
drawn processing = (is_packed, (is_cancelled_processing, tt))
drawn ready_to_ship = (is_handed_over, tt)
drawn shipped = (goes_out, (turns_back, tt))
drawn out_for_delivery = (arrives, (is_refused, tt))
drawn rto_initiated = (comes_back, tt)
drawn delivered = (is_sent_back, tt)
drawn return_requested = (is_picked_up, tt)
drawn return_picked = (is_repaid, tt)
drawn abandoned = tt
drawn cancelled = tt
drawn refunded = tt
drawn rto_delivered = tt

-- What holds of every entry holds of the one that a search finds.
any-All {ℓ κ} :
    {A : Type ℓ} {Q : Type κ} (P : A → Type 0) (p : A → Bool) (xs : List A)
    → any p xs ≡ true
    → All P xs
    → ((a : A) → p a ≡ true → P a → Q)
    → Q
any-All P p [] h v found = absurd (cc)
any-All P p (x ∷ xs) h v found = elim (Bool-cases (p x)) [
  | inl e ↦ found x e v.0
  | inr e ↦ any-All P p xs (ground (arith, h, e)) v.1 found
]

pub can_transition→Edge : (from to : OrderStatus) → can_transition from to ≡ true → Edge from to
unfolding can_transition
can_transition→Edge from to h =
    any-All (Edge from) (same_status to) (order_transitions from) h (drawn from)
      (λ s e edge. rw (same_status→eq to s e) edge)

-- The target names the event, and the pair is on the ladder.
abbrev IsRung : OrderStatus × OrderStatus → Type 0
IsRung t = (name : OrderEventName) × (manual_event_by_target t.1 ≡ some name) × Rung t.0 t.1 name

rungs : All IsRung manual_order_transitions
rungs = (
  (order_processing, refl, to_processing),
  (
    (order_ready_to_ship, refl, to_packed),
    (
      (order_shipped, refl, to_shipped),
      ((order_out_for_delivery, refl, to_out), ((order_delivered, refl, to_delivered), tt)),
    ),
  ),
)

pub is_manual→Rung :
    (from to : OrderStatus)
    → is_manual from to ≡ true
    → (name : OrderEventName) × (manual_event_by_target to ≡ some name) × Rung from to name
unfolding is_manual
is_manual→Rung from to h =
    any-All IsRung (λ t. same_status t.0 from && same_status t.1 to) manual_order_transitions h
      rungs (λ t e rung. located t e rung)
  where
    located :
        (t : OrderStatus × OrderStatus)
        → (same_status t.0 from && same_status t.1 to) ≡ true
        → IsRung t
        → IsRung (from, to)
    located t e rung =
        let a : t.0 ≡ from = same_status→eq t.0 from (ground (arith, e)) in
        let b : t.1 ≡ to = same_status→eq t.1 to (ground (arith, e)) in rw (a, b) at rung

pub Rung→is_manual :
    {from to : OrderStatus} {name : OrderEventName} → Rung from to name → is_manual from to ≡ true
unfolding is_manual
Rung→is_manual to_processing = refl
Rung→is_manual to_packed = refl
Rung→is_manual to_shipped = refl
Rung→is_manual to_out = refl
Rung→is_manual to_delivered = refl
