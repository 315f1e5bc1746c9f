-- ===== src/Orders/Door.antt =====
-- transitionOrder taken apart into its branches, in the terms of its definition.
use ecom_platform.Base.{
  ℕ, ◌≡◌, ◌≢◌, ◌⊎◌, inl, inr, true, false, Option, none, some, ◌∷◌, arith, Bool-cases, Option-cases,
  ok, err, invalid_transition, concurrent_modification, if◌then◌else◌,
}
use ecom_platform.Orders.{
  OrderStatus, pending_payment, OrderEventName, ActorType, OrderRow, OrderEvent, Tables,
  can_transition, same_status, moved, put, event_row, update_status, transition_order,
}

-- The position determines the status.
pub same_status→eq : (a b : OrderStatus) → same_status a b ≡ true → a ≡ b
same_status→eq pending_payment b h = ground arith
same_status→eq _ b h = ground arith

pub same_status_refl : (a : OrderStatus) → same_status a a ≡ true
same_status_refl a = ground arith

-- The order is not where the caller saw it.
abbrev pub HasLeft : ℕ → OrderStatus → Tables → Type 0
HasLeft id from t = (r : OrderRow) → t.order id ≡ some r → r.status ≢ from

-- The tables after a move that was made.
abbrev pub after_move : (now id : ℕ) (to : OrderStatus) → OrderEvent → OrderRow → Tables → Tables
after_move now id to e r t = record t {
  order = put id (moved now to r) t.order;
  order_events = e ∷ t.order_events;
}

-- How a call ends.
abbrev pub DoorOutcome :
    (now id : ℕ) (from to : OrderStatus) → OrderEventName → ActorType → Option ℕ → Tables → Type 0
DoorOutcome now id from to name actor collected t =
    ((can_transition from to ≡ false)
      × (transition_order now id from to name actor collected t ≡ err invalid_transition))
    ⊎ ((can_transition from to ≡ true)
        × HasLeft id from t
        × (transition_order now id from to name actor collected t ≡ err concurrent_modification))
    ⊎ ((can_transition from to ≡ true)
        × ((r : OrderRow) × (t.order id ≡ some r)
            × (r.status ≡ from)
            × (transition_order now id from to name actor collected t
                ≡ ok (
                  event_row now id from to name actor collected,
                  after_move now id to (event_row now id from to name actor collected) r t,
                ))))

update_status_missing :
    (now id : ℕ) (from to : OrderStatus) (t : Tables)
    → t.order id ≡ none
    → update_status now id from to t ≡ err concurrent_modification
unfolding update_status
update_status_missing now id from to t e = rw (e, update_status)

update_status_found :
    (now id : ℕ) (from to : OrderStatus) (t : Tables) (r : OrderRow)
    → t.order id ≡ some r
    → update_status now id from to t ≡ (
        if same_status r.status from
        then ok (record t { order = put id (moved now to r) t.order })
        else err concurrent_modification)
unfolding update_status
update_status_found now id from to t r e = rw (e, update_status)

-- The three ways in which transitionOrder ends.
pub transition_order-DoorOutcome :
    (now id : ℕ) (from to : OrderStatus) (name : OrderEventName) (actor : ActorType)
    (collected : Option ℕ) (t : Tables)
    → DoorOutcome now id from to name actor collected t
unfolding transition_order
transition_order-DoorOutcome now id from to name actor collected t =
    elim (Bool-cases (can_transition from to)) [
      | inr illegal ↦ inl (illegal, rw illegal)
      | inl legal ↦ elim (Option-cases (t.order id)) [
        | inl missing ↦ inr (
            inl (
              legal,
              (λ r e. absurd (none_some r (rw missing at e))),
              rw (legal, update_status_missing now id from to t missing),
            ))
        | inr (r, found) ↦ elim (Bool-cases (same_status r.status from)) [
          | inl here ↦ inr (
              inr (
                legal,
                (
                  r,
                  found,
                  same_status→eq r.status from here,
                  rw (legal, update_status_found now id from to t r found, here),
                ),
              ))
          | inr gone ↦ inr (
              inl (
                legal,
                (λ q e p. absurd (left r q found e p gone)),
                rw (legal, update_status_found now id from to t r found, gone),
              ))
        ]
      ]
    ]
  where
    none_some : (r : OrderRow) → none ≡ some r → ⊥
    none_some r e = cc

    left :
        (r q : OrderRow)
        → t.order id ≡ some r
        → t.order id ≡ some q
        → q.status ≡ from
        → same_status r.status from ≡ false
        → ⊥
    left r q e f p g = ground (arith, same_status_refl from)
