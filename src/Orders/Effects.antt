-- ===== src/Orders/Effects.antt =====
-- What transitionOrder promises, column by column (packages/core/src/orders/server.ts).
use ecom_platform.Base.{
  ℕ, ◌≡◌, ◌≢◌, ◌⊎◌, inl, inr, refl, true, false, Option, none, some, ◌∷◌, arith, ok, err,
  Bool-cases, invalid_transition, concurrent_modification,
}
use ecom_platform.Orders.{
  OrderStatus, OrderEventName, ActorType, OrderRow, OrderEvent, Tables, confirmed, cancelled,
  same_status, moved, can_transition, transition_order, event_row,
}
use ecom_platform.Orders.Edges.{Edge, Edge→can_transition, can_transition→Edge}
use ecom_platform.Orders.Door.{
  after_move, HasLeft, same_status→eq, same_status_refl, transition_order-DoorOutcome,
}

-- `q` is the row `r` after a move at `now`.
pub record IsMoved (now : ℕ) (to : OrderStatus) (r q : OrderRow) : Type 0 where
  pub status : q.status ≡ to
  pub updated : q.updated_at ≡ now
  pub on_confirm : to ≡ confirmed → (q.confirmed_at ≡ some now) × (q.expires_at ≡ none)
  pub unless_confirmed :
      to ≢ confirmed → (q.confirmed_at ≡ r.confirmed_at) × (q.expires_at ≡ r.expires_at)
  pub on_cancel : to ≡ cancelled → q.cancelled_at ≡ some now
  pub unless_cancelled : to ≢ cancelled → q.cancelled_at ≡ r.cancelled_at
  pub money :
      (q.payment_mode ≡ r.payment_mode)
      × (q.payment_status ≡ r.payment_status)
      × (q.total_paise ≡ r.total_paise)
      × (q.amount_paid_paise ≡ r.amount_paid_paise)
      × (q.cod_due_paise ≡ r.cod_due_paise)

-- The event's columns.
pub record IsEventOf (now id : ℕ) (from to : OrderStatus) (name : OrderEventName)
    (actor : ActorType) (collected : Option ℕ) (e : OrderEvent) : Type 0 where
  pub order : e.order_id ≡ id
  pub named : e.event ≡ name
  pub left : e.from_status ≡ some from
  pub reached : e.to_status ≡ some to
  pub by : e.actor_type ≡ actor
  pub with_amount : e.cod_collected_paise ≡ collected
  pub at_time : e.created_at ≡ now

hit : (a b : OrderStatus) → a ≡ b → same_status a b ≡ true
hit a b h = rw h (same_status_refl b)

miss : (a b : OrderStatus) → a ≢ b → same_status a b ≡ false
miss a b h = elim (Bool-cases (same_status a b)) [
  | inl e ↦ absurd (h (same_status→eq a b e))
  | inr e ↦ e
]

pub moved-IsMoved : (now : ℕ) (to : OrderStatus) (r : OrderRow) → IsMoved now to r (moved now to r)
unfolding moved
moved-IsMoved now to r = record {
  status = refl;
  updated = refl;
  on_confirm = λ h. (rw (hit to confirmed h) refl, rw (hit to confirmed h) refl);
  unless_confirmed = λ h. (rw (miss to confirmed h) refl, rw (miss to confirmed h) refl);
  on_cancel = λ h. rw (hit to cancelled h) refl;
  unless_cancelled = λ h. rw (miss to cancelled h) refl;
  money = (refl, refl, refl, refl, refl);
}

-- Of the tables, the order's row moves, one event is added, and nothing else changes.
pub record IsMoveOf (now id : ℕ) (to : OrderStatus) (r : OrderRow) (e : OrderEvent) (t t' : Tables)
    : Type 0 where
  pub row : (q : OrderRow) × (t'.order id ≡ some q) × IsMoved now to r q
  pub others : (j : ℕ) → j ≢ id → t'.order j ≡ t.order j
  pub logged : t'.order_events ≡ e ∷ t.order_events
  pub unaudited : t'.audit ≡ t.audit

after_move-IsMoveOf :
    (now id : ℕ) (to : OrderStatus) (r : OrderRow) (e : OrderEvent) (t : Tables)
    → IsMoveOf now id to r e t (after_move now id to e r t)
after_move-IsMoveOf now id to r e t = record {
  row = (moved now to r, ground arith, moved-IsMoved now to r);
  others = λ j ne. ground arith;
  logged = refl;
  unaudited = refl;
}

-- How a call ends.
abbrev pub Promise :
    (now id : ℕ) (from to : OrderStatus) → OrderEventName → ActorType → Option ℕ → Tables → Type 0
Promise now id from to name actor collected t =
    (¬ Edge from to
      × (transition_order now id from to name actor collected t ≡ err invalid_transition))
    ⊎ (Edge from to
        × HasLeft id from t
        × (transition_order now id from to name actor collected t ≡ err concurrent_modification))
    ⊎ (Edge from to
        × ((r : OrderRow) × (e : OrderEvent) × (t' : Tables) × (t.order id ≡ some r)
            × (r.status ≡ from)
            × (transition_order now id from to name actor collected t ≡ ok (e, t'))
            × IsEventOf now id from to name actor collected e
            × IsMoveOf now id to r e t t'))

-- transitionOrder refuses with `invalid_transition` a move that is none of the sixteen steps of an
-- order's life, and a step with `concurrent_modification` exactly where the order is missing or no
-- longer in the status that the caller saw. Otherwise the order gets the status and its time of
-- update; confirming stamps confirmed_at and clears expires_at, cancelling stamps cancelled_at, and
-- no other move touches these; the amounts, the payment's status and its mode stay. One event is
-- added and returned, with the order, both statuses, the caller's name, actor and amount, and the
-- time; no other order and no audit row changes.
pub transition_order-Promise :
    (now id : ℕ) (from to : OrderStatus) (name : OrderEventName) (actor : ActorType)
    (collected : Option ℕ) (t : Tables)
    → Promise now id from to name actor collected t
transition_order-Promise now id from to name actor collected t =
    elim (transition_order-DoorOutcome now id from to name actor collected t) [
      | inl (illegal, e) ↦ inl ((λ edge. clash (Edge→can_transition edge) illegal), e)
      | inr (inl (legal, gone, e)) ↦ inr (inl (can_transition→Edge from to legal, gone, e))
      | inr (inr (legal, (r, found, here, e))) ↦ inr (
          inr (
            can_transition→Edge from to legal,
            (
              r,
              event_row now id from to name actor collected,
              after_move now id to (event_row now id from to name actor collected) r t,
              found,
              here,
              e,
              event,
              after_move-IsMoveOf now id to r (event_row now id from to name actor collected) t,
            ),
          ))
    ]
  where
    clash : can_transition from to ≡ true → can_transition from to ≡ false → ⊥
    clash p q = cc

    event :
        IsEventOf now id from to name actor collected
          (event_row now id from to name actor collected)
    event = record {
      order = refl;
      named = refl;
      left = refl;
      reached = refl;
      by = refl;
      with_amount = refl;
      at_time = refl;
    }
