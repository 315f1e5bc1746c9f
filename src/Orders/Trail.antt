-- ===== src/Orders/Trail.antt =====
-- The event log tells each order's history: the last status logged is the order's, and each logged
-- move begins where the one before it ended and stands in the transition table.
use ecom_platform.Base.{
  ℕ, ◌≡◌, inl, inr, ap, sym, ◌∙◌, true, Option, none, some, List, [], ◌∷◌, arith, Bool-cases,
  Option-cases, ◌-◌, ok-ne-err, ok_second, bound_value, ok, if◌then◌else◌, ◌==◌,
}
use ecom_platform.Orders.{
  OrderStatus, OrderEventName, ActorType, OrderRow, OrderEvent, AuditEntry, Tables, can_transition,
  moved, put, event_row, transition_order, collect, conclude, settled, move_by_staff,
  manual_transition, collects_cod, staff, is_manual, manual_event_by_target,
}
use ecom_platform.Orders.Door.{after_move, transition_order-DoorOutcome}

-- The last status that the log, newest first, has for an order.
abbrev pub last_logged : ℕ → List OrderEvent → Option OrderStatus
last_logged id [] = none
last_logged id (e ∷ es) =
    if e.order_id == id
    then elim e.to_status [ none ↦ last_logged id es | some s ↦ some s ]
    else last_logged id es

abbrev pub status_of : Option OrderRow → Option OrderStatus
status_of none = none
status_of (some r) = some r.status

-- An event that moves an order does so from the order's last status, along the table; the first one
-- has no status to move from.
abbrev pub IsLegal : OrderEvent → List OrderEvent → Type 0
IsLegal e es = elim e.to_status as (λ o. Type 0) [
  | none ↦ Unit
  | some to ↦
      (e.from_status ≡ last_logged e.order_id es)
      × ((from : OrderStatus) → e.from_status ≡ some from → can_transition from to ≡ true)
]

abbrev pub IsChain : List OrderEvent → Type 0
IsChain [] = Unit
IsChain (e ∷ es) = IsLegal e es × IsChain es

pub record IsTrail (t : Tables) : Type 0 where
  pub current : (id : ℕ) → status_of (t.order id) ≡ last_logged id t.order_events
  pub chain : IsChain t.order_events

after_move-IsTrail :
    (now id : ℕ) (from to : OrderStatus) (name : OrderEventName) (actor : ActorType)
    (collected : Option ℕ) (t : Tables) (r : OrderRow)
    → can_transition from to ≡ true
    → t.order id ≡ some r
    → r.status ≡ from
    → IsTrail t
    → IsTrail (after_move now id to (event_row now id from to name actor collected) r t)
unfolding moved
after_move-IsTrail now id from to name actor collected t r legal found here v = record {
  current = λ j. ground (arith, v.current j);
  chain = (
    (
      ap some (sym here) ∙ ap status_of (sym found) ∙ v.current id,
      λ f e. let q : from ≡ f = cc in rw q at legal,
    ),
    v.chain,
  );
}

-- A trail is kept by every call of transitionOrder that returns: the order's status is still the last
-- one logged, for every order, and every logged move still begins where the one before it ended and
-- stands in the transition table.
pub transition_order-IsTrail :
    (now id : ℕ) (from to : OrderStatus) (name : OrderEventName) (actor : ActorType)
    (collected : Option ℕ) (t t' : Tables) (e : OrderEvent)
    → IsTrail t
    → transition_order now id from to name actor collected t ≡ ok (e, t')
    → IsTrail t'
transition_order-IsTrail now id from to name actor collected t t' e v h =
    elim (transition_order-DoorOutcome now id from to name actor collected t) [
      | inl (_, bad) ↦ absurd (ok-ne-err (sym bad ∙ h))
      | inr (inl (_, _, bad)) ↦ absurd (ok-ne-err (sym bad ∙ h))
      | inr (inr (legal, (r, found, here, made))) ↦
          rw (ok_second (sym made ∙ h)) at
            (after_move-IsTrail now id from to name actor collected t r legal found here v)
    ]

audited-IsTrail : (t : Tables) (a : List AuditEntry) → IsTrail t → IsTrail (record t { audit = a })
audited-IsTrail t a v = record { current = v.current; chain = v.chain }

collect-IsTrail : (now id : ℕ) (t : Tables) → IsTrail t → IsTrail (collect now id t)
unfolding collect
collect-IsTrail now id t v = elim (Option-cases (t.order id)) [
  | inl missing ↦ rw (missing, collect) v
  | inr (r, found) ↦ rw (found, collect) (record { current = λ j. kept j r found; chain = v.chain })
]
  where
    kept :
        (j : ℕ) (r : OrderRow)
        → t.order id ≡ some r
        → status_of (put id (settled now r) t.order j) ≡ last_logged j t.order_events
    kept j r found = ground (arith, v.current j)

conclude-IsTrail :
    (now id : ℕ) (r : OrderRow) (to : OrderStatus) (t : Tables)
    → IsTrail t
    → IsTrail (conclude now id r to t)
unfolding conclude
conclude-IsTrail now id r to t v = elim (Bool-cases (collects_cod r to)) [
  | inl e ↦ rw e (audited-IsTrail (collect now id t) _ (collect-IsTrail now id t v))
  | inr e ↦ rw e (audited-IsTrail t _ v)
]

-- What a manual transition that returned has gone through.
pub manual_transition_inverts :
    (now id : ℕ) (to : OrderStatus) (t t' : Tables) (e : OrderEvent)
    → manual_transition now id to t ≡ ok (e, t')
    → (r : OrderRow) × (name : OrderEventName) × (t.order id ≡ some r)
      × (manual_event_by_target to ≡ some name)
      × (is_manual r.status to ≡ true)
      × (move_by_staff now id r to name t ≡ ok (e, t'))
unfolding manual_transition
manual_transition_inverts now id to t t' e h = elim (Option-cases (t.order id)) [
  | inl missing ↦ absurd (ok-ne-err (rw (missing, manual_transition) at h))
  | inr (r, found) ↦ elim (Option-cases (manual_event_by_target to)) [
    | inl unnamed ↦ absurd (ok-ne-err (rw (found, unnamed, manual_transition) at h))
    | inr (name, named) ↦ elim (Bool-cases (is_manual r.status to)) [
      | inl allowed ↦
          (r, name, found, named, allowed, rw (found, named, allowed, manual_transition) at h)
      | inr refused ↦ absurd (ok-ne-err (rw (found, named, refused, manual_transition) at h))
    ]
  ]
]

move_by_staff-IsTrail :
    (now id : ℕ) (r : OrderRow) (to : OrderStatus) (name : OrderEventName) (t t' : Tables)
    (e : OrderEvent)
    → IsTrail t
    → move_by_staff now id r to name t ≡ ok (e, t')
    → IsTrail t'
unfolding move_by_staff
move_by_staff-IsTrail now id r to name t t' e v h =
    let (d, f, g) =
      bound_value
        (transition_order now id r.status to name staff
          (if collects_cod r to then some (r.total_paise - r.amount_paid_paise) else none) t)
        _ h in
    let moved_trail = transition_order-IsTrail now id r.status to name staff _ t d.1 d.0 v f in
    rw (ok_second g) at (conclude-IsTrail now id r to d.1 moved_trail)

-- A trail is kept by every call of manualTransition that returns, with the balance collected or not.
pub manual_transition-IsTrail :
    (now id : ℕ) (to : OrderStatus) (t t' : Tables) (e : OrderEvent)
    → IsTrail t
    → manual_transition now id to t ≡ ok (e, t')
    → IsTrail t'
manual_transition-IsTrail now id to t t' e v h =
    let (r, name, found, named, allowed, called) = manual_transition_inverts now id to t t' e h in
    move_by_staff-IsTrail now id r to name t t' e v called
