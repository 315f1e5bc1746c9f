-- ===== src/Orders/Ladder.antt =====
-- manualTransition taken apart into its branches, in the terms of its definition.
use ecom_platform.Base.{
  ℕ, ◌-◌, ◌≡◌, ◌≢◌, ◌⊎◌, inl, inr, refl, ◌∙◌, true, false, Option, none, some, ◌∷◌, arith,
  Bool-cases, Option-cases, ok, err, not_found, invalid_transition, if◌then◌else◌,
}
use ecom_platform.Orders.{
  OrderStatus, pending_payment, OrderEventName, OrderRow, Tables, staff, can_transition, moved,
  settled, audit_row, event_row, transition_order, collect, conclude, collects_cod, move_by_staff,
  manual_transition, manual_event_by_target, is_manual,
}
use ecom_platform.Orders.Table.{is_manual-can_transition}
use ecom_platform.Orders.Door.{after_move, transition_order-DoorOutcome}

-- What the order's row becomes: moved, and settled where the balance is collected at the door.
abbrev pub row_after : ℕ → OrderStatus → OrderRow → OrderRow
row_after now to r = if collects_cod r to then settled now (moved now to r) else moved now to r

abbrev pub collected_of : OrderRow → OrderStatus → Option ℕ
collected_of r to = if collects_cod r to then some (r.total_paise - r.amount_paid_paise) else none

-- The tables after a manual move.
pub record IsMovedByStaff (now id : ℕ) (to : OrderStatus) (r : OrderRow) (name : OrderEventName)
    (t t' : Tables) : Type 0 where
  pub row : t'.order id ≡ some (row_after now to r)
  pub others : (j : ℕ) → j ≢ id → t'.order j ≡ t.order j
  pub logged :
      t'.order_events ≡ event_row now id r.status to name staff (collected_of r to) ∷ t.order_events
  pub audited : t'.audit ≡ audit_row id r to ∷ t.audit

-- The door opens for a legal move of the row that the caller holds.
opens :
    (now id : ℕ) (r : OrderRow) (to : OrderStatus) (name : OrderEventName) (c : Option ℕ)
    (t : Tables)
    → t.order id ≡ some r
    → can_transition r.status to ≡ true
    → transition_order now id r.status to name staff c t
      ≡ ok (
        event_row now id r.status to name staff c,
        after_move now id to (event_row now id r.status to name staff c) r t,
      )
opens now id r to name c t found legal =
    elim (transition_order-DoorOutcome now id r.status to name staff c t) [
      | inl (illegal, _) ↦ absurd (both illegal)
      | inr (inl (_, left, _)) ↦ absurd (left r found refl)
      | inr (inr (_, (q, found', _, e))) ↦ rw (same q found') at e
    ]
  where
    both : can_transition r.status to ≡ false → ⊥
    both e = cc

    same : (q : OrderRow) → t.order id ≡ some q → q ≡ r
    same q e = cc

conclude_moves :
    (now id : ℕ) (r : OrderRow) (to : OrderStatus) (name : OrderEventName) (t : Tables)
    → IsMovedByStaff now id to r name t (
        conclude now id r to
          (after_move now id to (event_row now id r.status to name staff (collected_of r to)) r t))
unfolding conclude collect moved
conclude_moves now id r to name t = elim (Bool-cases (collects_cod r to)) [
  | inl e ↦ rw e (record {
    row = ground arith;
    others = λ j ne. ground arith;
    logged = ground arith;
    audited = ground arith;
  })
  | inr e ↦ rw e (record {
    row = ground arith;
    others = λ j ne. ground arith;
    logged = ground arith;
    audited = ground arith;
  })
]

move_by_staff_moves :
    (now id : ℕ) (r : OrderRow) (to : OrderStatus) (name : OrderEventName) (t : Tables)
    → t.order id ≡ some r
    → can_transition r.status to ≡ true
    → (t' : Tables) × (move_by_staff now id r to name t
        ≡ ok (event_row now id r.status to name staff (collected_of r to), t'))
      × IsMovedByStaff now id to r name t t'
unfolding move_by_staff
move_by_staff_moves now id r to name t found legal = (
  conclude now id r to
      (after_move now id to (event_row now id r.status to name staff (collected_of r to)) r t),
  rw (opens now id r to name (collected_of r to) t found legal),
  conclude_moves now id r to name t,
)

is_manual_named :
    (from to : OrderStatus)
    → is_manual from to ≡ true
    → (name : OrderEventName) × (manual_event_by_target to ≡ some name)
unfolding is_manual
is_manual_named from to h = elim (Option-cases (manual_event_by_target to)) [
  | inl unnamed ↦ absurd (none_left from to h unnamed)
  | inr named ↦ named
]
  where
    none_left :
        (from to : OrderStatus) → is_manual from to ≡ true → manual_event_by_target to ≡ none → ⊥
    none_left from pending_payment h e = ground arith
    none_left from _ h e = ground arith

-- How a call ends.
abbrev pub LadderOutcome : ℕ → ℕ → OrderStatus → Tables → Type 0
LadderOutcome now id to t =
    ((t.order id ≡ none) × (manual_transition now id to t ≡ err not_found))
    ⊎ ((r : OrderRow) × (t.order id ≡ some r)
        × (is_manual r.status to ≡ false)
        × (manual_transition now id to t ≡ err invalid_transition))
    ⊎ ((r : OrderRow) × (name : OrderEventName) × (t' : Tables) × (t.order id ≡ some r)
        × (is_manual r.status to ≡ true)
        × (manual_event_by_target to ≡ some name)
        × (manual_transition now id to t
            ≡ ok (event_row now id r.status to name staff (collected_of r to), t'))
        × IsMovedByStaff now id to r name t t')

refused_by_ladder :
    (now id : ℕ) (to : OrderStatus) (t : Tables) (r : OrderRow)
    → t.order id ≡ some r
    → is_manual r.status to ≡ false
    → manual_transition now id to t ≡ err invalid_transition
unfolding manual_transition
refused_by_ladder now id to t r found off = elim (Option-cases (manual_event_by_target to)) [
  | inl unnamed ↦ rw (found, unnamed, manual_transition)
  | inr (name, named) ↦ rw (found, named, off, manual_transition)
]

missing_order :
    (now id : ℕ) (to : OrderStatus) (t : Tables)
    → t.order id ≡ none
    → manual_transition now id to t ≡ err not_found
unfolding manual_transition
missing_order now id to t missing = rw (missing, manual_transition)

admitted_by_ladder :
    (now id : ℕ) (to : OrderStatus) (t : Tables) (r : OrderRow) (name : OrderEventName)
    → t.order id ≡ some r
    → is_manual r.status to ≡ true
    → manual_event_by_target to ≡ some name
    → manual_transition now id to t ≡ move_by_staff now id r to name t
unfolding manual_transition
admitted_by_ladder now id to t r name found on named = rw (found, named, on, manual_transition)

-- The three ways in which manualTransition ends.
pub manual_transition-LadderOutcome :
    (now id : ℕ) (to : OrderStatus) (t : Tables) → LadderOutcome now id to t
manual_transition-LadderOutcome now id to t = elim (Option-cases (t.order id)) [
  | inl missing ↦ inl (missing, missing_order now id to t missing)
  | inr (r, found) ↦ elim (Bool-cases (is_manual r.status to)) [
    | inr off ↦ inr (inl (r, found, off, refused_by_ladder now id to t r found off))
    | inl on ↦
        let (name, named) = is_manual_named r.status to on in
        let (t', made, moves) =
          move_by_staff_moves now id r to name t found (is_manual-can_transition r.status to on) in
        inr (
          inr (
            r,
            name,
            t',
            found,
            on,
            named,
            admitted_by_ladder now id to t r name found on named ∙ made,
            moves,
          ))
  ]
]
