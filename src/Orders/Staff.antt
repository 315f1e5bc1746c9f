-- ===== src/Orders/Staff.antt =====
-- What manualTransition promises, column by column (packages/core/src/orders/server.ts).
use ecom_platform.Base.{
  ℕ, ◌≡◌, ◌≢◌, ◌⊎◌, inl, inr, refl, Bool, true, false, Option, none, some, ◌∷◌, ok, err, not_found,
  invalid_transition,
}
use ecom_platform.Orders.{
  OrderStatus, OrderEventName, OrderRow, OrderEvent, Tables, staff, AuditEntry, audit_row,
  event_row, manual_transition,
}
use ecom_platform.Orders.Edges.{Rung, Rung→is_manual, is_manual→Rung}
use ecom_platform.Orders.Effects.{IsEventOf}
use ecom_platform.Orders.Ladder.{row_after, collected_of, manual_transition-LadderOutcome}
use ecom_platform.Orders.Handover.{
  IsMovedByHand, IsCollection, IsAuditOf, not_confirm, row_after-IsMovedByHand,
  collected_of-IsCollection, audit_row-IsAuditOf,
}

-- The tables after a move by the staff.
pub record IsHandled (now id : ℕ) (to : OrderStatus) (r : OrderRow) (name : OrderEventName)
    (e : OrderEvent) (t t' : Tables) : Type 0 where
  pub row : (q : OrderRow) × (t'.order id ≡ some q) × IsMovedByHand now to r q
  pub others : (j : ℕ) → j ≢ id → t'.order j ≡ t.order j
  pub logged : t'.order_events ≡ e ∷ t.order_events
  pub event :
      (amount : Option ℕ) × IsCollection r to amount
      × IsEventOf now id r.status to name staff amount e
  pub audited : (a : AuditEntry) × (t'.audit ≡ a ∷ t.audit) × IsAuditOf id r to a

-- How a call ends.
abbrev pub StaffPromise : ℕ → ℕ → OrderStatus → Tables → Type 0
StaffPromise now id to t =
    ((t.order id ≡ none) × (manual_transition now id to t ≡ err not_found))
    ⊎ ((r : OrderRow) × (t.order id ≡ some r)
        × ((name : OrderEventName) → ¬ Rung r.status to name)
        × (manual_transition now id to t ≡ err invalid_transition))
    ⊎ ((r : OrderRow) × (name : OrderEventName) × (e : OrderEvent) × (t' : Tables) × (t.order id
          ≡ some r)
        × Rung r.status to name
        × (manual_transition now id to t ≡ ok (e, t'))
        × IsHandled now id to r name e t t')

-- manualTransition throws `not_found` for a missing order and `invalid_transition` exactly for a move
-- that is not one of the five steps of the console's ladder; it never meets a concurrent change.
-- Otherwise the order gets the status and its time of update, and keeps its other timestamps, its
-- payment mode and its total. On delivery of an order that is neither prepaid nor paid, it becomes
-- paid, for all of its total, with nothing due, and the event carries the balance that was open; on
-- any other move the payment's columns stay and the event carries no amount. One event of the step's
-- name by the staff and one audit row are added, with both statuses, and no other order changes; the
-- audit row has the payment's old and new status and amount exactly where the balance is collected.
pub manual_transition-StaffPromise :
    (now id : ℕ) (to : OrderStatus) (t : Tables) → StaffPromise now id to t
manual_transition-StaffPromise now id to t = elim (manual_transition-LadderOutcome now id to t) [
  | inl missing ↦ inl missing
  | inr (inl (r, found, off, e)) ↦
      inr (inl (r, found, (λ name rung. clash _ (Rung→is_manual rung) off), e))
  | inr (inr (r, name, t', found, on, named, e, m)) ↦
      let (other, named', rung') = is_manual→Rung r.status to on in
      let same : other ≡ name = alike _ other name named named' in
      let rung : Rung r.status to name = rw same at rung' in
      inr (
        inr (
          r,
          name,
          event_row now id r.status to name staff (collected_of r to),
          t',
          found,
          rung,
          e,
          record {
            row = (row_after now to r, m.row, row_after-IsMovedByHand r to now (not_confirm rung));
            others = m.others;
            logged = m.logged;
            event = (
              collected_of r to,
              collected_of-IsCollection r to,
              record {
                order = refl;
                named = refl;
                left = refl;
                reached = refl;
                by = refl;
                with_amount = refl;
                at_time = refl;
              },
            );
            audited = (audit_row id r to, m.audited, audit_row-IsAuditOf r to id);
          },
        ))
]
  where
    clash : (a : Bool) → a ≡ true → a ≡ false → ⊥
    clash a p q = cc

    alike : (o : Option OrderEventName) (a b : OrderEventName) → o ≡ some b → o ≡ some a → a ≡ b
    alike o a b p q = cc
