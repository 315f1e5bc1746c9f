-- ===== src/Orders/Handover.antt =====
-- What a move by the staff does to the row, the event's amount and the audit row
-- (manualTransition in packages/core/src/orders/server.ts).
use ecom_platform.Base.{
  ℕ, ◌-◌, ◌≡◌, ◌≢◌, inl, inr, refl, true, false, Option, none, some, arith, Bool-cases,
}
use ecom_platform.Orders.{
  OrderStatus, OrderEventName, OrderRow, OrderPaymentStatus, CheckoutPaymentMode, prepaid, cod,
  cod_advance, paid, pending, partially_paid, refund_initiated, refund_done, delivered, confirmed,
  cancelled, collects_cod, is_prepaid, is_paid, AuditEntry, audit_row,
}
use ecom_platform.Orders.Edges.{Rung, to_processing, to_packed, to_shipped, to_out, to_delivered}
use ecom_platform.Orders.Door.{same_status→eq, same_status_refl}
use ecom_platform.Orders.Effects.{moved-IsMoved}
use ecom_platform.Orders.Ladder.{row_after, collected_of}

-- The balance is open when the parcel is handed over.
abbrev pub OwesAtDoor : OrderRow → OrderStatus → Type 0
OwesAtDoor r to = (to ≡ delivered) × (r.payment_mode ≢ prepaid) × (r.payment_status ≢ paid)

-- The row `q` after the move of `r`, where the balance is collected.
pub record IsSettled (r q : OrderRow) : Type 0 where
  pub marked : q.payment_status ≡ paid
  pub in_full : q.amount_paid_paise ≡ r.total_paise
  pub nothing_due : q.cod_due_paise ≡ 0

pub record IsUnsettled (r q : OrderRow) : Type 0 where
  pub same_mark : q.payment_status ≡ r.payment_status
  pub same_amount : q.amount_paid_paise ≡ r.amount_paid_paise
  pub same_due : q.cod_due_paise ≡ r.cod_due_paise

-- What a move by the staff leaves of the order's row.
pub record IsMovedByHand (now : ℕ) (to : OrderStatus) (r q : OrderRow) : Type 0 where
  pub status : q.status ≡ to
  pub updated : q.updated_at ≡ now
  pub stamps :
      (q.confirmed_at ≡ r.confirmed_at)
      × (q.cancelled_at ≡ r.cancelled_at)
      × (q.expires_at ≡ r.expires_at)
  pub terms : (q.payment_mode ≡ r.payment_mode) × (q.total_paise ≡ r.total_paise)
  pub settles : OwesAtDoor r to → IsSettled r q
  pub leaves : ¬ OwesAtDoor r to → IsUnsettled r q

-- The amount that the event carries.
pub record IsCollection (r : OrderRow) (to : OrderStatus) (amount : Option ℕ) : Type 0 where
  pub balance : OwesAtDoor r to → amount ≡ some (r.total_paise - r.amount_paid_paise)
  pub nothing : ¬ OwesAtDoor r to → amount ≡ none

pub record IsAuditOf (id : ℕ) (r : OrderRow) (to : OrderStatus) (a : AuditEntry) : Type 0 where
  pub entity : a.entity_id ≡ id
  pub statuses : (a.before ≡ r.status) × (a.after ≡ to)
  pub payment :
      OwesAtDoor r to
      → (a.before_payment ≡ some (r.payment_status, r.amount_paid_paise))
        × (a.after_payment ≡ some (paid, r.total_paise))
  pub no_payment : ¬ OwesAtDoor r to → (a.before_payment ≡ none) × (a.after_payment ≡ none)

prepaid_only : (m : CheckoutPaymentMode) → is_prepaid m ≡ false → m ≢ prepaid
prepaid_only m h e = ground (arith, h, e)

not_prepaid : (m : CheckoutPaymentMode) → m ≢ prepaid → is_prepaid m ≡ false
not_prepaid prepaid h = absurd (h refl)
not_prepaid cod h = refl
not_prepaid cod_advance h = refl

paid_only : (p : OrderPaymentStatus) → is_paid p ≡ false → p ≢ paid
paid_only p h e = ground (arith, h, e)

not_paid : (p : OrderPaymentStatus) → p ≢ paid → is_paid p ≡ false
not_paid pending h = refl
not_paid partially_paid h = refl
not_paid paid h = absurd (h refl)
not_paid refund_initiated h = refl
not_paid refund_done h = refl

collects_cod→OwesAtDoor :
    (r : OrderRow) (to : OrderStatus) → collects_cod r to ≡ true → OwesAtDoor r to
unfolding collects_cod
collects_cod→OwesAtDoor r to h = (
  same_status→eq to delivered (ground (arith, h)),
  prepaid_only r.payment_mode (ground (arith, h)),
  paid_only r.payment_status (ground (arith, h)),
)

OwesAtDoor→collects_cod :
    (r : OrderRow) (to : OrderStatus) → OwesAtDoor r to → collects_cod r to ≡ true
unfolding collects_cod
OwesAtDoor→collects_cod r to (there, owed, unpaid) =
    rw
      (
        there,
        same_status_refl delivered,
        not_prepaid r.payment_mode owed,
        not_paid r.payment_status unpaid,
      )
      refl

pub not_confirm :
    {from to : OrderStatus} {name : OrderEventName}
    → Rung from to name
    → (to ≢ confirmed) × (to ≢ cancelled)
not_confirm to_processing = (λ e. ground (arith, e), λ e. ground (arith, e))
not_confirm to_packed = (λ e. ground (arith, e), λ e. ground (arith, e))
not_confirm to_shipped = (λ e. ground (arith, e), λ e. ground (arith, e))
not_confirm to_out = (λ e. ground (arith, e), λ e. ground (arith, e))
not_confirm to_delivered = (λ e. ground (arith, e), λ e. ground (arith, e))

module _ (r : OrderRow) (to : OrderStatus) where
  when : collects_cod r to ≡ false → OwesAtDoor r to → ⊥
  when e c = let p = OwesAtDoor→collects_cod r to c in cc

  pub row_after-IsMovedByHand :
      (now : ℕ) → (to ≢ confirmed) × (to ≢ cancelled) → IsMovedByHand now to r (row_after now to r)
  row_after-IsMovedByHand now (a, b) =
      let m = moved-IsMoved now to r in
      elim (Bool-cases (collects_cod r to)) [
        | inl e ↦ rw e (record {
          status = m.status;
          updated = refl;
          stamps = ((m.unless_confirmed a).0, m.unless_cancelled b, (m.unless_confirmed a).1);
          terms = (m.money.0, m.money.2);
          settles = λ c. (record { marked = refl; in_full = m.money.2; nothing_due = refl });
          leaves = λ c. absurd (c (collects_cod→OwesAtDoor r to e));
        })
        | inr e ↦ rw e (record {
          status = m.status;
          updated = m.updated;
          stamps = ((m.unless_confirmed a).0, m.unless_cancelled b, (m.unless_confirmed a).1);
          terms = (m.money.0, m.money.2);
          settles = λ c. absurd (when e c);
          leaves = λ c. (record {
            same_mark = m.money.1;
            same_amount = m.money.3;
            same_due = m.money.4;
          });
        })
      ]

  pub collected_of-IsCollection : IsCollection r to (collected_of r to)
  collected_of-IsCollection = elim (Bool-cases (collects_cod r to)) [
    | inl e ↦
        rw e (record {
          balance = λ c. refl;
          nothing = λ c. absurd (c (collects_cod→OwesAtDoor r to e));
        })
    | inr e ↦ rw e (record { balance = λ c. absurd (when e c); nothing = λ c. refl })
  ]

  pub audit_row-IsAuditOf : (id : ℕ) → IsAuditOf id r to (audit_row id r to)
  audit_row-IsAuditOf id = elim (Bool-cases (collects_cod r to)) [
    | inl e ↦ record {
      entity = refl;
      statuses = (refl, refl);
      payment = λ c. (rw e refl, rw e refl);
      no_payment = λ c. absurd (c (collects_cod→OwesAtDoor r to e));
    }
    | inr e ↦ record {
      entity = refl;
      statuses = (refl, refl);
      payment = λ c. absurd (when e c);
      no_payment = λ c. (rw e refl, rw e refl);
    }
  ]
