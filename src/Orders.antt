-- ===== src/Orders.antt =====
-- Orders: the pinned transition table (packages/core/src/orders/index.ts), the one door by which an
-- order's status is written and the staff ladder (packages/core/src/orders/server.ts). A tenant's
-- tables are a record; `withTenant` runs a body on them and keeps what it wrote only if it returns.
pub mod Table
pub mod Door
pub mod Trail
pub mod Ladder
pub mod Edges
pub mod Effects
pub mod Handover
pub mod Staff
mod Tests
use ecom_platform.Base.{
  ℕ, suc, ◌-◌, Bool, true, false, not, ◌&&◌, ◌||◌, Option, none, some, List, [], ◌∷◌, any, ◌==◌,
  if◌then◌else◌, Result, ok, err, ◌>>=◌, ◌>>◌, refuse_if, not_found, invalid_transition,
  concurrent_modification,
}

pub data OrderStatus : Type 0 where
  pending_payment confirmed processing ready_to_ship shipped out_for_delivery delivered :
      OrderStatus
  rto_initiated rto_delivered return_requested return_picked refunded cancelled abandoned :
      OrderStatus

-- The position in ORDER_STATUSES, by which two statuses are compared.
abbrev pub code : OrderStatus → ℕ
code pending_payment = 0
code confirmed = 1
code processing = 2
code ready_to_ship = 3
code shipped = 4
code out_for_delivery = 5
code delivered = 6
code rto_initiated = 7
code rto_delivered = 8
code return_requested = 9
code return_picked = 10
code refunded = 11
code cancelled = 12
code abandoned = 13

abbrev pub same_status : OrderStatus → OrderStatus → Bool
same_status a b = code a == code b

abbrev pub order_transitions : OrderStatus → List OrderStatus
order_transitions pending_payment = confirmed ∷ abandoned ∷ cancelled ∷ []
order_transitions confirmed = processing ∷ cancelled ∷ []
order_transitions processing = ready_to_ship ∷ cancelled ∷ []
order_transitions ready_to_ship = shipped ∷ []
order_transitions shipped = out_for_delivery ∷ rto_initiated ∷ []
order_transitions out_for_delivery = delivered ∷ rto_initiated ∷ []
order_transitions rto_initiated = rto_delivered ∷ []
order_transitions delivered = return_requested ∷ []
order_transitions return_requested = return_picked ∷ []
order_transitions return_picked = refunded ∷ []
order_transitions abandoned = []
order_transitions cancelled = []
order_transitions refunded = []
order_transitions rto_delivered = []

abbrev pub manual_order_transitions : List (OrderStatus × OrderStatus)
manual_order_transitions =
    (confirmed, processing)
    ∷ (processing, ready_to_ship)
    ∷ (ready_to_ship, shipped)
    ∷ (shipped, out_for_delivery)
    ∷ (out_for_delivery, delivered)
    ∷ []

pub data OrderEventName : Type 0 where
  order_placed order_confirmed order_hold_failed order_oversold order_cancelled : OrderEventName
  order_abandoned order_refunded order_processing order_ready_to_ship order_shipped : OrderEventName
  order_out_for_delivery order_delivered payment_failed payment_amount_mismatch : OrderEventName
  payment_late_captured payment_refund_initiated promotion_overredeemed : OrderEventName

pub data OrderPaymentStatus : Type 0 where
  pending partially_paid paid refund_initiated refund_done : OrderPaymentStatus

pub data CheckoutPaymentMode : Type 0 where
  prepaid cod cod_advance : CheckoutPaymentMode

pub data ActorType : Type 0 where
  staff customer system support_impersonation : ActorType

-- The columns of `orders` that these operations read or write.
pub record OrderRow : Type 0 where
  pub status : OrderStatus
  pub payment_mode : CheckoutPaymentMode
  pub payment_status : OrderPaymentStatus
  pub total_paise : ℕ
  pub amount_paid_paise : ℕ
  pub cod_due_paise : ℕ
  pub confirmed_at : Option ℕ
  pub cancelled_at : Option ℕ
  pub expires_at : Option ℕ
  pub updated_at : ℕ

-- A row of `order_events`. `data` of the source is the amount collected at the door, if any.
pub record OrderEvent : Type 0 where
  pub order_id : ℕ
  pub event : OrderEventName
  pub from_status : Option OrderStatus
  pub to_status : Option OrderStatus
  pub actor_type : ActorType
  pub cod_collected_paise : Option ℕ
  pub created_at : ℕ

-- An audit row of a status change, with the payment's status and amount where they change with it.
pub record AuditEntry : Type 0 where
  pub entity_id : ℕ
  pub before : OrderStatus
  pub before_payment : Option (OrderPaymentStatus × ℕ)
  pub after : OrderStatus
  pub after_payment : Option (OrderPaymentStatus × ℕ)

-- The tables, newest rows first where the order of insertion matters.
pub record Tables : Type 0 where
  pub order : ℕ → Option OrderRow
  pub order_events : List OrderEvent
  pub audit : List AuditEntry

unfoldable pub can_transition : OrderStatus → OrderStatus → Bool
can_transition from to = any (same_status to) (order_transitions from)

unfoldable pub assert_transition : OrderStatus → OrderStatus → Result (Unit {0})
assert_transition from to = refuse_if (not (can_transition from to)) invalid_transition

abbrev pub put : ℕ → OrderRow → (ℕ → Option OrderRow) → ℕ → Option OrderRow
put id row rows j = if id == j then some row else rows j

-- The status-coupled timestamps.
unfoldable pub moved : ℕ → OrderStatus → OrderRow → OrderRow
moved now to r = record r {
  status = to;
  confirmed_at = if same_status to confirmed then some now else r.confirmed_at;
  expires_at = if same_status to confirmed then none else r.expires_at;
  cancelled_at = if same_status to cancelled then some now else r.cancelled_at;
  updated_at = now;
}

-- `UPDATE orders … WHERE id = … AND status = <from>`; no row updated is a refusal.
unfoldable pub update_status : ℕ → ℕ → OrderStatus → OrderStatus → Tables → Result Tables
update_status now id from to t = elim (t.order id) [
  | none ↦ err concurrent_modification
  | some r ↦
      if same_status r.status from
      then ok (record t { order = put id (moved now to r) t.order })
      else err concurrent_modification
]

abbrev pub log_event : OrderEvent → Tables → Tables
log_event e t = record t { order_events = e ∷ t.order_events }

-- The row that a move writes to `order_events`.
abbrev pub event_row :
    (now id : ℕ) (from to : OrderStatus) (name : OrderEventName) (actor : ActorType)
    (collected : Option ℕ)
    → OrderEvent
event_row now id from to name actor collected = record {
  order_id = id;
  event = name;
  from_status = some from;
  to_status = some to;
  actor_type = actor;
  cod_collected_paise = collected;
  created_at = now;
}

-- The status and the event's name, actor and data are the caller's; the row's event is returned.
unfoldable pub transition_order :
    (now id : ℕ) (from to : OrderStatus) (name : OrderEventName) (actor : ActorType)
    (collected : Option ℕ)
    → Tables
    → Result (OrderEvent × Tables)
unfolding assert_transition
transition_order now id from to name actor collected t = do
  assert_transition from to
  t' ← update_status now id from to t
  let e = event_row now id from to name actor collected
  ok (e, log_event e t')

abbrev pub manual_event_by_target : OrderStatus → Option OrderEventName
manual_event_by_target processing = some order_processing
manual_event_by_target ready_to_ship = some order_ready_to_ship
manual_event_by_target shipped = some order_shipped
manual_event_by_target out_for_delivery = some order_out_for_delivery
manual_event_by_target delivered = some order_delivered
manual_event_by_target other = none

unfoldable pub is_manual : OrderStatus → OrderStatus → Bool
is_manual from to = any (λ t. same_status t.0 from && same_status t.1 to) manual_order_transitions

abbrev pub is_prepaid : CheckoutPaymentMode → Bool
is_prepaid prepaid = true
is_prepaid cod = false
is_prepaid cod_advance = false

abbrev pub is_paid : OrderPaymentStatus → Bool
is_paid paid = true
is_paid other = false

-- Delivering a COD order collects the balance at the door.
unfoldable pub collects_cod : OrderRow → OrderStatus → Bool
collects_cod r to =
    same_status to delivered && not (is_prepaid r.payment_mode) && not (is_paid r.payment_status)

abbrev pub settled : ℕ → OrderRow → OrderRow
settled now r = record r {
  payment_status = paid;
  amount_paid_paise = r.total_paise;
  cod_due_paise = 0;
  updated_at = now;
}

-- The second `UPDATE orders`, where the balance is collected.
unfoldable pub collect : ℕ → ℕ → Tables → Tables
collect now id t = elim (t.order id) [
  | none ↦ t
  | some r ↦ record t { order = put id (settled now r) t.order }
]

abbrev pub audit_row : ℕ → OrderRow → OrderStatus → AuditEntry
audit_row id r to = record {
  entity_id = id;
  before = r.status;
  before_payment = if collects_cod r to then some (r.payment_status, r.amount_paid_paise) else none;
  after = to;
  after_payment = if collects_cod r to then some (paid, r.total_paise) else none;
}

-- What follows the move: the balance, if it is collected, and the audit row.
unfoldable pub conclude : (now id : ℕ) → OrderRow → OrderStatus → Tables → Tables
conclude now id r to t =
    let t' = if collects_cod r to then collect now id t else t in
    record t' { audit = audit_row id r to ∷ t'.audit }

-- The body of manualTransition over the row that it locked and the event's name.
unfoldable pub move_by_staff :
    (now id : ℕ) → OrderRow → OrderStatus → OrderEventName → Tables → Result (OrderEvent × Tables)
move_by_staff now id r to name t = do
  let collected = if collects_cod r to then some (r.total_paise - r.amount_paid_paise) else none
  done ← transition_order now id r.status to name staff collected t
  ok (done.0, conclude now id r to done.1)

unfoldable pub manual_transition :
    (now id : ℕ) → OrderStatus → Tables → Result (OrderEvent × Tables)
manual_transition now id to t = elim (t.order id) [
  | none ↦ err not_found
  | some r ↦ elim (manual_event_by_target to) [
    | none ↦ err invalid_transition
    | some name ↦
        if is_manual r.status to then move_by_staff now id r to name t else err invalid_transition
  ]
]
