-- ===== src/Checkout.antt =====
-- Checkout (packages/core/src/checkout/server.ts): a tenant's tables, and the helpers that the
-- entry points of the children share. A row of `orders` is held in two parts: the columns of Orders,
-- and `OrderDetails`, which only checkout reads or writes. Rows that are inserted take fresh ids.
-- Identifiers and texts are compared only, so they are numbers.
pub mod Delivered
pub mod Events
pub mod Growth
pub mod History
pub mod Cancelling
pub mod Capturing
pub mod Closings
pub mod Confirm
pub mod Confirming
pub mod Closing
pub mod Money
pub mod Moves
pub mod Oversold
pub mod Assured
pub mod Billing
pub mod LineTaxes
pub mod Priced
pub mod Pricing
pub mod Redelivery
pub mod Safety
pub mod Sharing
pub mod Start
pub mod Starting
pub mod Webhook
mod BillTests
mod Tests
use ecom_platform.Base.{
  ℕ, ◌+◌, Bool, true, false, not, Option, none, some, List, [], ◌∷◌, any, ◌==◌, Result, ok, err,
  ◌>>=◌, check_violation, stock_held, ErrorCode, find_first, update_where,
}
use ecom_platform.Orders.{
  OrderStatus, OrderRow, OrderEvent, OrderEventName, ActorType, Tables, put, log_event,
}
use ecom_platform.Payments.Records.{
  PaymentRow, RefundRow, RefundReason, RefundIntent, is_some_of, create_refund_intent,
}
use ecom_platform.Promotions.Redemption.{PromotionLimits, RedemptionRow}
use ecom_platform.Invoices.{InvoiceBook}
use ecom_platform.Tax.{TaxRegistrationType}
use ecom_platform.Inventory.Ledger.{Stock, ReservationReference}
use ecom_platform.Inventory.Holds.{HoldLine, release_stock}

pub data OrderLineKind : Type 0 where
  item shipping : OrderLineKind

pub data CartStatus : Type 0 where
  active converted : CartStatus

pub data CancelReason : Type 0 where
  for_shortfall for_coupon for_merchant : CancelReason
  given : ℕ → CancelReason

-- The columns of `order_lines` that a confirmation reads.
pub record OrderLine : Type 0 where
  pub kind : OrderLineKind
  pub variant_id : Option ℕ
  pub quantity : ℕ
  pub cgst_paise : ℕ
  pub sgst_paise : ℕ
  pub igst_paise : ℕ
  pub total_paise : ℕ

pub record OrderDetails : Type 0 where
  pub id : ℕ
  pub gateway_order_ref : Option ℕ
  pub cart_id : Option ℕ
  pub promotion_id : Option ℕ
  pub customer_id : Option ℕ
  pub discount_paise : ℕ
  pub cancel_reason : Option CancelReason
  pub lines : List OrderLine

pub record Shop : Type 0 where
  pub tables : Tables
  pub details : List OrderDetails
  pub carts : ℕ → Option CartStatus
  pub stock : Stock
  pub payments : List PaymentRow
  pub refunds : List RefundRow
  pub promotions : ℕ → Option PromotionLimits
  pub redemptions : List RedemptionRow
  pub book : InvoiceBook
  pub first_order_at : ℕ → Option ℕ
  pub next_id : ℕ

-- The seller's tax identity, the tenant's settings and the financial year of the clock.
pub record CheckoutSettings : Type 0 where
  pub tax_registration_type : TaxRegistrationType
  pub invoice_prefix : Option ℕ
  pub financial_year : ℕ

-- A verified event of the gateway.
pub record GatewayEvent : Type 0 where
  pub event_id : ℕ
  pub gateway_order_id : ℕ
  pub gateway_payment_id : Option ℕ
  pub gateway_refund_id : Option ℕ
  pub amount_paise : ℕ
  pub fee_paise : Option ℕ

abbrev pub is_order : ℕ → OrderDetails → Bool
is_order id d = d.id == id

abbrev pub has_ref : ℕ → OrderDetails → Bool
has_ref ref d = is_some_of ref d.gateway_order_ref

-- SELECT … FOR UPDATE of the whole row.
abbrev pub whole_row : Option OrderRow → Option OrderDetails → Option (OrderRow × OrderDetails)
whole_row none d = none
whole_row (some r) none = none
whole_row (some r) (some d) = some (r, d)

unfoldable pub lock_order : ℕ → Shop → Option (OrderRow × OrderDetails)
lock_order id s = whole_row (s.tables.order id) (find_first (is_order id) s.details)

-- `UPDATE orders SET … WHERE id = …` on the columns of Orders; no row is no update.
abbrev pub edit_row : ℕ → (OrderRow → OrderRow) → Option OrderRow → Tables → Tables
edit_row id f none t = t
edit_row id f (some r) t = record t { order = put id (f r) t.order }

unfoldable pub edit_order : ℕ → (OrderRow → OrderRow) → Shop → Shop
edit_order id f s = record s { tables = edit_row id f (s.tables.order id) s.tables }

-- The same on checkout's own columns.
abbrev pub set_cancel_reason : ℕ → CancelReason → Shop → Shop
set_cancel_reason id reason s = record s {
  details = update_where (is_order id) (λ d. record d { cancel_reason = some reason }) s.details;
}

abbrev pub plain_event : (now id : ℕ) → OrderEventName → ActorType → OrderEvent
plain_event now id name actor = record {
  order_id = id;
  event = name;
  from_status = none;
  to_status = none;
  actor_type = actor;
  cod_collected_paise = none;
  created_at = now;
}

-- An event without a change of status.
abbrev pub insert_order_event : (now id : ℕ) → OrderEventName → ActorType → Shop → Shop
insert_order_event now id name actor s = record s {
  tables = log_event (plain_event now id name actor) s.tables;
}

abbrev pub reactivated : Option CartStatus → Option CartStatus
reactivated none = none
reactivated (some status) = some active

abbrev pub reactivate : ℕ → (ℕ → Option CartStatus) → ℕ → Option CartStatus
reactivate cart carts c = elim (c == cart) [ true ↦ reactivated (carts c) | false ↦ carts c ]

-- The buyer's cart, back from `converted` to `active`.
abbrev pub return_cart : Option ℕ → Shop → Shop
return_cart none s = s
return_cart (some cart) s = record s { carts = reactivate cart s.carts }

abbrev pub hold_line_of : OrderLine → List HoldLine → List HoldLine
hold_line_of l rest = elim l.kind [
  | shipping ↦ rest
  | item ↦ elim l.variant_id [
    | none ↦ rest
    | some v ↦ record { variant_id = v; quantity = l.quantity } ∷ rest
  ]
]

-- The order's own lines say what was bought.
unfoldable pub hold_lines_of : List OrderLine → List HoldLine
hold_lines_of [] = []
hold_lines_of (l ∷ ls) = hold_line_of l (hold_lines_of ls)

abbrev pub checkout_reference : ℕ → ReservationReference
checkout_reference id = record { type = 0; id = id }

abbrev pub order_reference : ℕ → ReservationReference
order_reference id = record { type = 1; id = id }

-- After a commit, in a transaction of its own.
abbrev pub drop_holds : ℕ → Shop → Shop
drop_holds id s = record s { stock = (release_stock (checkout_reference id) s.stock).1 }

-- A ConsumeShortfallError, which carries the violated CHECK, or a StockHeldError.
abbrev pub is_stock_failure : ErrorCode → Bool
is_stock_failure check_violation = true
is_stock_failure stock_held = true
is_stock_failure other = false

-- The refund intent of a payment, in the caller's transaction, and the event where it is new.
abbrev pub note_refund :
    (now id : ℕ) → OrderEventName → ActorType → RefundIntent × List RefundRow → Shop → Shop
note_refund now id name actor made s = elim made.0.created [
  | true ↦
      insert_order_event now id name actor (record s { refunds = made.1; next_id = s.next_id + 1 })
  | false ↦ record s { refunds = made.1 }
]

unfoldable pub open_refund :
    (now id payment_id amount : ℕ) → RefundReason → OrderEventName → ActorType → Shop → Result Shop
open_refund now id payment_id amount reason name actor s = do
  made ← create_refund_intent now s.next_id id payment_id amount reason s.refunds
  ok (note_refund now id name actor made s)
