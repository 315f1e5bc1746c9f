-- ===== src/Checkout/Closing.antt =====
-- How an order that was placed is closed without a sale: cancelPendingOrder, the failure branches of
-- confirmCodOrder, expireCheckout, and cancelOrder for the console.
use ecom_platform.Base.{
  ℕ, ◌&&◌, Bool, true, false, not, ◌||◌, Option, none, some, List, [], ◌∷◌, keep, ltb, ◌==◌,
  if◌then◌else◌, Result, ok, err, ◌>>=◌, ◌>>◌, refuse_if, ErrorCode, coupon_exhausted, not_found,
  invalid_transition, find_first,
}
use ecom_platform.Orders.{
  OrderStatus, OrderRow, OrderEventName, AuditEntry, pending_payment, confirmed, processing,
  cancelled, abandoned, order_oversold, order_cancelled, order_abandoned, payment_refund_initiated,
  same_status, system, staff, refund_initiated,
}
use ecom_platform.Payments.Records.{PaymentRow, is_captured, merchant_cancelled}
use ecom_platform.Inventory.Holds.{HoldLine, is_missing}
use ecom_platform.Inventory.Sales.{restock_within}
use ecom_platform.Checkout.{
  Shop, OrderDetails, CheckoutSettings, CancelReason, for_shortfall, for_coupon, for_merchant,
  given, lock_order, edit_order, set_cancel_reason, hold_lines_of, order_reference, return_cart,
  drop_holds, is_stock_failure, open_refund,
}
use ecom_platform.Checkout.Confirm.{confirm_cod_tx, move_to}

-- The transaction of cancelPendingOrder, which leaves an order that is not pending alone.
abbrev pub cancel_pending_row :
    ℕ → CancelReason → OrderEventName → Option (OrderRow × OrderDetails) → Shop → Result Shop
cancel_pending_row now reason name none s = ok s
cancel_pending_row now reason name (some (r, d)) s =
    if same_status r.status pending_payment
    then (move_to now d.id r.status cancelled name system s >>= λ moved.
        ok (return_cart d.cart_id (set_cancel_reason d.id reason moved)))
    else ok s

abbrev pub with_holds_dropped : ℕ → Result Shop → Result Shop
with_holds_dropped id done = done >>= λ s. ok (drop_holds id s)

unfoldable pub cancel_pending_order : ℕ → ℕ → CancelReason → OrderEventName → Shop → Result Shop
cancel_pending_order now id reason name s =
    with_holds_dropped id (cancel_pending_row now reason name (lock_order id s) s)

abbrev pub is_coupon_exhausted : ErrorCode → Bool
is_coupon_exhausted coupon_exhausted = true
is_coupon_exhausted other = false

-- A cancellation that throws takes the error's place.
abbrev pub thrown_after : Shop → ErrorCode → Result Shop → Shop × Result (Unit {0})
thrown_after s code (ok s') = (s', err code)
thrown_after s code (err other) = (s, err other)

abbrev pub after_cod : ℕ → ℕ → Shop → Result Shop → Shop × Result (Unit {0})
after_cod now id s (ok s') = (s', ok tt)
after_cod now id s (err code) =
    if is_stock_failure code
    then thrown_after s code (cancel_pending_order now id for_shortfall order_oversold s)
    else if is_coupon_exhausted code
    then thrown_after s code (cancel_pending_order now id for_coupon order_cancelled s)
    else (s, err code)

unfoldable pub confirm_cod_order : ℕ → CheckoutSettings → ℕ → Shop → Shop × Result (Unit {0})
confirm_cod_order now settings id s = after_cod now id s (confirm_cod_tx now settings id s)

pub data ExpiryOutcome : Type 0 where
  as_abandoned still_pending already_final : ExpiryOutcome

abbrev pub is_ahead : ℕ → Option ℕ → Bool
is_ahead now none = false
is_ahead now (some expires_at) = ltb now expires_at

abbrev pub expire_row : ℕ → Option (OrderRow × OrderDetails) → Shop → Result (ExpiryOutcome × Shop)
expire_row now none s = ok (already_final, s)
expire_row now (some (r, d)) s =
    if not (same_status r.status pending_payment)
    then ok (already_final, s)
    else if is_ahead now r.expires_at
    then ok (still_pending, s)
    else (move_to now d.id r.status abandoned order_abandoned system s >>= λ moved.
        ok (as_abandoned, return_cart d.cart_id moved))

abbrev pub dropped_if_abandoned : ℕ → ExpiryOutcome → Shop → Shop
dropped_if_abandoned id as_abandoned s = drop_holds id s
dropped_if_abandoned id other s = s

unfoldable pub expire_checkout : ℕ → ℕ → Shop → Result (ExpiryOutcome × Shop)
expire_checkout now id s = expire_row now (lock_order id s) s >>= λ done.
    ok (done.0, dropped_if_abandoned id done.0 done.1)

abbrev pub cancellable_by_staff : OrderStatus → Bool
cancellable_by_staff from = same_status confirmed from || same_status processing from

-- The lines of variants that still exist go back to the stock.
abbrev pub restock_live : ℕ → ℕ → List HoldLine → Shop → Result Shop
restock_live now id [] s = ok s
restock_live now id (l ∷ ls) s =
    restock_within now (l ∷ ls) (order_reference id) s.stock >>= λ done.
    ok (record s { stock = done.1 })

unfoldable pub find_captured : ℕ → List PaymentRow → Option PaymentRow
find_captured id = find_first (λ p. p.order_id == id && is_captured p.status)

abbrev pub refund_marked : ℕ → OrderRow → OrderRow
refund_marked now r = record r { payment_status = refund_initiated; updated_at = now }

abbrev pub refund_captured : ℕ → ℕ → Option PaymentRow → Shop → Result Shop
refund_captured now id none s = ok s
refund_captured now id (some p) s =
    open_refund now id p.id p.amount_paise merchant_cancelled payment_refund_initiated staff
      (edit_order id (refund_marked now) s)

-- Only an order that was paid for.
abbrev pub refund_paid : ℕ → OrderRow → ℕ → Shop → Result Shop
refund_paid now r id s =
    if ltb 0 r.amount_paid_paise
    then refund_captured now id (find_captured id s.payments) s
    else ok s

abbrev pub or_by_merchant : Option ℕ → CancelReason
or_by_merchant none = for_merchant
or_by_merchant (some text) = given text

abbrev pub cancelled_entry : ℕ → OrderStatus → AuditEntry
cancelled_entry id from = record {
  entity_id = id;
  before = from;
  before_payment = none;
  after = cancelled;
  after_payment = none;
}

abbrev pub audit_cancelled : ℕ → OrderStatus → Shop → Shop
audit_cancelled id from s = record s {
  tables = record (s.tables) { audit = cancelled_entry id from ∷ s.tables.audit };
}

-- `reason` is the reason that was given, trimmed, unless it is empty.
abbrev pub cancel_row : ℕ → Option ℕ → Option (OrderRow × OrderDetails) → Shop → Result Shop
cancel_row now reason none s = err not_found
cancel_row now reason (some (r, d)) s = do
  refuse_if (not (cancellable_by_staff r.status)) invalid_transition
  restocked ←
      restock_live now d.id (keep (λ l. not (is_missing s.stock l)) (hold_lines_of d.lines)) s
  moved ← move_to now d.id r.status cancelled order_cancelled staff restocked
  refunded ← refund_paid now r d.id (set_cancel_reason d.id (or_by_merchant reason) moved)
  ok (audit_cancelled d.id r.status refunded)

unfoldable pub cancel_order : ℕ → ℕ → Option ℕ → Shop → Result Shop
cancel_order now id reason s = cancel_row now reason (lock_order id s) s
