-- ===== src/Checkout/Webhook.antt =====
-- The gateway's events: confirmFromWebhookEvent with processCaptured, oversoldCancel, processFailed
-- and processRefundProcessed. Each body runs in one transaction, so that a body that throws leaves
-- the tables as they were; what follows the commit is written out where it changes a table.
use ecom_platform.Base.{
  ℕ, ◌+◌, not, ◌&&◌, Option, none, some, List, leb, ◌==◌, if◌then◌else◌, Result, ok, err, ◌>>=◌,
  internal, find_first,
}
use ecom_platform.Orders.{
  OrderRow, pending_payment, cancelled, order_oversold, order_refunded, payment_failed,
  payment_amount_mismatch, payment_late_captured, payment_refund_initiated, same_status, system,
  paid, partially_paid, refund_initiated, refund_done,
}
use ecom_platform.Payments.Records.{
  PaymentRow, RefundRow, is_captured, mark_payment_captured, mark_payment_failed,
  mark_refund_processed, late_capture_abandoned, stock_shortfall,
}
use ecom_platform.Checkout.{
  Shop, OrderDetails, CheckoutSettings, GatewayEvent, for_shortfall, has_ref, edit_order,
  set_cancel_reason, insert_order_event, return_cart, drop_holds, is_stock_failure, open_refund,
}
use ecom_platform.Checkout.Confirm.{confirm_order_core, move_to, overredeem}

pub data CaptureResult : Type 0 where
  ignored replay amount_mismatch late_capture capture_confirmed oversold : CaptureResult

-- `ORDER BY created_at DESC LIMIT 1`, where the newest row is first.
unfoldable pub find_payment_by_gateway_order :
    (order_id gateway_order_id : ℕ) → List PaymentRow → Option PaymentRow
find_payment_by_gateway_order order_id gateway_order_id =
    find_first (λ p. p.order_id == order_id && p.gateway_order_id == gateway_order_id)

abbrev pub or_event_id : Option ℕ → ℕ → ℕ
or_event_id none event_id = event_id
or_event_id (some gateway_payment_id) event_id = gateway_payment_id

unfoldable pub capture_onto_payment : ℕ → GatewayEvent → PaymentRow → Shop → Result Shop
capture_onto_payment now ev p s =
    mark_payment_captured now p.id (or_event_id ev.gateway_payment_id ev.event_id) ev.fee_paise
      s.payments
    >>= λ ps. ok (record s { payments = ps })

-- (c)
unfoldable pub refuse_amount : ℕ → GatewayEvent → OrderDetails → PaymentRow → Shop → Result Shop
refuse_amount now ev d p s = mark_payment_failed now p.id s.payments >>= λ ps.
    ok (insert_order_event now d.id payment_amount_mismatch system (record s { payments = ps }))

abbrev pub late_amounts : ℕ → ℕ → OrderRow → OrderRow
late_amounts now amount r = record r {
  amount_paid_paise = r.amount_paid_paise + amount;
  payment_status = refund_initiated;
  updated_at = now;
}

-- (d)
unfoldable pub capture_late : ℕ → GatewayEvent → OrderDetails → PaymentRow → Shop → Result Shop
capture_late now ev d p s = do
  captured ← capture_onto_payment now ev p s
  open_refund now d.id p.id ev.amount_paise late_capture_abandoned payment_late_captured system
      (edit_order d.id (late_amounts now ev.amount_paise) captured)

abbrev pub paid_amounts : (now paid_after total : ℕ) → OrderRow → OrderRow
paid_amounts now paid_after total r = record r {
  amount_paid_paise = paid_after;
  payment_status = if leb total paid_after then paid else partially_paid;
  updated_at = now;
}

-- (e) to (j)
unfoldable pub capture_and_confirm :
    ℕ → CheckoutSettings → GatewayEvent → OrderRow → OrderDetails → PaymentRow → Shop → Result Shop
capture_and_confirm now settings ev r d p s = do
  captured ← capture_onto_payment now ev p s
  let paid_after = r.amount_paid_paise + ev.amount_paise
  confirm_order_core now system overredeem settings r d
      (edit_order d.id (paid_amounts now paid_after r.total_paise) captured)

abbrev pub tagged : CaptureResult → Result Shop → Result (CaptureResult × Shop)
tagged kind done = done >>= λ s. ok (kind, s)

-- (b) to (j), over the locked order and the payment that was found.
abbrev pub capture_payment :
    ℕ
    → CheckoutSettings
    → GatewayEvent
    → OrderRow
    → OrderDetails
    → Option PaymentRow
    → Shop
    → Result (CaptureResult × Shop)
capture_payment now settings ev r d none s = ok (ignored, s)
capture_payment now settings ev r d (some p) s =
    if is_captured p.status
    then ok (replay, s)
    else if not (ev.amount_paise == p.amount_paise)
    then tagged amount_mismatch (refuse_amount now ev d p s)
    else if not (same_status r.status pending_payment)
    then tagged late_capture (capture_late now ev d p s)
    else tagged capture_confirmed (capture_and_confirm now settings ev r d p s)

-- The order's row is there, or the source's `!` fails.
abbrev pub capture_row :
    ℕ
    → CheckoutSettings
    → GatewayEvent
    → OrderDetails
    → Option OrderRow
    → Shop
    → Result (CaptureResult × Shop)
capture_row now settings ev d none s = err internal
capture_row now settings ev d (some r) s =
    capture_payment now settings ev r d
      (find_payment_by_gateway_order d.id ev.gateway_order_id s.payments) s

-- (a)
abbrev pub capture_order :
    ℕ → CheckoutSettings → GatewayEvent → Option OrderDetails → Shop → Result (CaptureResult × Shop)
capture_order now settings ev none s = ok (ignored, s)
capture_order now settings ev (some d) s = capture_row now settings ev d (s.tables.order d.id) s

-- [TX-2]
unfoldable pub capture_tx :
    ℕ → CheckoutSettings → GatewayEvent → Shop → Result (CaptureResult × Shop)
capture_tx now settings ev s =
    capture_order now settings ev (find_first (has_ref ev.gateway_order_id) s.details) s

abbrev pub added_amount : ℕ → ℕ → OrderRow → OrderRow
added_amount now amount r = record r {
  amount_paid_paise = r.amount_paid_paise + amount;
  updated_at = now;
}

abbrev pub refund_started : ℕ → OrderRow → OrderRow
refund_started now r = record r { payment_status = refund_initiated; updated_at = now }

-- The capture is recorded once.
unfoldable pub record_capture : ℕ → GatewayEvent → OrderDetails → PaymentRow → Shop → Result Shop
record_capture now ev d p s =
    if is_captured p.status
    then ok s
    else (capture_onto_payment now ev p s >>= λ done.
        ok (edit_order d.id (added_amount now ev.amount_paise) done))

-- An order that is still pending is cancelled, and its cart goes back to the buyer.
unfoldable pub cancel_oversold : ℕ → OrderRow → OrderDetails → Shop → Result Shop
cancel_oversold now r d s =
    if same_status r.status pending_payment
    then (move_to now d.id r.status cancelled order_oversold system s >>= λ moved. ok (
        return_cart d.cart_id
          (edit_order d.id (refund_started now) (set_cancel_reason d.id for_shortfall moved))))
    else ok s

-- What follows the capture: the order is closed, and the refund intent is written once.
unfoldable pub close_oversold :
    ℕ → GatewayEvent → OrderRow → OrderDetails → PaymentRow → Shop → Result Shop
close_oversold now ev r d p s = do
  closed ← cancel_oversold now r d s
  open_refund now d.id p.id ev.amount_paise stock_shortfall payment_refund_initiated system closed

abbrev pub oversold_payment :
    ℕ → GatewayEvent → OrderRow → OrderDetails → Option PaymentRow → Shop → Result (Option ℕ × Shop)
oversold_payment now ev r d none s = ok (none, s)
oversold_payment now ev r d (some p) s = do
  captured ← record_capture now ev d p s
  refunded ← close_oversold now ev r d p captured
  ok (some d.id, refunded)

abbrev pub oversold_row :
    ℕ → GatewayEvent → OrderDetails → Option OrderRow → Shop → Result (Option ℕ × Shop)
oversold_row now ev d none s = err internal
oversold_row now ev d (some r) s =
    oversold_payment now ev r d (find_payment_by_gateway_order d.id ev.gateway_order_id s.payments)
      s

abbrev pub oversold_order : ℕ → GatewayEvent → Option OrderDetails → Shop → Result (Option ℕ × Shop)
oversold_order now ev none s = ok (none, s)
oversold_order now ev (some d) s = oversold_row now ev d (s.tables.order d.id) s

-- [TX-3]: the order whose holds are dropped after the commit, if any, and the tables.
unfoldable pub oversold_tx : ℕ → GatewayEvent → Shop → Result (Option ℕ × Shop)
oversold_tx now ev s = oversold_order now ev (find_first (has_ref ev.gateway_order_id) s.details) s

abbrev pub after_oversold : Shop → Result (Option ℕ × Shop) → Shop × Result CaptureResult
after_oversold s (err code) = (s, err code)
after_oversold s (ok (none, s')) = (s', ok oversold)
after_oversold s (ok (some id, s')) = (drop_holds id s', ok oversold)

unfoldable pub oversold_cancel : ℕ → GatewayEvent → Shop → Shop × Result CaptureResult
oversold_cancel now ev s = after_oversold s (oversold_tx now ev s)

-- A failure of the stock leaves [TX-2] rolled back and is answered by [TX-3].
abbrev pub after_capture :
    ℕ → GatewayEvent → Shop → Result (CaptureResult × Shop) → Shop × Result CaptureResult
after_capture now ev s (ok (kind, s')) = (s', ok kind)
after_capture now ev s (err code) =
    if is_stock_failure code then oversold_cancel now ev s else (s, err code)

unfoldable pub process_captured :
    ℕ → CheckoutSettings → GatewayEvent → Shop → Shop × Result CaptureResult
process_captured now settings ev s = after_capture now ev s (capture_tx now settings ev s)

-- Never downgrade a capture.
abbrev pub fail_payment : ℕ → OrderDetails → Option PaymentRow → Shop → Result Shop
fail_payment now d none s = ok s
fail_payment now d (some p) s =
    if is_captured p.status
    then ok s
    else (mark_payment_failed now p.id s.payments >>= λ ps.
        ok (insert_order_event now d.id payment_failed system (record s { payments = ps })))

abbrev pub fail_row : ℕ → GatewayEvent → OrderDetails → Option OrderRow → Shop → Result Shop
fail_row now ev d none s = err internal
fail_row now ev d (some r) s =
    fail_payment now d (find_payment_by_gateway_order d.id ev.gateway_order_id s.payments) s

abbrev pub fail_order : ℕ → GatewayEvent → Option OrderDetails → Shop → Result Shop
fail_order now ev none s = ok s
fail_order now ev (some d) s = fail_row now ev d (s.tables.order d.id) s

unfoldable pub process_failed : ℕ → GatewayEvent → Shop → Result Shop
process_failed now ev s = fail_order now ev (find_first (has_ref ev.gateway_order_id) s.details) s

abbrev pub refund_done_at : ℕ → OrderRow → OrderRow
refund_done_at now r = record r { payment_status = refund_done; updated_at = now }

abbrev pub note_processed : ℕ → Option RefundRow × List RefundRow → Shop → Shop
note_processed now (none, rs) s = s
note_processed now (some r, rs) s =
    insert_order_event now r.order_id order_refunded system
      (edit_order r.order_id (refund_done_at now) (record s { refunds = rs }))

abbrev pub process_refund_id : ℕ → Option ℕ → Shop → Shop
process_refund_id now none s = s
process_refund_id now (some gateway_refund_id) s =
    note_processed now (mark_refund_processed now gateway_refund_id s.refunds) s

unfoldable pub process_refund_processed : ℕ → GatewayEvent → Shop → Shop
process_refund_processed now ev s = process_refund_id now ev.gateway_refund_id s

-- 'payment.captured' | 'payment.failed' | 'refund.processed', or a type that is acknowledged only.
pub data GatewayEventType : Type 0 where
  on_captured on_failed on_refund_processed unknown : GatewayEventType

-- The tables after a transaction.
abbrev pub after_transaction : Shop → Result Shop → Shop
after_transaction s (ok s') = s'
after_transaction s (err code) = s

unfoldable pub confirm_from_webhook_event :
    ℕ → CheckoutSettings → GatewayEventType → GatewayEvent → Shop → Shop
confirm_from_webhook_event now settings on_captured ev s = (process_captured now settings ev s).0
confirm_from_webhook_event now settings on_failed ev s =
    after_transaction s (process_failed now ev s)
confirm_from_webhook_event now settings on_refund_processed ev s = process_refund_processed now ev s
confirm_from_webhook_event now settings unknown ev s = s
