-- ===== src/Checkout/Redelivery.antt =====
-- A capture that the gateway delivers again.
use ecom_platform.Base.{
  ℕ, ◌≡◌, refl, sym, ap, ◌⊎◌, inl, inr, true, Option, none, some, arith, Bool-cases, Result, ok,
  err, ok-injective, ok-ne-err, bound_value, find_first, ok_second, ok_first,
}
use ecom_platform.Orders.{OrderRow}
use ecom_platform.Payments.Records.{PaymentRow}
use ecom_platform.Checkout.{
  Shop, OrderDetails, CheckoutSettings, GatewayEvent, has_ref, drop_holds, is_stock_failure,
}
use ecom_platform.Checkout.Webhook.{
  CaptureResult, find_payment_by_gateway_order, capture_tx, record_capture, close_oversold,
  oversold_payment, oversold_row, oversold_order, oversold_tx, after_oversold, oversold_cancel,
  after_capture, process_captured,
}
use ecom_platform.Checkout.Growth.{same_books-Grows}
use ecom_platform.Checkout.Safety.{IsSafe}
use ecom_platform.Checkout.Money.{none_lost}
use ecom_platform.Checkout.Oversold.{close_oversold_steps}
use ecom_platform.Checkout.Delivered.{
  IsDone, IsQuiet, is_quiet, is_accepted, Grows-IsDone, earlier-IsDone, capture-IsDone,
  done-IsQuiet, unknown-IsQuiet, unpaid-IsQuiet, capture_tx-IsQuiet,
}

module _ (later : ℕ) (settings' : CheckoutSettings) (now : ℕ) (ev : GatewayEvent) (s : Shop)
    (v : IsSafe s) where
  -- [TX-3] leaves the payment captured, or has found nothing to do.
  oversold_tx-IsDone :
      (id : Option ℕ) (s' : Shop)
      → oversold_tx now ev s ≡ ok (id, s')
      → ((o : ℕ) × IsDone ev.gateway_order_id o s') ⊎ ((id ≡ none) × IsQuiet later settings' ev s')
  unfolding oversold_tx
  oversold_tx-IsDone id s' h = by_order (find_first (has_ref ev.gateway_order_id) s.details) refl h
    where
      Answer : Type 0
      Answer =
          ((o : ℕ) × IsDone ev.gateway_order_id o s')
          ⊎ ((id ≡ none) × IsQuiet later settings' ev s')

      by_payment :
          (d : OrderDetails) (r : OrderRow)
          → find_first (has_ref ev.gateway_order_id) s.details ≡ some d
          → s.tables.order d.id ≡ some r
          → (o : Option PaymentRow)
          → find_payment_by_gateway_order d.id ev.gateway_order_id s.payments ≡ o
          → oversold_payment now ev r d o s ≡ ok (id, s')
          → Answer
      by_payment d r named row none e k = inr (
        sym (ok_first k),
        rw (ok_second k) at (unpaid-IsQuiet later settings' now ev s v d r named row e),
      )
      by_payment d r named row (some p) e k =
          let (captured, f, g) = bound_value (record_capture now ev d p s) _ k in
          let (closed, m, n) = bound_value (close_oversold now ev r d p captured) _ g in
          elim (close_oversold_steps now ev r d p s v row e captured closed f m) [
            | inl (before, grown) ↦ inl (
              d.id,
              rw (ok_second n) at (
                  Grows-IsDone ev.gateway_order_id d.id s closed grown
                    (earlier-IsDone now ev r d p s v row named e before)),
            )
            | inr (done, c, grown, _, _) ↦ inl (
              d.id,
              rw (ok_second n) at (
                  Grows-IsDone ev.gateway_order_id d.id done closed grown
                    (capture-IsDone now ev r d p s v row named e done c)),
            )
          ]

      by_row :
          (d : OrderDetails)
          → find_first (has_ref ev.gateway_order_id) s.details ≡ some d
          → (o : Option OrderRow) → s.tables.order d.id ≡ o
          → oversold_row now ev d o s ≡ ok (id, s')
          → Answer
      by_row d named none e k = absurd (ok-ne-err k)
      by_row d named (some r) e k = by_payment d r named e _ refl k

      by_order :
          (o : Option OrderDetails)
          → find_first (has_ref ev.gateway_order_id) s.details ≡ o
          → oversold_order now ev o s ≡ ok (id, s')
          → Answer
      by_order none e k =
          inr (sym (ok_first k), rw (ok_second k) at (unknown-IsQuiet later settings' now ev s v e))
      by_order (some d) e k = by_row d e (s.tables.order d.id) refl k

-- A capture that was answered with anything but a mismatch of its amount (confirmed, late, sold out,
-- replayed or ignored) may be delivered again at any later time: the second delivery writes nothing,
-- no table at all, and is answered as a replay or ignored. The shop is safe.
pub process_captured-IsQuiet :
    (now later : ℕ) (settings settings' : CheckoutSettings) (ev : GatewayEvent) (s s' : Shop)
    (kind : CaptureResult)
    → IsSafe s
    → process_captured now settings ev s ≡ (s', ok kind)
    → is_accepted kind ≡ true
    → (again : CaptureResult) × (process_captured later settings' ev s' ≡ (s', ok again))
      × (is_quiet again ≡ true)
unfolding oversold_cancel process_captured
process_captured-IsQuiet now later settings settings' ev s s' kind v h accepted =
    by_tx (capture_tx now settings ev s) refl h
  where
    by_oversold :
        (done : Result (Option ℕ × Shop))
        → oversold_tx now ev s ≡ done
        → after_oversold s done ≡ (s', ok kind)
        → IsQuiet later settings' ev s'
    by_oversold (err code) e k = absurd (ok-ne-err (ap (λ t. t.1) k))
    by_oversold (ok (none, t)) e k =
        let quiet : IsQuiet later settings' ev t =
          elim (oversold_tx-IsDone later settings' now ev s v none t e) [
            | inl (o, done) ↦ done-IsQuiet later settings' now ev s v o t done
            | inr (_, found) ↦ found
          ] in
        rw (ap (λ t. t.0) k) at quiet
    by_oversold (ok (some id, t)) e k =
        elim (oversold_tx-IsDone later settings' now ev s v (some id) t e) [
          | inl (o, done) ↦
              let dropped =
                same_books-Grows none_lost t (drop_holds id t) refl refl refl refl (omega arith) in
              rw (ap (λ t. t.0) k) at (
                done-IsQuiet later settings' now ev s v o (drop_holds id t)
                  (Grows-IsDone ev.gateway_order_id o t (drop_holds id t) dropped done))
          | inr (bad, _) ↦ absurd (cc)
        ]

    by_tx :
        (done : Result (CaptureResult × Shop))
        → capture_tx now settings ev s ≡ done
        → after_capture now ev s done ≡ (s', ok kind)
        → IsQuiet later settings' ev s'
    by_tx (ok (k, t)) e q =
        let same : k ≡ kind = ok-injective (ap (λ t. t.1) q) in
        rw (ap (λ t. t.0) q) at
          (capture_tx-IsQuiet later settings' now ev s v settings k t e (rw same accepted))
    by_tx (err code) e q = elim (Bool-cases (is_stock_failure code)) [
      | inl stock ↦ by_oversold (oversold_tx now ev s) refl (rw stock at q)
      | inr other ↦ absurd (ok-ne-err (ap (λ t. t.1) (rw other at q)))
    ]
