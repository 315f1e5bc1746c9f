-- ===== src/Checkout/Oversold.antt =====
-- The cancellation of an order whose stock is gone ([TX-3]) keeps the money safe.
use ecom_platform.Base.{
  ℕ, ◌≡◌, refl, ◌⊎◌, inl, inr, Bool, true, false, Option, none, some, ◌==◌, arith, Bool-cases, ok,
  ok-injective, ok-ne-err, bound_value, find_first, ok_second,
}
use ecom_platform.Orders.{
  OrderRow, OrderStatus, system, payment_refund_initiated, same_status, pending_payment, cancelled,
  order_oversold,
}
use ecom_platform.Payments.Records.{PaymentRow, is_captured, stock_shortfall}
use ecom_platform.Checkout.{
  Shop, OrderDetails, GatewayEvent, edit_order, has_ref, return_cart, set_cancel_reason,
  for_shortfall,
}
use ecom_platform.Checkout.Confirm.{move_to}
use ecom_platform.Checkout.Webhook.{
  find_payment_by_gateway_order, capture_onto_payment, added_amount, refund_started, record_capture,
  cancel_oversold, close_oversold, oversold_payment, oversold_row, oversold_order, oversold_tx,
}
use ecom_platform.Checkout.Growth.{
  Grows, Grows-refl, Grows-trans, same-Grows, same_books-Grows, row_paid, is_refunded, is_sold,
}
use ecom_platform.Checkout.Moves.{edit_order-Grows, move_to-Grows, set_cancel_reason-Grows}
use ecom_platform.Checkout.Safety.{IsSafe, Grows-IsSafe, found_charged}
use ecom_platform.Checkout.Capturing.{open_refund-Grows}
use ecom_platform.Checkout.Money.{
  none_lost, edit_order_paid, captured_row_kept, settled_capture-IsSafe,
}

pub return_cart-Grows :
    (loses : ℕ → Bool) (c : Option ℕ) (s : Shop) → Grows loses s (return_cart c s)
return_cart-Grows loses none s = Grows-refl loses s
return_cart-Grows loses (some c) s = same_books-Grows loses s _ refl refl refl refl (omega arith)

pub not_sold :
    (st to : OrderStatus)
    → same_status st pending_payment ≡ true
    → is_sold st ≡ true
    → is_sold to ≡ true
not_sold st to e v = absurd (ground (arith, e, v))

cancel_oversold-Grows :
    (now : ℕ) (r : OrderRow) (d : OrderDetails) (s s' : Shop)
    → cancel_oversold now r d s ≡ ok s'
    → Grows none_lost s s'
unfolding cancel_oversold
cancel_oversold-Grows now r d s s' h = elim (Bool-cases (same_status r.status pending_payment)) [
  | inr e ↦ same-Grows none_lost s s' (ok-injective (rw e at h))
  | inl e ↦
      let (moved, f, g) =
        bound_value (move_to now d.id r.status cancelled order_oversold system s) _ (rw e at h) in
      let step =
        move_to-Grows none_lost now d.id r.status cancelled order_oversold system s moved
          (λ _ w. not_sold r.status cancelled e w) f in
      let marked = set_cancel_reason d.id for_shortfall moved in
      let edited = edit_order d.id (refund_started now) marked in
      let last = same-Grows none_lost _ s' (ok-injective g) in
      Grows-trans none_lost s moved s' step (
        Grows-trans none_lost moved marked s' (set_cancel_reason-Grows none_lost d.id _ moved) (
          Grows-trans none_lost marked edited s'
            (edit_order-Grows none_lost d.id (refund_started now) marked (λ x. refl) (λ x. refl)
              (λ x w. w))
            (Grows-trans none_lost edited (return_cart d.cart_id edited) s'
              (return_cart-Grows none_lost d.cart_id edited) last)))
]

module _ (now : ℕ) (ev : GatewayEvent) (r : OrderRow) (d : OrderDetails) (p : PaymentRow) (s : Shop)
    (v : IsSafe s) (row : s.tables.order d.id ≡ some r)
    (found : find_payment_by_gateway_order d.id ev.gateway_order_id s.payments ≡ some p) where
  -- What is left of the transaction once the capture stands.
  close_oversold-Grows :
      (captured s' : Shop)
      → close_oversold now ev r d p captured ≡ ok s'
      → Grows none_lost captured s'
        × (is_refunded p.id s'.refunds ≡ true)
        × ((ev.amount_paise == 0) ≡ false)
  unfolding close_oversold
  close_oversold-Grows captured s' h =
      let (closed, f, g) = bound_value (cancel_oversold now r d captured) _ h in
      let (grown, there, _, priced) =
        open_refund-Grows none_lost now d.id p.id ev.amount_paise stock_shortfall
          payment_refund_initiated system closed s' g in
      (
        Grows-trans none_lost captured closed s' (cancel_oversold-Grows now r d captured closed f)
            grown,
        there,
        priced,
      )

  -- The capture was there already, or is made now.
  pub close_oversold_steps :
      (captured closed : Shop)
      → record_capture now ev d p s ≡ ok captured
      → close_oversold now ev r d p captured ≡ ok closed
      → ((is_captured p.status ≡ true) × Grows none_lost s closed)
        ⊎ ((done : Shop) × (capture_onto_payment now ev p s ≡ ok done)
            × Grows none_lost done closed
            × (row_paid (closed.tables.order d.id) ≡ true)
            × (is_refunded p.id closed.refunds ≡ true))
  unfolding record_capture
  close_oversold_steps captured closed f m =
      let (grown, there, priced) = close_oversold-Grows captured closed m in
      elim (Bool-cases (is_captured p.status)) [
        | inl e ↦
            let same = same-Grows none_lost s captured (ok-injective (rw e at f)) in
            inl (e, Grows-trans none_lost s captured closed same grown)
        | inr e ↦
            let (done, k, l) = bound_value (capture_onto_payment now ev p s) _ (rw e at f) in
            let edited = edit_order d.id (added_amount now ev.amount_paise) done in
            let first = same-Grows none_lost edited captured (ok-injective l) in
            let more =
              edit_order-Grows none_lost d.id (added_amount now ev.amount_paise) done (λ x. refl)
                (λ x. refl) (λ x w. ground (arith, w)) in
            let rest = Grows-trans none_lost edited captured closed first grown in
            let charged = found_charged s d.id ev.gateway_order_id p v found r row in
            let paid =
              edit_order_paid d.id (added_amount now ev.amount_paise) done r
                (captured_row_kept now ev r d p s v row found done k)
                (ground (arith, priced, charged)) in
            inr (
              done,
              k,
              Grows-trans none_lost done edited closed more rest,
              rest.paid d.id paid,
              there,
            )
      ]

  close_oversold-IsSafe :
      (captured closed : Shop)
      → record_capture now ev d p s ≡ ok captured
      → close_oversold now ev r d p captured ≡ ok closed
      → IsSafe closed
  close_oversold-IsSafe captured closed f m = elim (close_oversold_steps captured closed f m) [
    | inl (_, grown) ↦ Grows-IsSafe s closed grown v
    | inr (done, k, grown, paid, there) ↦
        settled_capture-IsSafe now ev r d p s v row found done closed k grown paid (inr there)
  ]

  oversold_payment-IsSafe :
      (s' : Shop) (id : Option ℕ) → oversold_payment now ev r d (some p) s ≡ ok (id, s') → IsSafe s'
  oversold_payment-IsSafe s' id h =
      let (captured, f, g) = bound_value (record_capture now ev d p s) _ h in
      let (closed, m, n) = bound_value (close_oversold now ev r d p captured) _ g in
      rw (ok_second n) at (close_oversold-IsSafe captured closed f m)

pub oversold_tx-IsSafe :
    (now : ℕ) (ev : GatewayEvent) (s s' : Shop) (id : Option ℕ)
    → IsSafe s
    → oversold_tx now ev s ≡ ok (id, s')
    → IsSafe s'
unfolding oversold_tx
oversold_tx-IsSafe now ev s s' id v h =
    by_order (find_first (has_ref ev.gateway_order_id) s.details) h
  where
    by_payment :
        (d : OrderDetails) (r : OrderRow)
        → s.tables.order d.id ≡ some r
        → (o : Option PaymentRow)
        → find_payment_by_gateway_order d.id ev.gateway_order_id s.payments ≡ o
        → oversold_payment now ev r d o s ≡ ok (id, s')
        → IsSafe s'
    by_payment d r row none e k = rw (ok_second k) at v
    by_payment d r row (some p) e k = oversold_payment-IsSafe now ev r d p s v row e s' id k

    by_row :
        (d : OrderDetails) (o : Option OrderRow)
        → s.tables.order d.id ≡ o
        → oversold_row now ev d o s ≡ ok (id, s')
        → IsSafe s'
    by_row d none e k = absurd (ok-ne-err k)
    by_row d (some r) e k = by_payment d r e _ refl k

    by_order : (o : Option OrderDetails) → oversold_order now ev o s ≡ ok (id, s') → IsSafe s'
    by_order none k = rw (ok_second k) at v
    by_order (some d) k = by_row d (s.tables.order d.id) refl k
