-- ===== src/Checkout/Closings.antt =====
-- Orders that end without a sale, and orders that are paid at the door, keep the books.
use ecom_platform.Base.{
  ℕ, ◌≡◌, refl, inl, inr, true, not, Option, none, some, arith, Bool-cases, Result, ok, err,
  ok-injective, ok-ne-err, bound_value, past_refusal, invalid_transition, ErrorCode, ok_second,
}
use ecom_platform.Orders.{
  OrderRow, OrderStatus, OrderEventName, system, customer, abandoned, order_abandoned,
  order_cancelled, same_status, pending_payment, cancelled, order_oversold,
}
use ecom_platform.Checkout.{
  Shop, OrderDetails, CheckoutSettings, edit_order, drop_holds, is_stock_failure, lock_order,
  CancelReason, for_coupon, return_cart, set_cancel_reason, for_shortfall,
}
use ecom_platform.Checkout.Confirm.{
  confirm_order_core, refuse, move_to, cod_amounts, confirm_cod_row, confirm_cod_tx,
}
use ecom_platform.Checkout.Closing.{
  ExpiryOutcome, as_abandoned, still_pending, already_final, is_ahead, expire_row,
  dropped_if_abandoned, expire_checkout, cancel_pending_row, cancel_pending_order, thrown_after,
  after_cod, is_coupon_exhausted, confirm_cod_order,
}
use ecom_platform.Checkout.Growth.{Grows, Grows-refl, Grows-trans, same-Grows, same_books-Grows}
use ecom_platform.Checkout.Moves.{edit_order-Grows, move_to-Grows, set_cancel_reason-Grows}
use ecom_platform.Checkout.Confirming.{confirm_order_core-Grows}
use ecom_platform.Checkout.Money.{none_lost}
use ecom_platform.Checkout.Oversold.{not_sold, return_cart-Grows}

-- Only a pending order becomes cancelled or abandoned here, and a pending order is not sold.
close_pending-Grows :
    (now : ℕ) (r : OrderRow) (d : OrderDetails) (to : OrderStatus) (name : OrderEventName)
    (s moved : Shop)
    → same_status r.status pending_payment ≡ true
    → move_to now d.id r.status to name system s ≡ ok moved
    → Grows none_lost s (return_cart d.cart_id moved)
close_pending-Grows now r d to name s moved e f =
    let step =
      move_to-Grows none_lost now d.id r.status to name system s moved
        (λ _ w. not_sold r.status to e w) f in
    Grows-trans none_lost s moved _ step (return_cart-Grows none_lost d.cart_id moved)

expire_row-Grows :
    (now : ℕ) (o : Option (OrderRow × OrderDetails)) (s : Shop) (done : ExpiryOutcome × Shop)
    → expire_row now o s ≡ ok done
    → Grows none_lost s done.1
expire_row-Grows now none s done h = same-Grows none_lost s done.1 (ok_second h)
expire_row-Grows now (some (r, d)) s done h =
    elim (Bool-cases (same_status r.status pending_payment)) [
      | inr e ↦ same-Grows none_lost s done.1 (ok_second (rw e at h))
      | inl e ↦ elim (Bool-cases (is_ahead now r.expires_at)) [
        | inl ahead ↦ same-Grows none_lost s done.1 (ok_second (rw (e, ahead) at h))
        | inr past ↦
            let (moved, f, g) =
              bound_value (move_to now d.id r.status abandoned order_abandoned system s) _
                (rw (e, past) at h) in
            Grows-trans none_lost s (return_cart d.cart_id moved) done.1
              (close_pending-Grows now r d abandoned order_abandoned s moved e f)
              (same-Grows none_lost _ done.1 (ok_second g))
      ]
    ]

dropped-Grows :
    (id : ℕ) (kind : ExpiryOutcome) (s : Shop) → Grows none_lost s (dropped_if_abandoned id kind s)
dropped-Grows id as_abandoned s = same_books-Grows none_lost s _ refl refl refl refl (omega arith)
dropped-Grows id still_pending s = Grows-refl none_lost s
dropped-Grows id already_final s = Grows-refl none_lost s

pub expire_checkout-Grows :
    (now id : ℕ) (s s' : Shop) (kind : ExpiryOutcome)
    → expire_checkout now id s ≡ ok (kind, s')
    → Grows none_lost s s'
unfolding expire_checkout
expire_checkout-Grows now id s s' kind h =
    let (done, f, g) = bound_value (expire_row now (lock_order id s) s) _ h in
    Grows-trans none_lost s done.1 s' (expire_row-Grows now (lock_order id s) s done f) (
      Grows-trans none_lost done.1 _ s' (dropped-Grows id done.0 done.1)
        (same-Grows none_lost _ s' (ok_second g)))

cancel_pending_row-Grows :
    (now : ℕ) (reason : CancelReason) (name : OrderEventName) (o : Option (OrderRow × OrderDetails))
    (s s' : Shop)
    → cancel_pending_row now reason name o s ≡ ok s'
    → Grows none_lost s s'
cancel_pending_row-Grows now reason name none s s' h = same-Grows none_lost s s' (ok-injective h)
cancel_pending_row-Grows now reason name (some (r, d)) s s' h =
    elim (Bool-cases (same_status r.status pending_payment)) [
      | inr e ↦ same-Grows none_lost s s' (ok-injective (rw e at h))
      | inl e ↦
          let (moved, f, g) =
            bound_value (move_to now d.id r.status cancelled name system s) _ (rw e at h) in
          let step =
            move_to-Grows none_lost now d.id r.status cancelled name system s moved
              (λ _ w. not_sold r.status cancelled e w) f in
          let marked = set_cancel_reason d.id reason moved in
          Grows-trans none_lost s moved s' step (
            Grows-trans none_lost moved marked s'
              (set_cancel_reason-Grows none_lost d.id reason moved)
              (Grows-trans none_lost marked _ s' (return_cart-Grows none_lost d.cart_id marked)
                (same-Grows none_lost _ s' (ok-injective g))))
    ]

cancel_pending_order-Grows :
    (now id : ℕ) (reason : CancelReason) (name : OrderEventName) (s s' : Shop)
    → cancel_pending_order now id reason name s ≡ ok s'
    → Grows none_lost s s'
unfolding cancel_pending_order
cancel_pending_order-Grows now id reason name s s' h =
    let (closed, f, g) = bound_value (cancel_pending_row now reason name (lock_order id s) s) _ h in
    let dropped : Grows none_lost closed (drop_holds id closed) =
      same_books-Grows none_lost closed _ refl refl refl refl (omega arith) in
    Grows-trans none_lost s closed s'
      (cancel_pending_row-Grows now reason name (lock_order id s) s closed f)
      (Grows-trans none_lost closed _ s' dropped (same-Grows none_lost _ s' (ok-injective g)))

confirm_cod_row-Grows :
    (now : ℕ) (settings : CheckoutSettings) (o : Option (OrderRow × OrderDetails)) (s s' : Shop)
    → confirm_cod_row now settings o s ≡ ok s'
    → Grows none_lost s s'
confirm_cod_row-Grows now settings none s s' h = absurd (ok-ne-err h)
confirm_cod_row-Grows now settings (some (r, d)) s s' h =
    let (_, k) = past_refusal (not (same_status r.status pending_payment)) invalid_transition _ h in
    let (done, f, g) = bound_value (confirm_order_core now customer refuse settings r d s) _ k in
    let edited = edit_order d.id (cod_amounts now r.total_paise) done in
    Grows-trans none_lost s done s'
      (confirm_order_core-Grows none_lost now customer refuse settings r d s done f)
      (Grows-trans none_lost done edited s'
        (edit_order-Grows none_lost d.id (cod_amounts now r.total_paise) done (λ x. refl)
          (λ x. refl) (λ x w. w))
        (same-Grows none_lost edited s' (ok-injective g)))

-- Whether the order is confirmed, cancelled for want of stock or of its coupon, or left alone.
pub confirm_cod_order-Grows :
    (now : ℕ) (settings : CheckoutSettings) (id : ℕ) (s : Shop)
    → Grows none_lost s (confirm_cod_order now settings id s).0
unfolding confirm_cod_order confirm_cod_tx
confirm_cod_order-Grows now settings id s = by_tx (confirm_cod_tx now settings id s) refl
  where
    by_cancel :
        (code : ErrorCode) (reason : CancelReason) (name : OrderEventName) (done : Result Shop)
        → cancel_pending_order now id reason name s ≡ done
        → Grows none_lost s (thrown_after s code done).0
    by_cancel code reason name (ok s') e = cancel_pending_order-Grows now id reason name s s' e
    by_cancel code reason name (err other) e = Grows-refl none_lost s

    by_tx :
        (done : Result Shop)
        → confirm_cod_tx now settings id s ≡ done
        → Grows none_lost s (after_cod now id s done).0
    by_tx (ok s') e = confirm_cod_row-Grows now settings (lock_order id s) s s' e
    by_tx (err code) e = elim (Bool-cases (is_stock_failure code)) [
      | inl stock ↦ rw stock (by_cancel code for_shortfall order_oversold _ refl)
      | inr other ↦ elim (Bool-cases (is_coupon_exhausted code)) [
        | inl coupon ↦ rw (other, coupon) (by_cancel code for_coupon order_cancelled _ refl)
        | inr rest ↦ rw (other, rest) (Grows-refl none_lost s)
      ]
    ]
