-- ===== src/Checkout/Events.antt =====
-- Every event of the gateway keeps the money safe.
use ecom_platform.Base.{
  ℕ, ◌≡◌, refl, sym, inl, inr, true, Option, none, some, List, [], ◌∷◌, arith, Bool-cases, Result,
  ok, err, ok-injective, ok-ne-err, bound_value, find_first,
}
use ecom_platform.Orders.{OrderRow}
use ecom_platform.Payments.Records.{
  PaymentRow, RefundRow, awaits, refunds_payment, is_captured, mark_payment_failed,
  mark_refund_processed,
}
use ecom_platform.Checkout.{
  Shop, OrderDetails, CheckoutSettings, GatewayEvent, edit_order, has_ref, drop_holds,
  is_stock_failure,
}
use ecom_platform.Checkout.Webhook.{
  CaptureResult, capture_tx, oversold_tx, after_oversold, oversold_cancel, after_capture,
  process_captured, fail_payment, fail_row, fail_order, process_failed, refund_done_at,
  note_processed, process_refund_id, process_refund_processed, GatewayEventType, on_captured,
  on_failed, on_refund_processed, unknown, after_transaction, confirm_from_webhook_event,
}
use ecom_platform.Checkout.Growth.{Grows, Grows-refl, Grows-trans, same_books-Grows, is_refunded}
use ecom_platform.Checkout.Moves.{edit_order-Grows}
use ecom_platform.Checkout.Safety.{IsSafe, Grows-IsSafe}
use ecom_platform.Checkout.Capturing.{mark_payment_failed-IsSafe}
use ecom_platform.Checkout.Money.{none_lost, capture_tx-IsSafe}
use ecom_platform.Checkout.Oversold.{oversold_tx-IsSafe}

drop_holds-IsSafe : (id : ℕ) (s : Shop) → IsSafe s → IsSafe (drop_holds id s)
drop_holds-IsSafe id s v =
    Grows-IsSafe s (drop_holds id s)
      (same_books-Grows none_lost s _ refl refl refl refl (omega arith)) v

-- However processCaptured ends, with a confirmation, a late or mismatched capture, a replay, a sale
-- that failed for stock, or a throw: the money is safe after it if it was before.
pub process_captured-IsSafe :
    (now : ℕ) (settings : CheckoutSettings) (ev : GatewayEvent) (s : Shop)
    → IsSafe s
    → IsSafe (process_captured now settings ev s).0
unfolding process_captured oversold_cancel
process_captured-IsSafe now settings ev s v = by_tx (capture_tx now settings ev s) refl
  where
    by_oversold :
        (done : Result (Option ℕ × Shop))
        → oversold_tx now ev s ≡ done
        → IsSafe (after_oversold s done).0
    by_oversold (err code) e = v
    by_oversold (ok (none, s')) e = oversold_tx-IsSafe now ev s s' none v e
    by_oversold (ok (some id, s')) e =
        drop_holds-IsSafe id s' (oversold_tx-IsSafe now ev s s' (some id) v e)

    by_tx :
        (done : Result (CaptureResult × Shop))
        → capture_tx now settings ev s ≡ done
        → IsSafe (after_capture now ev s done).0
    by_tx (ok (kind, s')) e = capture_tx-IsSafe now settings ev s s' kind v e
    by_tx (err code) e = elim (Bool-cases (is_stock_failure code)) [
      | inl stock ↦ rw stock (by_oversold (oversold_tx now ev s) refl)
      | inr other ↦ rw other v
    ]

process_failed-IsSafe :
    (now : ℕ) (ev : GatewayEvent) (s s' : Shop)
    → IsSafe s
    → process_failed now ev s ≡ ok s'
    → IsSafe s'
unfolding process_failed
process_failed-IsSafe now ev s s' v h =
    by_order (find_first (has_ref ev.gateway_order_id) s.details) h
  where
    by_payment :
        (d : OrderDetails) (o : Option PaymentRow) → fail_payment now d o s ≡ ok s' → IsSafe s'
    by_payment d none k = rw (ok-injective k) at v
    by_payment d (some p) k = elim (Bool-cases (is_captured p.status)) [
      | inl done ↦ rw (ok-injective (rw done at k)) at v
      | inr fresh ↦
          let (ps, f, g) =
            bound_value (mark_payment_failed now p.id s.payments) _ (rw fresh at k) in
          rw (sym (ok-injective g)) (mark_payment_failed-IsSafe now p.id s ps v f)
    ]

    by_row : (d : OrderDetails) (o : Option OrderRow) → fail_row now ev d o s ≡ ok s' → IsSafe s'
    by_row d none k = absurd (ok-ne-err k)
    by_row d (some r) k = by_payment d _ k

    by_order : (o : Option OrderDetails) → fail_order now ev o s ≡ ok s' → IsSafe s'
    by_order none k = rw (ok-injective k) at v
    by_order (some d) k = by_row d (s.tables.order d.id) k

processed_refunds :
    (now id p : ℕ) (rs : List RefundRow)
    → is_refunded p rs ≡ true
    → is_refunded p (mark_refund_processed now id rs).1 ≡ true
unfolding mark_refund_processed
processed_refunds now id p [] w = w
processed_refunds now id p (r ∷ rs) w =
    let ih = processed_refunds now id p rs in
    elim (Bool-cases (awaits id r)) [
      | inl e ↦ elim (Bool-cases (refunds_payment p r)) [
        | inl here ↦ rw (e, here) refl
        | inr away ↦ rw (e, away) (ih (rw away at w))
      ]
      | inr e ↦ elim (Bool-cases (refunds_payment p r)) [
        | inl here ↦ rw (e, here) refl
        | inr away ↦ rw (e, away) (ih (rw away at w))
      ]
    ]

process_refund_processed-Grows :
    (now : ℕ) (ev : GatewayEvent) (s : Shop) → Grows none_lost s (process_refund_processed now ev s)
unfolding process_refund_processed
process_refund_processed-Grows now ev s = by_id ev.gateway_refund_id
  where
    noted :
        (o : Option RefundRow) (rs : List RefundRow)
        → ((p : ℕ) → is_refunded p s.refunds ≡ true → is_refunded p rs ≡ true)
        → Grows none_lost s (note_processed now (o, rs) s)
    noted none rs kept = Grows-refl none_lost s
    noted (some r) rs kept =
        let written : Grows none_lost s (record s { refunds = rs }) = record {
          payments = refl;
          refunds = kept;
          refs = λ j. refl;
          lookups = λ ref. refl;
          ids = omega arith;
          sold = λ j _ w. w;
          paid = λ j w. w;
          charged = λ j w. w;
        } in
        let edited = edit_order r.order_id (refund_done_at now) (record s { refunds = rs }) in
        Grows-trans none_lost s _ _ written (
          Grows-trans none_lost _ edited _
            (edit_order-Grows none_lost r.order_id (refund_done_at now) (record s { refunds = rs })
              (λ x. refl) (λ x. refl) (λ x w. w))
            (same_books-Grows none_lost edited _ refl refl refl refl (omega arith)))

    by_id : (o : Option ℕ) → Grows none_lost s (process_refund_id now o s)
    by_id none = Grows-refl none_lost s
    by_id (some id) = noted _ _ (λ p w. processed_refunds now id p s.refunds w)

-- Whatever event the gateway sends, of whatever type and as often as it likes: the money is safe after
-- confirmFromWebhookEvent if it was before.
pub confirm_from_webhook_event-IsSafe :
    (now : ℕ) (settings : CheckoutSettings) (type : GatewayEventType) (ev : GatewayEvent) (s : Shop)
    → IsSafe s
    → IsSafe (confirm_from_webhook_event now settings type ev s)
unfolding confirm_from_webhook_event
confirm_from_webhook_event-IsSafe now settings on_captured ev s v =
    process_captured-IsSafe now settings ev s v
confirm_from_webhook_event-IsSafe now settings on_failed ev s v =
    by_result (process_failed now ev s) refl
  where
    by_result :
        (done : Result Shop) → process_failed now ev s ≡ done → IsSafe (after_transaction s done)
    by_result (ok s') e = process_failed-IsSafe now ev s s' v e
    by_result (err code) e = v
confirm_from_webhook_event-IsSafe now settings on_refund_processed ev s v =
    Grows-IsSafe s _ (process_refund_processed-Grows now ev s) v
confirm_from_webhook_event-IsSafe now settings unknown ev s v = v
