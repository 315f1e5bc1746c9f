-- ===== src/Checkout/Money.antt =====
-- The capture's transaction ([TX-2]) keeps the money safe.
use ecom_platform.Base.{
  ℕ, ◌+◌, ◌≡◌, refl, sym, ◌⊎◌, inl, inr, Bool, true, false, Option, none, some, ◌==◌, ==_iff, arith,
  Bool-cases, Result, ok, ok-injective, ok-ne-err, bound_value, find_first, ok_second,
}
use ecom_platform.Orders.{OrderRow, system, payment_late_captured, same_status, pending_payment}
use ecom_platform.Payments.Records.{
  PaymentRow, is_captured, mark_payment_failed, late_capture_abandoned,
}
use ecom_platform.Checkout.{
  Shop, OrderDetails, CheckoutSettings, GatewayEvent, edit_order, edit_row, has_ref,
}
use ecom_platform.Checkout.Confirm.{overredeem}
use ecom_platform.Checkout.Webhook.{
  CaptureResult, find_payment_by_gateway_order, capture_onto_payment, refuse_amount, late_amounts,
  capture_late, paid_amounts, capture_and_confirm, tagged, capture_payment, capture_row,
  capture_order, capture_tx,
}
use ecom_platform.Checkout.Growth.{Grows, Grows-trans, row_sold, row_paid, is_refunded}
use ecom_platform.Checkout.Moves.{edit_order-Grows}
use ecom_platform.Checkout.Confirming.{confirm_order_core-Grows, confirm_order_core_sold}
use ecom_platform.Checkout.Safety.{
  IsSafe, Grows-IsSafeBut, settle-IsSafe, found-IsFiled, found_charged,
}
use ecom_platform.Checkout.Capturing.{
  capture_onto_payment_inverts, capture-IsSafeBut, mark_payment_failed-IsSafe, open_refund-Grows,
}

abbrev pub none_lost : ℕ → Bool
none_lost j = false

-- The amount that an UPDATE writes is there afterwards.
pub edit_order_paid :
    (id : ℕ) (f : OrderRow → OrderRow) (s : Shop) (r : OrderRow)
    → s.tables.order id ≡ some r
    → row_paid (some (f r)) ≡ true
    → row_paid ((edit_order id f s).tables.order id) ≡ true
unfolding edit_order
edit_order_paid id f s r found more = rw (found, edit_row, (==_iff id id).1 refl) more

module _ (now : ℕ) (ev : GatewayEvent) (r : OrderRow) (d : OrderDetails) (p : PaymentRow) (s : Shop)
    (v : IsSafe s) (row : s.tables.order d.id ≡ some r)
    (found : find_payment_by_gateway_order d.id ev.gateway_order_id s.payments ≡ some p) where
  -- The order's row is not touched by the capture.
  pub captured_row_kept :
      (captured : Shop)
      → capture_onto_payment now ev p s ≡ ok captured
      → captured.tables.order d.id ≡ some r
  captured_row_kept captured h = rw (capture_onto_payment_inverts now ev p s captured h) row

  refuse_amount-IsSafe : (s' : Shop) → refuse_amount now ev d p s ≡ ok s' → IsSafe s'
  unfolding refuse_amount
  refuse_amount-IsSafe s' h =
      let (ps, f, g) = bound_value (mark_payment_failed now p.id s.payments) _ h in
      rw (sym (ok-injective g)) (mark_payment_failed-IsSafe now p.id s ps v f)

  -- What follows a capture that came late, and one that confirms.
  pub capture_late_steps :
      (s' : Shop)
      → capture_late now ev d p s ≡ ok s'
      → (captured : Shop) × (capture_onto_payment now ev p s ≡ ok captured)
        × Grows none_lost captured s'
        × (row_paid (s'.tables.order d.id) ≡ true)
        × (is_refunded p.id s'.refunds ≡ true)
  unfolding capture_late
  capture_late_steps s' h =
      let (captured, f, g) = bound_value (capture_onto_payment now ev p s) _ h in
      let edited = edit_order d.id (late_amounts now ev.amount_paise) captured in
      let (grown, there, _, priced) =
        open_refund-Grows none_lost now d.id p.id ev.amount_paise late_capture_abandoned
          payment_late_captured system edited s' g in
      let more =
        edit_order-Grows none_lost d.id (late_amounts now ev.amount_paise) captured (λ x. refl)
          (λ x. refl) (λ x w. ground (arith, w)) in
      let charged = found_charged s d.id ev.gateway_order_id p v found r row in
      let paid =
        edit_order_paid d.id (late_amounts now ev.amount_paise) captured r
          (captured_row_kept captured f) (ground (arith, priced, charged)) in
      (
        captured,
        f,
        Grows-trans none_lost captured edited s' more grown,
        grown.paid d.id paid,
        there,
      )

  pub capture_and_confirm_steps :
      (settings : CheckoutSettings) (s' : Shop)
      → (ev.amount_paise == p.amount_paise) ≡ true
      → capture_and_confirm now settings ev r d p s ≡ ok s'
      → (captured : Shop) × (capture_onto_payment now ev p s ≡ ok captured)
        × Grows none_lost captured s'
        × (row_paid (s'.tables.order d.id) ≡ true)
        × (row_sold (s'.tables.order d.id) ≡ true)
  unfolding capture_and_confirm
  capture_and_confirm_steps settings s' agreed h =
      let (captured, f, g) = bound_value (capture_onto_payment now ev p s) _ h in
      let change = paid_amounts now (r.amount_paid_paise + ev.amount_paise) r.total_paise in
      let edited = edit_order d.id change captured in
      let grown =
        confirm_order_core-Grows none_lost now system overredeem settings r d edited s' g in
      let (_, priced, _, _) = found-IsFiled s d.id ev.gateway_order_id p v found in
      let more =
        edit_order-Grows none_lost d.id change captured (λ x. refl) (λ x. refl)
          (λ x w. ground (arith, priced, agreed, w)) in
      let charged = found_charged s d.id ev.gateway_order_id p v found r row in
      let paid =
        edit_order_paid d.id change captured r (captured_row_kept captured f)
          (ground (arith, priced, agreed, charged)) in
      let sold = confirm_order_core_sold now system overredeem settings r d edited s' g in
      (captured, f, Grows-trans none_lost captured edited s' more grown, grown.paid d.id paid, sold)

  -- A capture after which the order says that it is paid, and is sold or being refunded.
  pub settled_capture-IsSafe :
      (captured s' : Shop)
      → capture_onto_payment now ev p s ≡ ok captured
      → Grows none_lost captured s'
      → row_paid (s'.tables.order d.id) ≡ true
      → (row_sold (s'.tables.order d.id) ≡ true) ⊎ (is_refunded p.id s'.refunds ≡ true)
      → IsSafe s'
  settled_capture-IsSafe captured s' f grown paid cover =
      let unsettled = capture-IsSafeBut now ev d.id ev.gateway_order_id p s captured v found f in
      settle-IsSafe p.id d.id s' (Grows-IsSafeBut captured s' grown p.id d.id unsettled) paid cover

  capture_late-IsSafe : (s' : Shop) → capture_late now ev d p s ≡ ok s' → IsSafe s'
  capture_late-IsSafe s' h =
      let (captured, f, grown, paid, there) = capture_late_steps s' h in
      settled_capture-IsSafe captured s' f grown paid (inr there)

  capture_and_confirm-IsSafe :
      (settings : CheckoutSettings) (s' : Shop)
      → (ev.amount_paise == p.amount_paise) ≡ true
      → capture_and_confirm now settings ev r d p s ≡ ok s'
      → IsSafe s'
  capture_and_confirm-IsSafe settings s' agreed h =
      let (captured, f, grown, paid, sold) = capture_and_confirm_steps settings s' agreed h in
      settled_capture-IsSafe captured s' f grown paid (inl sold)

-- The capture's transaction, on every branch.
pub capture_tx-IsSafe :
    (now : ℕ) (settings : CheckoutSettings) (ev : GatewayEvent) (s s' : Shop) (kind : CaptureResult)
    → IsSafe s
    → capture_tx now settings ev s ≡ ok (kind, s')
    → IsSafe s'
unfolding capture_tx
capture_tx-IsSafe now settings ev s s' kind v h =
    by_order (find_first (has_ref ev.gateway_order_id) s.details) h
  where
    untagged :
        (k : CaptureResult) (done : Result Shop)
        → ((t : Shop) → done ≡ ok t → IsSafe t)
        → tagged k done ≡ ok (kind, s')
        → IsSafe s'
    untagged k done safe q = let (t, f, g) = bound_value done _ q in rw (ok_second g) at (safe t f)

    on_payment :
        (d : OrderDetails) (r : OrderRow)
        → s.tables.order d.id ≡ some r
        → (p : PaymentRow)
        → find_payment_by_gateway_order d.id ev.gateway_order_id s.payments ≡ some p
        → capture_payment now settings ev r d (some p) s ≡ ok (kind, s')
        → IsSafe s'
    on_payment d r row p e k = elim (Bool-cases (is_captured p.status)) [
      | inl done ↦ rw (ok_second (rw done at k)) at v
      | inr fresh ↦ elim (Bool-cases (ev.amount_paise == p.amount_paise)) [
        | inr differs ↦
            untagged _ _ (λ t q. refuse_amount-IsSafe now ev r d p s v row e t q)
              (rw (fresh, differs) at k)
        | inl agreed ↦ elim (Bool-cases (same_status r.status pending_payment)) [
          | inr late ↦
              untagged _ _ (λ t q. capture_late-IsSafe now ev r d p s v row e t q)
                (rw (fresh, agreed, late) at k)
          | inl pending ↦
              untagged _ _
                (λ t q. capture_and_confirm-IsSafe now ev r d p s v row e settings t agreed q)
                (rw (fresh, agreed, pending) at k)
        ]
      ]
    ]

    by_payment :
        (d : OrderDetails) (r : OrderRow)
        → s.tables.order d.id ≡ some r
        → (o : Option PaymentRow)
        → find_payment_by_gateway_order d.id ev.gateway_order_id s.payments ≡ o
        → capture_payment now settings ev r d o s ≡ ok (kind, s')
        → IsSafe s'
    by_payment d r row none e k = rw (ok_second k) at v
    by_payment d r row (some p) e k = on_payment d r row p e k

    by_row :
        (d : OrderDetails) (o : Option OrderRow)
        → s.tables.order d.id ≡ o
        → capture_row now settings ev d o s ≡ ok (kind, s')
        → IsSafe s'
    by_row d none e k = absurd (ok-ne-err k)
    by_row d (some r) e k = by_payment d r e _ refl k

    by_order :
        (o : Option OrderDetails) → capture_order now settings ev o s ≡ ok (kind, s') → IsSafe s'
    by_order none k = rw (ok_second k) at v
    by_order (some d) k = by_row d (s.tables.order d.id) refl k
