-- ===== src/Checkout/Capturing.antt =====
-- What the writes to `payments` and `refunds` do to the safety of the money.
use ecom_platform.Base.{
  ℕ, ◌≡◌, refl, sym, ap, ◌∙◌, ◌⊎◌, inl, inr, Bool, true, false, not, Option, none, some, List, [],
  ◌∷◌, any, All-both, All-update_where, IsOrdered, IsOrdered-map, ◌==◌, ==_iff, if◌then◌else◌,
  arith, Bool-cases, ok, ok-injective, bound_value, past_refusal, find_first, update_where,
  not_found, unique_violation, invalid_payload,
}
use ecom_platform.Orders.{OrderEventName, ActorType}
use ecom_platform.Payments.Records.{
  PaymentRow, RefundRow, RefundReason, RefundIntent, has_id, captured_row, failed_row,
  refunds_payment, taken_elsewhere, mark_payment_captured, mark_payment_failed, insert_once,
  refund_row, create_refund_intent,
}
use ecom_platform.Checkout.{Shop, GatewayEvent, open_refund, note_refund}
use ecom_platform.Checkout.Webhook.{
  capture_onto_payment, find_payment_by_gateway_order, or_event_id,
}
use ecom_platform.Checkout.Growth.{Grows, is_refunded}
use ecom_platform.Checkout.Safety.{Apart, IsSafe, IsSafeBut, IsOne, found_order, found-Apart}

-- The rows after a capture that returned.
pub mark_payment_captured_inverts :
    (now id ref : ℕ) (fee : Option ℕ) (ps ps' : List PaymentRow)
    → mark_payment_captured now id ref fee ps ≡ ok ps'
    → update_where (has_id id) (captured_row now ref fee) ps ≡ ps'
unfolding mark_payment_captured
mark_payment_captured_inverts now id ref fee ps ps' h =
    let (_, g) = past_refusal (not (any (has_id id) ps)) not_found _ h in
    let (_, k) = past_refusal (taken_elsewhere id ref ps) unique_violation _ g in ok-injective k

pub capture_onto_payment_inverts :
    (now : ℕ) (ev : GatewayEvent) (p : PaymentRow) (s s' : Shop)
    → capture_onto_payment now ev p s ≡ ok s'
    → s' ≡ record s {
      payments =
          update_where
            (has_id p.id)
            (captured_row now (or_event_id ev.gateway_payment_id ev.event_id) ev.fee_paise)
            s.payments;
    }
unfolding capture_onto_payment
capture_onto_payment_inverts now ev p s s' h =
    let ref = or_event_id ev.gateway_payment_id ev.event_id in
    let (ps, f, g) = bound_value (mark_payment_captured now p.id ref ev.fee_paise s.payments) _ h in
    sym (ok-injective g)
    ∙ ap (λ rows. record s { payments = rows })
        (sym (mark_payment_captured_inverts now p.id ref ev.fee_paise s.payments ps f))

-- An update of one row that keeps the ids and the orders keeps the rows apart.
update_where-Apart :
    (test : PaymentRow → Bool) (f : PaymentRow → PaymentRow)
    → ((p : PaymentRow) → (f p).id ≡ p.id)
    → ((p : PaymentRow) → (f p).order_id ≡ p.order_id)
    → (ps : List PaymentRow) → IsOrdered Apart ps
    → IsOrdered Apart (update_where test f ps)
update_where-Apart test f ids orders ps v =
    IsOrdered-map Apart (λ p. if test p then f p else p)
      (λ p q h. (
        λ e. h.0 (sym (id_kept p) ∙ e ∙ id_kept q),
        λ e. h.1 (sym (order_kept p) ∙ e ∙ order_kept q),
      ))
      ps v
  where
    id_kept : (p : PaymentRow) → (if test p then f p else p).id ≡ p.id
    id_kept p = elim (Bool-cases (test p)) [ inl e ↦ rw e (ids p) | inr e ↦ rw e refl ]

    order_kept : (p : PaymentRow) → (if test p then f p else p).order_id ≡ p.order_id
    order_kept p = elim (Bool-cases (test p)) [ inl e ↦ rw e (orders p) | inr e ↦ rw e refl ]

-- A capture leaves one payment to be settled.
pub capture-IsSafeBut :
    (now : ℕ) (ev : GatewayEvent) (o ref : ℕ) (p : PaymentRow) (s s' : Shop)
    → IsSafe s
    → find_payment_by_gateway_order o ref s.payments ≡ some p
    → capture_onto_payment now ev p s ≡ ok s'
    → IsSafeBut p.id o s'
capture-IsSafeBut now ev o ref p s s' v found h =
    rw (capture_onto_payment_inverts now ev p s s' h) (
      update_where-Apart (has_id p.id) _ (λ q. refl) (λ q. refl) s.payments v.0,
      All-update_where (has_id p.id) _ (λ q e w. (w.0.0, inl (one q w.1 e)))
          (λ q e w. (w.0.0, inr w.0.1)) s.payments
          (All-both _ _ s.payments v.1 (found-Apart s o ref p v found)),
    )
  where
    one : (q : PaymentRow) → (q ≡ p) ⊎ Apart p q → has_id p.id q ≡ true → IsOne p.id o q
    one q (inl same) e = rw same (refl, found_order s o ref p v found)
    one q (inr apart) e = absurd (apart.0 (sym ((==_iff q.id p.id).0 e)))

-- A payment that is marked as failed has nothing to settle.
pub mark_payment_failed-IsSafe :
    (now id : ℕ) (s : Shop) (ps : List PaymentRow)
    → IsSafe s
    → mark_payment_failed now id s.payments ≡ ok ps
    → IsSafe (record s { payments = ps })
unfolding mark_payment_failed
mark_payment_failed-IsSafe now id s ps v h =
    let (_, g) = past_refusal (not (any (has_id id) s.payments)) not_found _ h in
    rw (sym (ok-injective g)) (
      update_where-Apart (has_id id) (failed_row now) (λ q. refl) (λ q. refl) s.payments v.0,
      All-update_where (has_id id) (failed_row now) (λ q e w. (w.0, λ bad. absurd (cc)))
          (λ q e w. w) s.payments v.1,
    )

any_found :
    (id : ℕ) (rs : List RefundRow) (r : RefundRow)
    → find_first (refunds_payment id) rs ≡ some r
    → is_refunded id rs ≡ true
any_found id [] r h = absurd (cc)
any_found id (x ∷ xs) r h = elim (Bool-cases (refunds_payment id x)) [
  | inl e ↦ rw e refl
  | inr e ↦ rw e (any_found id xs r (rw (e, find_first) at h))
]

-- What openRefund has done where it returns: no refund goes, the payment has one, and the amount was
-- not nothing.
pub open_refund-Grows :
    (loses : ℕ → Bool) (now id payment_id amount : ℕ) (reason : RefundReason)
    (name : OrderEventName) (actor : ActorType) (s s' : Shop)
    → open_refund now id payment_id amount reason name actor s ≡ ok s'
    → Grows loses s s'
      × (is_refunded payment_id s'.refunds ≡ true)
      × (s'.tables.order ≡ s.tables.order)
      × ((amount == 0) ≡ false)
unfolding open_refund create_refund_intent
open_refund-Grows loses now id payment_id amount reason name actor s s' h =
    let (made, f, g) =
      bound_value (create_refund_intent now s.next_id id payment_id amount reason s.refunds) _ h in
    let (priced, k) = past_refusal (amount == 0) invalid_payload _ f in
    let (grown, there, orders) =
      noted (find_first (refunds_payment payment_id) s.refunds) refl made (ok-injective k) in
    rw (sym (ok-injective g)) (grown, there, orders, priced)
  where
    noted :
        (o : Option RefundRow)
        → find_first (refunds_payment payment_id) s.refunds ≡ o
        → (made : RefundIntent × List RefundRow)
        → insert_once o (refund_row now s.next_id id payment_id amount reason) s.refunds ≡ made
        → Grows loses s (note_refund now id name actor made s)
          × (is_refunded payment_id (note_refund now id name actor made s).refunds ≡ true)
          × ((note_refund now id name actor made s).tables.order ≡ s.tables.order)
    noted none e made q = rw⁻¹ q (
      record {
        payments = refl;
        refunds = λ p w. ground (arith, w);
        refs = λ j. refl;
        lookups = λ ref. refl;
        ids = omega arith;
        sold = λ j _ w. w;
        paid = λ j w. w;
        charged = λ j w. w;
      },
      rw ((==_iff payment_id payment_id).1 refl) refl,
      refl,
    )
    noted (some r) e made q = rw⁻¹ q (
      record {
        payments = refl;
        refunds = λ p w. w;
        refs = λ j. refl;
        lookups = λ ref. refl;
        ids = omega arith;
        sold = λ j _ w. w;
        paid = λ j w. w;
        charged = λ j w. w;
      },
      any_found payment_id s.refunds r e,
      refl,
    )
