-- ===== src/Checkout/Delivered.antt =====
-- A capture's transaction that has returned leaves nothing for a second delivery.
use ecom_platform.Base.{
  ℕ, ◌≡◌, refl, sym, ap, ◌∙◌, inl, inr, Bool, true, false, ◌&&◌, Option, none, some,
  find_first-update_where, update_where, ◌&&◌, ◌==◌, ==_iff, Bool-cases, ok, ok-ne-err, bound_value,
  find_first, ok_second, ok_first,
}
use ecom_platform.Orders.{OrderRow, same_status, pending_payment}
use ecom_platform.Payments.Records.{PaymentRow, captured_row, has_id, is_captured}
use ecom_platform.Checkout.{Shop, OrderDetails, CheckoutSettings, GatewayEvent, has_ref}
use ecom_platform.Checkout.Webhook.{
  CaptureResult, or_event_id, ignored, replay, amount_mismatch, find_payment_by_gateway_order,
  capture_onto_payment, refuse_amount, capture_late, capture_and_confirm, capture_payment,
  capture_row, capture_order, capture_tx, after_capture, process_captured,
}
use ecom_platform.Checkout.Growth.{Grows, row_charged, id_of}
use ecom_platform.Checkout.Safety.{IsSafe, found_charged}
use ecom_platform.Checkout.Capturing.{capture_onto_payment_inverts}
use ecom_platform.Checkout.Money.{none_lost, capture_late_steps, capture_and_confirm_steps}

-- A second delivery finds the payment captured.
abbrev pub IsDone : ℕ → ℕ → Shop → Type 0
IsDone ref o s =
    (id_of (find_first (has_ref ref) s.details) ≡ some o)
    × (row_charged (s.tables.order o) ≡ true)
    × ((p : PaymentRow) × (find_payment_by_gateway_order o ref s.payments ≡ some p)
        × (is_captured p.status ≡ true))

pub Grows-IsDone :
    (ref o : ℕ) (s s' : Shop) → Grows none_lost s s' → IsDone ref o s → IsDone ref o s'
Grows-IsDone ref o s s' g v = (
  g.lookups ref ∙ v.0,
  g.charged o v.1,
  (v.2.0, ap (find_payment_by_gateway_order o ref) g.payments ∙ v.2.1, v.2.2),
)

done_replays :
    (now : ℕ) (settings : CheckoutSettings) (ev : GatewayEvent) (o : ℕ) (s : Shop)
    → IsDone ev.gateway_order_id o s
    → process_captured now settings ev s ≡ (s, ok replay)
unfolding process_captured capture_tx
done_replays now settings ev o s v =
    by_order (find_first (has_ref ev.gateway_order_id) s.details) v.0
  where
    by_row :
        (d : OrderDetails) (row : Option OrderRow)
        → d.id ≡ o
        → row_charged row ≡ true
        → capture_row now settings ev d row s ≡ ok (replay, s)
    by_row d none same charged = absurd (cc)
    by_row d (some r) same charged = rw (same, v.2.1, v.2.2) refl

    by_order :
        (f : Option OrderDetails)
        → id_of f ≡ some o
        → after_capture now ev s (capture_order now settings ev f s) ≡ (s, ok replay)
    by_order none e = absurd (cc)
    by_order (some d) e =
        let same : d.id ≡ o = cc in rw (by_row d (s.tables.order d.id) same (rw same v.1)) refl

abbrev pub is_quiet : CaptureResult → Bool
is_quiet ignored = true
is_quiet replay = true
is_quiet other = false

-- The answers after which the gateway's payment is settled or none of the tenant's business.
abbrev pub is_accepted : CaptureResult → Bool
is_accepted amount_mismatch = false
is_accepted other = true

-- A second delivery changes nothing.
abbrev pub IsQuiet : ℕ → CheckoutSettings → GatewayEvent → Shop → Type 0
IsQuiet now settings ev s =
    (kind : CaptureResult) × (process_captured now settings ev s ≡ (s, ok kind))
    × (is_quiet kind ≡ true)

module _ (now : ℕ) (ev : GatewayEvent) (r : OrderRow) (d : OrderDetails) (p : PaymentRow) (s : Shop)
    (v : IsSafe s) (row : s.tables.order d.id ≡ some r)
    (named : find_first (has_ref ev.gateway_order_id) s.details ≡ some d)
    (found : find_payment_by_gateway_order d.id ev.gateway_order_id s.payments ≡ some p) where
  is_charged : row_charged (s.tables.order d.id) ≡ true
  is_charged = rw row (found_charged s d.id ev.gateway_order_id p v found r row)

  -- The payment was captured before.
  pub earlier-IsDone : is_captured p.status ≡ true → IsDone ev.gateway_order_id d.id s
  earlier-IsDone e = (ap id_of named, is_charged, (p, found, e))

  -- The payment is captured now.
  pub capture-IsDone :
      (captured : Shop)
      → capture_onto_payment now ev p s ≡ ok captured
      → IsDone ev.gateway_order_id d.id captured
  unfolding find_payment_by_gateway_order
  capture-IsDone captured h = rw (capture_onto_payment_inverts now ev p s captured h) (
    ap id_of named,
    is_charged,
    (
      captured_row now (or_event_id ev.gateway_payment_id ev.event_id) ev.fee_paise p,
      found_after,
      refl,
    ),
  )
    where
      mine : has_id p.id p ≡ true
      mine = (==_iff p.id p.id).1 refl

      found_after :
          find_payment_by_gateway_order d.id ev.gateway_order_id (
            update_where
              (has_id p.id)
              (captured_row now (or_event_id ev.gateway_payment_id ev.event_id) ev.fee_paise)
              s.payments)
          ≡ some (captured_row now (or_event_id ev.gateway_payment_id ev.event_id) ev.fee_paise p)
      found_after = rw mine at (
          find_first-update_where
            (λ q. q.order_id == d.id && q.gateway_order_id == ev.gateway_order_id) (has_id p.id)
            (captured_row now (or_event_id ev.gateway_payment_id ev.event_id) ev.fee_paise) p
            (λ q. refl) s.payments found)

module _ (later : ℕ) (settings' : CheckoutSettings) (now : ℕ) (ev : GatewayEvent) (s : Shop)
    (v : IsSafe s) where
  pub done-IsQuiet :
      (o : ℕ) (s' : Shop) → IsDone ev.gateway_order_id o s' → IsQuiet later settings' ev s'
  done-IsQuiet o s' w = (replay, done_replays later settings' ev o s' w, refl)

  -- An order or a payment that is not the tenant's.
  pub unknown-IsQuiet :
      find_first (has_ref ev.gateway_order_id) s.details ≡ none → IsQuiet later settings' ev s
  unfolding process_captured capture_tx
  unknown-IsQuiet e = (ignored, rw e refl, refl)

  pub unpaid-IsQuiet :
      (d : OrderDetails) (r : OrderRow)
      → find_first (has_ref ev.gateway_order_id) s.details ≡ some d
      → s.tables.order d.id ≡ some r
      → find_payment_by_gateway_order d.id ev.gateway_order_id s.payments ≡ none
      → IsQuiet later settings' ev s
  unfolding process_captured capture_tx
  unpaid-IsQuiet d r named row e = (ignored, rw (named, row, e) refl, refl)

  pub capture_tx-IsQuiet :
      (settings : CheckoutSettings) (kind : CaptureResult) (s' : Shop)
      → capture_tx now settings ev s ≡ ok (kind, s')
      → is_accepted kind ≡ true
      → IsQuiet later settings' ev s'
  unfolding capture_tx
  capture_tx-IsQuiet settings kind s' h accepted =
      by_order (find_first (has_ref ev.gateway_order_id) s.details) refl h
    where
      differs_accepted : amount_mismatch ≡ kind → ⊥
      differs_accepted q = let bad : is_accepted kind ≡ false = ap is_accepted (sym q) in cc

      on_payment :
          (d : OrderDetails) (r : OrderRow) (p : PaymentRow)
          → find_first (has_ref ev.gateway_order_id) s.details ≡ some d
          → s.tables.order d.id ≡ some r
          → find_payment_by_gateway_order d.id ev.gateway_order_id s.payments ≡ some p
          → capture_payment now settings ev r d (some p) s ≡ ok (kind, s')
          → IsQuiet later settings' ev s'
      on_payment d r p named row e k = elim (Bool-cases (is_captured p.status)) [
        | inl done ↦
            rw (ok_second (rw done at k)) at
              (done-IsQuiet d.id s (earlier-IsDone now ev r d p s v row named e done))
        | inr fresh ↦ elim (Bool-cases (ev.amount_paise == p.amount_paise)) [
          | inr differs ↦
              let (t, f, g) =
                bound_value (refuse_amount now ev d p s) _ (rw (fresh, differs) at k) in
              absurd (differs_accepted (ok_first g))
          | inl agreed ↦ elim (Bool-cases (same_status r.status pending_payment)) [
            | inr late ↦
                let (t, f, g) =
                  bound_value (capture_late now ev d p s) _ (rw (fresh, agreed, late) at k) in
                let (captured, c, grown, _, _) = capture_late_steps now ev r d p s v row e t f in
                rw (ok_second g) at (
                  done-IsQuiet d.id t (
                    Grows-IsDone ev.gateway_order_id d.id captured t grown
                      (capture-IsDone now ev r d p s v row named e captured c)))
            | inl pending ↦
                let (t, f, g) =
                  bound_value (capture_and_confirm now settings ev r d p s) _
                    (rw (fresh, agreed, pending) at k) in
                let (captured, c, grown, _, _) =
                  capture_and_confirm_steps now ev r d p s v row e settings t agreed f in
                rw (ok_second g) at (
                  done-IsQuiet d.id t (
                    Grows-IsDone ev.gateway_order_id d.id captured t grown
                      (capture-IsDone now ev r d p s v row named e captured c)))
          ]
        ]
      ]

      by_payment :
          (d : OrderDetails) (r : OrderRow)
          → find_first (has_ref ev.gateway_order_id) s.details ≡ some d
          → s.tables.order d.id ≡ some r
          → (o : Option PaymentRow)
          → find_payment_by_gateway_order d.id ev.gateway_order_id s.payments ≡ o
          → capture_payment now settings ev r d o s ≡ ok (kind, s')
          → IsQuiet later settings' ev s'
      by_payment d r named row none e k = rw (ok_second k) at (unpaid-IsQuiet d r named row e)
      by_payment d r named row (some p) e k = on_payment d r p named row e k

      by_row :
          (d : OrderDetails)
          → find_first (has_ref ev.gateway_order_id) s.details ≡ some d
          → (o : Option OrderRow) → s.tables.order d.id ≡ o
          → capture_row now settings ev d o s ≡ ok (kind, s')
          → IsQuiet later settings' ev s'
      by_row d named none e k = absurd (ok-ne-err k)
      by_row d named (some r) e k = by_payment d r named e _ refl k

      by_order :
          (o : Option OrderDetails)
          → find_first (has_ref ev.gateway_order_id) s.details ≡ o
          → capture_order now settings ev o s ≡ ok (kind, s')
          → IsQuiet later settings' ev s'
      by_order none e k = rw (ok_second k) at (unknown-IsQuiet e)
      by_order (some d) e k = by_row d e (s.tables.order d.id) refl k
