-- ===== src/Checkout/Cancelling.antt =====
-- cancelOrder keeps the money safe.
use ecom_platform.Base.{
  ℕ, ◌≡◌, refl, sym, ◌∙◌, ◌⊎◌, inl, inr, Bool, true, false, not, Option, none, some, List, [], ◌∷◌,
  ltb, some_first, some_second, All, All-map, All-both, keep, find_first-passes, find_first-apart,
  find_first-none, ◌==◌, ==_iff, arith, Bool-cases, ok, ok-injective, ok-ne-err, bound_value,
  past_refusal, invalid_transition, find_first,
}
use ecom_platform.Orders.{OrderRow, staff, order_cancelled, payment_refund_initiated, cancelled}
use ecom_platform.Payments.Records.{PaymentRow, is_captured, merchant_cancelled}
use ecom_platform.Checkout.{
  Shop, OrderDetails, edit_order, lock_order, whole_row, is_order, order_reference, hold_lines_of,
  set_cancel_reason,
}
use ecom_platform.Checkout.Confirm.{move_to}
use ecom_platform.Inventory.Holds.{HoldLine, is_missing}
use ecom_platform.Inventory.Sales.{restock_within}
use ecom_platform.Checkout.Closing.{
  cancellable_by_staff, restock_live, find_captured, refund_marked, refund_captured, refund_paid,
  or_by_merchant, audit_cancelled, cancel_row, cancel_order,
}
use ecom_platform.Checkout.Growth.{
  Grows, Grows-trans, same-Grows, same_books-Grows, row_sold, row_paid, is_refunded,
}
use ecom_platform.Checkout.Moves.{edit_order-Grows, move_to-Grows, set_cancel_reason-Grows}
use ecom_platform.Checkout.Safety.{Apart, Apart-sym, IsFiled, IsSettled, IsSafe, Grows-IsSafe}
use ecom_platform.Checkout.Capturing.{open_refund-Grows}
use ecom_platform.Checkout.Money.{none_lost}

-- The locked row and details are the order's own.
pub lock_order_inverts :
    (id : ℕ) (s : Shop) (r : OrderRow) (d : OrderDetails)
    → lock_order id s ≡ some (r, d)
    → (s.tables.order id ≡ some r) × (d.id ≡ id)
unfolding lock_order
lock_order_inverts id s r d h =
    by_rows (s.tables.order id) refl (find_first (is_order id) s.details) refl h
  where
    by_rows :
        (o : Option OrderRow)
        → s.tables.order id ≡ o
        → (f : Option OrderDetails) → find_first (is_order id) s.details ≡ f
        → whole_row o f ≡ some (r, d)
        → (s.tables.order id ≡ some r) × (d.id ≡ id)
    by_rows none e f k h = absurd (cc)
    by_rows (some x) e none k h = absurd (cc)
    by_rows (some x) e (some y) k h = (
      rw (sym (some_first h)) e,
      rw (sym (some_second h)) ((==_iff y.id id).0 (find_first-passes (is_order id) s.details y k)),
    )

abbrev only : ℕ → ℕ → Bool
only id j = j == id

-- Where one order may lose its sale, its captured payments must have their refunds.
refunded-IsSafe :
    (id : ℕ) (s s' : Shop)
    → Grows (only id) s s'
    → All
        (λ p. is_captured p.status ≡ true → p.order_id ≡ id → is_refunded p.id s'.refunds ≡ true)
        s.payments
    → IsSafe s
    → IsSafe s'
refunded-IsSafe id s s' g covered v =
    rw g.payments (v.0, All-map at_row s.payments (All-both _ _ s.payments v.1 covered))
  where
    kept :
        (p : PaymentRow)
        → (is_captured p.status ≡ true → p.order_id ≡ id → is_refunded p.id s'.refunds ≡ true)
        → is_captured p.status ≡ true
        → (row_sold (s.tables.order p.order_id) ≡ true) ⊎ (is_refunded p.id s.refunds ≡ true)
        → (row_sold (s'.tables.order p.order_id) ≡ true) ⊎ (is_refunded p.id s'.refunds ≡ true)
    kept p refunded e (inr there) = inr (g.refunds p.id there)
    kept p refunded e (inl sold) = elim (Bool-cases (p.order_id == id)) [
      | inl here ↦ inr (refunded e ((==_iff p.order_id id).0 here))
      | inr away ↦ inl (g.sold p.order_id away sold)
    ]

    at_row :
        (p : PaymentRow)
        → (IsFiled s p × IsSettled s p)
          × (is_captured p.status ≡ true → p.order_id ≡ id → is_refunded p.id s'.refunds ≡ true)
        → IsFiled s' p × IsSettled s' p
    at_row p w = (
      (
        g.refs p.order_id ∙ w.0.0.0,
        w.0.0.1,
        omega (arith, w.0.0.2, g.ids),
        g.charged p.order_id w.0.0.3,
      ),
      λ e. (g.paid p.order_id (w.0.1 e).0, kept p w.1 e (w.0.1 e).1),
    )

restock_live-Grows :
    (loses : ℕ → Bool) (now id : ℕ) (ls : List HoldLine) (s s' : Shop)
    → restock_live now id ls s ≡ ok s'
    → Grows loses s s'
restock_live-Grows loses now id [] s s' h = same-Grows loses s s' (ok-injective h)
restock_live-Grows loses now id (l ∷ ls) s s' h =
    let (done, _, g) = bound_value (restock_within now (l ∷ ls) (order_reference id) s.stock) _ h in
    let kept : Grows loses s (record s { stock = done.1 }) =
      same_books-Grows loses s _ refl refl refl refl (omega arith) in
    rw (ok-injective g) at kept

-- The refund of what was paid, for the order whose row was `r`.
module _ (now id : ℕ) (r : OrderRow) (start s s' : Shop) (v : IsSafe start)
    (row : start.tables.order id ≡ some r) (same : s.payments ≡ start.payments) where
  -- Without a payment on the order, none of it was captured.
  unpaid :
      ltb 0 r.amount_paid_paise ≡ false
      → (p : PaymentRow) → IsSettled start p
      → is_captured p.status ≡ true
      → p.order_id ≡ id
      → is_refunded p.id s'.refunds ≡ true
  unpaid free p w e q =
      let paid : row_paid (start.tables.order id) ≡ true = rw q at (w e).0 in
      let some_paid : row_paid (some r) ≡ true = rw row at paid in
      absurd (ground (arith, free, some_paid))

  refund_captured-Grows :
      (loses : ℕ → Bool) (o : Option PaymentRow)
      → find_captured id start.payments ≡ o
      → refund_captured now id o s ≡ ok s'
      → Grows loses s s'
        × All
            (λ p.
              is_captured p.status ≡ true → p.order_id ≡ id → is_refunded p.id s'.refunds ≡ true)
            start.payments
  unfolding find_captured
  refund_captured-Grows loses none found h = (
    same-Grows loses s s' (ok-injective h),
    All-map (λ p w e q. absurd (ground (arith, w, e, q))) start.payments
        (find_first-none _ start.payments found),
  )
  refund_captured-Grows loses (some p) found h =
      let edited = edit_order id (refund_marked now) s in
      let (grown, there, _, _) =
        open_refund-Grows loses now id p.id p.amount_paise merchant_cancelled
          payment_refund_initiated staff edited s' h in
      let more =
        edit_order-Grows loses id (refund_marked now) s (λ x. refl) (λ x. refl) (λ x w. w) in
      let mine : p.order_id ≡ id = ground (arith, find_first-passes _ start.payments p found) in
      (
        Grows-trans loses s edited s' more grown,
        All-map
            (λ q w e k. elim w [
              | inl one ↦ rw one there
              | inr apart ↦ absurd (apart.1 (mine ∙ sym k))
            ])
            start.payments (find_first-apart Apart _ start.payments p Apart-sym v.0 found),
      )

  refund_paid-Grows :
      (loses : ℕ → Bool)
      → refund_paid now r id s ≡ ok s'
      → Grows loses s s'
        × All
            (λ p.
              is_captured p.status ≡ true → p.order_id ≡ id → is_refunded p.id s'.refunds ≡ true)
            start.payments
  refund_paid-Grows loses h = elim (Bool-cases (ltb 0 r.amount_paid_paise)) [
    | inl paid ↦
        refund_captured-Grows loses (find_captured id start.payments) refl
          (rw (sym same) (rw paid at h))
    | inr free ↦ (
      same-Grows loses s s' (ok-injective (rw free at h)),
      All-map (λ p w. unpaid free p w.1) start.payments v.1,
    )
  ]

-- What the console cancels keeps the money safe: where the order was paid for, its captured payment
-- has a refund intent afterwards.
cancel_row-IsSafe :
    (now id : ℕ) (reason : Option ℕ) (r : OrderRow) (d : OrderDetails) (s s' : Shop)
    → IsSafe s
    → (s.tables.order id ≡ some r) × (d.id ≡ id)
    → cancel_row now reason (some (r, d)) s ≡ ok s'
    → IsSafe s'
cancel_row-IsSafe now id reason r d s s' v at_id h =
    let row : s.tables.order d.id ≡ some r = rw at_id.1 at_id.0 in
    let (_, h1) = past_refusal (not (cancellable_by_staff r.status)) invalid_transition _ h in
    let live = keep (λ l. not (is_missing s.stock l)) (hold_lines_of d.lines) in
    let (restocked, f1, h2) = bound_value (restock_live now d.id live s) _ h1 in
    let (moved, f2, h3) =
      bound_value (move_to now d.id r.status cancelled order_cancelled staff restocked) _ h2 in
    let marked = set_cancel_reason d.id (or_by_merchant reason) moved in
    let (refunded, f3, h4) = bound_value (refund_paid now r d.id marked) _ h3 in
    let g1 = restock_live-Grows (only d.id) now d.id live s restocked f1 in
    let g2 =
      move_to-Grows (only d.id) now d.id r.status cancelled order_cancelled staff restocked moved
        (λ e w. absurd (ground (arith, e))) f2 in
    let g3 = set_cancel_reason-Grows (only d.id) d.id (or_by_merchant reason) moved in
    let g =
      Grows-trans (only d.id) s restocked marked g1
        (Grows-trans (only d.id) restocked moved marked g2 g3) in
    let (g4, covered) =
      refund_paid-Grows now d.id r s marked refunded v row g.payments (only d.id) f3 in
    let whole = Grows-trans (only d.id) s marked refunded g g4 in
    let safe = refunded-IsSafe d.id s refunded whole covered v in
    let audited : Grows none_lost refunded (audit_cancelled d.id r.status refunded) =
      same_books-Grows none_lost refunded _ refl refl refl refl (omega arith) in
    rw (ok-injective h4) at
      (Grows-IsSafe refunded (audit_cancelled d.id r.status refunded) audited safe)

pub cancel_order-IsSafe :
    (now id : ℕ) (reason : Option ℕ) (s s' : Shop)
    → IsSafe s
    → cancel_order now id reason s ≡ ok s'
    → IsSafe s'
unfolding cancel_order
cancel_order-IsSafe now id reason s s' v h = by_lock (lock_order id s) refl h
  where
    by_lock :
        (o : Option (OrderRow × OrderDetails))
        → lock_order id s ≡ o
        → cancel_row now reason o s ≡ ok s'
        → IsSafe s'
    by_lock none e k = absurd (ok-ne-err k)
    by_lock (some (r, d)) e k =
        cancel_row-IsSafe now id reason r d s s' v (lock_order_inverts id s r d e) k
