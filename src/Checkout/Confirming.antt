-- ===== src/Checkout/Confirming.antt =====
-- What confirmOrderCore leaves as it was, and that the order it confirms is sold.
use ecom_platform.Base.{
  ℕ, ◌≡◌, refl, sym, Bool, true, false, Option, none, some, List, [], ◌∷◌, arith, ok, ok-injective,
  ok-ne-err, bound_value, ◌+◌, ==_iff,
}
use ecom_platform.Orders.{
  OrderRow, ActorType, confirmed, order_confirmed, promotion_overredeemed, moved,
}
use ecom_platform.Promotions.Redemption.{
  PromotionLimits, RedemptionRow, Claim, claimed, exhausted, claim_redemption,
}
use ecom_platform.Invoices.{create_invoice}
use ecom_platform.Inventory.Holds.{HoldLine}
use ecom_platform.Inventory.Sales.{consume_stock_within}
use ecom_platform.Checkout.{
  Shop, OrderLine, OrderDetails, CheckoutSettings, insert_order_event, hold_lines_of,
  checkout_reference,
}
use ecom_platform.Checkout.Confirm.{
  OnCouponExhausted, refuse, overredeem, consume_lines_of, move_to, settle_claim, claim_with,
  claim_coupon, invoice_input, issue_invoice, mark_first_order, audit_confirmed, confirm_order_core,
}
use ecom_platform.Checkout.Growth.{Grows, same_books-Grows, same-Grows, Grows-trans, row_sold}
use ecom_platform.Checkout.Moves.{move_to_inverts, move_to-Grows}

module _ (loses : ℕ → Bool) where
  pub consume_lines_of-Grows :
      (now id : ℕ) (ls : List HoldLine) (s s' : Shop)
      → consume_lines_of now id ls s ≡ ok s'
      → Grows loses s s'
  consume_lines_of-Grows now id [] s s' h = same-Grows loses s s' (ok-injective h)
  consume_lines_of-Grows now id (l ∷ ls) s s' h =
      let (done, _, g) =
        bound_value (consume_stock_within now (checkout_reference id) (l ∷ ls) s.stock) _ h in
      let kept : Grows loses s (record s { stock = done.1 }) =
        same_books-Grows loses s _ refl refl refl refl (omega arith) in
      rw (ok-injective g) at kept

  settle_claim-Grows :
      (now id : ℕ) (actor : ActorType) (policy : OnCouponExhausted)
      (claim : Claim × List RedemptionRow) (s s' : Shop)
      → settle_claim now id actor policy claim s ≡ ok s'
      → Grows loses s s'
  settle_claim-Grows now id actor policy (claimed r slot customer_slot, rows) s s' h =
      let kept : Grows loses s (record s { redemptions = rows; next_id = s.next_id + 1 }) =
        same_books-Grows loses s _ refl refl refl refl (omega arith) in
      rw (ok-injective h) at kept
  settle_claim-Grows now id actor refuse (exhausted, rows) s s' h = absurd (ok-ne-err h)
  settle_claim-Grows now id actor overredeem (exhausted, rows) s s' h =
      let kept : Grows loses s (insert_order_event now id promotion_overredeemed actor s) =
        same_books-Grows loses s _ refl refl refl refl (omega arith) in
      rw (ok-injective h) at kept

  claim_with-Grows :
      (now id : ℕ) (actor : ActorType) (policy : OnCouponExhausted) (d : OrderDetails)
      (o : Option PromotionLimits) (s s' : Shop)
      → claim_with now id actor policy d o s ≡ ok s'
      → Grows loses s s'
  claim_with-Grows now id actor policy d none s s' h = same-Grows loses s s' (ok-injective h)
  claim_with-Grows now id actor policy d (some p) s s' h =
      let (claim, _, g) =
        bound_value (claim_redemption s.next_id p id d.customer_id d.discount_paise s.redemptions) _
          h in
      settle_claim-Grows now id actor policy claim s s' g

  issue_invoice-Grows :
      (settings : CheckoutSettings) (id : ℕ) (r : OrderRow) (lines : List OrderLine) (s s' : Shop)
      → issue_invoice settings id r lines s ≡ ok s'
      → Grows loses s s'
  unfolding issue_invoice
  issue_invoice-Grows settings id r lines s s' h =
      let (made, _, g) =
        bound_value
          (create_invoice settings.financial_year (invoice_input settings id r lines) s.book) _ h in
      let kept : Grows loses s (record s { book = made.1 }) =
        same_books-Grows loses s _ refl refl refl refl (omega arith) in
      rw (ok-injective g) at kept

  finish-Grows :
      (now id : ℕ) (c : Option ℕ) (s : Shop)
      → Grows loses s (audit_confirmed id (mark_first_order now c s))
  finish-Grows now id none s = same_books-Grows loses s _ refl refl refl refl (omega arith)
  finish-Grows now id (some c) s = same_books-Grows loses s _ refl refl refl refl (omega arith)

-- The parts of a confirmation that returned.
pub confirm_order_core_inverts :
    (now : ℕ) (actor : ActorType) (policy : OnCouponExhausted) (settings : CheckoutSettings)
    (r : OrderRow) (d : OrderDetails) (s s' : Shop)
    → confirm_order_core now actor policy settings r d s ≡ ok s'
    → (consumed : Shop) × (moved : Shop) × (redeemed : Shop) × (invoiced : Shop) × (consume_lines_of
          now d.id
          (hold_lines_of d.lines)
          s
        ≡ ok consumed)
      × (move_to now d.id r.status confirmed order_confirmed actor consumed ≡ ok moved)
      × (claim_coupon now d.id actor policy d moved ≡ ok redeemed)
      × (issue_invoice settings d.id r d.lines redeemed ≡ ok invoiced)
      × (s' ≡ audit_confirmed d.id (mark_first_order now d.customer_id invoiced))
unfolding confirm_order_core
confirm_order_core_inverts now actor policy settings r d s s' h =
    let (consumed, h1, g1) =
      bound_value (consume_lines_of now d.id (hold_lines_of d.lines) s) _ h in
    let (moved, h2, g2) =
      bound_value (move_to now d.id r.status confirmed order_confirmed actor consumed) _ g1 in
    let (redeemed, h3, g3) = bound_value (claim_coupon now d.id actor policy d moved) _ g2 in
    let (invoiced, h4, g4) = bound_value (issue_invoice settings d.id r d.lines redeemed) _ g3 in
    (consumed, moved, redeemed, invoiced, h1, h2, h3, h4, sym (ok-injective g4))

module _ (loses : ℕ → Bool) where
  -- Once the order has moved, what follows takes nothing back.
  after_move-Grows :
      (now : ℕ) (actor : ActorType) (policy : OnCouponExhausted) (settings : CheckoutSettings)
      (r : OrderRow) (d : OrderDetails) (moved redeemed invoiced s' : Shop)
      → claim_coupon now d.id actor policy d moved ≡ ok redeemed
      → issue_invoice settings d.id r d.lines redeemed ≡ ok invoiced
      → s' ≡ audit_confirmed d.id (mark_first_order now d.customer_id invoiced)
      → Grows loses moved s'
  unfolding claim_coupon
  after_move-Grows now actor policy settings r d moved redeemed invoiced s' h3 h4 q =
      let claimed_on = claim_with-Grows loses now d.id actor policy d _ moved redeemed h3 in
      let billed = issue_invoice-Grows loses settings d.id r d.lines redeemed invoiced h4 in
      let finished : Grows loses invoiced s' =
        rw q (finish-Grows loses now d.id d.customer_id invoiced) in
      Grows-trans loses moved redeemed s' claimed_on
        (Grows-trans loses redeemed invoiced s' billed finished)

  pub confirm_order_core-Grows :
      (now : ℕ) (actor : ActorType) (policy : OnCouponExhausted) (settings : CheckoutSettings)
      (r : OrderRow) (d : OrderDetails) (s s' : Shop)
      → confirm_order_core now actor policy settings r d s ≡ ok s'
      → Grows loses s s'
  confirm_order_core-Grows now actor policy settings r d s s' h =
      let (consumed, moved, redeemed, invoiced, h1, h2, h3, h4, q) =
        confirm_order_core_inverts now actor policy settings r d s s' h in
      let start = consume_lines_of-Grows loses now d.id (hold_lines_of d.lines) s consumed h1 in
      let step =
        move_to-Grows loses now d.id r.status confirmed order_confirmed actor consumed moved
          (λ _ _. refl) h2 in
      let rest =
        after_move-Grows now actor policy settings r d moved redeemed invoiced s' h3 h4 q in
      Grows-trans loses s consumed s' start (Grows-trans loses consumed moved s' step rest)

-- The order that was confirmed is sold.
pub confirm_order_core_sold :
    (now : ℕ) (actor : ActorType) (policy : OnCouponExhausted) (settings : CheckoutSettings)
    (r : OrderRow) (d : OrderDetails) (s s' : Shop)
    → confirm_order_core now actor policy settings r d s ≡ ok s'
    → row_sold (s'.tables.order d.id) ≡ true
unfolding moved
confirm_order_core_sold now actor policy settings r d s s' h =
    let (consumed, moved_shop, redeemed, invoiced, _, h2, h3, h4, q) =
      confirm_order_core_inverts now actor policy settings r d s s' h in
    let (row, _, _, _, made) =
      move_to_inverts now d.id r.status confirmed order_confirmed actor consumed moved_shop h2 in
    let rest =
      after_move-Grows (λ j. false) now actor policy settings r d moved_shop redeemed invoiced s' h3
        h4 q in
    let sold : row_sold (moved_shop.tables.order d.id) ≡ true =
      rw (made, (==_iff d.id d.id).1 refl) refl in
    rest.sold d.id refl sold
