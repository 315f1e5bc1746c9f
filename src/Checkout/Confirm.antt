-- ===== src/Checkout/Confirm.antt =====
-- The one confirmation door: confirmOrderCore, in the caller's transaction, and confirmCodOrder.
-- What follows the commit (queues, the storefront's cache) is not part of the tables.
use ecom_platform.Base.{
  ℕ, ◌+◌, not, Option, none, some, List, [], ◌∷◌, length, sum_of, ◌==◌, if◌then◌else◌, Result, ok,
  err, ◌>>=◌, ◌>>◌, refuse_if, coupon_exhausted, not_found, invalid_transition,
}
use ecom_platform.Orders.{
  OrderStatus, OrderRow, OrderEventName, ActorType, customer, AuditEntry, pending_payment,
  confirmed, order_confirmed, promotion_overredeemed, same_status, transition_order, paid, pending,
}
use ecom_platform.Promotions.Redemption.{
  PromotionLimits, RedemptionRow, Claim, claimed, exhausted, claim_redemption,
}
use ecom_platform.Invoices.{CreateInvoiceInput, create_invoice}
use ecom_platform.Tax.{InvoiceDocType, tax_invoice, bill_of_supply, doc_type_for}
use ecom_platform.Inventory.Holds.{HoldLine}
use ecom_platform.Inventory.Sales.{consume_stock_within}
use ecom_platform.Checkout.{
  Shop, OrderLine, OrderDetails, CheckoutSettings, lock_order, edit_order, insert_order_event,
  hold_lines_of, checkout_reference,
}

-- What is done with a coupon whose limit is reached.
pub data OnCouponExhausted : Type 0 where
  refuse overredeem : OnCouponExhausted

-- (g) An order without stock lines consumes nothing.
abbrev pub consume_lines_of : ℕ → ℕ → List HoldLine → Shop → Result Shop
consume_lines_of now id [] s = ok s
consume_lines_of now id (l ∷ ls) s =
    consume_stock_within now (checkout_reference id) (l ∷ ls) s.stock >>= λ done.
    ok (record s { stock = done.1 })

-- (f)
unfoldable pub move_to :
    (now id : ℕ) (from to : OrderStatus) → OrderEventName → ActorType → Shop → Result Shop
move_to now id from to name actor s =
    transition_order now id from to name actor none s.tables >>= λ moved.
    ok (record s { tables = moved.1 })

abbrev pub settle_claim :
    (now id : ℕ) → ActorType → OnCouponExhausted → Claim × List RedemptionRow → Shop → Result Shop
settle_claim now id actor policy (claimed r slot customer_slot, rows) s =
    ok (record s { redemptions = rows; next_id = s.next_id + 1 })
settle_claim now id actor refuse (exhausted, rows) s = err coupon_exhausted
settle_claim now id actor overredeem (exhausted, rows) s =
    ok (insert_order_event now id promotion_overredeemed actor s)

abbrev pub claim_with :
    (now id : ℕ)
    → ActorType
    → OnCouponExhausted
    → OrderDetails
    → Option PromotionLimits
    → Shop
    → Result Shop
claim_with now id actor policy d none s = ok s
claim_with now id actor policy d (some p) s =
    claim_redemption s.next_id p id d.customer_id d.discount_paise s.redemptions >>= λ claim.
    settle_claim now id actor policy claim s

abbrev pub promotion_of : Option ℕ → Shop → Option PromotionLimits
promotion_of none s = none
promotion_of (some p) s = s.promotions p

-- (h)
unfoldable pub claim_coupon :
    (now id : ℕ) → ActorType → OnCouponExhausted → OrderDetails → Shop → Result Shop
claim_coupon now id actor policy d s =
    claim_with now id actor policy d (promotion_of d.promotion_id s) s

abbrev pub default_prefix : InvoiceDocType → ℕ
default_prefix tax_invoice = 0
default_prefix bill_of_supply = 1

abbrev pub prefix_for : Option ℕ → InvoiceDocType → ℕ
prefix_for none t = default_prefix t
prefix_for (some prefix) t = prefix

unfoldable pub invoice_input : CheckoutSettings → ℕ → OrderRow → List OrderLine → CreateInvoiceInput
invoice_input settings id r lines = record {
  order_id = id;
  doc_type = doc_type_for settings.tax_registration_type;
  prefix = prefix_for settings.invoice_prefix (doc_type_for settings.tax_registration_type);
  line_count = length lines;
  cgst_paise = sum_of (λ l. l.cgst_paise) lines;
  sgst_paise = sum_of (λ l. l.sgst_paise) lines;
  igst_paise = sum_of (λ l. l.igst_paise) lines;
  total_paise = r.total_paise;
}

-- (i)
unfoldable pub issue_invoice : CheckoutSettings → ℕ → OrderRow → List OrderLine → Shop → Result Shop
issue_invoice settings id r lines s =
    create_invoice settings.financial_year (invoice_input settings id r lines) s.book >>= λ made.
    ok (record s { book = made.1 })

abbrev pub first_marked : ℕ → Option ℕ → Option ℕ
first_marked now none = some now
first_marked now (some at') = some at'

-- (j) Only where no first order is marked.
abbrev pub mark_first_order : ℕ → Option ℕ → Shop → Shop
mark_first_order now none s = s
mark_first_order now (some c) s = record s {
  first_order_at =
      λ x. if x == c then first_marked now (s.first_order_at x) else s.first_order_at x;
}

abbrev pub confirmed_entry : ℕ → AuditEntry
confirmed_entry id = record {
  entity_id = id;
  before = pending_payment;
  before_payment = none;
  after = confirmed;
  after_payment = none;
}

abbrev pub audit_confirmed : ℕ → Shop → Shop
audit_confirmed id s = record s {
  tables = record (s.tables) { audit = confirmed_entry id ∷ s.tables.audit };
}

unfoldable pub confirm_order_core :
    (now : ℕ)
    → ActorType
    → OnCouponExhausted
    → CheckoutSettings
    → OrderRow
    → OrderDetails
    → Shop
    → Result Shop
confirm_order_core now actor policy settings r d s = do
  consumed ← consume_lines_of now d.id (hold_lines_of d.lines) s
  moved ← move_to now d.id r.status confirmed order_confirmed actor consumed
  redeemed ← claim_coupon now d.id actor policy d moved
  invoiced ← issue_invoice settings d.id r d.lines redeemed
  ok (audit_confirmed d.id (mark_first_order now d.customer_id invoiced))

-- A total of nothing reads as paid; otherwise the whole total is due at the door.
abbrev pub cod_amounts : ℕ → ℕ → OrderRow → OrderRow
cod_amounts now total r = record r {
  payment_status = if total == 0 then paid else pending;
  cod_due_paise = total;
  updated_at = now;
}

-- The transaction of confirmCodOrder, over the row that it locked.
abbrev pub confirm_cod_row :
    ℕ → CheckoutSettings → Option (OrderRow × OrderDetails) → Shop → Result Shop
confirm_cod_row now settings none s = err not_found
confirm_cod_row now settings (some (r, d)) s =
    refuse_if (not (same_status r.status pending_payment)) invalid_transition
    >> (confirm_order_core now customer refuse settings r d s >>= λ done.
        ok (edit_order d.id (cod_amounts now r.total_paise) done))

unfoldable pub confirm_cod_tx : ℕ → CheckoutSettings → ℕ → Shop → Result Shop
confirm_cod_tx now settings id s = confirm_cod_row now settings (lock_order id s) s
