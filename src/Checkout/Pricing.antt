-- ===== src/Checkout/Pricing.antt =====
-- The shipping fee's rule (packages/core/src/serviceability/index.ts), and the discounts of an order's
-- rows (createOrderTx in packages/core/src/checkout/server.ts). The rows of the cart have been read;
-- what the transaction counts is given.
use ecom_platform.Base.{
  ℕ, ◌+◌, ◌*◌, Bool, false, not, ◌||◌, Option, none, some, List, map, sum, leb, if◌then◌else◌,
  Result, ok, err, ◌>>=◌, ◌>>◌, refuse_if, invalid_payload, coupon_exhausted, coupon_not_applicable,
  JsNumber, is_amount, nat_value, Text,
}
use ecom_platform.Tax.{TaxRegistrationType}
use ecom_platform.Payments.{AdvancePolicy, PaymentMode}
use ecom_platform.Promotions.{
  PromotionData, CartForEvaluation, Customer, web, refused, applicable, evaluate_promotion,
  apply_discount_to_lines,
}

-- A row of the cart joined with its variant and product, and the product's categories.
pub record CartRow : Type 0 where
  pub variant_id : ℕ
  pub product_id : ℕ
  pub category_ids : List ℕ
  pub quantity : ℕ
  pub price_paise : ℕ
  pub tax_rate_bps : Option ℕ

-- The promotion that is locked for the order's coupon, with the counts read under the lock.
pub record LockedCoupon : Type 0 where
  pub promotion : PromotionData
  pub usage_limit_total : Option ℕ
  pub used : ℕ
  pub pending : ℕ
  pub used_by_customer : ℕ
  pub pending_by_customer : ℕ

-- The settings, the seller and the request, as far as they bear on the amounts.
pub record PricingInput : Type 0 where
  pub flat_fee_paise : JsNumber
  pub free_above_paise : Option JsNumber
  pub advance_policy : AdvancePolicy
  pub origin_state_code : Text
  pub tax_registration_type : TaxRegistrationType
  pub state_code : Text
  pub payment_mode : PaymentMode
  pub customer : Customer
  pub now : ℕ

pub record Discounted : Type 0 where
  pub discount_paise : ℕ
  pub line_discounts : List ℕ
  pub shipping_paise : ℕ

abbrev pub is_invalid_threshold : Option JsNumber → Bool
is_invalid_threshold none = false
is_invalid_threshold (some above) = not (is_amount above)

abbrev pub is_waived : ℕ → Option JsNumber → Bool
is_waived subtotal none = false
is_waived subtotal (some above) = leb (nat_value above) subtotal

unfoldable pub compute_shipping_fee_paise : JsNumber → JsNumber → Option JsNumber → Result ℕ
compute_shipping_fee_paise subtotal flat_fee free_above = do
  refuse_if
      (not (is_amount subtotal) || not (is_amount flat_fee) || is_invalid_threshold free_above)
      invalid_payload
  ok (if is_waived (nat_value subtotal) free_above then 0 else nat_value flat_fee)

abbrev pub row_total : CartRow → ℕ
row_total r = r.price_paise * r.quantity

abbrev pub cart_for : List CartRow → ℕ → CartForEvaluation
cart_for rows shipping_base = record {
  lines =
      map
        (λ r. record {
          variant_id = r.variant_id;
          product_id = r.product_id;
          category_ids = r.category_ids;
          quantity = r.quantity;
          unit_price_paise = r.price_paise;
        })
        rows;
  subtotal_paise = sum (map row_total rows);
  shipping_paise = shipping_base;
  channel = web;
}

abbrev pub is_used_up : Option ℕ → ℕ → Bool
is_used_up none n = false
is_used_up (some limit) n = leb limit n

abbrev pub no_line_discount : CartRow → ℕ
no_line_discount r = 0

-- The coupon's part: no coupon, or its evaluation, the caps, and the discount of each line.
unfoldable pub discount_rows :
    List CartRow → ℕ → Option LockedCoupon → PricingInput → Result Discounted
discount_rows rows shipping_base none input = ok (record {
  discount_paise = 0;
  line_discounts = map no_line_discount rows;
  shipping_paise = shipping_base;
})
discount_rows rows shipping_base (some c) input =
    elim (evaluate_promotion c.promotion (cart_for rows shipping_base) (some input.customer)
      input.now) [
        | refused reason ↦ err coupon_not_applicable
        | applicable discount ↦ do
          refuse_if (is_used_up c.usage_limit_total (c.used + c.pending)) coupon_exhausted
          refuse_if
              (is_used_up c.promotion.usage_limit_per_customer
                (c.used_by_customer + c.pending_by_customer))
              coupon_exhausted
          applied ← apply_discount_to_lines (map row_total rows) discount shipping_base
          ok (record {
            discount_paise = discount.discount_paise;
            line_discounts = applied.0;
            shipping_paise = applied.1;
          })
      ]
