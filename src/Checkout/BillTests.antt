-- ===== src/Checkout/BillTests.antt =====
-- An order with a coupon, its lines and its amounts.
use ecom_platform.Base.{
  ◌≡◌, ◌≢◌, err, internal, refl, true, none, some, List, [], ◌∷◌, ok, int, pos, sort_by, text_eq,
  trim, to_upper_case,
}
use ecom_platform.Apportion.{bump, enumerate}
use ecom_platform.Tax.{regular, compute_line_taxes, line_tax, is_intra_state, div_half_up}
use ecom_platform.Payments.{cod_advance, compute_advance_split, advance_of}
use ecom_platform.Promotions.{
  flat_off, cart_subtotal_min, evaluate_promotion, check_conditions, check_condition, grant,
  apply_effects, apply_effect, apply_discount_to_lines, spread,
}
use ecom_platform.Checkout.{item, shipping}
use ecom_platform.Checkout.Pricing.{
  CartRow, LockedCoupon, PricingInput, compute_shipping_fee_paise, discount_rows,
}
use ecom_platform.Checkout.Billing.{
  PricedOrder, price_order, price_discounted, item_taxable, shipping_rate, tax_items, tax_shipping,
  tax_by_line_id, item_lines, shipping_lines,
}
use ecom_platform.Checkout.Assured.{price_order-ne-internal}
use ecom_platform.Checkout.Priced.{IsPriced, price_order-IsPriced}

-- Two shirts at 18%, and a book without a rate.
abbrev rows : List CartRow
rows =
    record {
      variant_id = 1;
      product_id = 2;
      category_ids = [];
      quantity = 2;
      price_paise = 9999;
      tax_rate_bps = some 1800;
    }
    ∷ record {
      variant_id = 3;
      product_id = 4;
      category_ids = [];
      quantity = 1;
      price_paise = 5000;
      tax_rate_bps = none;
    }
    ∷ []

-- A hundred rupees off, from two hundred.
abbrev hundred_off : LockedCoupon
hundred_off = record {
  promotion = record {
    id = 9;
    code = 77;
    starts_at = none;
    ends_at = none;
    conditions = cart_subtotal_min 20000 ∷ [];
    effects = flat_off 10000 ∷ [];
    usage_limit_per_customer = some 1;
  };
  usage_limit_total = some 5;
  used = 3;
  pending = 1;
  used_by_customer = 0;
  pending_by_customer = 0;
}

abbrev input : PricingInput
input = record {
  flat_fee_paise = int (pos 4900);
  free_above_paise = some (int (pos 100000));
  advance_policy = record {
    cod_enabled = true;
    advance_bps = some (int (pos 2000));
    min_advance_paise = int (pos 5000);
  };
  origin_state_code = 75 ∷ 65 ∷ [];
  tax_registration_type = regular;
  state_code = 75 ∷ 65 ∷ [];
  payment_mode = cod_advance;
  customer = record { id = some 4; is_first_order = true };
  now = 150;
}

abbrev bill : PricedOrder
bill = record {
  subtotal_paise = 24998;
  discount_paise = 10000;
  shipping_paise = 4900;
  tax_paise = 2577;
  total_paise = 19898;
  advance_paise = 5000;
  cod_due_paise = 14898;
  lines =
      record {
        kind = item;
        variant_id = some 1;
        quantity = 2;
        unit_price_paise = 9999;
        discount_paise = 8000;
        taxable_paise = 10168;
        tax_rate_bps = 1800;
        cgst_paise = 915;
        sgst_paise = 915;
        igst_paise = 0;
        tax_paise = 1830;
        total_paise = 11998;
        position = 0;
      }
      ∷ record {
        kind = item;
        variant_id = some 3;
        quantity = 1;
        unit_price_paise = 5000;
        discount_paise = 2000;
        taxable_paise = 3000;
        tax_rate_bps = 0;
        cgst_paise = 0;
        sgst_paise = 0;
        igst_paise = 0;
        tax_paise = 0;
        total_paise = 3000;
        position = 1;
      }
      ∷ record {
        kind = shipping;
        variant_id = none;
        quantity = 1;
        unit_price_paise = 4900;
        discount_paise = 0;
        taxable_paise = 4153;
        tax_rate_bps = 1800;
        cgst_paise = 374;
        sgst_paise = 373;
        igst_paise = 0;
        tax_paise = 747;
        total_paise = 4900;
        position = 2;
      }
      ∷ [];
}

bill_run : price_order rows (some hundred_off) input ≡ ok bill
unfolding price_order price_discounted compute_shipping_fee_paise discount_rows item_taxable
    shipping_rate tax_items tax_shipping tax_by_line_id item_lines shipping_lines compute_line_taxes
    line_tax is_intra_state text_eq trim to_upper_case div_half_up evaluate_promotion
    check_conditions check_condition grant apply_effects apply_effect apply_discount_to_lines spread
    sort_by bump enumerate compute_advance_split advance_of
bill_run = refl

price_order-IsPriced_example : IsPriced rows bill
price_order-IsPriced_example = price_order-IsPriced rows (some hundred_off) input bill bill_run

price_order-ne-internal_example : price_order rows (some hundred_off) input ≢ err internal
price_order-ne-internal_example = price_order-ne-internal rows (some hundred_off) input
