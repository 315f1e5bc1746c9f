-- ===== src/Promotions/Tests.antt =====
-- A cart, a coupon, and the theorems there.
use ecom_platform.Base.{
  ℕ, ◌*◌, ◌<◌, ◌≤◌, ◌≡◌, arith, ◌⊎◌, refl, min, true, false, none, some, List, [], ◌∷◌, length, ok,
  sort_by,
}
use ecom_platform.Promotions.{
  PromotionRefusalReason, web, cart_subtotal_min, first_order, percent_off, buy_x_get_y,
  PromotionData, CartLine, CartForEvaluation, Customer, PromotionRefusalReason, AppliedDiscount,
  expired, refused, applicable, evaluate_promotion, check_condition, check_conditions, grant,
  apply_effects, apply_effect, bps_of, buy_x_get_y_discount, take_free, eligible_lines,
  apply_discount_to_lines, spread, cycle_out,
}
use ecom_platform.Apportion.{bump, enumerate}
use ecom_platform.Promotions.Greedy.{
  IsCheapest, batches_of, quantities, buy_x_get_y_discount-IsCheapest,
}
use ecom_platform.Promotions.Outcome.{discount_of}
use ecom_platform.Promotions.Eligible.{IsEligible, IsDiscount, evaluate_promotion-IsEligible}
use ecom_platform.Promotions.Redemption.{
  PromotionLimits, RedemptionRow, Claim, claimed, claim_redemption, claim_slot, insert_redemption,
  count_redemptions, count_of_customer,
}
use ecom_platform.Promotions.Counting.{IsSlotted}
use ecom_platform.Promotions.Slots.{IsWithin, claim_redemption-IsWithin, claim_redemption_again}
use ecom_platform.Promotions.Spread.{IsSpread, apply_discount_to_lines-IsSpread}

abbrev line : ℕ → ℕ → ℕ → CartLine
line variant quantity price = record {
  variant_id = variant;
  product_id = variant;
  category_ids = [];
  quantity = quantity;
  unit_price_paise = price;
}

abbrev basket : CartForEvaluation
basket = record {
  lines = line 1 2 50000 ∷ line 2 3 10000 ∷ line 3 1 5000 ∷ [];
  subtotal_paise = 135000;
  shipping_paise = 4900;
  channel = web;
}

-- Buy three, get two of the variants 2 and 3, and five per cent, at most ₹50, from ₹1000.
abbrev coupon : PromotionData
coupon = record {
  id = 9;
  code = 77;
  starts_at = some 100;
  ends_at = some 200;
  conditions = cart_subtotal_min 100000 ∷ first_order ∷ [];
  effects = buy_x_get_y 3 2 (2 ∷ 3 ∷ []) ∷ percent_off 500 (some 5000) ∷ [];
  usage_limit_per_customer = some 1;
}

abbrev newcomer : Customer
newcomer = record { id = some 4; is_first_order = true }

-- The window is open at its start and closed at its end.
closed_at_end : evaluate_promotion coupon basket (some newcomer) 200 ≡ refused expired
unfolding evaluate_promotion
closed_at_end = refl

coupon_value :
    evaluate_promotion coupon basket (some newcomer) 100
    ≡ applicable
        (record { promotion_id = 9; code = 77; discount_paise = 40000; free_shipping = false })
unfolding evaluate_promotion check_conditions check_condition grant apply_effects apply_effect
    bps_of buy_x_get_y_discount take_free sort_by
coupon_value = refl

thirds :
    apply_discount_to_lines
      (100 ∷ 100 ∷ 100 ∷ [])
      (discount_of coupon (record basket { subtotal_paise = 100 }))
      4900
    ≡ ok (34 ∷ 33 ∷ 33 ∷ [], 4900)
unfolding apply_discount_to_lines spread cycle_out bump enumerate sort_by bps_of
    buy_x_get_y_discount take_free
thirds = refl

evaluate_promotion-IsEligible_example :
    (IsEligible coupon basket (some newcomer) 150
      × ((d : AppliedDiscount) × (evaluate_promotion coupon basket (some newcomer) 150
            ≡ applicable d)
          × IsDiscount coupon basket d))
    ⊎ (¬ IsEligible coupon basket (some newcomer) 150
        × ((r : PromotionRefusalReason) × (evaluate_promotion coupon basket (some newcomer) 150
              ≡ refused r)))
evaluate_promotion-IsEligible_example =
    evaluate_promotion-IsEligible coupon basket (some newcomer) 150

-- A preview is not asked for an id.
preview_value :
    evaluate_promotion coupon basket none 100
    ≡ applicable
        (record { promotion_id = 9; code = 77; discount_paise = 40000; free_shipping = false })
unfolding evaluate_promotion check_conditions check_condition grant apply_effects apply_effect
    bps_of buy_x_get_y_discount take_free sort_by
preview_value = refl

buy_x_get_y_discount-IsCheapest_example :
    (((length (eligible_lines (2 ∷ 3 ∷ []) basket) ≡ 0) ⊎ (batches_of 3 basket ≡ 0))
      × (buy_x_get_y_discount 3 2 (2 ∷ 3 ∷ []) basket ≡ none))
    ⊎ ((d : ℕ) × (0 < length (eligible_lines (2 ∷ 3 ∷ []) basket))
        × (0 < batches_of 3 basket)
        × (buy_x_get_y_discount 3 2 (2 ∷ 3 ∷ []) basket ≡ some d)
        × IsCheapest
            (min (batches_of 3 basket * 2) (quantities (eligible_lines (2 ∷ 3 ∷ []) basket)))
            (eligible_lines (2 ∷ 3 ∷ []) basket)
            d)
buy_x_get_y_discount-IsCheapest_example = buy_x_get_y_discount-IsCheapest 3 2 (2 ∷ 3 ∷ []) basket

abbrev off_lines : AppliedDiscount
off_lines = record { promotion_id = 9; code = 77; discount_paise = 100; free_shipping = true }

apply_discount_to_lines-IsSpread_example :
    (xs : List ℕ) × (apply_discount_to_lines (100 ∷ 100 ∷ 100 ∷ []) off_lines 4900 ≡ ok (xs, 0))
    × IsSpread 100 (100 ∷ 100 ∷ 100 ∷ []) xs
apply_discount_to_lines-IsSpread_example =
    apply_discount_to_lines-IsSpread (100 ∷ 100 ∷ 100 ∷ []) off_lines 4900

abbrev limits : PromotionLimits
limits = record { id = 9; usage_limit_total = some 2; usage_limit_per_customer = some 1 }

abbrev redeemed : List RedemptionRow
redeemed =
    record {
      id = 1;
      promotion_id = 9;
      order_id = 30;
      customer_id = some 5;
      slot = 0;
      customer_slot = 0;
      discount_paise = 100;
    }
    ∷ []

two_allow : (limit : ℕ) → some 2 ≡ some limit → 1 ≤ limit
two_allow limit e = let q : 2 ≡ limit = cc in omega (arith, q)

one_allows : (limit n : ℕ) → n ≤ 1 → some 1 ≡ some limit → n ≤ limit
one_allows limit n small e = let q : 1 ≡ limit = cc in omega (arith, q, small)

redeemed-IsWithin : IsWithin limits redeemed
unfolding count_redemptions count_of_customer
redeemed-IsWithin = (two_allow, λ limit c e. one_allows limit _ (ground arith) e)

redeemed-IsSlotted : IsSlotted redeemed
unfolding count_redemptions count_of_customer
redeemed-IsSlotted = (refl, refl, tt)

-- Another customer's order takes the second slot.
claim_redemption-IsWithin_example :
    (claim : Claim) × (rows : List RedemptionRow) × (claim_redemption 2 limits 31
        (some 6)
        100
        redeemed
      ≡ ok (claim, rows))
    × IsSlotted rows
    × IsWithin limits rows
claim_redemption-IsWithin_example =
    claim_redemption-IsWithin 2 limits 31 (some 6) 100 redeemed redeemed-IsSlotted redeemed-IsWithin

abbrev second_row : RedemptionRow
second_row = record {
  id = 2;
  promotion_id = 9;
  order_id = 31;
  customer_id = some 6;
  slot = 1;
  customer_slot = 0;
  discount_paise = 100;
}

claim_runs :
    claim_redemption 2 limits 31 (some 6) 100 redeemed ≡ ok (claimed 2 1 0, second_row ∷ redeemed)
unfolding claim_redemption claim_slot insert_redemption count_redemptions count_of_customer
claim_runs = refl

claim_redemption_again_example :
    claim_redemption 8 limits 31 none 0 (second_row ∷ redeemed)
    ≡ ok (claimed 2 1 0, second_row ∷ redeemed)
claim_redemption_again_example =
    claim_redemption_again 2 8 limits 31 (some 6) none 100 0 2 1 0 redeemed (second_row ∷ redeemed)
      claim_runs
