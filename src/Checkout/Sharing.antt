-- ===== src/Checkout/Sharing.antt =====
-- The discounts of an order's rows, with any coupon or none.
use ecom_platform.Base.{
  ℕ, zero, suc, ◌+◌, ◌≤◌, ◌≡◌, refl, ap, ◌∙◌, sym, arith, Bool-cases, inl, inr, Option, none, some,
  List, [], ◌∷◌, map, length, sum, ltb, ok, ok-injective, ok-ne-err, bound_value, refuse_if, get_or,
  length-map,
}
use ecom_platform.Promotions.{apply_discount_to_lines}
use ecom_platform.Promotions.Outcome.{discount_of, evaluate_promotion-Outcome}
use ecom_platform.Promotions.Spread.{IsSpread, apply_discount_to_lines-IsSpread}
use ecom_platform.Checkout.Pricing.{
  CartRow, LockedCoupon, PricingInput, Discounted, row_total, no_line_discount, cart_for,
  is_used_up, discount_rows,
}

-- A discount that the rows' own discounts add up to.
pub record IsShared (rows : List CartRow) (d : Discounted) : Type 0 where
  pub same_length : length d.line_discounts ≡ length rows
  pub exact : sum d.line_discounts ≡ d.discount_paise
  pub within : d.discount_paise ≤ sum (map row_total rows)
  pub fits : (j : ℕ) → get_or d.line_discounts j 0 ≤ get_or (map row_total rows) j 0

sum-zeros : (rows : List CartRow) → sum (map no_line_discount rows) ≡ 0
sum-zeros [] = refl
sum-zeros (r ∷ rows) = omega (arith, sum-zeros rows)

get_or-zeros : (rows : List CartRow) (j : ℕ) → get_or (map no_line_discount rows) j 0 ≡ 0
get_or-zeros [] j = refl
get_or-zeros (r ∷ rows) zero = refl
get_or-zeros (r ∷ rows) (suc j) = get_or-zeros rows j

spread-IsShared :
    (rows : List CartRow) (discount fee : ℕ) (xs : List ℕ)
    → discount ≤ sum (map row_total rows)
    → IsSpread discount (map row_total rows) xs
    → IsShared rows
        (record { discount_paise = discount; line_discounts = xs; shipping_paise = fee })
spread-IsShared rows discount fee xs bound spread = record {
  same_length = spread.same_length ∙ length-map row_total rows;
  exact = elim (Bool-cases (ltb 0 (sum (map row_total rows)))) [
    | inl e ↦ spread.exact (ground arith)
    | inr e ↦
        let worthless : sum (map row_total rows) ≡ 0 = ground arith in
        omega (arith, spread.nothing_to_share worthless)
  ];
  within = bound;
  fits = spread.within bound;
}

pub discount_rows-IsShared :
    (rows : List CartRow) (fee : ℕ) (coupon : Option LockedCoupon) (input : PricingInput)
    (d : Discounted)
    → discount_rows rows fee coupon input ≡ ok d
    → IsShared rows d
unfolding discount_rows
discount_rows-IsShared rows fee none input d h = rw (← ok-injective h) (record {
  same_length = length-map no_line_discount rows;
  exact = sum-zeros rows;
  within = omega arith;
  fits = λ j. omega (arith, get_or-zeros rows j);
})
discount_rows-IsShared rows fee (some c) input d h =
    elim (evaluate_promotion-Outcome c.promotion (cart_for rows fee) (some input.customer)
      input.now) [
        | inr (_, (r, e)) ↦ absurd (ok-ne-err (rw (e, discount_rows) at h))
        | inl (_, e) ↦
            let discount = discount_of c.promotion (cart_for rows fee) in
            let (_, _, f) =
              bound_value (refuse_if (is_used_up c.usage_limit_total (c.used + c.pending)) _) _
                (rw (e, discount_rows) at h) in
            let (_, _, g) =
              bound_value
                (refuse_if
                  (is_used_up c.promotion.usage_limit_per_customer
                    (c.used_by_customer + c.pending_by_customer))
                  _)
                _ f in
            let (applied, a, k) =
              bound_value (apply_discount_to_lines (map row_total rows) discount fee) _ g in
            let (xs, b, spread) =
              apply_discount_to_lines-IsSpread (map row_total rows) discount fee in
            let same : xs ≡ applied.0 = ap (λ p. p.0) (ok-injective (sym b ∙ a)) in
            rw (← ok-injective k) (
              spread-IsShared rows discount.discount_paise applied.1 applied.0 (omega arith)
                (rw same at spread))
      ]
