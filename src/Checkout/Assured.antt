-- ===== src/Checkout/Assured.antt =====
-- No line of an order is without its tax.
use ecom_platform.Base.{
  ℕ, suc, ◌+◌, ◌≡◌, ◌≢◌, refl, ◌∙◌, sym, arith, Bool, true, false, Bool-cases, inl, inr, ◌||◌, not,
  Option, none, some, List, [], ◌∷◌, ◌++◌, map, length, sum, All, All-map, any, Matched, ltb, ◌==◌,
  if◌then◌else◌, ok, err, Result, refuse_if, bind-ne, refuse_if-ne, ok-ne-err, internal, int, pos,
  JsNumber, nat_value, find_first, Option-cases, is_amount, coupon_exhausted, coupon_not_applicable,
  invalid_payload,
}
use ecom_platform.Tax.{TaxableLine, TaxContext, LineTax, compute_line_taxes}
use ecom_platform.Tax.Lines.{IsTaxed, compute_line_taxes-IsTaxed}
use ecom_platform.Tax.Totality.{compute_line_taxes_total}
use ecom_platform.Payments.{compute_advance_split}
use ecom_platform.Payments.Split.{compute_advance_split-ne-internal}
use ecom_platform.Promotions.{apply_discount_to_lines}
use ecom_platform.Promotions.Outcome.{discount_of, evaluate_promotion-Outcome}
use ecom_platform.Promotions.Spread.{apply_discount_to_lines-IsSpread}
use ecom_platform.Checkout.Pricing.{
  CartRow, LockedCoupon, PricingInput, Discounted, row_total, cart_for, is_used_up, discount_rows,
  compute_shipping_fee_paise, is_invalid_threshold, is_waived,
}
use ecom_platform.Checkout.Billing.{
  item_taxable, shipping_rate, tax_items, tax_shipping, tax_context, tax_by_line_id, item_lines,
  shipping_lines, price_discounted, price_order, taxable_line, rate_of,
}

abbrev IsKnown : List TaxableLine → TaxableLine → Type 0
IsKnown ls l = any (λ k. k.line_id == l.line_id) ls ≡ true

same_id : (n : ℕ) → (n == n) ≡ true
same_id n = ground arith

all-IsKnown : (ls : List TaxableLine) → All (IsKnown ls) ls
all-IsKnown [] = tt
all-IsKnown (l ∷ ls) =
    (rw (same_id l.line_id) refl, All-map (λ k h. or_right _ _ h) ls (all-IsKnown ls))
  where
    or_right : (a b : Bool) → b ≡ true → (a || b) ≡ true
    or_right true b h = refl
    or_right false b h = h

module _ {A : Type 0} (P : A → Type 0) where
  All-front : (xs ys : List A) → All P (xs ++ ys) → All P xs
  All-front [] ys v = tt
  All-front (x ∷ xs) ys v = (v.0, All-front xs ys v.1)

  All-back : (xs ys : List A) → All P (xs ++ ys) → All P ys
  All-back [] ys v = v
  All-back (x ∷ xs) ys v = All-back xs ys v.1

found :
    (ctx : TaxContext) (ls : List TaxableLine) (ts : List LineTax) (id : ℕ)
    → Matched (IsTaxed ctx) ls ts
    → any (λ k. k.line_id == id) ls ≡ true
    → find_first (λ t. t.line_id == id) ts ≢ none
found ctx [] ts id m h e = cc
found ctx (l ∷ ls) [] id m h e = m
found ctx (l ∷ ls) (t ∷ ts) id m h e = elim (Bool-cases (t.line_id == id)) [
  | inl own ↦ some_ne_none (rw (own, find_first) at e)
  | inr other ↦
      let not_here : (l.line_id == id) ≡ false = rw m.0.same_line at other in
      found ctx ls ts id m.1 (rw not_here at h) (rw (other, find_first) at e)
]
  where
    some_ne_none : some t ≡ none → ⊥
    some_ne_none q = cc

module _ (ctx : TaxContext) (ls : List TaxableLine) (taxes : List LineTax)
    (matched : Matched (IsTaxed ctx) ls taxes) where
  tax_by_line_id-ne-internal :
      (l : TaxableLine) → IsKnown ls l → tax_by_line_id taxes l.line_id ≢ err internal
  unfolding tax_by_line_id
  tax_by_line_id-ne-internal l known h =
      elim (Option-cases (find_first (λ t. t.line_id == l.line_id) taxes)) [
        | inl e ↦ found ctx ls taxes l.line_id matched known e
        | inr (t, e) ↦ absurd (ok-ne-err (sym (rw (e, tax_by_line_id) at h)))
      ]

  item_lines-ne-internal :
      (discounts : List ℕ) (i : ℕ) (rows : List CartRow) (values : List ℕ)
      → All (IsKnown ls) (tax_items i rows values)
      → item_lines taxes discounts i rows values ≢ err internal
  unfolding item_lines tax_items
  item_lines-ne-internal discounts i [] values v h = cc
  item_lines-ne-internal discounts i (r ∷ rows) [] v h = cc
  item_lines-ne-internal discounts i (r ∷ rows) (x ∷ values) v h =
      bind-ne (tax_by_line_id taxes (suc i)) _ internal
        (tax_by_line_id-ne-internal (taxable_line (suc i) x (rate_of r)) v.0)
        (λ tax a.
          bind-ne (item_lines taxes discounts (suc i) rows values) _ internal
            (item_lines-ne-internal discounts (suc i) rows values v.1)
            (λ rest b e. ok-ne-err (sym e)))
        h

  shipping_lines-ne-internal :
      (position fee bps : ℕ)
      → All (IsKnown ls) (tax_shipping fee bps)
      → shipping_lines taxes position fee bps ≢ err internal
  unfolding shipping_lines tax_shipping
  shipping_lines-ne-internal position fee bps v h = elim (Bool-cases (ltb 0 fee)) [
    | inr e ↦ ok-ne-err (sym (rw (e, shipping_lines) at h))
    | inl e ↦
        bind-ne (tax_by_line_id taxes 0) _ internal
          (tax_by_line_id-ne-internal (taxable_line 0 fee bps) (rw (e, tax_shipping) at v).0)
          (λ tax a q. ok-ne-err (sym q)) (rw (e, shipping_lines) at h)
  ]

discount_rows-ne-internal :
    (rows : List CartRow) (fee : ℕ) (coupon : Option LockedCoupon) (input : PricingInput)
    → discount_rows rows fee coupon input ≢ err internal
unfolding discount_rows
discount_rows-ne-internal rows fee none input h = ok-ne-err (sym h)
discount_rows-ne-internal rows fee (some c) input h =
    elim (evaluate_promotion-Outcome c.promotion (cart_for rows fee) (some input.customer)
      input.now) [
        | inr (_, (r, e)) ↦ other_code (rw (e, discount_rows) at h)
        | inl (_, e) ↦
            let discount = discount_of c.promotion (cart_for rows fee) in
            let (xs, b, _) = apply_discount_to_lines-IsSpread (map row_total rows) discount fee in
            bind-ne (refuse_if (is_used_up c.usage_limit_total (c.used + c.pending)) _) _ internal
              (refuse_if-ne _ coupon_exhausted internal (λ q. cc))
              (λ _ _.
                bind-ne
                  (refuse_if
                    (is_used_up c.promotion.usage_limit_per_customer
                      (c.used_by_customer + c.pending_by_customer))
                    _)
                  _ internal (refuse_if-ne _ coupon_exhausted internal (λ q. cc))
                  (λ _ _.
                    bind-ne (apply_discount_to_lines (map row_total rows) discount fee) _ internal
                      (λ q. ok-ne-err (sym (sym b ∙ q))) (λ applied _ q. ok-ne-err (sym q))))
              (rw (e, discount_rows) at h)
      ]
  where
    other_code : ◌≡◌ {A = Result Discounted} (err coupon_not_applicable) (err internal) → ⊥
    other_code q = cc

compute_shipping_fee_paise-ne-internal :
    (subtotal flat_fee : JsNumber) (above : Option JsNumber)
    → compute_shipping_fee_paise subtotal flat_fee above ≢ err internal
unfolding compute_shipping_fee_paise
compute_shipping_fee_paise-ne-internal subtotal flat_fee above h =
    let bad : Bool =
      not (is_amount subtotal) || not (is_amount flat_fee) || is_invalid_threshold above in
    bind-ne (refuse_if bad invalid_payload)
      (λ _. ok (if is_waived (nat_value subtotal) above then 0 else nat_value flat_fee)) internal
      (refuse_if-ne bad invalid_payload internal (λ q. cc)) (λ _ _ q. ok-ne-err (sym q)) h

compute_line_taxes-ne-internal :
    (ls : List TaxableLine) (ctx : TaxContext)
    → ctx.inclusive ≡ true
    → compute_line_taxes ls ctx ≢ err internal
compute_line_taxes-ne-internal ls ctx incl h = elim (compute_line_taxes_total ls ctx incl) [
  | inl (_, e) ↦ other_code (sym e ∙ h)
  | inr (_, (ts, e)) ↦ ok-ne-err (sym (sym e ∙ h))
]
  where
    other_code : ◌≡◌ {A = Result (List LineTax)} (err invalid_payload) (err internal) → ⊥
    other_code q = cc

price_discounted-ne-internal :
    (rows : List CartRow) (d : Discounted) (input : PricingInput)
    → price_discounted rows d input ≢ err internal
unfolding price_discounted
price_discounted-ne-internal rows d input h =
    let values = item_taxable rows d.line_discounts in
    let bps = shipping_rate rows values none 0 in
    let items = tax_items 0 rows values in
    let ls = items ++ tax_shipping d.shipping_paise bps in
    bind-ne (compute_line_taxes ls (tax_context input)) _ internal
      (compute_line_taxes-ne-internal ls (tax_context input) refl)
      (λ taxes a.
        let m = compute_line_taxes-IsTaxed ls (tax_context input) taxes a in
        bind-ne (compute_advance_split _ input.advance_policy input.payment_mode) _ internal
          (compute_advance_split-ne-internal _ input.advance_policy input.payment_mode)
          (λ split _.
            bind-ne (item_lines taxes d.line_discounts 0 rows values) _ internal
              (item_lines-ne-internal (tax_context input) ls taxes m d.line_discounts 0 rows values
                (All-front (IsKnown ls) items _ (all-IsKnown ls)))
              (λ lines _.
                bind-ne (shipping_lines taxes (length rows) d.shipping_paise bps) _ internal
                  (shipping_lines-ne-internal (tax_context input) ls taxes m (length rows)
                    d.shipping_paise bps (All-back (IsKnown ls) items _ (all-IsKnown ls)))
                  (λ shipped _ q. ok-ne-err (sym q)))))
      h

-- The pricing of an order never fails internally, on any input: each line finds its tax, and no
-- division, allocation or split on the way throws an internal error.
pub price_order-ne-internal :
    (rows : List CartRow) (coupon : Option LockedCoupon) (input : PricingInput)
    → price_order rows coupon input ≢ err internal
unfolding price_order
price_order-ne-internal rows coupon input h =
    bind-ne
      (compute_shipping_fee_paise (int (pos (sum (map row_total rows)))) input.flat_fee_paise
        input.free_above_paise)
      _ internal
      (compute_shipping_fee_paise-ne-internal (int (pos (sum (map row_total rows))))
        input.flat_fee_paise input.free_above_paise)
      (λ fee _.
        bind-ne (discount_rows rows fee coupon input) _ internal
          (discount_rows-ne-internal rows fee coupon input)
          (λ d _. price_discounted-ne-internal rows d input))
      h
