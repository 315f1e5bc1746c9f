-- ===== src/Checkout/Priced.antt =====
-- What an order comes to when createOrderTx prices it.
use ecom_platform.Base.{
  ℕ, suc, ◌+◌, ◌-◌, ◌≤◌, ◌≡◌, refl, ap, arith, Option, none, List, [], ◌∷◌, ◌++◌, map, length, sum,
  sum_of, All, ok, ok-injective, bound_value, int, pos, get_or,
}
use ecom_platform.Tax.{compute_line_taxes}
use ecom_platform.Tax.Lines.{compute_line_taxes-IsTaxed}
use ecom_platform.Payments.{compute_advance_split}
use ecom_platform.Payments.Split.{compute_advance_split-IsSplitFor}
use ecom_platform.Checkout.Pricing.{
  CartRow, LockedCoupon, PricingInput, Discounted, row_total, discount_rows,
  compute_shipping_fee_paise,
}
use ecom_platform.Checkout.Billing.{
  PricedOrder, item_taxable, shipping_rate, tax_items, tax_shipping, tax_context, item_lines,
  shipping_lines, price_discounted, price_order,
}
use ecom_platform.Checkout.Sharing.{IsShared, discount_rows-IsShared}
use ecom_platform.Checkout.LineTaxes.{
  amount_of, All-++, sum_of-++, tax_items-All, tax_shipping-All, taxes-All, item_lines-adds,
  shipping_lines-adds,
}

sum-item_taxable :
    (rows : List CartRow) (ds : List ℕ)
    → length ds ≡ length rows
    → ((j : ℕ) → get_or ds j 0 ≤ get_or (map row_total rows) j 0)
    → sum (item_taxable rows ds) + sum ds ≡ sum (map row_total rows)
unfolding item_taxable
sum-item_taxable [] [] e fits = refl
sum-item_taxable [] (d ∷ ds) e fits = absurd (omega arith)
sum-item_taxable (r ∷ rows) [] e fits = absurd (omega arith)
sum-item_taxable (r ∷ rows) (d ∷ ds) e fits =
    omega (arith, fits 0, sum-item_taxable rows ds (omega arith) (λ j. fits (suc j)))

length-item_taxable :
    (rows : List CartRow) (ds : List ℕ) → length (item_taxable rows ds) ≡ length rows
unfolding item_taxable
length-item_taxable [] ds = refl
length-item_taxable (r ∷ rows) [] = omega (arith, length-item_taxable rows [])
length-item_taxable (r ∷ rows) (d ∷ ds) = omega (arith, length-item_taxable rows ds)

-- The amounts of a priced order.
pub record IsPriced (rows : List CartRow) (p : PricedOrder) : Type 0 where
  pub subtotal : p.subtotal_paise ≡ sum (map row_total rows)
  pub within : p.discount_paise ≤ p.subtotal_paise
  pub whole : p.total_paise + p.discount_paise ≡ p.subtotal_paise + p.shipping_paise
  pub paid : p.advance_paise + p.cod_due_paise ≡ p.total_paise
  pub adds_up : sum_of (λ l. l.total_paise) p.lines ≡ p.total_paise
  pub shared : sum_of (λ l. l.discount_paise) p.lines ≡ p.discount_paise
  pub extracted : All (λ l. l.taxable_paise + l.tax_paise ≡ l.total_paise) p.lines

price_discounted-IsPriced :
    (rows : List CartRow) (d : Discounted) (input : PricingInput) (p : PricedOrder)
    → IsShared rows d
    → price_discounted rows d input ≡ ok p
    → IsPriced rows p
unfolding price_discounted
price_discounted-IsPriced rows d input p s h =
    let values = item_taxable rows d.line_discounts in
    let bps = shipping_rate rows values none 0 in
    let fee = d.shipping_paise in
    let f = amount_of fee values in
    let total = sum (map row_total rows) - d.discount_paise + fee in
    let ls = tax_items 0 rows values ++ tax_shipping fee bps in
    let (taxes, a, g) = bound_value (compute_line_taxes ls (tax_context input)) _ h in
    let (split, b, k) =
      bound_value (compute_advance_split (int (pos total)) input.advance_policy input.payment_mode)
        _ g in
    let (items, c, m) = bound_value (item_lines taxes d.line_discounts 0 rows values) _ k in
    let (shipped, e, n) = bound_value (shipping_lines taxes (length rows) fee bps) _ m in
    let known =
      taxes-All f (tax_context input) ls taxes refl
        (compute_line_taxes-IsTaxed ls (tax_context input) taxes a)
        (All-++ _ (tax_items 0 rows values) (tax_shipping fee bps)
          (tax_items-All f 0 rows values (λ j. ap (λ i. get_or values i 0) (omega arith)))
          (tax_shipping-All f fee bps refl)) in
    let (item_extracted, item_totals, item_discounts) =
      item_lines-adds f taxes known d.line_discounts 0 rows values d.line_discounts items c
        (length-item_taxable rows d.line_discounts) s.same_length
        (λ j. ap (λ i. get_or values i 0) (omega arith))
        (λ j. ap (λ i. get_or d.line_discounts i 0) (omega arith)) in
    let (ship_extracted, ship_totals, ship_discounts) =
      shipping_lines-adds f taxes known (length rows) fee bps shipped refl e in
    let whole = sum-item_taxable rows d.line_discounts s.same_length s.fits in
    let split_up = (compute_advance_split-IsSplitFor _ _ _ split b).0 in
    rw (← ok-injective n) (record {
      subtotal = refl;
      within = s.within;
      whole = omega (arith, s.within);
      paid = split_up;
      adds_up = omega (
        arith,
        sum_of-++ (λ l. l.total_paise) items shipped,
        item_totals,
        ship_totals,
        whole,
        s.exact,
        s.within,
      );
      shared = omega (
        arith,
        sum_of-++ (λ l. l.discount_paise) items shipped,
        item_discounts,
        ship_discounts,
        s.exact,
      );
      extracted = All-++ _ items shipped item_extracted ship_extracted;
    })

-- Every order that is priced adds up. The subtotal is what the rows are worth, the discount is at
-- most the subtotal, and the total is the subtotal less the discount with the shipping fee. The
-- advance and what is due on delivery make up the total. The totals of the order's lines, the
-- shipping line among them, add up to the order's total, their discounts to its discount, and each
-- line's taxable base and tax to its own total.
pub price_order-IsPriced :
    (rows : List CartRow) (coupon : Option LockedCoupon) (input : PricingInput) (p : PricedOrder)
    → price_order rows coupon input ≡ ok p
    → IsPriced rows p
unfolding price_order
price_order-IsPriced rows coupon input p h =
    let (fee, _, g) =
      bound_value
        (compute_shipping_fee_paise (int (pos (sum (map row_total rows)))) input.flat_fee_paise
          input.free_above_paise)
        _ h in
    let (d, a, k) = bound_value (discount_rows rows fee coupon input) _ g in
    price_discounted-IsPriced rows d input p (discount_rows-IsShared rows fee coupon input d a) k
