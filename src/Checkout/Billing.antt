-- ===== src/Checkout/Billing.antt =====
-- The lines and the amounts of an order that is placed (createOrderTx in
-- packages/core/src/checkout/server.ts). The line id `item-i` is `suc i`, and `shipping` is 0. A
-- row's discount is at most its total, so differences are of naturals.
use ecom_platform.Base.{
  ℕ, suc, ◌+◌, ◌-◌, Bool, true, Option, none, some, List, [], ◌∷◌, ◌++◌, map, length, sum, sum_of,
  ltb, ◌==◌, if◌then◌else◌, Result, ok, err, ◌>>=◌, internal, int, pos, get_or, find_first,
}
use ecom_platform.Tax.{TaxableLine, TaxContext, LineTax, compute_line_taxes}
use ecom_platform.Payments.{compute_advance_split}
use ecom_platform.Checkout.{OrderLineKind, item, shipping}
use ecom_platform.Checkout.Pricing.{
  CartRow, LockedCoupon, PricingInput, Discounted, row_total, compute_shipping_fee_paise,
  discount_rows,
}

pub record PricedLine : Type 0 where
  pub kind : OrderLineKind
  pub variant_id : Option ℕ
  pub quantity : ℕ
  pub unit_price_paise : ℕ
  pub discount_paise : ℕ
  pub taxable_paise : ℕ
  pub tax_rate_bps : ℕ
  pub cgst_paise : ℕ
  pub sgst_paise : ℕ
  pub igst_paise : ℕ
  pub tax_paise : ℕ
  pub total_paise : ℕ
  pub position : ℕ

pub record PricedOrder : Type 0 where
  pub subtotal_paise : ℕ
  pub discount_paise : ℕ
  pub shipping_paise : ℕ
  pub tax_paise : ℕ
  pub total_paise : ℕ
  pub advance_paise : ℕ
  pub cod_due_paise : ℕ
  pub lines : List PricedLine

-- `pricePaise * quantity - (lineDiscounts[i] ?? 0)` of each row.
unfoldable pub item_taxable : List CartRow → List ℕ → List ℕ
item_taxable [] ds = []
item_taxable (r ∷ rows) [] = row_total r ∷ item_taxable rows []
item_taxable (r ∷ rows) (d ∷ ds) = (row_total r - d) ∷ item_taxable rows ds

abbrev pub rate_of : CartRow → ℕ
rate_of r = elim r.tax_rate_bps [ none ↦ 0 | some bps ↦ bps ]

abbrev pub is_higher : ℕ → Option ℕ → Bool
is_higher value none = true
is_higher value (some highest) = ltb highest value

-- The rate of the first row of the highest value; `none` is the start at -1.
unfoldable pub shipping_rate : List CartRow → List ℕ → Option ℕ → ℕ → ℕ
shipping_rate [] values highest rate = rate
shipping_rate (r ∷ rows) [] highest rate = rate
shipping_rate (r ∷ rows) (v ∷ values) highest rate =
    if is_higher v highest
    then shipping_rate rows values (some v) (rate_of r)
    else shipping_rate rows values highest rate

abbrev pub taxable_line : ℕ → ℕ → ℕ → TaxableLine
taxable_line id paise bps = record {
  line_id = id;
  taxable_paise = int (pos paise);
  tax_rate_bps = int (pos bps);
}

unfoldable pub tax_items : ℕ → List CartRow → List ℕ → List TaxableLine
tax_items i [] values = []
tax_items i (r ∷ rows) [] = []
tax_items i (r ∷ rows) (v ∷ values) =
    taxable_line (suc i) v (rate_of r) ∷ tax_items (suc i) rows values

unfoldable pub tax_shipping : ℕ → ℕ → List TaxableLine
tax_shipping fee bps = if ltb 0 fee then taxable_line 0 fee bps ∷ [] else []

abbrev pub tax_context : PricingInput → TaxContext
tax_context input = record {
  seller_state_code = input.origin_state_code;
  place_of_supply_state_code = input.state_code;
  registration_type = input.tax_registration_type;
  inclusive = true;
}

-- `taxByLineId.get(id)!`; a missing entry would throw a TypeError at its first use.
unfoldable pub tax_by_line_id : List LineTax → ℕ → Result LineTax
tax_by_line_id taxes id = elim (find_first (λ t. t.line_id == id) taxes) [
  | none ↦ err internal
  | some t ↦ ok t
]

abbrev pub item_line : ℕ → CartRow → ℕ → ℕ → LineTax → PricedLine
item_line i r discount gross tax = record {
  kind = item;
  variant_id = some r.variant_id;
  quantity = r.quantity;
  unit_price_paise = r.price_paise;
  discount_paise = discount;
  taxable_paise = tax.taxable_exclusive_paise;
  tax_rate_bps = rate_of r;
  cgst_paise = tax.cgst_paise;
  sgst_paise = tax.sgst_paise;
  igst_paise = tax.igst_paise;
  tax_paise = tax.tax_paise;
  total_paise = gross;
  position = i;
}

unfoldable pub item_lines :
    List LineTax → List ℕ → ℕ → List CartRow → List ℕ → Result (List PricedLine)
unfolding tax_by_line_id
item_lines taxes discounts i [] values = ok []
item_lines taxes discounts i (r ∷ rows) [] = ok []
item_lines taxes discounts i (r ∷ rows) (v ∷ values) = do
  tax ← tax_by_line_id taxes (suc i)
  rest ← item_lines taxes discounts (suc i) rows values
  ok (item_line i r (get_or discounts i 0) v tax ∷ rest)

abbrev pub shipping_line : ℕ → ℕ → ℕ → LineTax → PricedLine
shipping_line position fee bps tax = record {
  kind = shipping;
  variant_id = none;
  quantity = 1;
  unit_price_paise = fee;
  discount_paise = 0;
  taxable_paise = tax.taxable_exclusive_paise;
  tax_rate_bps = bps;
  cgst_paise = tax.cgst_paise;
  sgst_paise = tax.sgst_paise;
  igst_paise = tax.igst_paise;
  tax_paise = tax.tax_paise;
  total_paise = fee;
  position = position;
}

unfoldable pub shipping_lines : List LineTax → ℕ → ℕ → ℕ → Result (List PricedLine)
unfolding tax_by_line_id
shipping_lines taxes position fee bps =
    if ltb 0 fee
    then (tax_by_line_id taxes 0 >>= λ tax. ok (shipping_line position fee bps tax ∷ []))
    else ok []

-- From the discounts on.
unfoldable pub price_discounted : List CartRow → Discounted → PricingInput → Result PricedOrder
unfolding item_taxable shipping_rate tax_items tax_shipping item_lines shipping_lines
price_discounted rows d input = do
  let values = item_taxable rows d.line_discounts
  let bps = shipping_rate rows values none 0
  taxes ←
      compute_line_taxes (tax_items 0 rows values ++ tax_shipping d.shipping_paise bps)
        (tax_context input)
  let total = sum (map row_total rows) - d.discount_paise + d.shipping_paise
  split ← compute_advance_split (int (pos total)) input.advance_policy input.payment_mode
  items ← item_lines taxes d.line_discounts 0 rows values
  shipped ← shipping_lines taxes (length rows) d.shipping_paise bps
  ok (record {
    subtotal_paise = sum (map row_total rows);
    discount_paise = d.discount_paise;
    shipping_paise = d.shipping_paise;
    tax_paise = sum_of (λ t. t.tax_paise) taxes;
    total_paise = total;
    advance_paise = split.advance_paise;
    cod_due_paise = split.cod_due_paise;
    lines = items ++ shipped;
  })

unfoldable pub price_order : List CartRow → Option LockedCoupon → PricingInput → Result PricedOrder
unfolding compute_shipping_fee_paise discount_rows price_discounted
price_order rows coupon input = do
  shipping_base ←
      compute_shipping_fee_paise (int (pos (sum (map row_total rows)))) input.flat_fee_paise
        input.free_above_paise
  d ← discount_rows rows shipping_base coupon input
  price_discounted rows d input
