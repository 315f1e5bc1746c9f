-- ===== src/Checkout/LineTaxes.antt =====
-- The tax of each line of an order, found by the line's id.
use ecom_platform.Base.{
  ℕ, zero, suc, ◌+◌, ◌≡◌, refl, ap, ◌∙◌, sym, arith, true, Bool-cases, inl, inr, List, [], ◌∷◌,
  ◌++◌, length, sum, sum_of, All, Matched, ltb, ◌==◌, ok, ok-injective, ok-ne-err, bound_value,
  nat_value, get_or, find_first, find_first-All, find_first-passes, Option-cases,
}
use ecom_platform.Tax.{TaxableLine, TaxContext, LineTax}
use ecom_platform.Tax.Lines.{IsTaxed}
use ecom_platform.Checkout.Pricing.{CartRow}
use ecom_platform.Checkout.Billing.{
  PricedLine, tax_items, tax_shipping, tax_by_line_id, item_lines, shipping_lines,
}

-- The amount that a line of the tax input has, by its id.
abbrev pub amount_of : ℕ → List ℕ → ℕ → ℕ
amount_of fee values zero = fee
amount_of fee values (suc i) = get_or values i 0

pub All-++ {ℓ κ} :
    {A : Type ℓ} (P : A → Type κ) (xs ys : List A) → All P xs → All P ys → All P (xs ++ ys)
All-++ P [] ys v w = w
All-++ P (x ∷ xs) ys v w = (v.0, All-++ P xs ys v.1 w)

pub sum_of-++ {ℓ} :
    {A : Type ℓ} (f : A → ℕ) (xs ys : List A) → sum_of f (xs ++ ys) ≡ sum_of f xs + sum_of f ys
sum_of-++ f [] ys = omega arith
sum_of-++ f (x ∷ xs) ys = omega (arith, sum_of-++ f xs ys)

module _ (f : ℕ → ℕ) where
  pub tax_items-All :
      (i : ℕ) (rows : List CartRow) (values : List ℕ)
      → ((j : ℕ) → get_or values j 0 ≡ f (suc (i + j)))
      → All (λ l. nat_value l.taxable_paise ≡ f l.line_id) (tax_items i rows values)
  unfolding tax_items
  tax_items-All i [] values h = tt
  tax_items-All i (r ∷ rows) [] h = tt
  tax_items-All i (r ∷ rows) (v ∷ values) h = (
    h 0 ∙ ap (λ n. f (suc n)) (omega arith),
    tax_items-All (suc i) rows values (λ j. h (suc j) ∙ ap (λ n. f (suc n)) (omega arith)),
  )

  pub tax_shipping-All :
      (fee bps : ℕ)
      → f 0 ≡ fee
      → All (λ l. nat_value l.taxable_paise ≡ f l.line_id) (tax_shipping fee bps)
  unfolding tax_shipping
  tax_shipping-All fee bps h = elim (Bool-cases (ltb 0 fee)) [
    | inl e ↦ rw (e, tax_shipping) (sym h, tt)
    | inr e ↦ rw (e, tax_shipping) tt
  ]

  -- The tax and the base of every entry are the amount of its id.
  pub taxes-All :
      (ctx : TaxContext) (ls : List TaxableLine) (ts : List LineTax)
      → ctx.inclusive ≡ true
      → Matched (IsTaxed ctx) ls ts
      → All (λ l. nat_value l.taxable_paise ≡ f l.line_id) ls
      → All (λ t. t.taxable_exclusive_paise + t.tax_paise ≡ f t.line_id) ts
  taxes-All ctx [] [] inc m v = tt
  taxes-All ctx [] (t ∷ ts) inc m v = absurd m
  taxes-All ctx (l ∷ ls) [] inc m v = absurd m
  taxes-All ctx (l ∷ ls) (t ∷ ts) inc m v =
      (m.0.extracted inc ∙ v.0 ∙ ap f (sym m.0.same_line), taxes-All ctx ls ts inc m.1 v.1)

  module _ (taxes : List LineTax)
      (known : All (λ t. t.taxable_exclusive_paise + t.tax_paise ≡ f t.line_id) taxes) where
    tax_by_line_id-amount :
        (id : ℕ) (t : LineTax)
        → tax_by_line_id taxes id ≡ ok t
        → t.taxable_exclusive_paise + t.tax_paise ≡ f id
    unfolding tax_by_line_id
    tax_by_line_id-amount id t h = elim (Option-cases (find_first (λ t. t.line_id == id) taxes)) [
      | inl e ↦ absurd (ok-ne-err (rw (e, tax_by_line_id) at h))
      | inr (u, e) ↦
          let same : u ≡ t = ok-injective (rw (e, tax_by_line_id) at h) in
          let passes = find_first-passes (λ t. t.line_id == id) taxes u e in
          let of_id : u.line_id ≡ id = ground arith in
          rw (← same) (
            find_first-All (λ t. t.taxable_exclusive_paise + t.tax_paise ≡ f t.line_id) _ taxes u e
              known
            ∙ ap f of_id)
    ]

    abbrev pub IsExtracted : PricedLine → Type 0
    IsExtracted l = l.taxable_paise + l.tax_paise ≡ l.total_paise

    pub item_lines-adds :
        (all_discounts : List ℕ) (i : ℕ) (rows : List CartRow) (values ds : List ℕ)
        (ls : List PricedLine)
        → item_lines taxes all_discounts i rows values ≡ ok ls
        → length values ≡ length rows
        → length ds ≡ length rows
        → ((j : ℕ) → get_or values j 0 ≡ f (suc (i + j)))
        → ((j : ℕ) → get_or ds j 0 ≡ get_or all_discounts (i + j) 0)
        → All IsExtracted ls
          × (sum_of (λ l. l.total_paise) ls ≡ sum values)
          × (sum_of (λ l. l.discount_paise) ls ≡ sum ds)
    unfolding item_lines
    item_lines-adds all_discounts i [] [] [] ls h ev ed at_values at_ds =
        rw (← ok-injective h) (tt, refl, refl)
    item_lines-adds all_discounts i [] (v ∷ values) ds ls h ev ed at_values at_ds =
        absurd (omega arith)
    item_lines-adds all_discounts i [] [] (d ∷ ds) ls h ev ed at_values at_ds = absurd (omega arith)
    item_lines-adds all_discounts i (r ∷ rows) [] ds ls h ev ed at_values at_ds =
        absurd (omega arith)
    item_lines-adds all_discounts i (r ∷ rows) (v ∷ values) [] ls h ev ed at_values at_ds =
        absurd (omega arith)
    item_lines-adds all_discounts i (r ∷ rows) (v ∷ values) (d ∷ ds) ls h ev ed at_values at_ds =
        let (tax, a, g) = bound_value (tax_by_line_id taxes (suc i)) _ h in
        let (rest, b, k) = bound_value (item_lines taxes all_discounts (suc i) rows values) _ g in
        let (extracted, totals, discounts) =
          item_lines-adds all_discounts (suc i) rows values ds rest b (omega arith) (omega arith)
            (λ j. at_values (suc j) ∙ ap (λ n. f (suc n)) (omega arith))
            (λ j. at_ds (suc j) ∙ ap (λ n. get_or all_discounts n 0) (omega arith)) in
        let here : v ≡ f (suc i) = at_values 0 ∙ ap (λ n. f (suc n)) (omega arith) in
        let own : d ≡ get_or all_discounts i 0 =
          at_ds 0 ∙ ap (λ n. get_or all_discounts n 0) (omega arith) in
        rw (← ok-injective k) (
          (tax_by_line_id-amount (suc i) tax a ∙ sym here, extracted),
          omega (arith, totals),
          omega (arith, discounts, own),
        )

    pub shipping_lines-adds :
        (position fee bps : ℕ) (ls : List PricedLine)
        → f 0 ≡ fee
        → shipping_lines taxes position fee bps ≡ ok ls
        → All IsExtracted ls
          × (sum_of (λ l. l.total_paise) ls ≡ fee)
          × (sum_of (λ l. l.discount_paise) ls ≡ 0)
    unfolding shipping_lines
    shipping_lines-adds position fee bps ls at_fee h = elim (Bool-cases (ltb 0 fee)) [
      | inr e ↦
          let free : fee ≡ 0 = ground arith in
          rw (← ok-injective (rw (e, shipping_lines) at h)) (tt, sym free, refl)
      | inl e ↦
          let (tax, a, k) = bound_value (tax_by_line_id taxes 0) _ (rw (e, shipping_lines) at h) in
          rw (← ok-injective k)
            ((tax_by_line_id-amount 0 tax a ∙ at_fee, tt), omega arith, omega arith)
    ]
