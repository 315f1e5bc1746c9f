-- ===== src/Tax/Totality.antt =====
-- When computeLineTaxes throws.
use ecom_platform.Base.{
  ℕ, ◌+◌, ◌-◌, ◌*◌, ◌≤◌, ◌≡◌, ◌⊎◌, refl, Bool, true, false, not, ◌||◌, ok, err, invalid_payload,
  arith, pos, max_safe_integer, if◌then◌else◌, Bool-cases, inl, inr, ◌==◌, List, [], ◌∷◌, nat_value,
  any, is_amount→bound, ℤ,
}
use ecom_platform.Tax.{
  half_up, magnitude, split_tax, rounded_tax, charged_line, line_tax, taxed, map_lines,
  compute_line_taxes, TaxContext, TaxableLine, LineTax, is_regular, is_intra_state, untaxed,
  has_issue,
}
use ecom_platform.Tax.Lines.{half_parts, extracted_le}
use ecom_platform.Tax.Rounding.{half_up-IsNearest, div_half_up-pos}

split_tax_total :
    (intra : Bool) (tax : ℕ)
    → tax ≤ max_safe_integer
    → (p : ℕ × ℕ × ℕ) × (split_tax intra tax ≡ ok p)
unfolding split_tax
split_tax_total false tax h = ((0, 0, tax), refl)
split_tax_total true tax h = (
  (half_up tax 2, tax - half_up tax 2, 0),
  rw (
      div_half_up-pos tax 2 (omega arith)
        (omega (arith, half_parts tax (half_up tax 2) (half_up-IsNearest tax 2 (omega arith))))),
)

-- Extraction from a safe amount never overflows.
rounded_tax_total :
    (ctx : TaxContext) (l : TaxableLine)
    → ctx.inclusive ≡ true
    → nat_value l.taxable_paise ≤ max_safe_integer
    → (z : ℤ) × (rounded_tax ctx l ≡ ok z) × (magnitude z ≤ max_safe_integer)
unfolding rounded_tax
rounded_tax_total ctx l incl safe =
    let g = nat_value l.taxable_paise in
    let r = nat_value l.tax_rate_bps in
    let q = half_up (g * r) (10000 + r) in
    let le : q ≤ g = extracted_le g r q (half_up-IsNearest (g * r) (10000 + r) (omega arith)) in
    let bound : q ≤ max_safe_integer = omega arith in
    (
      pos q,
      rw (incl, if◌then◌else◌) (div_half_up-pos (g * r) (10000 + r) (omega arith) bound),
      bound,
    )

charged_line_total :
    (ctx : TaxContext) (l : TaxableLine)
    → ctx.inclusive ≡ true
    → nat_value l.taxable_paise ≤ max_safe_integer
    → (t : LineTax) × (charged_line ctx l ≡ ok t)
unfolding charged_line
charged_line_total ctx l incl safe =
    let (z, e, b) = rounded_tax_total ctx l incl safe in
    let (p, e') = split_tax_total (is_intra_state ctx) (magnitude z) b in
    (taxed ctx l (magnitude z) p, rw (e, e'))

line_tax_total :
    (ctx : TaxContext) (l : TaxableLine)
    → ctx.inclusive ≡ true
    → has_issue l ≡ false
    → (t : LineTax) × (line_tax ctx l ≡ ok t)
unfolding line_tax
line_tax_total ctx l incl valid =
    elim (Bool-cases (
      not (is_regular ctx.registration_type)
      || nat_value l.tax_rate_bps == 0
      || nat_value l.taxable_paise == 0)) [
        | inl e ↦ (untaxed l, rw (e, if◌then◌else◌))
        | inr e ↦
            let (t, charged) =
              charged_line_total ctx l incl (is_amount→bound l.taxable_paise (ground arith)) in
            (t, rw (e, if◌then◌else◌) charged)
      ]

map_lines_total :
    (ctx : TaxContext) (ls : List TaxableLine)
    → ctx.inclusive ≡ true
    → any has_issue ls ≡ false
    → (ts : List LineTax) × (map_lines ctx ls ≡ ok ts)
unfolding map_lines
map_lines_total ctx [] incl h = ([], refl)
map_lines_total ctx (l ∷ ls) incl h =
    let (us, e') = map_lines_total ctx ls incl (ground arith) in
    let (t, e) = line_tax_total ctx l incl (ground arith) in (t ∷ us, rw (e, e'))

-- How a call ends.
abbrev pub Outcome : List TaxableLine → TaxContext → Type 0
Outcome lines ctx =
    ((any has_issue lines ≡ true) × (compute_line_taxes lines ctx ≡ err invalid_payload))
    ⊎ ((any has_issue lines ≡ false)
        × ((ts : List LineTax) × (compute_line_taxes lines ctx ≡ ok ts)))

-- With inclusive prices computeLineTaxes throws exactly when some line's amount or rate is not a
-- non-negative safe integer, and then with `invalid_payload`; on all other input it returns.
pub compute_line_taxes_total :
    (lines : List TaxableLine) (ctx : TaxContext) → ctx.inclusive ≡ true → Outcome lines ctx
unfolding compute_line_taxes
compute_line_taxes_total lines ctx incl = elim (Bool-cases (any has_issue lines)) [
  | inl bad ↦ inl (bad, rw bad)
  | inr fine ↦ let (ts, e) = map_lines_total ctx lines incl fine in inr (fine, (ts, rw (fine, e)))
]
