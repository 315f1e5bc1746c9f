-- ===== src/Tax/Lines.antt =====
-- What computeLineTaxes returns, line by line, and when it throws.
use ecom_platform.Base.{
  ℕ, zero, suc, ◌+◌, ◌-◌, ◌*◌, ◌≤◌, ◌≡◌, ap, refl, Bool, true, false, not, ◌||◌, ok,
  invalid_payload, arith, pos, leb, if◌then◌else◌, Bool-cases, inl, inr, refuse_if, ◌==◌, Matched,
  List, [], ◌∷◌, nat_value, any, bound_value, ok-injective, ℤ,
}
use ecom_platform.Tax.{
  half_up, div_half_up, magnitude, split_tax, rounded_tax, charged_line, line_tax, taxed, map_lines,
  compute_line_taxes, TaxContext, TaxableLine, LineTax, is_regular, is_intra_state, untaxed,
  has_issue,
}
use ecom_platform.Tax.Rounding.{IsNearest, half_up-IsNearest, div_half_up-inverts}

-- A tax divided between the states and the union.
pub record IsSplit (intra : Bool) (tax cgst sgst igst : ℕ) : Type 0 where
  pub whole : cgst + sgst + igst ≡ tax
  pub within : intra ≡ true → (igst ≡ 0) × (sgst ≤ cgst) × (cgst ≤ sgst + 1)
  pub across : intra ≡ false → (cgst ≡ 0) × (sgst ≡ 0)

rounded_pos : (n d : ℕ) (z : ℤ) → div_half_up (pos n) (pos d) ≡ ok z → magnitude z ≡ half_up n d
rounded_pos n d z h = let (_, _, e) = div_half_up-inverts (pos n) (pos d) z h in rw e

pub half_parts : (tax q : ℕ) → IsNearest tax 2 q → (q ≤ tax) × (tax - q ≤ q) × (q ≤ tax - q + 1)
half_parts tax q h = omega arith

split_tax-IsSplit :
    (intra : Bool) (tax : ℕ) (p : ℕ × ℕ × ℕ)
    → split_tax intra tax ≡ ok p
    → IsSplit intra tax p.0 p.1 p.2
unfolding split_tax
split_tax-IsSplit false tax p h = ground arith
split_tax-IsSplit true tax p h =
    let (half, e, f) = bound_value (div_half_up (pos tax) (pos 2)) _ h in
    ground (
      arith,
      e,
      f,
      rounded_pos tax 2 half e,
      half_parts tax (half_up tax 2) (half_up-IsNearest tax 2 (omega arith)),
    )

-- A tax extracted from a gross amount is at most that amount.
pub extracted_le : (g r q : ℕ) → IsNearest (g * r) (10000 + r) q → q ≤ g
extracted_le g r q h = elim (Bool-cases (leb q g)) [
  | inl e ↦ ground arith
  | inr e ↦ absurd (too_much g r q (q - g - 1) (ground arith) h.0)
]
  where
    too_much : (g r q e : ℕ) → q ≡ g + 1 + e → 2 * (q * (10000 + r)) ≤ 2 * (g * r) + (10000 + r) → ⊥
    too_much g r q e p k = omega (arith, ap (λ (x : ℕ). 2 * (x * (10000 + r))) p)

-- What the tax of one line comes to.
pub record IsTaxed (ctx : TaxContext) (l : TaxableLine) (t : LineTax) : Type 0 where
  pub same_line : t.line_id ≡ l.line_id
  pub split : IsSplit (is_intra_state ctx) t.tax_paise t.cgst_paise t.sgst_paise t.igst_paise
  pub extracted :
      ctx.inclusive ≡ true → t.taxable_exclusive_paise + t.tax_paise ≡ nat_value l.taxable_paise
  pub added : ctx.inclusive ≡ false → t.taxable_exclusive_paise ≡ nat_value l.taxable_paise
  pub rate_inclusive :
      is_regular ctx.registration_type ≡ true
      → ctx.inclusive ≡ true
      → IsNearest
          (nat_value l.taxable_paise * nat_value l.tax_rate_bps)
          (10000 + nat_value l.tax_rate_bps)
          t.tax_paise
  pub rate_exclusive :
      is_regular ctx.registration_type ≡ true
      → ctx.inclusive ≡ false
      → IsNearest (nat_value l.taxable_paise * nat_value l.tax_rate_bps) 10000 t.tax_paise
  pub not_charged : is_regular ctx.registration_type ≡ false → t.tax_paise ≡ 0

untaxed-IsTaxed :
    (ctx : TaxContext) (l : TaxableLine)
    → (is_regular ctx.registration_type ≡ true
        → nat_value l.taxable_paise * nat_value l.tax_rate_bps ≡ 0)
    → IsTaxed ctx l (untaxed l)
untaxed-IsTaxed ctx l h = record {
  same_line = refl;
  split = omega arith;
  extracted = λ e. omega arith;
  added = λ e. refl;
  rate_inclusive = λ r e. let z = h r in omega arith;
  rate_exclusive = λ r e. let z = h r in omega arith;
  not_charged = λ e. refl;
}

rounded_tax-IsNearest :
    (ctx : TaxContext) (l : TaxableLine) (z : ℤ)
    → rounded_tax ctx l ≡ ok z
    → (ctx.inclusive ≡ true
        → IsNearest
            (nat_value l.taxable_paise * nat_value l.tax_rate_bps)
            (10000 + nat_value l.tax_rate_bps)
            (magnitude z))
      × (ctx.inclusive ≡ false
          → IsNearest (nat_value l.taxable_paise * nat_value l.tax_rate_bps) 10000 (magnitude z))
unfolding rounded_tax
rounded_tax-IsNearest ctx l z h = (
  λ e. rw (rounded_pos _ _ z (rw (e, if◌then◌else◌) at h)) (half_up-IsNearest _ _ (omega arith)),
  λ e. rw (rounded_pos _ _ z (rw (e, if◌then◌else◌) at h)) (half_up-IsNearest _ _ (omega arith)),
)

taxed-IsTaxed :
    (ctx : TaxContext) (l : TaxableLine) (tax : ℕ) (p : ℕ × ℕ × ℕ)
    → is_regular ctx.registration_type ≡ true
    → IsSplit (is_intra_state ctx) tax p.0 p.1 p.2
    → (ctx.inclusive ≡ true
        → IsNearest
            (nat_value l.taxable_paise * nat_value l.tax_rate_bps)
            (10000 + nat_value l.tax_rate_bps)
            tax)
      × (ctx.inclusive ≡ false
          → IsNearest (nat_value l.taxable_paise * nat_value l.tax_rate_bps) 10000 tax)
    → IsTaxed ctx l (taxed ctx l tax p)
taxed-IsTaxed ctx l tax p reg split near = record {
  same_line = refl;
  split = split;
  extracted = λ e. rw (e, if◌then◌else◌) (omega (arith, extracted_le _ _ tax (near.0 e)));
  added = λ e. rw (e, if◌then◌else◌);
  rate_inclusive = λ r e. near.0 e;
  rate_exclusive = λ r e. near.1 e;
  not_charged = λ e. cc;
}

charged_line-IsTaxed :
    (ctx : TaxContext) (l : TaxableLine) (t : LineTax)
    → is_regular ctx.registration_type ≡ true
    → charged_line ctx l ≡ ok t
    → IsTaxed ctx l t
unfolding charged_line
charged_line-IsTaxed ctx l t reg h =
    let (z, e, f) = bound_value (rounded_tax ctx l) _ h in
    let (p, e', f') = bound_value (split_tax (is_intra_state ctx) (magnitude z)) _ f in
    rw (ok-injective f') at (
      taxed-IsTaxed ctx l (magnitude z) p reg (split_tax-IsSplit _ _ p e')
        (rounded_tax-IsNearest ctx l z e))

zero_product : (r g : ℕ) → (r == 0 || g == 0) ≡ true → g * r ≡ 0
zero_product zero g h = omega arith
zero_product (suc r) zero h = omega arith
zero_product (suc r) (suc g) h = ground arith

line_tax-IsTaxed :
    (ctx : TaxContext) (l : TaxableLine) (t : LineTax) → line_tax ctx l ≡ ok t → IsTaxed ctx l t
unfolding line_tax
line_tax-IsTaxed ctx l t h =
    elim (Bool-cases (
      not (is_regular ctx.registration_type)
      || nat_value l.tax_rate_bps == 0
      || nat_value l.taxable_paise == 0)) [
        | inl e ↦
            rw (ok-injective (rw (e, if◌then◌else◌) at h)) at
              (untaxed-IsTaxed ctx l (λ r. zero_product _ _ (ground arith)))
        | inr e ↦ charged_line-IsTaxed ctx l t (ground arith) (rw (e, if◌then◌else◌) at h)
      ]

map_lines-IsTaxed :
    (ctx : TaxContext) (ls : List TaxableLine) (ts : List LineTax)
    → map_lines ctx ls ≡ ok ts
    → Matched (IsTaxed ctx) ls ts
unfolding map_lines
map_lines-IsTaxed ctx [] ts h = rw (← ok-injective h) tt
map_lines-IsTaxed ctx (l ∷ ls) ts h =
    let (t, e, f) = bound_value (line_tax ctx l) _ h in
    let (us, e', f') = bound_value (map_lines ctx ls) _ f in
    rw (← ok-injective f') (line_tax-IsTaxed ctx l t e, map_lines-IsTaxed ctx ls us e')

-- Every list that computeLineTaxes returns has one entry for each line, in order, with that line's
-- id, and in each: CGST, SGST and IGST add up to the tax exactly; within a state IGST is zero and
-- CGST is SGST or one paisa more, across states CGST and SGST are zero; with inclusive prices base
-- and tax add up to the amount given, with exclusive ones the base is the amount given; for a
-- regular registration the tax is the nearest whole paisa to gross × rate / (10000 + rate), or to
-- base × rate / 10000; for any other registration it is zero.
pub compute_line_taxes-IsTaxed :
    (lines : List TaxableLine) (ctx : TaxContext) (ts : List LineTax)
    → compute_line_taxes lines ctx ≡ ok ts
    → Matched (IsTaxed ctx) lines ts
unfolding compute_line_taxes
compute_line_taxes-IsTaxed lines ctx ts h =
    let (_, _, f) = bound_value (refuse_if (any has_issue lines) invalid_payload) _ h in
    map_lines-IsTaxed ctx lines ts f
