-- ===== src/Tax/Tests.antt =====
-- Runs of the tax engine, and its theorems at concrete inputs.
use ecom_platform.Base.{
  ◌≡◌, refl, true, [], ◌∷◌, ok, int, sort_by, text_eq, trim, to_upper_case, pos, negsuc, Matched,
}
use ecom_platform.Apportion.{bump, enumerate}
use ecom_platform.Tax.{
  TaxContext, TaxableLine, LineTax, regular, line_tax, compute_line_taxes, allocate_proportionally,
  div_half_up, is_intra_state,
}
use ecom_platform.Tax.Rounding.{IsRounded, div_half_up-IsRounded}
use ecom_platform.Tax.Lines.{IsTaxed, compute_line_taxes-IsTaxed}
use ecom_platform.Tax.Totality.{Outcome as TaxOutcome, compute_line_taxes_total}
use ecom_platform.Tax.Allocation.{Outcome, allocate_proportionally-Outcome}

-- Karnataka to Karnataka, with a blank and a small letter in the code.
abbrev within : TaxContext
within = record {
  seller_state_code = 75 ∷ 65 ∷ [];
  place_of_supply_state_code = 107 ∷ 97 ∷ 32 ∷ [];
  registration_type = regular;
  inclusive = true;
}

abbrev shirt : TaxableLine
shirt = record { line_id = 1; taxable_paise = int (pos 9999); tax_rate_bps = int (pos 1800) }

abbrev book : TaxableLine
book = record { line_id = 2; taxable_paise = int (pos 5000); tax_rate_bps = int (pos 0) }

abbrev shirt_tax : LineTax
shirt_tax = record {
  line_id = 1;
  taxable_exclusive_paise = 8474;
  cgst_paise = 763;
  sgst_paise = 762;
  igst_paise = 0;
  tax_paise = 1525;
}

abbrev book_tax : LineTax
book_tax = record {
  line_id = 2;
  taxable_exclusive_paise = 5000;
  cgst_paise = 0;
  sgst_paise = 0;
  igst_paise = 0;
  tax_paise = 0;
}

taxes_run : compute_line_taxes (shirt ∷ book ∷ []) within ≡ ok (shirt_tax ∷ book_tax ∷ [])
unfolding compute_line_taxes line_tax is_intra_state text_eq trim to_upper_case div_half_up
taxes_run = refl

halves_away_from_zero : div_half_up (negsuc 4) (pos 2) ≡ ok (negsuc 2)
unfolding div_half_up
halves_away_from_zero = refl

allocation_run :
    allocate_proportionally
      (int (pos 100))
      (int (pos 1) ∷ int (pos 0) ∷ int (pos 1) ∷ int (pos 1) ∷ [])
    ≡ ok (34 ∷ 0 ∷ 33 ∷ 33 ∷ [])
unfolding allocate_proportionally bump enumerate sort_by
allocation_run = refl

div_half_up-IsRounded_example : IsRounded (negsuc 4) (pos 2) (negsuc 2)
div_half_up-IsRounded_example =
    div_half_up-IsRounded (negsuc 4) (pos 2) (negsuc 2) halves_away_from_zero

compute_line_taxes-IsTaxed_example :
    Matched (IsTaxed within) (shirt ∷ book ∷ []) (shirt_tax ∷ book_tax ∷ [])
compute_line_taxes-IsTaxed_example =
    compute_line_taxes-IsTaxed (shirt ∷ book ∷ []) within (shirt_tax ∷ book_tax ∷ []) taxes_run

compute_line_taxes_total_example : TaxOutcome (shirt ∷ book ∷ []) within
compute_line_taxes_total_example = compute_line_taxes_total (shirt ∷ book ∷ []) within refl

allocate_proportionally-Outcome_example :
    Outcome (int (pos 100)) (int (pos 1) ∷ int (pos 0) ∷ int (pos 1) ∷ int (pos 1) ∷ [])
allocate_proportionally-Outcome_example =
    allocate_proportionally-Outcome (int (pos 100))
      (int (pos 1) ∷ int (pos 0) ∷ int (pos 1) ∷ int (pos 1) ∷ [])
