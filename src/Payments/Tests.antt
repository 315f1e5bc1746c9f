-- ===== src/Payments/Tests.antt =====
-- Splits at concrete totals, and the theorems there.
use ecom_platform.Base.{◌+◌, ◌≡◌, refl, true, some, ok, int, pos, nat_value}
use ecom_platform.Payments.{
  AdvancePolicy, cod_advance, AdvanceSplit, advance_of, compute_advance_split,
}
use ecom_platform.Payments.Split.{IsSplitFor, compute_advance_split-IsSplitFor}

-- 20% in advance, and at least 50 rupees.
abbrev fifth : AdvancePolicy
fifth = record {
  cod_enabled = true;
  advance_bps = some (int (pos 2000));
  min_advance_paise = int (pos 5000);
}

abbrev split_of_order : AdvanceSplit
split_of_order = record { advance_paise = 26001; cod_due_paise = 104003 }

split_run : compute_advance_split (int (pos 130004)) fifth cod_advance ≡ ok split_of_order
unfolding compute_advance_split advance_of
split_run = refl

compute_advance_split-IsSplitFor_example :
    (26001 + 104003 ≡ nat_value (int (pos 130004)))
    × IsSplitFor cod_advance fifth 130004 split_of_order
compute_advance_split-IsSplitFor_example =
    compute_advance_split-IsSplitFor (int (pos 130004)) fifth cod_advance split_of_order split_run
