-- ===== src/Logistics/Tests.antt =====
-- Carrier events, three quotes and a parcel, and the theorems there.
use ecom_platform.Base.{
  ℕ, ◌+◌, ◌-◌, ◌*◌, ◌/◌, ◌≡◌, refl, true, not, none, some, List, [], ◌∷◌, ltb, leb, sort_by,
}
use ecom_platform.Logistics.Status.{
  in_transit, out_for_delivery, delivered, delivery_failed, on_hold, is_status_regression,
}
use ecom_platform.Logistics.Regression.{is_progress, is_status_regression_lem}
use ecom_platform.Logistics.Selection.{
  RateArithmetic, ServiceabilityQuote, SelectionRules, balanced, rejection, apply_constraints,
  score_quote, select_carrier,
}
use ecom_platform.Logistics.Winner.{IsChoice, select_carrier-IsChoice}
use ecom_platform.Logistics.Weight.{
  apply_slab, compute_billable_weight, IsBilled, compute_billable_weight-IsBilled,
}

-- A retried in_transit after the delivery is stale, and so is the second attempt after a failed one.
late_event : is_status_regression delivered in_transit ≡ true
unfolding is_status_regression
late_event = refl

second_attempt : is_status_regression delivery_failed out_for_delivery ≡ true
unfolding is_status_regression
second_attempt = refl

is_status_regression_lem_example :
    is_status_regression out_for_delivery on_hold ≡ not (is_progress out_for_delivery on_hold)
is_status_regression_lem_example = is_status_regression_lem out_for_delivery on_hold

-- Rates in per cent.
abbrev per_cent : RateArithmetic ℕ
per_cent = record {
  is_below = ltb;
  risk_cost = λ rate cost. (elim rate [
    | none ↦ (cost * 10 + 50) / 100
    | some p ↦ ((100 - p) * cost + 50) / 100
  ]);
}

abbrev quote_of : ℕ → ℕ → ℕ → ℕ → ServiceabilityQuote ℕ
quote_of carrier total days rate = record {
  carrier = carrier;
  total_paise = total;
  estimated_days = days;
  cod_supported = true;
  performance_score = some rate;
}

abbrev house_rules : SelectionRules ℕ
house_rules = record {
  strategy = balanced;
  preferred_order = [];
  exclude_carriers = 5 ∷ [];
  max_estimated_days = some 7;
  max_freight_paise = none;
  min_performance_score = some 50;
  day_value_paise = none;
  rto_cost_paise = none;
}

-- The cheapest carrier loses to one that delivers more often.
abbrev lane : List (ServiceabilityQuote ℕ)
lane = quote_of 1 4000 4 60 ∷ quote_of 2 5000 3 98 ∷ quote_of 5 100 1 99 ∷ []

lane_choice :
    (select_carrier per_cent leb house_rules true lane).chosen ≡ some (quote_of 2 5000 3 98)
unfolding select_carrier rejection apply_constraints score_quote sort_by
lane_choice = refl

select_carrier-IsChoice_example :
    IsChoice per_cent leb house_rules true lane (select_carrier per_cent leb house_rules true lane)
select_carrier-IsChoice_example = select_carrier-IsChoice per_cent leb house_rules true lane

half_kilos : (compute_billable_weight 420 1230 500).billable_weight_grams ≡ 1500
unfolding compute_billable_weight apply_slab
half_kilos = refl

compute_billable_weight-IsBilled_example :
    IsBilled 420 1230 500 (compute_billable_weight 420 1230 500)
compute_billable_weight-IsBilled_example = compute_billable_weight-IsBilled 420 1230 500
