-- ===== src/Logistics/Selection.antt =====
-- Rate shopping (packages/core/src/logistics/selection.ts). A historical success rate is a floating
-- point number: its type, its comparison with the minimum and the rounded product of the failure rate
-- and the cost of a return are parameters, and so is the locale's order on carrier codes.
use ecom_platform.Base.{
  ℕ, ◌+◌, ◌*◌, Bool, true, false, not, ◌&&◌, Option, none, some, List, [], ◌∷◌, any, keep, map, suc,
  ltb, leb, ◌==◌, if◌then◌else◌, sort_by,
}

pub data SelectionStrategy : Type 0 where
  cheapest fastest balanced preferred : SelectionStrategy

pub data RejectionReason : Type 0 where
  no_cod_support excluded_by_merchant too_slow above_freight_cap below_performance : RejectionReason

pub record ServiceabilityQuote (Rate : Type 0) : Type 0 where
  pub carrier : ℕ
  pub total_paise : ℕ
  pub estimated_days : ℕ
  pub cod_supported : Bool
  pub performance_score : Option Rate

pub record SelectionRules (Rate : Type 0) : Type 0 where
  pub strategy : SelectionStrategy
  pub preferred_order : List ℕ
  pub exclude_carriers : List ℕ
  pub max_estimated_days : Option ℕ
  pub max_freight_paise : Option ℕ
  pub min_performance_score : Option Rate
  pub day_value_paise : Option ℕ
  pub rto_cost_paise : Option ℕ

-- What a success rate is asked for: whether it is below the minimum, and
-- `Math.round(failureRate * rtoCost)`, where no rate is taken for 0.9.
pub record RateArithmetic (Rate : Type 0) : Type 0 where
  pub is_below : Rate → Rate → Bool
  pub risk_cost : Option Rate → ℕ → ℕ

abbrev pub exceeds : Option ℕ → ℕ → Bool
exceeds none n = false
exceeds (some most) n = ltb most n

-- `indexOf`, with none for -1. A missing list is the empty one.
abbrev pub index_of : List ℕ → ℕ → Option ℕ
index_of [] c = none
index_of (x ∷ xs) c =
    let later = index_of xs c in
    if x == c then some 0 else elim later [ none ↦ none | some i ↦ some (suc i) ]

abbrev pub value_or : ℕ → Option ℕ → ℕ
value_or d none = d
value_or d (some n) = n

abbrev pub default_day_value_paise : ℕ
default_day_value_paise = 1500

abbrev pub same_position : Option ℕ → Option ℕ → Bool
same_position none none = true
same_position none (some i) = false
same_position (some i) none = false
same_position (some i) (some j) = i == j

abbrev pub has_no_reason : Option RejectionReason → Bool
has_no_reason none = true
has_no_reason (some reason) = false

module _ {Rate : Type 0} (arithmetic : RateArithmetic Rate) where
  abbrev pub is_poor : Option Rate → Option Rate → Bool
  is_poor (some least) (some score) = arithmetic.is_below score least
  is_poor (some least) none = false
  is_poor none score = false

  -- The body of the loop: why a quote is rejected, if it is.
  unfoldable pub rejection :
      SelectionRules Rate → Bool → ServiceabilityQuote Rate → Option RejectionReason
  rejection rules cod q =
      if cod && not q.cod_supported
      then some no_cod_support
      else (if any (λ c. c == q.carrier) rules.exclude_carriers
          then some excluded_by_merchant
          else (if exceeds rules.max_estimated_days q.estimated_days
              then some too_slow
              else (if exceeds rules.max_freight_paise q.total_paise
                  then some above_freight_cap
                  else (if is_poor rules.min_performance_score q.performance_score
                      then some below_performance
                      else none))))

  -- `rejected.push({ quote, reason })`, for a reason.
  abbrev pub push_rejected :
      ServiceabilityQuote Rate
      → Option RejectionReason
      → List (ServiceabilityQuote Rate × RejectionReason)
      → List (ServiceabilityQuote Rate × RejectionReason)
  push_rejected q none rest = rest
  push_rejected q (some reason) rest = (q, reason) ∷ rest

  unfoldable pub apply_constraints :
      SelectionRules Rate
      → Bool
      → List (ServiceabilityQuote Rate)
      → List (ServiceabilityQuote Rate × RejectionReason)
  apply_constraints rules cod [] = []
  apply_constraints rules cod (q ∷ qs) =
      let rest = apply_constraints rules cod qs in push_rejected q (rejection rules cod q) rest

  abbrev pub score_by : SelectionStrategy → SelectionRules Rate → ServiceabilityQuote Rate → ℕ
  score_by cheapest rules q = q.total_paise
  score_by fastest rules q = q.estimated_days * 1000000 + q.total_paise
  score_by preferred rules q =
      value_or 9999 (index_of rules.preferred_order q.carrier) * 1000000 + q.total_paise
  score_by balanced rules q =
      q.total_paise
      + q.estimated_days * value_or default_day_value_paise rules.day_value_paise
      + arithmetic.risk_cost q.performance_score (value_or (q.total_paise * 2) rules.rto_cost_paise)

  pub record ScoredQuote : Type 0 where
    pub quote : ServiceabilityQuote Rate
    pub score : ℕ

  unfoldable pub score_quote : SelectionRules Rate → ServiceabilityQuote Rate → ScoredQuote
  score_quote rules q = record { quote = q; score = score_by rules.strategy rules q }

  module _ (locale_le : ℕ → ℕ → Bool) (rules : SelectionRules Rate) where
    -- By score, then by the place among the preferred carriers, then by the carrier's code.
    abbrev pub ranks_no_later : ScoredQuote → ScoredQuote → Bool
    ranks_no_later a b =
        let pa = index_of rules.preferred_order a.quote.carrier in
        let pb = index_of rules.preferred_order b.quote.carrier in
        if a.score == b.score
        then (if same_position pa pb
            then locale_le a.quote.carrier b.quote.carrier
            else leb (value_or 9999 pa) (value_or 9999 pb))
        else ltb a.score b.score

    pub record SelectionResult : Type 0 where
      pub chosen : Option (ServiceabilityQuote Rate)
      pub ranked : List ScoredQuote
      pub rejected : List (ServiceabilityQuote Rate × RejectionReason)

    abbrev pub first_quote : List ScoredQuote → Option (ServiceabilityQuote Rate)
    first_quote [] = none
    first_quote (r ∷ rs) = some r.quote

    abbrev pub is_kept : Bool → ServiceabilityQuote Rate → Bool
    is_kept cod q = has_no_reason (rejection rules cod q)

    -- The set of the rejected quotes holds the quotes with a reason. Sorting nothing gives nothing, as
    -- the early returns do.
    unfoldable pub select_carrier : Bool → List (ServiceabilityQuote Rate) → SelectionResult
    unfolding score_quote
    select_carrier cod quotes =
        let ranked = sort_by ranks_no_later (map (score_quote rules) (keep (is_kept cod) quotes)) in
        record {
          chosen = first_quote ranked;
          ranked = ranked;
          rejected = apply_constraints rules cod quotes;
        }
