-- ===== src/Logistics/Choice.antt =====
-- What selectCarrier promises of the quotes themselves (packages/core/src/logistics/selection.ts).
use ecom_platform.Base.{
  ℕ, ◌+◌, ◌*◌, ◌≤◌, ◌<◌, ◌≡◌, ◌≢◌, ◌⊎◌, inl, inr, refl, Bool, true, false, not, ◌&&◌, Option, none,
  some, List, any, get_elem?, arith, ltb, ◌==◌, Bool-cases, Reflects, Reflects-false, Somewhere,
  any-Reflects, ==_iff,
}
use ecom_platform.Logistics.Selection.{
  RateArithmetic, ServiceabilityQuote, SelectionRules, SelectionStrategy, cheapest, fastest,
  preferred, balanced, RejectionReason, no_cod_support, excluded_by_merchant, too_slow,
  above_freight_cap, below_performance, rejection, exceeds, is_poor,
}

-- A carrier's place in the preferred order: its first position, or 9999 where it is not listed.
abbrev pub HasRank : List ℕ → ℕ → ℕ → Type 0
HasRank order c n =
    ((get_elem? order n ≡ some c) × ((j : ℕ) → j < n → get_elem? order j ≢ some c))
    ⊎ (((j : ℕ) → get_elem? order j ≢ some c) × (n ≡ 9999))

-- A setting, or what stands for it where it is not set.
abbrev pub IsSetTo : Option ℕ → ℕ → ℕ → Type 0
IsSetTo setting standard n = (setting ≡ some n) ⊎ ((setting ≡ none) × (n ≡ standard))

-- First by one number, then by the other.
abbrev pub IsByBoth : (p q p' q' : ℕ) → Type 0
IsByBoth p q p' q' = (p < p') ⊎ ((p ≡ p') × (q ≤ q'))

module _ {Rate : Type 0} (arithmetic : RateArithmetic Rate) (rules : SelectionRules Rate) where
  -- The quote is against the rule that the reason names.
  abbrev pub Breaks : Bool → ServiceabilityQuote Rate → RejectionReason → Type 0
  Breaks cod q no_cod_support = (cod ≡ true) × (q.cod_supported ≡ false)
  Breaks cod q excluded_by_merchant = Somewhere (λ c. c ≡ q.carrier) rules.exclude_carriers
  Breaks cod q too_slow = (m : ℕ) × (rules.max_estimated_days ≡ some m) × (m < q.estimated_days)
  Breaks cod q above_freight_cap =
      (m : ℕ) × (rules.max_freight_paise ≡ some m) × (m < q.total_paise)
  Breaks cod q below_performance =
      (least : Rate) × (score : Rate) × (rules.min_performance_score ≡ some least)
      × (q.performance_score ≡ some score)
      × (arithmetic.is_below score least ≡ true)

  -- None of the rules that are tested before.
  abbrev pub KeepsBefore : Bool → ServiceabilityQuote Rate → RejectionReason → Type 0
  KeepsBefore cod q no_cod_support = Unit
  KeepsBefore cod q excluded_by_merchant = ¬ Breaks cod q no_cod_support
  KeepsBefore cod q too_slow = ¬ Breaks cod q no_cod_support × ¬ Breaks cod q excluded_by_merchant
  KeepsBefore cod q above_freight_cap =
      ¬ Breaks cod q no_cod_support × ¬ Breaks cod q excluded_by_merchant × ¬ Breaks cod q too_slow
  KeepsBefore cod q below_performance =
      ¬ Breaks cod q no_cod_support
      × ¬ Breaks cod q excluded_by_merchant
      × ¬ Breaks cod q too_slow
      × ¬ Breaks cod q above_freight_cap

  abbrev pub IsFirstBroken : Bool → ServiceabilityQuote Rate → RejectionReason → Type 0
  IsFirstBroken cod q reason = Breaks cod q reason × KeepsBefore cod q reason

  -- What the balanced strategy expects a quote to cost.
  pub record IsExpectedCost (q : ServiceabilityQuote Rate) (cost : ℕ) : Type 0 where
    pub day_value : ℕ
    pub return_cost : ℕ
    pub per_day : IsSetTo rules.day_value_paise 1500 day_value
    pub per_return : IsSetTo rules.rto_cost_paise (2 * q.total_paise) return_cost
    pub adds_up :
        cost
        ≡ q.total_paise
          + day_value * q.estimated_days
          + arithmetic.risk_cost q.performance_score return_cost

  -- The number that the strategy ranks a quote by.
  abbrev pub IsScore : SelectionStrategy → ServiceabilityQuote Rate → ℕ → Type 0
  IsScore cheapest q n = n ≡ q.total_paise
  IsScore fastest q n = n ≡ 1000000 * q.estimated_days + q.total_paise
  IsScore preferred q n =
      (place : ℕ) × HasRank rules.preferred_order q.carrier place
      × (n ≡ 1000000 * place + q.total_paise)
  IsScore balanced q n = IsExpectedCost q n

  -- The strategy has `a` before `b`. Freight below a million paise leaves days and places their weight.
  abbrev pub Prefers :
      SelectionStrategy → ServiceabilityQuote Rate → ServiceabilityQuote Rate → Type 0
  Prefers cheapest a b = a.total_paise ≤ b.total_paise
  Prefers fastest a b =
      b.total_paise < 1000000
      → IsByBoth a.estimated_days a.total_paise b.estimated_days b.total_paise
  Prefers preferred a b =
      (m n : ℕ) × HasRank rules.preferred_order a.carrier m
      × HasRank rules.preferred_order b.carrier n
      × (b.total_paise < 1000000 → IsByBoth m a.total_paise n b.total_paise)
  Prefers balanced a b = (x y : ℕ) × IsExpectedCost a x × IsExpectedCost b y × (x ≤ y)

  exceeds-Reflects :
      (o : Option ℕ) (n : ℕ) → Reflects ((m : ℕ) × (o ≡ some m) × (m < n)) (exceeds o n)
  exceeds-Reflects none n = (λ h. absurd (cc), λ (m, e, _). absurd (cc))
  exceeds-Reflects (some k) n = (λ h. (k, refl, ground (arith, h)), λ (m, e, l). over m e l)
    where
      over : (m : ℕ) → some k ≡ some m → m < n → ltb k n ≡ true
      over m e l = let same : k ≡ m = cc in ground (arith, same, l)

  is_poor-Reflects :
      (least score : Option Rate)
      → Reflects
          ((l : Rate) × (s : Rate) × (least ≡ some l)
            × (score ≡ some s)
            × (arithmetic.is_below s l ≡ true))
          (is_poor arithmetic least score)
  is_poor-Reflects none score = (λ h. absurd (cc), λ (l, s, e, _, _). absurd (cc))
  is_poor-Reflects (some l) none = (λ h. absurd (cc), λ (l', s, _, e, _). absurd (cc))
  is_poor-Reflects (some l) (some s) =
      (λ h. (l, s, refl, refl, h), λ (l', s', e, f, g). below l' s' e f g)
    where
      below :
          (l' s' : Rate)
          → some l ≡ some l'
          → some s ≡ some s'
          → arithmetic.is_below s' l' ≡ true
          → arithmetic.is_below s l ≡ true
      below l' s' e f g = let a : l ≡ l' = cc in let b : s ≡ s' = cc in rw (a, b) g

  module _ (cod : Bool) (q : ServiceabilityQuote Rate) where
    cod-Reflects : (c s : Bool) → Reflects ((c ≡ true) × (s ≡ false)) (c && not s)
    cod-Reflects true true = (λ h. absurd (cc), λ (_, e). absurd (cc))
    cod-Reflects true false = (λ h. (refl, refl), λ h. refl)
    cod-Reflects false s = (λ h. absurd (cc), λ (e, _). absurd (cc))

    excluded-Reflects :
        Reflects
          (Breaks cod q excluded_by_merchant)
          (any (λ c. c == q.carrier) rules.exclude_carriers)
    excluded-Reflects =
        any-Reflects (λ c. c ≡ q.carrier) (λ c. c == q.carrier) (λ c. ==_iff c q.carrier)
          rules.exclude_carriers

    abbrev IsJudged : Type 0
    IsJudged =
        ((rejection arithmetic rules cod q ≡ none)
          × ((reason : RejectionReason) → ¬ Breaks cod q reason))
        ⊎ ((reason : RejectionReason) × (rejection arithmetic rules cod q ≡ some reason)
            × IsFirstBroken cod q reason)

    judged : IsJudged
    unfolding rejection
    judged =
        let r1 = cod-Reflects cod q.cod_supported in
        let r2 = excluded-Reflects in
        let r3 = exceeds-Reflects rules.max_estimated_days q.estimated_days in
        let r4 = exceeds-Reflects rules.max_freight_paise q.total_paise in
        let r5 = is_poor-Reflects rules.min_performance_score q.performance_score in
        elim (Bool-cases (cod && not q.cod_supported)) [
          | inl e1 ↦ inr (no_cod_support, rw (e1, rejection) refl, (r1.0 e1, tt))
          | inr e1 ↦
              let k1 : ¬ Breaks cod q no_cod_support = Reflects-false _ _ r1 e1 in
              elim (Bool-cases (any (λ c. c == q.carrier) rules.exclude_carriers)) [
                | inl e2 ↦ inr (excluded_by_merchant, rw (e1, e2, rejection) refl, (r2.0 e2, k1))
                | inr e2 ↦
                    let k2 : ¬ Breaks cod q excluded_by_merchant = Reflects-false _ _ r2 e2 in
                    elim (Bool-cases (exceeds rules.max_estimated_days q.estimated_days)) [
                      | inl e3 ↦
                          inr (too_slow, rw (e1, e2, e3, rejection) refl, (r3.0 e3, (k1, k2)))
                      | inr e3 ↦
                          let k3 : ¬ Breaks cod q too_slow = Reflects-false _ _ r3 e3 in
                          elim (Bool-cases (exceeds rules.max_freight_paise q.total_paise)) [
                            | inl e4 ↦ inr (
                              above_freight_cap,
                              rw (e1, e2, e3, e4, rejection) refl,
                              (r4.0 e4, (k1, k2, k3)),
                            )
                            | inr e4 ↦
                                let k4 : ¬ Breaks cod q above_freight_cap =
                                  Reflects-false _ _ r4 e4 in
                                elim (Bool-cases (
                                  is_poor arithmetic rules.min_performance_score
                                    q.performance_score)) [
                                      | inl e5 ↦ inr (
                                        below_performance,
                                        rw (e1, e2, e3, e4, e5, rejection) refl,
                                        (r5.0 e5, (k1, k2, k3, k4)),
                                      )
                                      | inr e5 ↦ inl (
                                        rw (e1, e2, e3, e4, e5, rejection) refl,
                                        all_kept k1 k2 k3 k4 (Reflects-false _ _ r5 e5),
                                      )
                                    ]
                          ]
                    ]
              ]
        ]
      where
        all_kept :
            ¬ Breaks cod q no_cod_support
            → ¬ Breaks cod q excluded_by_merchant
            → ¬ Breaks cod q too_slow
            → ¬ Breaks cod q above_freight_cap
            → ¬ Breaks cod q below_performance
            → (reason : RejectionReason) → ¬ Breaks cod q reason
        all_kept a b c d e no_cod_support = a
        all_kept a b c d e excluded_by_merchant = b
        all_kept a b c d e too_slow = c
        all_kept a b c d e above_freight_cap = d
        all_kept a b c d e below_performance = e

    pub kept-allowed :
        rejection arithmetic rules cod q ≡ none → (reason : RejectionReason) → ¬ Breaks cod q reason
    kept-allowed h = elim judged [ inl (_, ok) ↦ ok | inr (reason, e, _) ↦ absurd (clash reason e) ]
      where
        clash : (reason : RejectionReason) → rejection arithmetic rules cod q ≡ some reason → ⊥
        clash reason e = cc

    pub rejected-IsFirstBroken :
        (reason : RejectionReason)
        → rejection arithmetic rules cod q ≡ some reason
        → IsFirstBroken cod q reason
    rejected-IsFirstBroken reason h = elim judged [
      | inl (e, _) ↦ absurd (clash e)
      | inr (other, e, broken) ↦ let same : other ≡ reason = alike other e in rw same at broken
    ]
      where
        clash : rejection arithmetic rules cod q ≡ none → ⊥
        clash e = cc

        alike : (o : RejectionReason) → rejection arithmetic rules cod q ≡ some o → o ≡ reason
        alike o e = cc
