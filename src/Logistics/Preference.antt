-- ===== src/Logistics/Preference.antt =====
-- That the score of a strategy (packages/core/src/logistics/selection.ts) orders the quotes as the
-- strategy's name says.
use ecom_platform.Base.{
  ℕ, zero, suc, ◌+◌, ◌*◌, ◌≤◌, ◌<◌, ◌≡◌, ◌≢◌, inl, inr, refl, ap, false, Option, none, some, List,
  [], ◌∷◌, get_elem?, arith, ◌==◌, Bool-cases, ==_iff, ltb,
}
use ecom_platform.Logistics.Selection.{
  RateArithmetic, ServiceabilityQuote, SelectionRules, SelectionStrategy, cheapest, fastest,
  preferred, balanced, score_by, index_of, value_or, default_day_value_paise,
}
use ecom_platform.Logistics.Choice.{HasRank, IsSetTo, IsByBoth, IsExpectedCost, IsScore, Prefers}

abbrev IsFirstAt : List ℕ → ℕ → Option ℕ → Type 0
IsFirstAt xs c none = (j : ℕ) → get_elem? xs j ≢ some c
IsFirstAt xs c (some i) = (get_elem? xs i ≡ some c) × ((j : ℕ) → j < i → get_elem? xs j ≢ some c)

index_of-IsFirstAt : (xs : List ℕ) (c : ℕ) → IsFirstAt xs c (index_of xs c)
index_of-IsFirstAt [] c = λ j e. cc
index_of-IsFirstAt (x ∷ xs) c = elim (Bool-cases (x == c)) [
  | inl e ↦ rw e (ap (λ n. some n) ((==_iff x c).0 e), λ j l. absurd (omega arith))
  | inr e ↦ rw e (one_on (λ q. differ q e) (index_of xs c) (index_of-IsFirstAt xs c))
]
  where
    differ : x ≡ c → (x == c) ≡ false → ⊥
    differ q e = ground (arith, q, e)

    one_on :
        x ≢ c
        → (o : Option ℕ) → IsFirstAt xs c o
        → IsFirstAt (x ∷ xs) c (elim o [ none ↦ none | some i ↦ some (suc i) ])
    one_on ne none h = λ j. absent j
      where
        absent : (j : ℕ) → get_elem? (x ∷ xs) j ≢ some c
        absent zero e = ne (cc)
        absent (suc j) e = h j e
    one_on ne (some i) h = (h.0, λ j l. absent j l)
      where
        absent : (j : ℕ) → j < suc i → get_elem? (x ∷ xs) j ≢ some c
        absent zero l e = ne (cc)
        absent (suc j) l e = h.1 j (omega arith) e

pub place-HasRank : (order : List ℕ) (c : ℕ) → HasRank order c (value_or 9999 (index_of order c))
place-HasRank order c = of_place (index_of order c) (index_of-IsFirstAt order c)
  where
    of_place : (o : Option ℕ) → IsFirstAt order c o → HasRank order c (value_or 9999 o)
    of_place none h = inr (h, refl)
    of_place (some i) h = inl h

value_or-IsSetTo : (standard : ℕ) (o : Option ℕ) → IsSetTo o standard (value_or standard o)
value_or-IsSetTo standard none = inr (refl, refl)
value_or-IsSetTo standard (some n) = inl refl

-- With the second number below the factor, the sum compares by both.
by_both : (p q p' q' : ℕ) → p * 1000000 + q ≤ p' * 1000000 + q' → q' < 1000000 → IsByBoth p q p' q'
by_both p q p' q' h small = elim (Bool-cases (ltb p p')) [
  | inl e ↦ inl (ground (arith, e))
  | inr e ↦ let back : p' ≤ p = ground (arith, e) in inr (omega (arith, back), omega (arith, back))
]

module _ {Rate : Type 0} (arithmetic : RateArithmetic Rate) (rules : SelectionRules Rate) where
  expected :
      (q : ServiceabilityQuote Rate)
      → IsExpectedCost arithmetic rules q (score_by arithmetic balanced rules q)
  expected q = record {
    day_value = value_or default_day_value_paise rules.day_value_paise;
    return_cost = value_or (q.total_paise * 2) rules.rto_cost_paise;
    per_day = value_or-IsSetTo 1500 rules.day_value_paise;
    per_return = doubled (value_or-IsSetTo (q.total_paise * 2) rules.rto_cost_paise);
    adds_up = omega arith;
  }
    where
      doubled :
          {n : ℕ}
          → IsSetTo rules.rto_cost_paise (q.total_paise * 2) n
          → IsSetTo rules.rto_cost_paise (2 * q.total_paise) n
      doubled (inl e) = inl e
      doubled (inr (e, f)) = inr (e, omega (arith, f))

  pub score_by-Prefers :
      (s : SelectionStrategy) (a b : ServiceabilityQuote Rate)
      → score_by arithmetic s rules a ≤ score_by arithmetic s rules b
      → Prefers arithmetic rules s a b
  score_by-Prefers cheapest a b h = h
  score_by-Prefers fastest a b h = λ small. by_both _ _ _ _ h small
  score_by-Prefers preferred a b h = (
    value_or 9999 (index_of rules.preferred_order a.carrier),
    value_or 9999 (index_of rules.preferred_order b.carrier),
    place-HasRank rules.preferred_order a.carrier,
    place-HasRank rules.preferred_order b.carrier,
    λ small. by_both _ _ _ _ h small,
  )
  score_by-Prefers balanced a b h = (
    score_by arithmetic balanced rules a,
    score_by arithmetic balanced rules b,
    expected a,
    expected b,
    h,
  )

  pub score_by-IsScore :
      (s : SelectionStrategy) (q : ServiceabilityQuote Rate)
      → IsScore arithmetic rules s q (score_by arithmetic s rules q)
  score_by-IsScore cheapest q = refl
  score_by-IsScore fastest q = omega arith
  score_by-IsScore preferred q = (
    value_or 9999 (index_of rules.preferred_order q.carrier),
    place-HasRank rules.preferred_order q.carrier,
    omega arith,
  )
  score_by-IsScore balanced q = expected q
