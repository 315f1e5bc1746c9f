-- ===== src/Logistics/Ranking.antt =====
-- The ranking of selectCarrier in the terms of its definition: tests, scores and counts.
use ecom_platform.Base.{
  ℕ, ◌+◌, ◌≤◌, ◌<◌, ◌⊎◌, ◌==◌, Option, Bool-cases, ◌≡◌, refl, Bool, true, false, none, some, List,
  [], ◌∷◌, keep, map, sum_of, All, arith, sum_of-sort_by, All-sort_by, sort_by-IsOrdered, IsOrdered,
  Option-cases, inl, inr,
}
use ecom_platform.Logistics.Selection.{
  RateArithmetic, ServiceabilityQuote, SelectionRules, RejectionReason, rejection,
  apply_constraints, ScoredQuote, score_quote, score_by, ranks_no_later, SelectionResult,
  first_quote, is_kept, select_carrier, value_or, index_of, same_position,
}

same_place : (p q : Option ℕ) → same_position p q ≡ true → value_or 9999 p ≡ value_or 9999 q
same_place none none h = refl
same_place none (some j) h = absurd (cc)
same_place (some i) none h = absurd (cc)
same_place (some i) (some j) h = ground (arith, h)

module _ {Rate : Type 0} (arithmetic : RateArithmetic Rate) (locale_le : ℕ → ℕ → Bool)
    (rules : SelectionRules Rate) where
  -- A ranked quote may carry the parcel and has its strategy's score.
  abbrev pub IsSound : Bool → ScoredQuote arithmetic → Type 0
  IsSound cod r =
      (rejection arithmetic rules cod r.quote ≡ none)
      × (r.score ≡ score_by arithmetic rules.strategy rules r.quote)

  abbrev pub place : ScoredQuote arithmetic → ℕ
  place r = value_or 9999 (index_of rules.preferred_order r.quote.carrier)

  -- The scores rise, and equal ones go by the carriers' places.
  abbrev pub IsNoLater : ScoredQuote arithmetic → ScoredQuote arithmetic → Type 0
  IsNoLater a b = (a.score < b.score) ⊎ ((a.score ≡ b.score) × (place a ≤ place b))

  abbrev kept : Bool → List (ServiceabilityQuote Rate) → List (ServiceabilityQuote Rate)
  kept cod = keep (is_kept arithmetic locale_le rules cod)

  module _ (cod : Bool) (q : ServiceabilityQuote Rate) (qs : List (ServiceabilityQuote Rate)) where
    keep_kept : rejection arithmetic rules cod q ≡ none → kept cod (q ∷ qs) ≡ q ∷ kept cod qs
    keep_kept h = rw h refl

    keep_dropped :
        (r : RejectionReason)
        → rejection arithmetic rules cod q ≡ some r
        → kept cod (q ∷ qs) ≡ kept cod qs
    keep_dropped r h = rw h refl

    note_kept :
        rejection arithmetic rules cod q ≡ none
        → apply_constraints arithmetic rules cod (q ∷ qs)
          ≡ apply_constraints arithmetic rules cod qs
    unfolding apply_constraints
    note_kept h = rw h refl

    note_dropped :
        (r : RejectionReason)
        → rejection arithmetic rules cod q ≡ some r
        → apply_constraints arithmetic rules cod (q ∷ qs)
          ≡ (q, r) ∷ apply_constraints arithmetic rules cod qs
    unfolding apply_constraints
    note_dropped r h = rw h refl

  scored-IsSound :
      (cod : Bool) (qs : List (ServiceabilityQuote Rate))
      → All (IsSound cod) (map (score_quote arithmetic rules) (kept cod qs))
  unfolding score_quote
  scored-IsSound cod [] = tt
  scored-IsSound cod (q ∷ qs) = elim (Option-cases (rejection arithmetic rules cod q)) [
    | inl fine ↦ rw (keep_kept cod q qs fine) ((fine, refl), scored-IsSound cod qs)
    | inr (reason, refusal) ↦ rw (keep_dropped cod q qs reason refusal) (scored-IsSound cod qs)
  ]

  -- Every quote is scored once or rejected once.
  quote_count :
      (f : ServiceabilityQuote Rate → ℕ) (cod : Bool) (qs : List (ServiceabilityQuote Rate))
      → sum_of (λ r. f r.quote) (map (score_quote arithmetic rules) (kept cod qs))
          + sum_of (λ r. f r.0) (apply_constraints arithmetic rules cod qs)
        ≡ sum_of f qs
  unfolding score_quote apply_constraints
  quote_count f cod [] = refl
  quote_count f cod (q ∷ qs) = elim (Option-cases (rejection arithmetic rules cod q)) [
    | inl fine ↦
        rw (keep_kept cod q qs fine, note_kept cod q qs fine) (omega (arith, quote_count f cod qs))
    | inr (reason, refusal) ↦
        rw (keep_dropped cod q qs reason refusal, note_dropped cod q qs reason refusal)
          (omega (arith, quote_count f cod qs))
  ]

  rejected_with_reason :
      (cod : Bool) (qs : List (ServiceabilityQuote Rate))
      → All
          (λ r. rejection arithmetic rules cod r.0 ≡ some r.1)
          (apply_constraints arithmetic rules cod qs)
  unfolding apply_constraints
  rejected_with_reason cod [] = tt
  rejected_with_reason cod (q ∷ qs) = elim (Option-cases (rejection arithmetic rules cod q)) [
    | inl fine ↦ rw (note_kept cod q qs fine) (rejected_with_reason cod qs)
    | inr (reason, refusal) ↦
        rw (note_dropped cod q qs reason refusal) (refusal, rejected_with_reason cod qs)
  ]

  pub record IsSelection (cod : Bool) (quotes : List (ServiceabilityQuote Rate))
      (result : SelectionResult arithmetic locale_le rules) : Type 0 where
    pub sound : All (IsSound cod) result.ranked
    pub rejected_rightly : All (λ r. rejection arithmetic rules cod r.0 ≡ some r.1) result.rejected
    pub all_accounted :
        (f : ServiceabilityQuote Rate → ℕ)
        → sum_of (λ r. f r.quote) result.ranked + sum_of (λ r. f r.0) result.rejected
          ≡ sum_of f quotes
    pub rising : IsOrdered IsNoLater result.ranked
    pub first : result.chosen ≡ first_quote arithmetic locale_le rules result.ranked

  pub select_carrier-IsSelection :
      (cod : Bool) (quotes : List (ServiceabilityQuote Rate))
      → IsSelection cod quotes (select_carrier arithmetic locale_le rules cod quotes)
  unfolding select_carrier
  select_carrier-IsSelection cod quotes = record {
    sound = All-sort_by le _ scored (scored-IsSound cod quotes);
    rejected_rightly = rejected_with_reason cod quotes;
    all_accounted =
        λ f. (omega (arith, sum_of-sort_by le (λ r. f r.quote) scored, quote_count f cod quotes));
    rising =
        sort_by-IsOrdered le IsNoLater (λ a b h. earlier a b h) (λ a b h. later a b h)
          (λ a b c p q. through a b c p q) scored;
    first = refl;
  }
    where
      le : ScoredQuote arithmetic → ScoredQuote arithmetic → Bool
      le = ranks_no_later arithmetic locale_le rules

      scored : List (ScoredQuote arithmetic)
      scored =
          map (score_quote arithmetic rules) (keep (is_kept arithmetic locale_le rules cod) quotes)

      earlier : (a b : ScoredQuote arithmetic) → le a b ≡ true → IsNoLater a b
      earlier a b h = elim (Bool-cases (a.score == b.score)) [
        | inr other ↦ inl (ground (arith, h, other))
        | inl tied ↦ inr (
          ground (arith, tied),
          elim (Bool-cases (same_position pa pb)) [
            | inl e ↦ omega (arith, same_place pa pb e)
            | inr e ↦ ground (arith, h, tied, e)
          ],
        )
      ]
        where
          pa : Option ℕ
          pa = index_of rules.preferred_order a.quote.carrier

          pb : Option ℕ
          pb = index_of rules.preferred_order b.quote.carrier

      later : (a b : ScoredQuote arithmetic) → le a b ≡ false → IsNoLater b a
      later a b h = elim (Bool-cases (a.score == b.score)) [
        | inr other ↦ inl (ground (arith, h, other))
        | inl tied ↦ inr (
          ground (arith, tied),
          elim (Bool-cases (same_position pa pb)) [
            | inl e ↦ omega (arith, same_place pa pb e)
            | inr e ↦ ground (arith, h, tied, e)
          ],
        )
      ]
        where
          pa : Option ℕ
          pa = index_of rules.preferred_order a.quote.carrier

          pb : Option ℕ
          pb = index_of rules.preferred_order b.quote.carrier

      through : (a b c : ScoredQuote arithmetic) → IsNoLater a b → IsNoLater b c → IsNoLater a c
      through a b c (inl p) (inl q) = inl (omega arith)
      through a b c (inl p) (inr (q, _)) = inl (omega arith)
      through a b c (inr (p, _)) (inl q) = inl (omega arith)
      through a b c (inr (p, x)) (inr (q, y)) = inr (omega arith, omega arith)
