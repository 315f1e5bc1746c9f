-- ===== src/Logistics/Winner.antt =====
-- The whole of what selectCarrier promises (packages/core/src/logistics/selection.ts).
use ecom_platform.Base.{
  ℕ, ◌+◌, ◌≤◌, ◌≡◌, ◌⊎◌, inl, inr, refl, sym, arith, Bool, none, some, List, [], ◌∷◌, sum_of, All,
  All-map, IsOrdered,
}
use ecom_platform.Logistics.Selection.{
  RateArithmetic, ServiceabilityQuote, SelectionRules, RejectionReason, ScoredQuote,
  SelectionResult, first_quote, select_carrier,
}
use ecom_platform.Logistics.Ranking.{IsSound, IsNoLater, place, select_carrier-IsSelection}
use ecom_platform.Logistics.Choice.{
  Breaks, IsFirstBroken, HasRank, IsScore, Prefers, kept-allowed, rejected-IsFirstBroken,
}
use ecom_platform.Logistics.Preference.{score_by-Prefers, score_by-IsScore, place-HasRank}

module _ {ℓ} {A : Type ℓ} (P : A → Type 0) (R S : A → A → Type 0)
    (sharpen : (a b : A) → P a → P b → R a b → S a b) where
  All-sharpened : (a : A) (xs : List A) → P a → All P xs → All (R a) xs → All (S a) xs
  All-sharpened a [] p v r = tt
  All-sharpened a (x ∷ xs) p v r = (sharpen a x p v.0 r.0, All-sharpened a xs p v.1 r.1)

  IsOrdered-sharpened : (xs : List A) → All P xs → IsOrdered R xs → IsOrdered S xs
  IsOrdered-sharpened [] v r = tt
  IsOrdered-sharpened (x ∷ xs) v r =
      (All-sharpened x xs v.0 v.1 r.0, IsOrdered-sharpened xs v.1 r.1)

module _ {Rate : Type 0} (arithmetic : RateArithmetic Rate) (locale_le : ℕ → ℕ → Bool)
    (rules : SelectionRules Rate) where
  pub record IsChoice (cod : Bool) (quotes : List (ServiceabilityQuote Rate))
      (result : SelectionResult arithmetic locale_le rules) : Type 0 where
    pub allowed :
        All
          (λ r. (reason : RejectionReason) → ¬ Breaks arithmetic rules cod r.quote reason)
          result.ranked
    pub rightly_rejected : All (λ r. IsFirstBroken arithmetic rules cod r.0 r.1) result.rejected
    pub all_accounted :
        (f : ServiceabilityQuote Rate → ℕ)
        → sum_of (λ r. f r.quote) result.ranked + sum_of (λ r. f r.0) result.rejected
          ≡ sum_of f quotes
    pub scored : All (λ r. IsScore arithmetic rules rules.strategy r.quote r.score) result.ranked
    pub best_first :
        IsOrdered (λ a b. Prefers arithmetic rules rules.strategy a.quote b.quote) result.ranked
    pub tied :
        IsOrdered
          (λ a b.
            a.score ≡ b.score
            → (m n : ℕ) × HasRank rules.preferred_order a.quote.carrier m
              × HasRank rules.preferred_order b.quote.carrier n
              × (m ≤ n))
          result.ranked
    pub chosen_first :
        ((result.ranked ≡ []) × (result.chosen ≡ none))
        ⊎ ((r : ScoredQuote arithmetic) × (rest : List (ScoredQuote arithmetic)) × (result.ranked
              ≡ r ∷ rest)
            × (result.chosen ≡ some r.quote))

  first_of :
      (rs : List (ScoredQuote arithmetic))
      → ((rs ≡ []) × (first_quote arithmetic locale_le rules rs ≡ none))
        ⊎ ((r : ScoredQuote arithmetic) × (rest : List (ScoredQuote arithmetic)) × (rs ≡ r ∷ rest)
            × (first_quote arithmetic locale_le rules rs ≡ some r.quote))
  first_of [] = inl (refl, refl)
  first_of (r ∷ rest) = inr (r, rest, refl, refl)

  -- selectCarrier ranks quotes that break no rule: cash on delivery where it is asked for, the excluded
  -- carriers, the caps on days and freight, the least success rate where one is known. It rejects the
  -- others, each with the first rule in this order that it breaks. Counted by whatever is read from a
  -- quote, the ranked and the rejected together are the quotes given. Each ranked quote is preferred to
  -- the later ones: by freight for `cheapest`; by days and then freight for `fastest`, and by the place
  -- in the preferred order, with 9999 for a carrier that is not listed, and then freight for
  -- `preferred`, both where the later one's freight is below a million paise; for `balanced` by freight,
  -- the days' value and the cost of the risk together. The score is that number, days and places
  -- counting a million each, and where two have the same score the one whose carrier has the earlier
  -- place in the preferred order comes first. The quote chosen is the first, and there is none
  -- only where none is ranked. This holds whatever the arithmetic of rates and the locale's order of
  -- carrier codes are.
  pub select_carrier-IsChoice :
      (cod : Bool) (quotes : List (ServiceabilityQuote Rate))
      → IsChoice cod quotes (select_carrier arithmetic locale_le rules cod quotes)
  select_carrier-IsChoice cod quotes =
      let result = select_carrier arithmetic locale_le rules cod quotes in
      let s = select_carrier-IsSelection arithmetic locale_le rules cod quotes in
      record {
        allowed =
            All-map (λ r sound. kept-allowed arithmetic rules cod r.quote sound.0) result.ranked
              s.sound;
        rightly_rejected =
            All-map (λ r e. rejected-IsFirstBroken arithmetic rules cod r.0 r.1 e) result.rejected
              s.rejected_rightly;
        all_accounted = s.all_accounted;
        scored =
            All-map
              (λ r sound.
                rw (sym sound.1) at (score_by-IsScore arithmetic rules rules.strategy r.quote))
              result.ranked s.sound;
        best_first =
            IsOrdered-sharpened (IsSound arithmetic locale_le rules cod) later
              (λ a b. Prefers arithmetic rules rules.strategy a.quote b.quote)
              (λ a b p q h.
                score_by-Prefers arithmetic rules rules.strategy a.quote b.quote
                  (rw (p.1, q.1) at (no_more a b h)))
              result.ranked s.sound s.rising;
        tied =
            IsOrdered-sharpened (IsSound arithmetic locale_le rules cod) later _
              (λ a b p q h same. (
                place arithmetic locale_le rules a,
                place arithmetic locale_le rules b,
                place-HasRank rules.preferred_order a.quote.carrier,
                place-HasRank rules.preferred_order b.quote.carrier,
                by_place a b h same,
              ))
              result.ranked s.sound s.rising;
        chosen_first = rw s.first (first_of result.ranked);
      }
    where
      later : ScoredQuote arithmetic → ScoredQuote arithmetic → Type 0
      later = IsNoLater arithmetic locale_le rules

      no_more : (a b : ScoredQuote arithmetic) → later a b → a.score ≤ b.score
      no_more a b (inl h) = omega arith
      no_more a b (inr (h, _)) = omega arith

      by_place :
          (a b : ScoredQuote arithmetic)
          → later a b
          → a.score ≡ b.score
          → place arithmetic locale_le rules a ≤ place arithmetic locale_le rules b
      by_place a b (inl h) same = absurd (omega arith)
      by_place a b (inr (_, h)) same = h
