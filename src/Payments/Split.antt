-- ===== src/Payments/Split.antt =====
-- What computeAdvanceSplit returns, and when it throws.
use ecom_platform.Base.{
  ℕ, ◌+◌, ◌-◌, ◌*◌, ◌/◌, ◌≤◌, ◌<◌, min, ◌≡◌, ◌≢◌, ◌⊎◌, inl, inr, true, not, none, some, ok, err,
  bound_value, refuse_if, invalid_payload, internal, JsNumber, nat_value, arith, Option-cases,
}
use ecom_platform.Tax.Rounding.{IsNearest}
use ecom_platform.Payments.{
  AdvancePolicy, PaymentMode, prepaid, cod, cod_advance, AdvanceSplit, gateway_min_order_paise,
  is_payable, advance_of, partial_split, advance_split, split_by_mode, compute_advance_split,
}

-- The advance of the partial mode: at most the total, at least the smaller of the floor and the
-- total, nothing or payable at the gateway, and the rounded percentage where no bound interferes.
pub record IsAdvance (total bps min_advance advance : ℕ) : Type 0 where
  pub within : advance ≤ total
  pub floor : min min_advance total ≤ advance
  pub payable : (advance ≡ 0) ⊎ (min gateway_min_order_paise total ≤ advance)
  pub rounded :
      gateway_min_order_paise < advance
      → min_advance < advance
      → advance < total
      → IsNearest (total * bps) 10000 advance

nearest : (p q : ℕ) → q ≡ (p + 5000) / 10000 → IsNearest p 10000 q
nearest p q e = omega arith

advance_of-IsAdvance :
    (total bps min_advance : ℕ) → IsAdvance total bps min_advance (advance_of total bps min_advance)
unfolding advance_of
advance_of-IsAdvance total bps min_advance = record {
  within = ground arith;
  floor = ground arith;
  payable = ground arith;
  rounded = λ b c d. nearest _ _ (ground arith);
}

-- What a split of `total` must satisfy in each mode.
abbrev pub IsSplitFor : PaymentMode → AdvancePolicy → ℕ → AdvanceSplit → Type 0
IsSplitFor prepaid policy total s = s.advance_paise ≡ total
IsSplitFor cod policy total s = (policy.cod_enabled ≡ true) × (s.advance_paise ≡ 0)
IsSplitFor cod_advance policy total s =
    (policy.cod_enabled ≡ true)
    × ((bps : JsNumber) × (policy.advance_bps ≡ some bps)
        × (nat_value bps ≤ 10000)
        × IsAdvance total (nat_value bps) (nat_value policy.min_advance_paise) s.advance_paise)

partial_split_inverts :
    (total : ℕ) (bps least : JsNumber) (s : AdvanceSplit)
    → partial_split total bps least ≡ ok s
    → (nat_value bps ≤ 10000)
      × (s.advance_paise ≡ advance_of total (nat_value bps) (nat_value least))
      × (s.cod_due_paise ≡ total - s.advance_paise)
unfolding partial_split
partial_split_inverts total bps least s h = ground arith

partial_split-IsAdvance :
    (total : ℕ) (bps least : JsNumber) (s : AdvanceSplit)
    → partial_split total bps least ≡ ok s
    → (s.advance_paise + s.cod_due_paise ≡ total)
      × (nat_value bps ≤ 10000)
      × IsAdvance total (nat_value bps) (nat_value least) s.advance_paise
partial_split-IsAdvance total bps least s h =
    let (bound, e, f) = partial_split_inverts total bps least s h in
    let adv = advance_of-IsAdvance total (nat_value bps) (nat_value least) in
    (omega (arith, adv.within), bound, rw e adv)

split_by_mode-IsSplitFor :
    (total : ℕ) (policy : AdvancePolicy) (mode : PaymentMode) (s : AdvanceSplit)
    → split_by_mode total policy mode ≡ ok s
    → (s.advance_paise + s.cod_due_paise ≡ total) × IsSplitFor mode policy total s
unfolding split_by_mode advance_split
split_by_mode-IsSplitFor total policy prepaid s h = ground arith
split_by_mode-IsSplitFor total policy cod s h = ground arith
split_by_mode-IsSplitFor total policy cod_advance s h = elim (Option-cases policy.advance_bps) [
  | inl e ↦ absurd (no_rate e)
  | inr (bps, e) ↦ with_rate bps e
]
  where
    no_rate : policy.advance_bps ≡ none → ⊥
    no_rate e = ground arith

    with_rate :
        (bps : JsNumber)
        → policy.advance_bps ≡ some bps
        → (s.advance_paise + s.cod_due_paise ≡ total) × IsSplitFor cod_advance policy total s
    with_rate bps e =
        let called : partial_split total bps policy.min_advance_paise ≡ ok s = ground arith in
        let on : policy.cod_enabled ≡ true = ground arith in
        let (whole, bound, adv) =
          partial_split-IsAdvance total bps policy.min_advance_paise s called in
        (whole, (on, (bps, e, bound, adv)))

-- Every split that computeAdvanceSplit returns adds up to the total exactly. Prepaid advances all of
-- it; COD advances nothing, and is returned only where the store allows it; the partial mode, only
-- where COD is allowed and a percentage is set that is at most 10000 bps, advances at most the total,
-- at least the smaller of the configured floor and the total, nothing or at least the smaller of one
-- rupee and the total, and the nearest paisa to the percentage where none of these bounds is met.
pub compute_advance_split-IsSplitFor :
    (total : JsNumber) (policy : AdvancePolicy) (mode : PaymentMode) (s : AdvanceSplit)
    → compute_advance_split total policy mode ≡ ok s
    → (s.advance_paise + s.cod_due_paise ≡ nat_value total)
      × IsSplitFor mode policy (nat_value total) s
unfolding compute_advance_split
compute_advance_split-IsSplitFor total policy mode s h =
    let (_, _, f) = bound_value (refuse_if (not (is_payable total)) invalid_payload) _ h in
    split_by_mode-IsSplitFor (nat_value total) policy mode s f

advance_of_le : (total bps least : ℕ) → advance_of total bps least ≤ total
advance_of_le total bps least = (advance_of-IsAdvance total bps least).within

partial_split-ne-internal :
    (total : ℕ) (bps least : JsNumber) → partial_split total bps least ≢ err internal
unfolding partial_split
partial_split-ne-internal total bps least h =
    ground (arith, advance_of_le total (nat_value bps) (nat_value least))

split_by_mode-ne-internal :
    (total : ℕ) (policy : AdvancePolicy) (mode : PaymentMode)
    → split_by_mode total policy mode ≢ err internal
unfolding split_by_mode advance_split
split_by_mode-ne-internal total policy prepaid h = cc
split_by_mode-ne-internal total policy cod h = ground arith
split_by_mode-ne-internal total policy cod_advance h = elim (Option-cases policy.advance_bps) [
  | inl e ↦ ground arith
  | inr (bps, e) ↦ ground (arith, partial_split-ne-internal total bps policy.min_advance_paise)
]

pub compute_advance_split-ne-internal :
    (total : JsNumber) (policy : AdvancePolicy) (mode : PaymentMode)
    → compute_advance_split total policy mode ≢ err internal
unfolding compute_advance_split
compute_advance_split-ne-internal total policy mode h =
    ground (arith, split_by_mode-ne-internal (nat_value total) policy mode)
