-- ===== src/Promotions/Eligible.antt =====
-- When a promotion applies, rule by rule, and what it takes off (packages/core/src/promotions/index.ts).
use ecom_platform.Base.{
  ℕ, ◌+◌, ◌*◌, ◌/◌, ◌≤◌, ◌<◌, min, ◌≡◌, ◌≢◌, ◌⊎◌, inl, inr, refl, ap, sym, true, false, Option,
  none, some, List, [], ◌∷◌, map, length, All, Matched, sum, sum-map, arith, Reflects,
  Reflects-false, and-Reflects, Somewhere, any-Reflects, all-Reflects,
}
use ecom_platform.Promotions.{
  Effect, flat_off, percent_off, free_shipping, buy_x_get_y, unknown_effect, PromotionData,
  CartForEvaluation, Customer, AppliedDiscount, PromotionRefusalReason, refused, applicable,
  evaluate_promotion, bps_of, eligible_lines,
}
use ecom_platform.Promotions.Outcome.{
  passes, applies, off_of, ships_free, is_eligible, discount_of, evaluate_promotion-Outcome,
}
use ecom_platform.Promotions.Greedy.{
  IsCheapest, quantities, batches_of, buy_x_get_y_discount-IsCheapest,
}
use ecom_platform.Tax.Rounding.{IsNearest}
use ecom_platform.Promotions.Rules.{
  Satisfies, IsUseful, starts_later-Reflects, has_ended-Reflects, is_unidentifiable-Reflects,
  passes-Reflects,
}

pub record IsEligible (promo : PromotionData) (cart : CartForEvaluation)
    (customer : Option Customer) (now : ℕ) : Type 0 where
  pub started : (t : ℕ) → promo.starts_at ≡ some t → t ≤ now
  pub running : (t : ℕ) → promo.ends_at ≡ some t → now < t
  pub satisfied : All (Satisfies cart customer) promo.conditions
  pub identified :
      (limit : ℕ) (c : Customer)
      → promo.usage_limit_per_customer ≡ some limit
      → customer ≡ some c
      → c.id ≢ none
  pub useful : All (IsUseful cart) promo.effects

-- What an effect takes off by itself.
abbrev pub Takes : CartForEvaluation → Effect → ℕ → Type 0
Takes cart (flat_off paise) n = n ≡ paise
Takes cart (percent_off bps none) n = IsNearest (cart.subtotal_paise * bps) 10000 n
Takes cart (percent_off bps (some most)) n =
    (raw : ℕ) × IsNearest (cart.subtotal_paise * bps) 10000 raw × (n ≡ min raw most)
Takes cart free_shipping n = n ≡ 0
Takes cart (buy_x_get_y buy_qty get_qty ids) n =
    IsCheapest (min (batches_of buy_qty cart * get_qty) (quantities (eligible_lines ids cart)))
      (eligible_lines ids cart) n
Takes cart unknown_effect n = ⊥

pub record IsDiscount (promo : PromotionData) (cart : CartForEvaluation) (d : AppliedDiscount)
    : Type 0 where
  pub of_promotion : (d.promotion_id ≡ promo.id) × (d.code ≡ promo.code)
  pub summed :
      (offs : List ℕ) × Matched (Takes cart) promo.effects offs
      × (d.discount_paise ≡ min (sum offs) cart.subtotal_paise)
  pub shipping : Reflects (Somewhere (λ e. e ≡ free_shipping) promo.effects) d.free_shipping

applies-Reflects :
    (cart : CartForEvaluation) (e : Effect) → Reflects (IsUseful cart e) (applies cart e)
applies-Reflects cart (flat_off paise) = (λ h. tt, λ h. refl)
applies-Reflects cart (percent_off bps most) = (λ h. tt, λ h. refl)
applies-Reflects cart free_shipping = (λ h. tt, λ h. refl)
applies-Reflects cart (buy_x_get_y b g ids) = elim (buy_x_get_y_discount-IsCheapest b g ids cart) [
  | inl (idle, e) ↦ (λ h. absurd (false_true (rw e at h)), λ (l, n). absurd (unless_idle idle l n))
  | inr (d, l, n, e, _) ↦ (λ h. (l, n), λ h. rw e refl)
]
  where
    false_true : false ≡ true → ⊥
    false_true q = cc

    unless_idle :
        (length (eligible_lines ids cart) ≡ 0) ⊎ (batches_of b cart ≡ 0)
        → 0 < length (eligible_lines ids cart)
        → 0 < batches_of b cart
        → ⊥
    unless_idle (inl e) l n = omega arith
    unless_idle (inr e) l n = omega arith
applies-Reflects cart unknown_effect = (λ h. absurd (cc), λ h. absurd h)

is_eligible-Reflects :
    (promo : PromotionData) (cart : CartForEvaluation) (customer : Option Customer) (now : ℕ)
    → Reflects (IsEligible promo cart customer now) (is_eligible promo cart customer now)
is_eligible-Reflects promo cart customer now =
    let all_five = and-Reflects _ _ _ _ (starts_later-Reflects promo.starts_at now) (
      and-Reflects _ _ _ _ (has_ended-Reflects promo.ends_at now) (
        and-Reflects _ _ _ _
          (all-Reflects (Satisfies cart customer) (passes cart customer)
            (passes-Reflects cart customer) promo.conditions)
          (and-Reflects _ _ _ _ (is_unidentifiable-Reflects promo.usage_limit_per_customer customer)
            (all-Reflects (IsUseful cart) (applies cart) (applies-Reflects cart)
              promo.effects)))) in
    (
      λ h.
          (let (a, (b, (c, (d, e)))) = all_five.0 h in
            record { started = a; running = b; satisfied = c; identified = d; useful = e }),
      λ h. all_five.1 (h.started, (h.running, (h.satisfied, (h.identified, h.useful)))),
    )

nearest : (p q : ℕ) → q ≡ (p + 5000) / 10000 → IsNearest p 10000 q
nearest p q e = omega arith

off_of-Takes :
    (cart : CartForEvaluation) (e : Effect) → IsUseful cart e → Takes cart e (off_of cart e)
unfolding bps_of
off_of-Takes cart (flat_off paise) u = refl
off_of-Takes cart (percent_off bps none) u = nearest _ _ refl
off_of-Takes cart (percent_off bps (some most)) u =
    (bps_of cart.subtotal_paise bps, nearest _ _ refl, ground arith)
off_of-Takes cart free_shipping u = refl
off_of-Takes cart (buy_x_get_y b g ids) u = elim (buy_x_get_y_discount-IsCheapest b g ids cart) [
  | inl (inl e, _) ↦ absurd (omega (arith, u.0))
  | inl (inr e, _) ↦ absurd (omega (arith, u.1))
  | inr (d, _, _, e, best) ↦ rw e best
]
off_of-Takes cart unknown_effect u = absurd u

offs-Matched :
    (cart : CartForEvaluation) (es : List Effect)
    → All (IsUseful cart) es
    → Matched (Takes cart) es (map (off_of cart) es)
offs-Matched cart [] v = tt
offs-Matched cart (e ∷ es) v = (off_of-Takes cart e v.0, offs-Matched cart es v.1)

ships_free-Reflects : (e : Effect) → Reflects (e ≡ free_shipping) (ships_free e)
ships_free-Reflects free_shipping = (λ h. refl, λ h. refl)
ships_free-Reflects (flat_off paise) = (λ h. absurd (cc), λ h. absurd (cc))
ships_free-Reflects (percent_off bps most) = (λ h. absurd (cc), λ h. absurd (cc))
ships_free-Reflects (buy_x_get_y b g ids) = (λ h. absurd (cc), λ h. absurd (cc))
ships_free-Reflects unknown_effect = (λ h. absurd (cc), λ h. absurd (cc))

discount_of-IsDiscount :
    (promo : PromotionData) (cart : CartForEvaluation)
    → All (IsUseful cart) promo.effects
    → IsDiscount promo cart (discount_of promo cart)
discount_of-IsDiscount promo cart useful = record {
  of_promotion = (refl, refl);
  summed = (
    map (off_of cart) promo.effects,
    offs-Matched cart promo.effects useful,
    ap (λ n. min n cart.subtotal_paise) (sym (sum-map (off_of cart) promo.effects)),
  );
  shipping = any-Reflects (λ e. e ≡ free_shipping) ships_free ships_free-Reflects promo.effects;
}

-- evaluatePromotion is applicable exactly where the promotion has started and not ended, every
-- condition is satisfied, a customer who is given has an id where there is a limit per customer, and
-- every effect has something to apply to; a preview, which gives no customer, needs no id and counts as
-- a first order. The discount is then the sum of what the effects take off one by one, but at most the
-- subtotal: the flat amount, the percentage to the nearest paisa and at most its cap, the cheapest
-- choice of the free units. Shipping is free exactly where an effect says so. Otherwise it is a refusal.
pub evaluate_promotion-IsEligible :
    (promo : PromotionData) (cart : CartForEvaluation) (customer : Option Customer) (now : ℕ)
    → (IsEligible promo cart customer now
        × ((d : AppliedDiscount) × (evaluate_promotion promo cart customer now ≡ applicable d)
            × IsDiscount promo cart d))
      ⊎ (¬ IsEligible promo cart customer now
          × ((r : PromotionRefusalReason) × (evaluate_promotion promo cart customer now
                ≡ refused r)))
evaluate_promotion-IsEligible promo cart customer now =
    let r = is_eligible-Reflects promo cart customer now in
    elim (evaluate_promotion-Outcome promo cart customer now) [
      | inl (holds, e) ↦
          let fit = r.0 holds in
          inl (fit, (discount_of promo cart, e, discount_of-IsDiscount promo cart fit.useful))
      | inr (fails, refusal) ↦ inr (Reflects-false _ _ r fails, refusal)
    ]
