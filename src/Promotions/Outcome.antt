-- ===== src/Promotions/Outcome.antt =====
-- evaluatePromotion taken apart into its branches, in the terms of its definition.
use ecom_platform.Base.{
  ℕ, ◌+◌, ◌≡◌, ◌⊎◌, refl, sym, ◌∙◌, min, Bool, true, false, not, ◌&&◌, ◌||◌, Option, none, some,
  arith, all, any, Bool-cases, Option-cases, inl, inr, List, [], ◌∷◌, sum_of,
}
use ecom_platform.Promotions.{
  Condition, Effect, flat_off, percent_off, free_shipping, buy_x_get_y, unknown_effect,
  PromotionData, CartForEvaluation, Customer, AppliedDiscount, PromotionRefusalReason, not_started,
  expired, conditions_not_met, requires_customer, unknown_condition, refused, applicable, bps_of,
  check_condition, check_conditions, buy_x_get_y_discount, capped, Total, apply_effect,
  apply_effects, starts_later, has_ended, is_unidentifiable, grant, evaluate_promotion, no_discount,
}

abbrev pub is_none {ℓ} : {A : Type ℓ} → Option A → Bool
is_none none = true
is_none (some a) = false

abbrev pub or_none_off : Option ℕ → ℕ
or_none_off none = 0
or_none_off (some off) = off

abbrev pub passes : CartForEvaluation → Option Customer → Condition → Bool
passes cart customer c = is_none (check_condition c cart customer)

-- An effect of the vocabulary that has something to apply to.
abbrev pub applies : CartForEvaluation → Effect → Bool
applies cart (flat_off paise) = true
applies cart (percent_off bps most) = true
applies cart free_shipping = true
applies cart (buy_x_get_y b g ids) = not (is_none (buy_x_get_y_discount b g ids cart))
applies cart unknown_effect = false

-- What an effect takes off, by itself.
abbrev pub off_of : CartForEvaluation → Effect → ℕ
off_of cart (flat_off paise) = paise
off_of cart (percent_off bps most) = capped (bps_of cart.subtotal_paise bps) most
off_of cart free_shipping = 0
off_of cart (buy_x_get_y b g ids) = or_none_off (buy_x_get_y_discount b g ids cart)
off_of cart unknown_effect = 0

abbrev pub ships_free : Effect → Bool
ships_free free_shipping = true
ships_free (flat_off paise) = false
ships_free (percent_off bps most) = false
ships_free (buy_x_get_y b g ids) = false
ships_free unknown_effect = false

abbrev pub is_eligible : PromotionData → CartForEvaluation → Option Customer → ℕ → Bool
is_eligible promo cart customer now =
    not (starts_later promo.starts_at now)
    && (not (has_ended promo.ends_at now)
        && (all (passes cart customer) promo.conditions
            && (not (is_unidentifiable promo.usage_limit_per_customer customer)
                && all (applies cart) promo.effects)))

-- The sum of what the effects take off, but at most the subtotal.
abbrev pub discount_of : PromotionData → CartForEvaluation → AppliedDiscount
discount_of promo cart = record {
  promotion_id = promo.id;
  code = promo.code;
  discount_paise = min (sum_of (off_of cart) promo.effects) cart.subtotal_paise;
  free_shipping = any ships_free promo.effects;
}

check_conditions-all :
    (cs : List Condition) (cart : CartForEvaluation) (customer : Option Customer)
    → is_none (check_conditions cs cart customer) ≡ all (passes cart customer) cs
unfolding check_conditions
check_conditions-all [] cart customer = refl
check_conditions-all (c ∷ cs) cart customer =
    elim (Option-cases (check_condition c cart customer)) [
      | inl pass ↦ rw (pass, check_conditions) (check_conditions-all cs cart customer)
      | inr (reason, refusal) ↦ rw (refusal, check_conditions) refl
    ]

abbrev total_of : ℕ → Bool → Total
total_of d f = record { discount_paise = d; free_shipping = f }

same_total :
    {d d' : ℕ} {f f' : Bool}
    → d ≡ d'
    → f ≡ f'
    → applicable (total_of d f) ≡ applicable (total_of d' f')
same_total p q = cc

or_false : (b : Bool) → b ≡ (b || false)
or_false true = refl
or_false false = refl

or_true : (b : Bool) → true ≡ (b || true)
or_true true = refl
or_true false = refl

or_assoc : (a b c : Bool) → ((a || b) || c) ≡ (a || (b || c))
or_assoc true b c = refl
or_assoc false b c = refl

abbrev Adds : Effect → CartForEvaluation → Total → Type 0
Adds e cart t =
    ((applies cart e ≡ true)
      × (apply_effect e cart t
          ≡ applicable
              (total_of (t.discount_paise + off_of cart e) (t.free_shipping || ships_free e))))
    ⊎ ((applies cart e ≡ false)
        × ((r : PromotionRefusalReason) × (apply_effect e cart t ≡ refused r)))

-- One effect adds its own value, or is refused where it does not apply.
apply_effect-Adds : (e : Effect) (cart : CartForEvaluation) (t : Total) → Adds e cart t
unfolding apply_effect
apply_effect-Adds (flat_off paise) cart t = inl (refl, same_total refl (or_false t.free_shipping))
apply_effect-Adds (percent_off bps most) cart t =
    inl (refl, same_total refl (or_false t.free_shipping))
apply_effect-Adds free_shipping cart t =
    inl (refl, same_total (omega arith) (or_true t.free_shipping))
apply_effect-Adds (buy_x_get_y b g ids) cart t =
    elim (Option-cases (buy_x_get_y_discount b g ids cart)) [
      | inl nothing ↦ inr (rw nothing refl, (conditions_not_met, rw (apply_effect, nothing) refl))
      | inr (off, some_off) ↦ inl (
        rw some_off refl,
        rw (apply_effect, some_off) (same_total refl (or_false t.free_shipping)),
      )
    ]
apply_effect-Adds unknown_effect cart t = inr (refl, (unknown_condition, refl))

abbrev AddsAll : List Effect → CartForEvaluation → Total → Type 0
AddsAll es cart t =
    ((all (applies cart) es ≡ true)
      × (apply_effects es cart t
          ≡ applicable (
              total_of (t.discount_paise + sum_of (off_of cart) es)
                (t.free_shipping || any ships_free es))))
    ⊎ ((all (applies cart) es ≡ false)
        × ((r : PromotionRefusalReason) × (apply_effects es cart t ≡ refused r)))

apply_effects-AddsAll :
    (es : List Effect) (cart : CartForEvaluation) (t : Total) → AddsAll es cart t
unfolding apply_effects
apply_effects-AddsAll [] cart t = inl (refl, same_total (omega arith) (or_false t.free_shipping))
apply_effects-AddsAll (e ∷ es) cart t =
    let t' = total_of (t.discount_paise + off_of cart e) (t.free_shipping || ships_free e) in
    elim (apply_effect-Adds e cart t) [
      | inl (holds, one) ↦ elim (apply_effects-AddsAll es cart t') [
        | inl (all_apply, rest) ↦ inl (
          rw holds all_apply,
          rw (one, apply_effects)
              (rest
                ∙ same_total (omega arith)
                    (or_assoc t.free_shipping (ships_free e) (any ships_free es))),
        )
        | inr (fails, (r, rest)) ↦ inr (rw holds fails, (r, rw (one, apply_effects) rest))
      ]
      | inr (fails, (r, one)) ↦ inr (rw fails refl, (r, rw (one, apply_effects) refl))
    ]

grants :
    (promo : PromotionData) (cart : CartForEvaluation)
    → ((all (applies cart) promo.effects ≡ true)
        × (grant promo cart ≡ applicable (discount_of promo cart)))
      ⊎ ((all (applies cart) promo.effects ≡ false)
          × ((r : PromotionRefusalReason) × (grant promo cart ≡ refused r)))
unfolding grant
grants promo cart = elim (apply_effects-AddsAll promo.effects cart no_discount) [
  | inl (holds, added) ↦
      inl (holds, rw (added, grant, zero_add (sum_of (off_of cart) promo.effects)) refl)
  | inr (fails, (r, added)) ↦ inr (fails, (r, rw (added, grant) refl))
]
  where
    zero_add : (n : ℕ) → 0 + n ≡ n
    zero_add n = omega arith

pub evaluate_promotion-Outcome :
    (promo : PromotionData) (cart : CartForEvaluation) (customer : Option Customer) (now : ℕ)
    → ((is_eligible promo cart customer now ≡ true)
        × (evaluate_promotion promo cart customer now ≡ applicable (discount_of promo cart)))
      ⊎ ((is_eligible promo cart customer now ≡ false)
          × ((r : PromotionRefusalReason) × (evaluate_promotion promo cart customer now
                ≡ refused r)))
unfolding evaluate_promotion
evaluate_promotion-Outcome promo cart customer now =
    elim (Bool-cases (starts_later promo.starts_at now)) [
      | inl later ↦ inr (rw later refl, (not_started, rw (later, evaluate_promotion) refl))
      | inr started ↦ elim (Bool-cases (has_ended promo.ends_at now)) [
        | inl ended ↦
            inr (rw (started, ended) refl, (expired, rw (started, ended, evaluate_promotion) refl))
        | inr running ↦ elim (Option-cases (check_conditions promo.conditions cart customer)) [
          | inr (reason, refusal) ↦
              let fails : false ≡ all (passes cart customer) promo.conditions =
                rw refusal at (check_conditions-all promo.conditions cart customer) in
              inr (
                rw (started, running, sym fails) refl,
                (reason, rw (started, running, refusal, evaluate_promotion) refl),
              )
          | inl pass ↦
              let holds : true ≡ all (passes cart customer) promo.conditions =
                rw pass at (check_conditions-all promo.conditions cart customer) in
              elim (Bool-cases (is_unidentifiable promo.usage_limit_per_customer customer)) [
                | inl unknown_buyer ↦ inr (
                  rw (started, running, sym holds, unknown_buyer) refl,
                  (
                    requires_customer,
                    rw (started, running, pass, unknown_buyer, evaluate_promotion) refl,
                  ),
                )
                | inr known ↦ elim (grants promo cart) [
                  | inl (all_apply, granted) ↦ inl (
                    rw (started, running, sym holds, known) all_apply,
                    rw (started, running, pass, known, evaluate_promotion) granted,
                  )
                  | inr (fails, (r, refusal)) ↦ inr (
                    rw (started, running, sym holds, known) fails,
                    (r, rw (started, running, pass, known, evaluate_promotion) refusal),
                  )
                ]
              ]
        ]
      ]
    ]
