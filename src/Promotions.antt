-- ===== src/Promotions.antt =====
-- Promotions as rules that are data (packages/core/src/promotions/index.ts): the evaluation of a
-- promotion against a cart, and the discount spread over the cart's lines. Amounts are the
-- non-negative paise of database columns, below 2^53, where the source's arithmetic is exact;
-- identifiers are numbers, and an instant is its getTime().
pub mod Counting
pub mod Eligible
pub mod Greedy
pub mod Outcome
pub mod Redemption
pub mod Rules
pub mod Slots
pub mod Spread
mod Tests
use ecom_platform.Base.{
  ℕ, zero, suc, ◌+◌, ◌-◌, ◌*◌, ◌/◌, ◌%◌, min, Bool, true, false, not, ◌&&◌, ◌||◌, Option, none,
  some, List, [], ◌∷◌, any, keep, map, length, get_elem?, sum, sum_of, ltb, leb, ◌==◌,
  if◌then◌else◌, Result, ok, err, internal, ◌>>=◌, sort_by,
}
use ecom_platform.Apportion.{bump, enumerate}

pub data OrderChannel : Type 0 where
  web pos whatsapp manual : OrderChannel

abbrev pub channel_code : OrderChannel → ℕ
channel_code web = 0
channel_code pos = 1
channel_code whatsapp = 2
channel_code manual = 3

-- `unknown` is stored data of a vocabulary that is not known yet.
pub data Condition : Type 0 where
  cart_subtotal_min : (paise : ℕ) → Condition
  contains_product : (product_ids : List ℕ) → Condition
  contains_category : (category_ids : List ℕ) → Condition
  customer_segment : (segment_id : ℕ) → Condition
  first_order : Condition
  channel_is : (channels : List OrderChannel) → Condition
  unknown : Condition

pub data Effect : Type 0 where
  flat_off : (paise : ℕ) → Effect
  percent_off : (bps : ℕ) (max_discount_paise : Option ℕ) → Effect
  free_shipping : Effect
  buy_x_get_y : (buy_qty get_qty : ℕ) (get_variant_ids : List ℕ) → Effect
  unknown_effect : Effect

pub record PromotionData : Type 0 where
  pub id : ℕ
  pub code : ℕ
  pub starts_at : Option ℕ
  pub ends_at : Option ℕ
  pub conditions : List Condition
  pub effects : List Effect
  pub usage_limit_per_customer : Option ℕ

pub record CartLine : Type 0 where
  pub variant_id : ℕ
  pub product_id : ℕ
  pub category_ids : List ℕ
  pub quantity : ℕ
  pub unit_price_paise : ℕ

pub record CartForEvaluation : Type 0 where
  pub lines : List CartLine
  pub subtotal_paise : ℕ
  pub shipping_paise : ℕ
  pub channel : OrderChannel

pub record Customer : Type 0 where
  pub id : Option ℕ
  pub is_first_order : Bool

pub record AppliedDiscount : Type 0 where
  pub promotion_id : ℕ
  pub code : ℕ
  pub discount_paise : ℕ
  pub free_shipping : Bool

pub data PromotionRefusalReason : Type 0 where
  not_started expired conditions_not_met requires_customer unknown_condition unsupported_condition :
      PromotionRefusalReason

-- `{ applicable: true, discount }` or `{ applicable: false, reason }`.
pub data Evaluation {ℓ} (A : Type ℓ) : Type ℓ where
  refused : PromotionRefusalReason → Evaluation A
  applicable : A → Evaluation A

abbrev pub includes : List ℕ → ℕ → Bool
includes xs y = any (λ x. x == y) xs

-- Half up, in exact integers.
unfoldable pub bps_of : ℕ → ℕ → ℕ
bps_of subtotal bps = (subtotal * bps + 5000) / 10000

abbrev pub unless : Bool → PromotionRefusalReason → Option PromotionRefusalReason
unless holds reason = if holds then none else some reason

-- `none` where the condition passes.
unfoldable pub check_condition :
    Condition → CartForEvaluation → Option Customer → Option PromotionRefusalReason
check_condition (cart_subtotal_min paise) cart customer =
    unless (leb paise cart.subtotal_paise) conditions_not_met
check_condition (contains_product wanted) cart customer =
    unless (any (λ l. includes wanted l.product_id) cart.lines) conditions_not_met
check_condition (contains_category wanted) cart customer =
    unless (any (λ l. any (λ c. includes wanted c) l.category_ids) cart.lines) conditions_not_met
check_condition (customer_segment segment) cart customer = some unsupported_condition
check_condition first_order cart none = none
check_condition first_order cart (some c) = unless c.is_first_order conditions_not_met
check_condition (channel_is channels) cart customer =
    unless (any (λ c. channel_code c == channel_code cart.channel) channels) conditions_not_met
check_condition unknown cart customer = some unknown_condition

-- The loop that hands out the free units; after the break nothing is added.
unfoldable pub take_free : ℕ → List CartLine → ℕ
take_free free_units [] = 0
take_free free_units (l ∷ ls) =
    let taken = min free_units l.quantity in
    let rest = take_free (free_units - taken) ls in
    if free_units == 0 then 0 else taken * l.unit_price_paise + rest

abbrev pub cheaper : CartLine → CartLine → Bool
cheaper a b = leb a.unit_price_paise b.unit_price_paise

abbrev pub eligible_lines : List ℕ → CartForEvaluation → List CartLine
eligible_lines ids cart = keep (λ l. includes ids l.variant_id) cart.lines

-- `none` where the effect cannot apply. A validated rule has a positive `buy_qty`.
unfoldable pub buy_x_get_y_discount : ℕ → ℕ → List ℕ → CartForEvaluation → Option ℕ
unfolding take_free
buy_x_get_y_discount buy_qty get_qty ids cart =
    let eligible = sort_by cheaper (eligible_lines ids cart) in
    let batches = sum_of (λ l. l.quantity) cart.lines / buy_qty in
    if length eligible == 0
    then none
    else (if batches == 0 then none else some (take_free (batches * get_qty) eligible))

abbrev pub capped : ℕ → Option ℕ → ℕ
capped off none = off
capped off (some most) = if ltb most off then most else off

pub record Total : Type 0 where
  pub discount_paise : ℕ
  pub free_shipping : Bool

-- One turn of the loop over the effects.
unfoldable pub apply_effect : Effect → CartForEvaluation → Total → Evaluation Total
unfolding bps_of
apply_effect (flat_off paise) cart t =
    applicable (record t { discount_paise = t.discount_paise + paise })
apply_effect (percent_off bps most) cart t =
    applicable (record t {
      discount_paise = t.discount_paise + capped (bps_of cart.subtotal_paise bps) most;
    })
apply_effect free_shipping cart t = applicable (record t { free_shipping = true })
apply_effect (buy_x_get_y buy_qty get_qty ids) cart t =
    elim (buy_x_get_y_discount buy_qty get_qty ids cart) [
      | none ↦ refused conditions_not_met
      | some off ↦ applicable (record t { discount_paise = t.discount_paise + off })
    ]
apply_effect unknown_effect cart t = refused unknown_condition

unfoldable pub apply_effects : List Effect → CartForEvaluation → Total → Evaluation Total
apply_effects [] cart t = applicable t
apply_effects (e ∷ es) cart t = elim (apply_effect e cart t) [
  | refused reason ↦ refused reason
  | applicable t' ↦ apply_effects es cart t'
]

-- The first condition that does not pass.
unfoldable pub check_conditions :
    List Condition → CartForEvaluation → Option Customer → Option PromotionRefusalReason
check_conditions [] cart customer = none
check_conditions (c ∷ cs) cart customer = elim (check_condition c cart customer) [
  | some reason ↦ some reason
  | none ↦ check_conditions cs cart customer
]

abbrev pub starts_later : Option ℕ → ℕ → Bool
starts_later none now = false
starts_later (some t) now = ltb now t

abbrev pub has_ended : Option ℕ → ℕ → Bool
has_ended none now = false
has_ended (some t) now = leb t now

-- A limit per customer, and a buyer known to have no id.
abbrev pub is_unidentifiable : Option ℕ → Option Customer → Bool
is_unidentifiable (some limit) (some c) = elim c.id [ none ↦ true | some id ↦ false ]
is_unidentifiable (some limit) none = false
is_unidentifiable none customer = false

abbrev pub clamped : PromotionData → CartForEvaluation → Total → AppliedDiscount
clamped promo cart t = record {
  promotion_id = promo.id;
  code = promo.code;
  discount_paise = min t.discount_paise cart.subtotal_paise;
  free_shipping = t.free_shipping;
}

abbrev pub no_discount : Total
no_discount = record { discount_paise = 0; free_shipping = false }

-- From the effects on.
unfoldable pub grant : PromotionData → CartForEvaluation → Evaluation AppliedDiscount
unfolding apply_effects
grant promo cart = elim (apply_effects promo.effects cart no_discount) [
  | refused reason ↦ refused reason
  | applicable t ↦ applicable (clamped promo cart t)
]

unfoldable pub evaluate_promotion :
    PromotionData → CartForEvaluation → Option Customer → ℕ → Evaluation AppliedDiscount
unfolding check_conditions grant
evaluate_promotion promo cart customer now =
    if starts_later promo.starts_at now
    then refused not_started
    else (if has_ended promo.ends_at now
        then refused expired
        else elim (check_conditions promo.conditions cart customer) [
          | some reason ↦ refused reason
          | none ↦
              if is_unidentifiable promo.usage_limit_per_customer customer
              then refused requires_customer
              else grant promo cart
        ])

pub record Share : Type 0 where
  pub index : ℕ
  pub remainder : ℕ
  pub line_total_paise : ℕ

-- The larger remainder first, then the larger line, then the earlier one.
abbrev pub by_remainder : Share → Share → Bool
by_remainder a b =
    if a.remainder == b.remainder
    then (if a.line_total_paise == b.line_total_paise
        then leb a.index b.index
        else ltb b.line_total_paise a.line_total_paise)
    else ltb b.remainder a.remainder

-- The loop that goes round the ranking; an index out of range would throw a TypeError.
unfoldable pub cycle_out : ℕ → ℕ → List Share → List ℕ → Result (List ℕ)
cycle_out zero i ranked allocations = ok allocations
cycle_out (suc leftover) i ranked allocations = elim (get_elem? ranked i) [
  | none ↦ err internal
  | some s ↦ cycle_out leftover ((i + 1) % length ranked) ranked (bump s.index allocations)
]

unfoldable pub spread : ℕ → List ℕ → Result (List ℕ)
unfolding cycle_out
spread target totals =
    let total = sum totals in
    let floors = map (λ w. target * w / total) totals in
    cycle_out (target - sum floors) 0
      (sort_by by_remainder (
        enumerate
          (λ i w. record { index = i; remainder = target * w % total; line_total_paise = w }) 0
          totals))
      floors

-- The line discounts and the shipping fee.
unfoldable pub apply_discount_to_lines : List ℕ → AppliedDiscount → ℕ → Result (List ℕ × ℕ)
unfolding spread
apply_discount_to_lines totals discount shipping =
    let after = if discount.free_shipping then 0 else shipping in
    if length totals == 0 || sum totals == 0 || discount.discount_paise == 0
    then ok (map (λ w. 0) totals, after)
    else (spread discount.discount_paise totals >>= λ xs. ok (xs, after))
