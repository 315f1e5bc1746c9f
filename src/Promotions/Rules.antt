-- ===== src/Promotions/Rules.antt =====
-- The rules of a promotion as statements about the cart, the customer and the time, and that the tests
-- of packages/core/src/promotions/index.ts decide them.
use ecom_platform.Base.{
  ℕ, ◌≤◌, ◌<◌, ◌≡◌, ◌≢◌, inl, inr, refl, ap, Bool, true, false, not, Option, none, some, List,
  length, any, arith, ltb, leb, ◌==◌, Option-cases, Reflects, Somewhere, any-Reflects, ==_iff,
}
use ecom_platform.Promotions.{
  OrderChannel, web, channel_code, Condition, cart_subtotal_min, contains_product,
  contains_category, customer_segment, first_order, channel_is, unknown, Effect, flat_off,
  percent_off, free_shipping, buy_x_get_y, unknown_effect, CartForEvaluation, Customer,
  PromotionRefusalReason, includes, check_condition, unless, conditions_not_met, eligible_lines,
  starts_later, has_ended, is_unidentifiable,
}
use ecom_platform.Promotions.Outcome.{is_none, passes}
use ecom_platform.Promotions.Greedy.{batches_of}

-- Some of the ids is the one asked for.
abbrev pub IsAmong : ℕ → List ℕ → Type 0
IsAmong id = Somewhere (λ x. x ≡ id)

-- The cart and the customer satisfy a condition.
abbrev pub Satisfies : CartForEvaluation → Option Customer → Condition → Type 0
Satisfies cart customer (cart_subtotal_min paise) = paise ≤ cart.subtotal_paise
Satisfies cart customer (contains_product ids) =
    Somewhere (λ l. IsAmong l.product_id ids) cart.lines
Satisfies cart customer (contains_category ids) =
    Somewhere (λ l. Somewhere (λ c. IsAmong c ids) l.category_ids) cart.lines
Satisfies cart customer (customer_segment segment) = ⊥
Satisfies cart customer first_order = (c : Customer) → customer ≡ some c → c.is_first_order ≡ true
Satisfies cart customer (channel_is channels) = Somewhere (λ c. c ≡ cart.channel) channels
Satisfies cart customer unknown = ⊥

-- The effect has something to apply to.
abbrev pub IsUseful : CartForEvaluation → Effect → Type 0
IsUseful cart (flat_off paise) = Unit
IsUseful cart (percent_off bps most) = Unit
IsUseful cart free_shipping = Unit
IsUseful cart (buy_x_get_y buy_qty get_qty ids) =
    (0 < length (eligible_lines ids cart)) × (0 < batches_of buy_qty cart)
IsUseful cart unknown_effect = ⊥

pub starts_later-Reflects :
    (o : Option ℕ) (now : ℕ) → Reflects ((t : ℕ) → o ≡ some t → t ≤ now) (not (starts_later o now))
starts_later-Reflects none now = (λ h t e. absurd (cc), λ h. refl)
starts_later-Reflects (some t) now =
    (λ h u e. before h u e, λ h. let le = h t refl in ground (arith, le))
  where
    before : not (ltb now t) ≡ true → (u : ℕ) → some t ≡ some u → u ≤ now
    before h u e = let same : t ≡ u = cc in ground (arith, same, h)

pub has_ended-Reflects :
    (o : Option ℕ) (now : ℕ) → Reflects ((t : ℕ) → o ≡ some t → now < t) (not (has_ended o now))
has_ended-Reflects none now = (λ h t e. absurd (cc), λ h. refl)
has_ended-Reflects (some t) now =
    (λ h u e. before h u e, λ h. let lt = h t refl in ground (arith, lt))
  where
    before : not (leb t now) ≡ true → (u : ℕ) → some t ≡ some u → now < u
    before h u e = let same : t ≡ u = cc in ground (arith, same, h)

pub is_unidentifiable-Reflects :
    (o : Option ℕ) (customer : Option Customer)
    → Reflects
        ((limit : ℕ) (c : Customer) → o ≡ some limit → customer ≡ some c → c.id ≢ none)
        (not (is_unidentifiable o customer))
is_unidentifiable-Reflects none customer = (λ h limit c e f g. absurd (cc), λ h. refl)
is_unidentifiable-Reflects (some n) none = (λ h limit c e f g. absurd (cc), λ h. refl)
is_unidentifiable-Reflects (some n) (some c) = elim (Option-cases c.id) [
  | inl e ↦ (λ h. absurd (anonymous e h), λ h. absurd (h n c refl refl e))
  | inr (id, e) ↦ (λ h limit d p q g. clash id e d q g, λ h. rw e refl)
]
  where
    anonymous : c.id ≡ none → not (is_unidentifiable (some n) (some c)) ≡ true → ⊥
    anonymous e h = absurd (false_true (rw e at h))
      where
        false_true : false ≡ true → ⊥
        false_true q = cc

    clash : (id : ℕ) → c.id ≡ some id → (d : Customer) → some c ≡ some d → d.id ≡ none → ⊥
    clash id e d q g = let same : c ≡ d = cc in let both : c.id ≡ d.id = ap (λ x. x.id) same in cc

same_channel : (a b : OrderChannel) → Reflects (a ≡ b) (channel_code a == channel_code b)
same_channel a b = (λ h. coded a b h, λ h. rw h (ground arith))
  where
    coded : (x y : OrderChannel) → (channel_code x == channel_code y) ≡ true → x ≡ y
    coded web y h = ground (arith, h)
    coded _ y h = ground (arith, h)

includes-Reflects : (ids : List ℕ) (id : ℕ) → Reflects (IsAmong id ids) (includes ids id)
includes-Reflects ids id = any-Reflects (λ x. x ≡ id) (λ x. x == id) (λ x. ==_iff x id) ids

-- A condition passes where its test does.
unless-Reflects :
    (P : Type 0) (b : Bool) (reason : PromotionRefusalReason)
    → Reflects P b
    → Reflects P (is_none (unless b reason))
unless-Reflects P true reason r = r
unless-Reflects P false reason r = r

pub passes-Reflects :
    (cart : CartForEvaluation) (customer : Option Customer) (c : Condition)
    → Reflects (Satisfies cart customer c) (passes cart customer c)
unfolding check_condition
passes-Reflects cart customer (cart_subtotal_min paise) =
    unless-Reflects _ (leb paise cart.subtotal_paise) conditions_not_met
      (λ h. ground (arith, h), λ h. ground (arith, h))
passes-Reflects cart customer (contains_product ids) = unless-Reflects _ _ conditions_not_met (
    any-Reflects (λ l. IsAmong l.product_id ids) (λ l. includes ids l.product_id)
      (λ l. includes-Reflects ids l.product_id) cart.lines)
passes-Reflects cart customer (contains_category ids) = unless-Reflects _ _ conditions_not_met (
    any-Reflects (λ l. Somewhere (λ c. IsAmong c ids) l.category_ids)
      (λ l. any (λ c. includes ids c) l.category_ids)
      (λ l.
        any-Reflects (λ c. IsAmong c ids) (λ c. includes ids c) (λ c. includes-Reflects ids c)
          l.category_ids)
      cart.lines)
passes-Reflects cart customer (customer_segment segment) = (λ h. absurd (cc), λ h. absurd h)
passes-Reflects cart none first_order = (λ h c e. absurd (cc), λ h. refl)
passes-Reflects cart (some c) first_order =
    unless-Reflects _ c.is_first_order conditions_not_met
      (λ h d e. (let same : c ≡ d = cc in rw same at h), λ h. h c refl)
passes-Reflects cart customer (channel_is channels) = unless-Reflects _ _ conditions_not_met (
    any-Reflects (λ c. c ≡ cart.channel) (λ c. channel_code c == channel_code cart.channel)
      (λ c. same_channel c cart.channel) channels)
passes-Reflects cart customer unknown = (λ h. absurd (cc), λ h. absurd h)
