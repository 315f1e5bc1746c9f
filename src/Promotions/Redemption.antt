-- ===== src/Promotions/Redemption.antt =====
-- Redemption slots (packages/core/src/promotions/server.ts): claimRedemption over the rows of
-- `coupon_redemptions`, newest first, in the transaction that confirms an order.
use ecom_platform.Base.{
  ℕ, Bool, false, ◌&&◌, ◌||◌, Option, none, some, List, ◌∷◌, any, keep, length, leb, ◌==◌,
  if◌then◌else◌, Result, ok, err, concurrent_modification, find_first,
}

-- The columns of a promotion that limit its use.
pub record PromotionLimits : Type 0 where
  pub id : ℕ
  pub usage_limit_total : Option ℕ
  pub usage_limit_per_customer : Option ℕ

pub record RedemptionRow : Type 0 where
  pub id : ℕ
  pub promotion_id : ℕ
  pub order_id : ℕ
  pub customer_id : Option ℕ
  pub slot : ℕ
  pub customer_slot : ℕ
  pub discount_paise : ℕ

-- `{claimed: true, …}` or `{claimed: false, reason: "coupon_exhausted"}`
pub data Claim : Type 0 where
  claimed : (redemption_id slot customer_slot : ℕ) → Claim
  exhausted : Claim

abbrev pub same_customer : Option ℕ → Option ℕ → Bool
same_customer none other = false
same_customer (some c) none = false
same_customer (some c) (some d) = c == d

abbrev pub is_of : ℕ → RedemptionRow → Bool
is_of promotion_id r = r.promotion_id == promotion_id

abbrev pub is_of_customer : ℕ → Option ℕ → RedemptionRow → Bool
is_of_customer promotion_id customer_id r =
    is_of promotion_id r && same_customer customer_id r.customer_id

unfoldable pub count_redemptions : ℕ → List RedemptionRow → ℕ
count_redemptions promotion_id rs = length (keep (is_of promotion_id) rs)

-- A guest has no slots of their own.
unfoldable pub count_of_customer : ℕ → Option ℕ → List RedemptionRow → ℕ
count_of_customer promotion_id customer_id rs =
    length (keep (is_of_customer promotion_id customer_id) rs)

-- No limit is never reached.
abbrev pub reached : Option ℕ → ℕ → Bool
reached none n = false
reached (some limit) n = leb limit n

abbrev pub customer_reached : PromotionLimits → Option ℕ → ℕ → Bool
customer_reached p none n = false
customer_reached p (some c) n = reached p.usage_limit_per_customer n

-- cr_promo_slot_key, cr_promo_customer_slot_key and cr_promo_order_key.
abbrev pub collides : RedemptionRow → RedemptionRow → Bool
collides new old =
    is_of new.promotion_id old
    && (old.slot == new.slot
        || (same_customer new.customer_id old.customer_id && old.customer_slot == new.customer_slot)
        || old.order_id == new.order_id)

-- The INSERT under the unique indexes.
unfoldable pub insert_redemption :
    RedemptionRow → List RedemptionRow → Result (Claim × List RedemptionRow)
insert_redemption new rs =
    if any (collides new) rs
    then err concurrent_modification
    else ok (claimed new.id new.slot new.customer_slot, new ∷ rs)

abbrev pub redemption_row :
    (id : ℕ) → PromotionLimits → (order_id : ℕ) → Option ℕ → ℕ → List RedemptionRow → RedemptionRow
redemption_row id p order_id customer_id discount rs = record {
  id = id;
  promotion_id = p.id;
  order_id = order_id;
  customer_id = customer_id;
  slot = count_redemptions p.id rs;
  customer_slot = count_of_customer p.id customer_id rs;
  discount_paise = discount;
}

-- The counts against the limits, and the INSERT.
unfoldable pub claim_slot :
    (id : ℕ)
    → PromotionLimits
    → (order_id : ℕ) → Option ℕ
    → ℕ
    → List RedemptionRow
    → Result (Claim × List RedemptionRow)
claim_slot id p order_id customer_id discount rs =
    if reached p.usage_limit_total (count_redemptions p.id rs)
      || customer_reached p customer_id (count_of_customer p.id customer_id rs)
    then ok (exhausted, rs)
    else insert_redemption (redemption_row id p order_id customer_id discount rs) rs

-- A redelivery gets the order's first claim.
abbrev pub claim_or_replay :
    Option RedemptionRow
    → Result (Claim × List RedemptionRow)
    → List RedemptionRow
    → Result (Claim × List RedemptionRow)
claim_or_replay none fresh rs = fresh
claim_or_replay (some r) fresh rs = ok (claimed r.id r.slot r.customer_slot, rs)

unfoldable pub claim_redemption :
    (id : ℕ)
    → PromotionLimits
    → (order_id : ℕ) → Option ℕ
    → ℕ
    → List RedemptionRow
    → Result (Claim × List RedemptionRow)
claim_redemption id p order_id customer_id discount rs =
    claim_or_replay (find_first (λ r. is_of p.id r && r.order_id == order_id) rs)
      (claim_slot id p order_id customer_id discount rs) rs
