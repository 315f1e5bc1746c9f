-- ===== src/Promotions/Counting.antt =====
-- The counts behind a promotion's slots.
use ecom_platform.Base.{
  ℕ, suc, ◌<◌, ◌≡◌, refl, sym, ap, inl, inr, true, false, Option, none, some, List, [], ◌∷◌, ==_iff,
  arith, Bool-cases, All, All-map,
}
use ecom_platform.Promotions.Redemption.{
  RedemptionRow, same_customer, is_of, is_of_customer, count_redemptions, count_of_customer,
}

-- Newest first, each row of a promotion has the number of those before it for its slot, and likewise
-- among its customer's.
abbrev pub IsSlotted : List RedemptionRow → Type 0
IsSlotted [] = Unit
IsSlotted (r ∷ rs) =
    (r.slot ≡ count_redemptions r.promotion_id rs)
    × (r.customer_slot ≡ count_of_customer r.promotion_id r.customer_id rs)
    × IsSlotted rs

same_customer→eq : (a b : Option ℕ) → same_customer a b ≡ true → a ≡ b
same_customer→eq none b h = absurd (cc)
same_customer→eq (some c) none h = absurd (cc)
same_customer→eq (some c) (some d) h = ap some ((==_iff c d).0 h)

module _ (p : ℕ) (r : RedemptionRow) (rs : List RedemptionRow) where
  pub counted : is_of p r ≡ true → count_redemptions p (r ∷ rs) ≡ suc (count_redemptions p rs)
  unfolding count_redemptions
  counted e = rw e refl

  pub not_counted : is_of p r ≡ false → count_redemptions p (r ∷ rs) ≡ count_redemptions p rs
  unfolding count_redemptions
  not_counted e = rw e refl

  module _ (c : Option ℕ) where
    pub counted_of_customer :
        is_of_customer p c r ≡ true
        → count_of_customer p c (r ∷ rs) ≡ suc (count_of_customer p c rs)
    unfolding count_of_customer
    counted_of_customer e = rw e refl

    pub not_counted_of_customer :
        is_of_customer p c r ≡ false → count_of_customer p c (r ∷ rs) ≡ count_of_customer p c rs
    unfolding count_of_customer
    not_counted_of_customer e = rw e refl

-- An earlier row's slot is below the count.
pub slot_below :
    (p : ℕ) (rs : List RedemptionRow)
    → IsSlotted rs
    → All (λ r. is_of p r ≡ true → r.slot < count_redemptions p rs) rs
slot_below p [] v = tt
slot_below p (r ∷ rs) v = elim (Bool-cases (is_of p r)) [
  | inl mine ↦
      let same : r.promotion_id ≡ p = (==_iff r.promotion_id p).0 mine in
      let slot : r.slot ≡ count_redemptions p rs = rw same at v.0 in
      let more = counted p r rs mine in
      (
        λ _. omega (arith, slot, more),
        All-map (λ q h e. omega (arith, h e, more)) rs (slot_below p rs v.2),
      )
  | inr other ↦
      let kept = not_counted p r rs other in
      (
        λ on. absurd (ground (arith, on, other)),
        All-map (λ q h e. omega (arith, h e, kept)) rs (slot_below p rs v.2),
      )
]

pub is_of_customer_split :
    (p : ℕ) (c : Option ℕ) (r : RedemptionRow)
    → is_of_customer p c r ≡ true
    → (r.promotion_id ≡ p) × (c ≡ r.customer_id)
is_of_customer_split p c r mine = elim (Bool-cases (same_customer c r.customer_id)) [
  | inl same ↦ (
    (==_iff r.promotion_id p).0 (ground (arith, mine, same)),
    same_customer→eq c r.customer_id same,
  )
  | inr other ↦ absurd (ground (arith, mine, other))
]

pub customer_slot_below :
    (p : ℕ) (c : Option ℕ) (rs : List RedemptionRow)
    → IsSlotted rs
    → All (λ r. is_of_customer p c r ≡ true → r.customer_slot < count_of_customer p c rs) rs
customer_slot_below p c [] v = tt
customer_slot_below p c (r ∷ rs) v = elim (Bool-cases (is_of_customer p c r)) [
  | inl mine ↦
      let (here, his) = is_of_customer_split p c r mine in
      let slot : r.customer_slot ≡ count_of_customer p c rs = rw (here, sym his) at v.1 in
      let more = counted_of_customer p r rs c mine in
      (
        λ _. omega (arith, slot, more),
        All-map (λ q h e. omega (arith, h e, more)) rs (customer_slot_below p c rs v.2),
      )
  | inr other ↦
      let kept = not_counted_of_customer p r rs c other in
      (
        λ on. absurd (ground (arith, on, other)),
        All-map (λ q h e. omega (arith, h e, kept)) rs (customer_slot_below p c rs v.2),
      )
]
