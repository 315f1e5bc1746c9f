-- ===== src/Promotions/Slots.antt =====
-- The slots of a promotion's redemptions: they never pass the limits, and no two share one.
use ecom_platform.Base.{
  any-false, ℕ, ◌≤◌, ◌<◌, ◌≡◌, refl, sym, ap, inl, inr, Bool, true, false, ◌&&◌, ◌||◌, Option, none,
  some, List, ◌∷◌, any, leb, ◌==◌, ==_iff, arith, Bool-cases, Result, ok, ok-ne-err, ok_first,
  ok_second, All-map, All-both, find_first, find_first-none,
}
use ecom_platform.Promotions.Redemption.{
  PromotionLimits, RedemptionRow, Claim, claimed, exhausted, same_customer, is_of, is_of_customer,
  count_redemptions, count_of_customer, reached, customer_reached, collides, insert_redemption,
  redemption_row, claim_slot, claim_or_replay, claim_redemption,
}
use ecom_platform.Promotions.Counting.{
  IsSlotted, counted, counted_of_customer, not_counted_of_customer, slot_below,
  is_of_customer_split, customer_slot_below,
}

-- No more redemptions than the limits allow, of the promotion and of each customer.
abbrev pub IsWithin : PromotionLimits → List RedemptionRow → Type 0
IsWithin p rows =
    ((limit : ℕ) → p.usage_limit_total ≡ some limit → count_redemptions p.id rows ≤ limit)
    × ((limit c : ℕ)
        → p.usage_limit_per_customer ≡ some limit
        → count_of_customer p.id (some c) rows ≤ limit)

-- What a claim comes to.
abbrev IsClaimed : PromotionLimits → Result (Claim × List RedemptionRow) → Type 0
IsClaimed p result =
    (claim : Claim) × (rows : List RedemptionRow) × (result ≡ ok (claim, rows))
    × IsSlotted rows
    × IsWithin p rows

module _ (id : ℕ) (p : PromotionLimits) (order_id : ℕ) (customer_id : Option ℕ) (discount : ℕ)
    (rs : List RedemptionRow) (v : IsSlotted rs) where
  -- Under the lock, the row's slots and its order are new.
  free :
      find_first (λ r. is_of p.id r && r.order_id == order_id) rs ≡ none
      → any (collides (redemption_row id p order_id customer_id discount rs)) rs ≡ false
  free h = any-false _ rs (
      All-map (λ r w. clear r w.0.0 w.0.1 w.1) rs
        (All-both _ _ rs
          (All-both _ _ rs (slot_below p.id rs v) (customer_slot_below p.id customer_id rs v))
          (find_first-none _ rs h)))
    where
      clear :
          (r : RedemptionRow)
          → (is_of p.id r ≡ true → r.slot < count_redemptions p.id rs)
          → (is_of_customer p.id customer_id r ≡ true
              → r.customer_slot < count_of_customer p.id customer_id rs)
          → (is_of p.id r && r.order_id == order_id) ≡ false
          → collides (redemption_row id p order_id customer_id discount rs) r ≡ false
      clear r below customer_below other = elim (Bool-cases (is_of p.id r)) [
        | inr off ↦ rw off refl
        | inl on ↦ elim (Bool-cases (same_customer customer_id r.customer_id)) [
          | inr away ↦ let low = below on in rw (on, away) (ground (arith, low, on, other))
          | inl same ↦
              let low = below on in
              let customer_low = customer_below (rw (on, same) refl) in
              rw (on, same) (ground (arith, low, customer_low, on, other))
        ]
      ]

  inserted-IsWithin :
      reached p.usage_limit_total (count_redemptions p.id rs) ≡ false
      → customer_reached p customer_id (count_of_customer p.id customer_id rs) ≡ false
      → IsWithin p rs
      → IsWithin p (redemption_row id p order_id customer_id discount rs ∷ rs)
  inserted-IsWithin room customer_room w = (total, each)
    where
      row : RedemptionRow
      row = redemption_row id p order_id customer_id discount rs

      total :
          (limit : ℕ) → p.usage_limit_total ≡ some limit → count_redemptions p.id (row ∷ rs) ≤ limit
      total limit e =
          let more = counted p.id row rs ((==_iff p.id p.id).1 refl) in
          let below : leb limit (count_redemptions p.id rs) ≡ false = rw e at room in
          ground (arith, more, below)

      each :
          (limit c : ℕ)
          → p.usage_limit_per_customer ≡ some limit
          → count_of_customer p.id (some c) (row ∷ rs) ≤ limit
      each limit c e = elim (Bool-cases (is_of_customer p.id (some c) row)) [
        | inr other ↦
            let kept = not_counted_of_customer p.id row rs (some c) other in
            omega (arith, kept, w.1 limit c e)
        | inl mine ↦
            let (_, his) = is_of_customer_split p.id (some c) row mine in
            let more = counted_of_customer p.id row rs (some c) mine in
            let below : leb limit (count_of_customer p.id (some c) rs) ≡ false =
              rw (sym his, e) at customer_room in
            ground (arith, more, below)
      ]

  claim_slot-IsClaimed :
      find_first (λ r. is_of p.id r && r.order_id == order_id) rs ≡ none
      → IsWithin p rs
      → IsClaimed p (claim_slot id p order_id customer_id discount rs)
  unfolding claim_slot insert_redemption
  claim_slot-IsClaimed fresh w =
      elim (Bool-cases (reached p.usage_limit_total (count_redemptions p.id rs))) [
        | inl full ↦ (exhausted, rs, rw full refl, v, w)
        | inr room ↦
            elim (Bool-cases
              (customer_reached p customer_id (count_of_customer p.id customer_id rs))) [
                | inl full ↦ (exhausted, rs, rw (room, full) refl, v, w)
                | inr customer_room ↦ (
                  claimed id (count_redemptions p.id rs) (count_of_customer p.id customer_id rs),
                  redemption_row id p order_id customer_id discount rs ∷ rs,
                  rw (room, customer_room, free fresh) refl,
                  (refl, refl, v),
                  inserted-IsWithin room customer_room w,
                )
              ]
      ]

-- claimRedemption, under the promotion's lock, on a table whose slots are in order and whose
-- redemptions are within the promotion's limits: it returns, so that the unique indexes never refuse
-- its row; afterwards the slots are in order again, and neither the promotion nor any customer has
-- more redemptions than the limits allow.
pub claim_redemption-IsWithin :
    (id : ℕ) (p : PromotionLimits) (order_id : ℕ) (customer_id : Option ℕ) (discount : ℕ)
    (rs : List RedemptionRow)
    → IsSlotted rs
    → IsWithin p rs
    → (claim : Claim) × (rows : List RedemptionRow) × (claim_redemption id p order_id customer_id
          discount rs
        ≡ ok (claim, rows))
      × IsSlotted rows
      × IsWithin p rows
unfolding claim_redemption
claim_redemption-IsWithin id p order_id customer_id discount rs v w =
    by_row (find_first (λ r. is_of p.id r && r.order_id == order_id) rs) refl
  where
    by_row :
        (o : Option RedemptionRow)
        → find_first (λ r. is_of p.id r && r.order_id == order_id) rs ≡ o
        → IsClaimed p (claim_or_replay o (claim_slot id p order_id customer_id discount rs) rs)
    by_row (some r) e = (claimed r.id r.slot r.customer_slot, rs, refl, v, w)
    by_row none e = claim_slot-IsClaimed id p order_id customer_id discount rs v e w

-- An order's claim is given once: where claimRedemption has claimed a slot, claiming again for that
-- order, whatever else has changed in the arguments, gives the same slot and writes nothing.
pub claim_redemption_again :
    (id later : ℕ) (p : PromotionLimits) (order_id : ℕ) (customer_id other : Option ℕ)
    (discount reduced r slot customer_slot : ℕ) (rs rows : List RedemptionRow)
    → claim_redemption id p order_id customer_id discount rs
      ≡ ok (claimed r slot customer_slot, rows)
    → claim_redemption later p order_id other reduced rows ≡ ok (claimed r slot customer_slot, rows)
unfolding claim_redemption claim_slot insert_redemption
claim_redemption_again id later p order_id customer_id other discount reduced r slot customer_slot
      rs rows h =
    by_row (find_first mine rs) refl h
  where
    mine : RedemptionRow → Bool
    mine = λ x. is_of p.id x && x.order_id == order_id

    row : RedemptionRow
    row = redemption_row id p order_id customer_id discount rs

    Again : Type 0
    Again =
        claim_or_replay (find_first mine rows) (claim_slot later p order_id other reduced rows) rows
        ≡ ok (claimed r slot customer_slot, rows)

    found_first : mine row ≡ true
    found_first = rw ((==_iff p.id p.id).1 refl, (==_iff order_id order_id).1 refl) refl

    exhausted_claimed : exhausted ≡ claimed r slot customer_slot → ⊥
    exhausted_claimed q = cc

    by_row :
        (o : Option RedemptionRow)
        → find_first mine rs ≡ o
        → claim_or_replay o (claim_slot id p order_id customer_id discount rs) rs
          ≡ ok (claimed r slot customer_slot, rows)
        → Again
    by_row (some x) e k = rw (sym (ok_second k), e) (ap (λ c. ok (c, rs)) (ok_first k))
    by_row none e k =
        elim (Bool-cases (
          reached p.usage_limit_total (count_redemptions p.id rs)
          || customer_reached p customer_id (count_of_customer p.id customer_id rs))) [
            | inl full ↦ absurd (exhausted_claimed (ok_first (rw full at k)))
            | inr room ↦ elim (Bool-cases (any (collides row) rs)) [
              | inl taken ↦ absurd (ok-ne-err (rw (room, taken) at k))
              | inr free_slot ↦
                  let done = rw (room, free_slot) at k in
                  rw (sym (ok_second done), found_first)
                    (ap (λ c. ok (c, row ∷ rs)) (ok_first done))
            ]
          ]
