-- ===== src/Tax/Allocation.antt =====
-- What allocateProportionally returns, and when it throws.
use ecom_platform.Base.{
  ℕ, zero, suc, ◌*◌, ◌%◌, ◌≤◌, ◌<◌, ◌≡◌, ◌⊎◌, refl, Bool, true, false, not, ◌||◌, ok, err,
  invalid_payload, arith, ltb, Bool-cases, inl, inr, ◌==◌, List, [], ◌∷◌, map, nat_value, any,
  is_amount, length, get_or, sum, take, length-map, JsNumber,
}
use ecom_platform.Apportion.{bump, bump_all}
use ecom_platform.Apportion.Total.{
  IsQuota, shares, leftover, ranked, leftover_in_range, length-shares, sum-shares, shares-IsQuota,
}
use ecom_platform.Tax.{Remainder, ranks_before, hand_out, allocate, allocate_proportionally}

abbrev entry : ℕ → ℕ → ℕ → ℕ → Remainder
entry total whole i w = record { index = i; remainder = total * w % whole }

falls : (a b : Remainder) → ranks_before a b ≡ true → b.remainder ≤ a.remainder
falls a b h = ground arith

rises : (a b : Remainder) → ranks_before a b ≡ false → a.remainder ≤ b.remainder
rises a b h = ground arith

hand_out-bump_all :
    (k : ℕ) (rs : List Remainder) (xs : List ℕ)
    → k ≤ length rs
    → hand_out k rs xs ≡ ok (bump_all (λ r. r.index) (take k rs) xs)
unfolding hand_out bump_all
hand_out-bump_all zero rs xs h = refl
hand_out-bump_all (suc k) [] xs h = absurd (omega arith)
hand_out-bump_all (suc k) (r ∷ rs) xs h = hand_out-bump_all k rs (bump r.index xs) (omega arith)

-- A division of a total over weights.
pub record IsAllocation (total : ℕ) (weights shares : List ℕ) : Type 0 where
  pub same_length : length shares ≡ length weights
  pub exact : sum shares ≡ total
  pub none_for_zero : (j : ℕ) → get_or weights j 0 ≡ 0 → get_or shares j 0 ≡ 0
  pub fair :
      0 < sum weights
      → (j : ℕ) → IsQuota total (sum weights) (get_or weights j 0) (get_or shares j 0)

quota_zero : (t W w s : ℕ) → IsQuota t W w s → w ≡ 0 → s ≡ 0
quota_zero t W w zero q e = refl
quota_zero t W w (suc s) q e = absurd (grind arith)

abbrev zero_for : ℕ → ℕ
zero_for w = 0

zeros : (ws : List ℕ) (j : ℕ) → get_or (map zero_for ws) j 0 ≡ 0
zeros [] j = refl
zeros (w ∷ ws) zero = refl
zeros (w ∷ ws) (suc j) = zeros ws j

sum-zeros : (ws : List ℕ) → sum (map zero_for ws) ≡ 0
sum-zeros [] = refl
sum-zeros (w ∷ ws) = omega (arith, sum-zeros ws)

zeros-IsAllocation :
    (total : ℕ) (ws : List ℕ) → sum ws ≡ 0 → total ≡ 0 → IsAllocation total ws (map zero_for ws)
zeros-IsAllocation total ws none_left t = record {
  same_length = length-map zero_for ws;
  exact = omega (arith, sum-zeros ws);
  none_for_zero = λ j e. zeros ws j;
  fair = λ p j. absurd (omega arith);
}

module _ (total : ℕ) (ws : List ℕ) (some_weight : 0 < sum ws) where
  abbrev result : List ℕ
  result =
      shares total (sum ws) (λ r. r.index) (λ r. r.remainder) (entry total (sum ws)) ranks_before
        (λ i w. refl) (λ i w. refl) falls rises ws refl some_weight

  ranking_suffices :
      leftover total
        (sum ws)
        (λ r. r.index)
        (λ r. r.remainder)
        (entry total (sum ws))
        ranks_before
        (λ i w. refl)
        (λ i w. refl)
        falls
        rises
        ws
        refl
        some_weight
      ≤ length (
          ranked total
            (sum ws)
            (λ r. r.index)
            (λ r. r.remainder)
            (entry total (sum ws))
            ranks_before
            (λ i w. refl)
            (λ i w. refl)
            falls
            rises
            ws
            refl
            some_weight)
  ranking_suffices =
      leftover_in_range total (sum ws) (λ r. r.index) (λ r. r.remainder) (entry total (sum ws))
        ranks_before (λ i w. refl) (λ i w. refl) falls rises ws refl some_weight

  allocate-shares : allocate total ws ≡ ok result
  unfolding allocate
  allocate-shares =
      let e : (sum ws == 0) ≡ false = ground arith in
      rw e (hand_out-bump_all _ _ _ ranking_suffices)

  result-IsAllocation : IsAllocation total ws result
  result-IsAllocation = record {
    same_length =
        length-shares total (sum ws) _ (λ r. r.remainder) _ _ (λ i w. refl) (λ i w. refl) falls
          rises ws refl some_weight;
    exact =
        sum-shares total (sum ws) _ (λ r. r.remainder) _ _ (λ i w. refl) (λ i w. refl) falls rises
          ws refl some_weight;
    none_for_zero = λ j e. quota_zero total (sum ws) _ _ (quota j) e;
    fair = λ p j. quota j;
  }
    where
      quota : (j : ℕ) → IsQuota total (sum ws) (get_or ws j 0) (get_or result j 0)
      quota =
          shares-IsQuota total (sum ws) _ (λ r. r.remainder) _ _ (λ i w. refl) (λ i w. refl) falls
            rises ws refl some_weight

-- Whether the arguments pass validation.
abbrev pub is_valid_request : JsNumber → List JsNumber → Bool
is_valid_request total weights = not (not (is_amount total) || any (λ w. not (is_amount w)) weights)

allocate_outcome :
    (total : ℕ) (ws : List ℕ)
    → ((sum ws ≡ 0) × (0 < total) × (allocate total ws ≡ err invalid_payload))
      ⊎ ((xs : List ℕ) × (allocate total ws ≡ ok xs) × IsAllocation total ws xs)
unfolding allocate
allocate_outcome total ws = elim (Bool-cases (ltb 0 (sum ws))) [
  | inl p ↦
      let q : 0 < sum ws = ground arith in
      inr (result total ws q, allocate-shares total ws q, result-IsAllocation total ws q)
  | inr p ↦
      let z : sum ws ≡ 0 = ground arith in
      let e : (sum ws == 0) ≡ true = ground arith in
      elim (Bool-cases (total == 0)) [
        | inl t ↦ inr (map zero_for ws, rw (e, t), zeros-IsAllocation total ws z (ground arith))
        | inr t ↦ inl (z, ground arith, rw (e, t))
      ]
]

-- How a call ends.
abbrev pub Outcome : JsNumber → List JsNumber → Type 0
Outcome total weights =
    ((is_valid_request total weights ≡ false)
      × (allocate_proportionally total weights ≡ err invalid_payload))
    ⊎ ((is_valid_request total weights ≡ true)
        × (sum (map nat_value weights) ≡ 0)
        × (0 < nat_value total)
        × (allocate_proportionally total weights ≡ err invalid_payload))
    ⊎ ((is_valid_request total weights ≡ true)
        × ((xs : List ℕ) × (allocate_proportionally total weights ≡ ok xs)
            × IsAllocation (nat_value total) (map nat_value weights) xs))

-- allocateProportionally throws `invalid_payload` on numbers that are not non-negative safe
-- integers, and on a non-zero total over weights that are all zero. On all other input it returns,
-- and the shares are as many as the weights, add up to the total exactly, are zero where the weight
-- is zero, and each lies within less than one paisa of the exact proportion.
pub allocate_proportionally-Outcome :
    (total : JsNumber) (weights : List JsNumber) → Outcome total weights
unfolding allocate_proportionally
allocate_proportionally-Outcome total weights =
    elim (Bool-cases (not (is_amount total) || any (λ w. not (is_amount w)) weights)) [
      | inl bad ↦ inl (rw bad, rw bad)
      | inr fine ↦ elim (allocate_outcome (nat_value total) (map nat_value weights)) [
        | inl (z, p, e) ↦ inr (inl (rw fine, z, p, rw fine e))
        | inr (xs, e, a) ↦ inr (inr (rw fine, (xs, rw fine e, a)))
      ]
    ]
