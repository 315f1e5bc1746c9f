-- ===== src/Promotions/Spread.antt =====
-- The discount spread over the lines adds up, and no line gets more than its total.
use ecom_platform.Base.{
  ℕ, zero, suc, ◌+◌, ◌*◌, ◌%◌, ◌≤◌, ◌<◌, ◌≡◌, refl, ap, ◌∙◌, true, false, ◌||◌, some, ok, arith,
  leb, Bool-cases, inl, inr, ◌==◌, if◌then◌else◌, List, [], ◌∷◌, ◌++◌, map, length, get_elem?,
  get_or, sum, take, length-map,
}
use native.Mathlib.Nat.{mod-eq_of_lt, mul-le-mul_right}
use ecom_platform.Apportion.{bump, bump_all}
use ecom_platform.Apportion.Total.{
  IsQuota, shares, leftover_in_range, length-shares, sum-shares, shares-IsQuota,
}
use ecom_platform.Promotions.{
  Share, by_remainder, cycle_out, spread, apply_discount_to_lines, AppliedDiscount,
}

abbrev entry : ℕ → ℕ → ℕ → ℕ → Share
entry target total i w = record { index = i; remainder = target * w % total; line_total_paise = w }

falls : (a b : Share) → by_remainder a b ≡ true → b.remainder ≤ a.remainder
falls a b h = ground arith

rises : (a b : Share) → by_remainder a b ≡ false → a.remainder ≤ b.remainder
rises a b h = ground arith

module _ {A : Type 0} where
  get_elem?-middle :
      (pre rest : List A) (a : A) → get_elem? (pre ++ (a ∷ rest)) (length pre) ≡ some a
  get_elem?-middle [] rest a = refl
  get_elem?-middle (x ∷ pre) rest a = get_elem?-middle pre rest a

  length-++ : (xs ys : List A) → length (xs ++ ys) ≡ length xs + length ys
  length-++ [] ys = omega arith
  length-++ (x ∷ xs) ys = omega (arith, length-++ xs ys)

  shift_one : (pre rest : List A) (a : A) → pre ++ (a ∷ rest) ≡ (pre ++ (a ∷ [])) ++ rest
  shift_one [] rest a = refl
  shift_one (x ∷ pre) rest a = ap (◌∷◌ x) (shift_one pre rest a)

cycle_out-step :
    (k i i' : ℕ) (order : List Share) (s : Share) (xs : List ℕ)
    → get_elem? order i ≡ some s
    → (i + 1) % length order ≡ i'
    → cycle_out (suc k) i order xs ≡ cycle_out k i' order (bump s.index xs)
unfolding cycle_out
cycle_out-step k i i' order s xs found next = rw (cycle_out, found, next) refl

-- Within one round the loop goes straight through the ranking.
cycle_out-bump_all :
    (k : ℕ) (pre rest : List Share) (xs : List ℕ)
    → k ≤ length rest
    → cycle_out k (length pre) (pre ++ rest) xs ≡ ok (bump_all (λ s. s.index) (take k rest) xs)
unfolding cycle_out bump_all
cycle_out-bump_all zero pre rest xs h = refl
cycle_out-bump_all (suc k) pre [] xs h = absurd (omega arith)
cycle_out-bump_all (suc zero) pre (s ∷ rest) xs h =
    cycle_out-step 0 (length pre) _ (pre ++ (s ∷ rest)) s xs (get_elem?-middle pre rest s) refl
cycle_out-bump_all (suc (suc k)) pre (s ∷ rest) xs h =
    let long = length-++ pre (s ∷ rest) in
    let one_on = length-++ pre (s ∷ []) in
    let straight : (length pre + 1) % length (pre ++ (s ∷ rest)) ≡ length pre + 1 =
      mod-eq_of_lt (omega (arith, long)) in
    let ahead : (length pre + 1) % length (pre ++ (s ∷ rest)) ≡ length (pre ++ (s ∷ [])) =
      omega (arith, straight, one_on) in
    cycle_out-step (suc k) (length pre) _ (pre ++ (s ∷ rest)) s xs (get_elem?-middle pre rest s)
      ahead
    ∙ ap (λ r. cycle_out (suc k) (length (pre ++ (s ∷ []))) r (bump s.index xs))
        (shift_one pre rest s)
    ∙ cycle_out-bump_all (suc k) (pre ++ (s ∷ [])) rest (bump s.index xs) (omega arith)

module _ (target : ℕ) (ws : List ℕ) (some_weight : 0 < sum ws) where
  abbrev result : List ℕ
  result =
      shares target (sum ws) (λ s. s.index) (λ s. s.remainder) (entry target (sum ws)) by_remainder
        (λ i w. refl) (λ i w. refl) falls rises ws refl some_weight

  spread-result : spread target ws ≡ ok result
  unfolding spread
  spread-result = cycle_out-bump_all _ [] _ _ (
      leftover_in_range target (sum ws) (λ s. s.index) (λ s. s.remainder) (entry target (sum ws))
        by_remainder (λ i w. refl) (λ i w. refl) falls rises ws refl some_weight)

  quota : (j : ℕ) → IsQuota target (sum ws) (get_or ws j 0) (get_or result j 0)
  quota =
      shares-IsQuota target (sum ws) _ (λ s. s.remainder) _ _ (λ i w. refl) (λ i w. refl) falls
        rises ws refl some_weight

within_line : (t W w s : ℕ) → IsQuota t W w s → t ≤ W → s ≤ w
within_line t W w s q h = elim (Bool-cases (leb s w)) [
  | inl fine ↦ ground arith
  | inr over ↦
      let more : w + 1 ≤ s = ground arith in
      let above : (w + 1) * W ≤ s * W = mul-le-mul_right W more in
      let below : t * w ≤ W * w = mul-le-mul_right w h in absurd (omega (arith, above, below, q.0))
]

-- What the lines get.
pub record IsSpread (target : ℕ) (totals discounts : List ℕ) : Type 0 where
  pub same_length : length discounts ≡ length totals
  pub exact : 0 < sum totals → sum discounts ≡ target
  pub nothing_to_share : sum totals ≡ 0 → sum discounts ≡ 0
  pub fair :
      0 < sum totals
      → (j : ℕ) → IsQuota target (sum totals) (get_or totals j 0) (get_or discounts j 0)
  pub within : target ≤ sum totals → (j : ℕ) → get_or discounts j 0 ≤ get_or totals j 0

abbrev no_discount_for : ℕ → ℕ
no_discount_for w = 0

sum-none : (ws : List ℕ) → sum (map no_discount_for ws) ≡ 0
sum-none [] = refl
sum-none (w ∷ ws) = omega (arith, sum-none ws)

get_or-none : (ws : List ℕ) (j : ℕ) → get_or (map no_discount_for ws) j 0 ≡ 0
get_or-none [] j = refl
get_or-none (w ∷ ws) zero = refl
get_or-none (w ∷ ws) (suc j) = get_or-none ws j

none-IsSpread :
    (target : ℕ) (ws : List ℕ)
    → (0 < sum ws → target ≡ 0)
    → IsSpread target ws (map no_discount_for ws)
none-IsSpread target ws nothing = record {
  same_length = length-map no_discount_for ws;
  exact = λ p. (omega (arith, sum-none ws, nothing p));
  nothing_to_share = λ p. sum-none ws;
  fair = λ p j. (let t = nothing p in let z = get_or-none ws j in (grind arith, grind arith));
  within = λ p j. (omega (arith, get_or-none ws j));
}

result-IsSpread :
    (target : ℕ) (ws : List ℕ) (p : 0 < sum ws) → IsSpread target ws (result target ws p)
result-IsSpread target ws p = record {
  same_length =
      length-shares target (sum ws) _ (λ s. s.remainder) _ _ (λ i w. refl) (λ i w. refl) falls rises
        ws refl p;
  exact = λ q.
      sum-shares target (sum ws) _ (λ s. s.remainder) _ _ (λ i w. refl) (λ i w. refl) falls rises ws
        refl p;
  nothing_to_share = λ q. absurd (omega arith);
  fair = λ q j. quota target ws p j;
  within = λ q j. within_line target (sum ws) _ _ (quota target ws p j) q;
}

-- applyDiscountToLines never throws, and its loop ends. It returns one discount for each line. Where
-- the lines are worth something the discounts add up to the discount exactly, and each is within less
-- than one paisa of its line's proportion; where they are worth nothing the discounts are zero. If
-- the discount is at most what the lines are worth together, no line gets more than its own total. The
-- shipping fee is dropped exactly with free shipping.
pub apply_discount_to_lines-IsSpread :
    (totals : List ℕ) (discount : AppliedDiscount) (shipping : ℕ)
    → (xs : List ℕ) × (apply_discount_to_lines totals discount shipping
        ≡ ok (xs, if discount.free_shipping then 0 else shipping))
      × IsSpread discount.discount_paise totals xs
unfolding apply_discount_to_lines
apply_discount_to_lines-IsSpread totals discount shipping =
    elim (Bool-cases (length totals == 0 || sum totals == 0 || discount.discount_paise == 0)) [
      | inl idle ↦
          (map no_discount_for totals, rw idle refl, none-IsSpread _ totals (λ p. nothing idle p))
      | inr busy ↦
          let p : 0 < sum totals = ground arith in
          (
            result discount.discount_paise totals p,
            rw (busy, spread-result discount.discount_paise totals p) refl,
            result-IsSpread discount.discount_paise totals p,
          )
    ]
  where
    empty-sum : (ws : List ℕ) → length ws ≡ 0 → sum ws ≡ 0
    empty-sum [] h = refl
    empty-sum (w ∷ ws) h = absurd (omega arith)

    nothing :
        (length totals == 0 || sum totals == 0 || discount.discount_paise == 0) ≡ true
        → 0 < sum totals
        → discount.discount_paise ≡ 0
    nothing idle p = ground (arith, empty-sum totals)
