-- ===== src/Promotions/Greedy.antt =====
-- The free units of buy_x_get_y are the cheapest ones.
use ecom_platform.Base.{
  ℕ, zero, suc, ◌+◌, ◌-◌, ◌*◌, ◌/◌, ◌≤◌, ◌<◌, ◌≡◌, ◌⊎◌, refl, ap, min, none, some, arith, leb,
  Bool-cases, inl, inr, ◌==◌, List, [], ◌∷◌, length, sum, sum_of, Matched, sort_by, sum_of-sort_by,
  sort_by-IsOrdered, IsOrdered, All, length-sort_by,
}
use native.Mathlib.Nat.{mul-le-mul_left, mul-le-mul_right}
use ecom_platform.Promotions.{
  CartLine, CartForEvaluation, take_free, cheaper, eligible_lines, buy_x_get_y_discount,
}

abbrev pub quantities : List CartLine → ℕ
quantities = sum_of (λ l. l.quantity)

-- What a choice of units costs.
abbrev pub cost : (CartLine → ℕ) → List CartLine → ℕ
cost pick = sum_of (λ l. pick l * l.unit_price_paise)

abbrev IsUpFrom : ℕ → CartLine → Type 0
IsUpFrom p l = p ≤ l.unit_price_paise

cost-le_of_price :
    (pick : CartLine → ℕ) (p : ℕ) (ls : List CartLine)
    → All (IsUpFrom p) ls
    → sum_of pick ls * p ≤ cost pick ls
cost-le_of_price pick p [] h = grind arith
cost-le_of_price pick p (l ∷ ls) h =
    let ih = cost-le_of_price pick p ls h.1 in
    let one : pick l * p ≤ pick l * l.unit_price_paise = grind (arith, h.0) in grind arith

take_free-zero : (ls : List CartLine) → take_free 0 ls ≡ 0
unfolding take_free
take_free-zero [] = refl
take_free-zero (l ∷ ls) = refl

take_free-step :
    (free : ℕ) (l : CartLine) (ls : List CartLine)
    → take_free free (l ∷ ls)
      ≡ min free l.quantity * l.unit_price_paise + take_free (free - min free l.quantity) ls
unfolding take_free
take_free-step zero l ls = ground (arith, take_free-zero ls)
take_free-step (suc n) l ls = ground arith

times_sum : (price a q d : ℕ) → a ≡ q + d → a * price ≡ q * price + d * price
times_sum price a q d h = omega (arith, ap (λ (n : ℕ). n * price) h)

fewer_picked :
    (a q price p x f c : ℕ)
    → q ≤ a
    → p ≤ price
    → f + (x + (a - q)) * price ≤ c
    → (a * price + f) + x * p ≤ q * price + c
fewer_picked a q price p x f c few cheap rest =
    let dear = mul-le-mul_left x cheap in
    let parts = times_sum price a q (a - q) (omega arith) in omega (arith, dear, parts, rest)

more_picked :
    (a q price p x f c : ℕ)
    → a ≤ q
    → p ≤ price
    → f + (x - (q - a)) * price ≤ c
    → (a * price + f) + x * p ≤ q * price + c
more_picked a q price p x f c many cheap rest =
    let dear = mul-le-mul_left x cheap in
    let parts = times_sum price q a (q - a) (omega arith) in
    let most : x ≤ (x - (q - a)) + (q - a) = omega arith in
    let over = mul-le-mul_right price most in omega (arith, dear, parts, over, rest)

-- A choice of `extra` units more than are free, at prices of at least `p`, costs that much more.
take_free-cheapest :
    (pick : CartLine → ℕ) (ls : List CartLine) (free extra p : ℕ)
    → ((l : CartLine) → pick l ≤ l.quantity)
    → IsOrdered (λ a b. a.unit_price_paise ≤ b.unit_price_paise) ls
    → All (IsUpFrom p) ls
    → min free (quantities ls) + extra ≤ sum_of pick ls
    → take_free free ls + extra * p ≤ cost pick ls
unfolding take_free
take_free-cheapest pick [] free extra p fits sorted up enough = none_left extra p (omega arith)
  where
    take_free-none : take_free free [] ≡ 0
    take_free-none = refl

    none_left : (x p : ℕ) → x ≡ 0 → take_free free [] + x * p ≤ 0
    none_left x p h = omega (arith, ap (λ (n : ℕ). n * p) h, take_free-none)
take_free-cheapest pick (l ∷ ls) free extra p fits sorted up enough =
    let a = min free l.quantity in
    let bound = fits l in
    let step = take_free-step free l ls in
    elim (Bool-cases (leb (pick l) a)) [
      | inl few ↦
          let ih =
            take_free-cheapest pick ls (free - a) (extra + (a - pick l)) l.unit_price_paise fits
              sorted.1 sorted.0 (ground arith) in
          let total =
            fewer_picked a (pick l) l.unit_price_paise p extra (take_free (free - a) ls)
              (cost pick ls) (ground arith) up.0 ih in
          omega (arith, step, total)
      | inr many ↦
          let ih =
            take_free-cheapest pick ls (free - a) (extra - (pick l - a)) l.unit_price_paise fits
              sorted.1 sorted.0 (ground arith) in
          let total =
            more_picked a (pick l) l.unit_price_paise p extra (take_free (free - a) ls)
              (cost pick ls) (ground arith) up.0 ih in
          omega (arith, step, total)
    ]

-- What units cost that are listed line by line.
abbrev pub paid : List ℕ → List CartLine → ℕ
paid [] ls = 0
paid (n ∷ ns) [] = 0
paid (n ∷ ns) (l ∷ ls) = n * l.unit_price_paise + paid ns ls

abbrev IsWithinLine : ℕ → CartLine → Type 0
IsWithinLine n l = n ≤ l.quantity

-- The free units, line by line.
take_free-attained :
    (free : ℕ) (ls : List CartLine)
    → (units : List ℕ) × Matched IsWithinLine units ls
      × (sum units ≡ min free (quantities ls))
      × (take_free free ls ≡ paid units ls)
unfolding take_free
take_free-attained free [] = ([], tt, omega arith, refl)
take_free-attained free (l ∷ ls) =
    let (units, fits, count, value) = take_free-attained (free - min free l.quantity) ls in
    let step = take_free-step free l ls in
    (
      min free l.quantity ∷ units,
      (ground arith, fits),
      ground (arith, count),
      omega (arith, step, value),
    )

-- `d` is the price of `n` units of the lines, and no `n` units of them are cheaper.
pub record IsCheapest (n : ℕ) (lines : List CartLine) (d : ℕ) : Type 0 where
  pub attained :
      (units : List ℕ) × Matched IsWithinLine units (sort_by cheaper lines)
      × (sum units ≡ n)
      × (d ≡ paid units (sort_by cheaper lines))
  pub cheapest :
      (pick : CartLine → ℕ)
      → ((l : CartLine) → pick l ≤ l.quantity)
      → n ≤ sum_of pick lines
      → d ≤ cost pick lines

from_zero : (ls : List CartLine) → All (IsUpFrom 0) ls
from_zero [] = tt
from_zero (l ∷ ls) = (omega arith, from_zero ls)

take_free-IsCheapest :
    (free : ℕ) (ls : List CartLine)
    → IsCheapest (min free (quantities ls)) ls (take_free free (sort_by cheaper ls))
take_free-IsCheapest free ls = record {
  attained =
      let (units, fits, count, value) = take_free-attained free (sort_by cheaper ls) in
      (units, fits, omega (arith, count, same_quantity), value);
  cheapest = λ pick fits enough.
      (let counted = sum_of-sort_by cheaper pick ls in
        let priced = sum_of-sort_by cheaper (λ l. pick l * l.unit_price_paise) ls in
        let least =
          take_free-cheapest pick (sort_by cheaper ls) free 0 0 fits sorted
            (from_zero (sort_by cheaper ls)) (omega (arith, same_quantity, counted, enough)) in
        omega (arith, least, priced));
}
  where
    same_quantity : quantities (sort_by cheaper ls) ≡ quantities ls
    same_quantity = sum_of-sort_by cheaper (λ l. l.quantity) ls

    sorted : IsOrdered (λ a b. a.unit_price_paise ≤ b.unit_price_paise) (sort_by cheaper ls)
    sorted =
        sort_by-IsOrdered cheaper (λ a b. a.unit_price_paise ≤ b.unit_price_paise)
          (λ a b h. ground arith) (λ a b h. ground arith) (λ a b c p q. (omega (arith, p, q))) ls

-- What the cart has reached of the rule: whole multiples of the quantity to buy.
abbrev pub batches_of : ℕ → CartForEvaluation → ℕ
batches_of buy_qty cart = quantities cart.lines / buy_qty

-- buyXGetYDiscount is none exactly where no line is eligible or the cart's quantity has not reached
-- the quantity to buy. Otherwise it is the price of as many eligible units as are free, or of all
-- where there are fewer, and no choice of that many eligible units of the cart would cost less.
pub buy_x_get_y_discount-IsCheapest :
    (buy_qty get_qty : ℕ) (ids : List ℕ) (cart : CartForEvaluation)
    → (((length (eligible_lines ids cart) ≡ 0) ⊎ (batches_of buy_qty cart ≡ 0))
        × (buy_x_get_y_discount buy_qty get_qty ids cart ≡ none))
      ⊎ ((d : ℕ) × (0 < length (eligible_lines ids cart))
          × (0 < batches_of buy_qty cart)
          × (buy_x_get_y_discount buy_qty get_qty ids cart ≡ some d)
          × IsCheapest
              (min (batches_of buy_qty cart * get_qty) (quantities (eligible_lines ids cart)))
              (eligible_lines ids cart)
              d)
unfolding buy_x_get_y_discount
buy_x_get_y_discount-IsCheapest buy_qty get_qty ids cart =
    let lines = eligible_lines ids cart in
    let same = length-sort_by cheaper lines in
    elim (Bool-cases (length (sort_by cheaper lines) == 0)) [
      | inl nobody ↦ inl (inl (ground (arith, same)), rw nobody refl)
      | inr eligible ↦ elim (Bool-cases (batches_of buy_qty cart == 0)) [
        | inl short ↦ inl (inr (ground arith), rw (eligible, short) refl)
        | inr reached ↦ inr (
          take_free (batches_of buy_qty cart * get_qty) (sort_by cheaper lines),
          ground (arith, same),
          ground arith,
          rw (eligible, reached) refl,
          take_free-IsCheapest (batches_of buy_qty cart * get_qty) lines,
        )
      ]
    ]
