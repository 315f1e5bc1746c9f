-- ===== src/Apportion/Total.antt =====
-- The largest-remainder rule as a whole: what it hands out, over any ranking by falling remainder.
use native.Mathlib.Nat.{mod-lt, le_of_mul-le-mul_left}
use ecom_platform.Base.{
  ℕ, zero, suc, ◌+◌, ◌-◌, ◌*◌, ◌≤◌, ◌<◌, ◌≡◌, ap, ◌∙◌, sym, List, [], ◌∷◌, arith, length, get_or,
  sum, take, All, All-map, All-take, map, length-map, length-take, Bool, true, false, sort_by,
  sort_by-IsFalling, sum_of-sort_by, All-sort_by,
}
use ecom_platform.Apportion.{bump_all, enumerate}
use ecom_platform.Apportion.Bump.{
  one_if, occurs, sum-bump_all, get_or-bump_all, occurs-take-le, occurs-All, length-bump_all,
}
use ecom_platform.Apportion.Quota.{
  floor_share, remainder_of, share_parts, sum_parts, get_or-floor_share, sum_of-enumerate,
  enumerate_in_range, enumerate_agrees, occurs_once, remainders_le, first_positive, count_positive,
}

-- `s` is what weight `w` gets of `t` over the weights' sum `W`: less than one paisa above and less
-- than one below the exact proportion.
abbrev pub IsQuota : (t W w s : ℕ) → Type 0
IsQuota t W w s = (s * W < t * w + W) × (t * w < s * W + W)

rest_of_whole : (t W s d r : ℕ) → t ≡ s + d → t * W ≡ W * s + r → W * d ≡ r
rest_of_whole t W s d r e h = omega (arith, ap (λ (x : ℕ). x * W) e)

-- One paisa above the floor only where a remainder is left keeps a share within its quota.
IsQuota-of_floor :
    (t W w f r o : ℕ) → t * w ≡ W * f + r → r < W → o ≤ 1 → (0 < o → 0 < r) → IsQuota t W w (f + o)
IsQuota-of_floor t W w f r zero parts small once due = (grind arith, grind arith)
IsQuota-of_floor t W w f r (suc zero) parts small once due =
    let p : 0 < r = due (omega arith) in (grind arith, grind arith)
IsQuota-of_floor t W w f r (suc (suc o)) parts small once due = absurd (omega arith)

module _ (t W : ℕ) {A : Type 0} (index remainder : A → ℕ) (mk : ℕ → ℕ → A) (le : A → A → Bool)
    (index-mk : (i w : ℕ) → index (mk i w) ≡ i)
    (remainder-mk : (i w : ℕ) → remainder (mk i w) ≡ remainder_of t W w)
    (falls : (a b : A) → le a b ≡ true → remainder b ≤ remainder a)
    (rises : (a b : A) → le a b ≡ false → remainder a ≤ remainder b) (ws : List ℕ)
    (whole : sum ws ≡ W) (some_weight : 0 < W) where
  abbrev pub floors : List ℕ
  floors = map (floor_share t W) ws

  abbrev pub ranked : List A
  ranked = sort_by le (enumerate mk 0 ws)

  abbrev pub leftover : ℕ
  leftover = t - sum floors

  whole_parts : t * W ≡ W * sum floors + sum (map (remainder_of t W) ws)
  whole_parts = ap (λ (w : ℕ). t * w) (sym whole) ∙ sum_parts t W ws

  pub floors_le : sum floors ≤ t
  floors_le = le_of_mul-le-mul_left {k = W} (grind (arith, whole_parts)) some_weight

  leftover_parts : W * leftover ≡ sum (map (remainder_of t W) ws)
  leftover_parts = rest_of_whole t W (sum floors) leftover _ (omega (arith, floors_le)) whole_parts

  agrees : All (λ e. remainder e ≡ remainder_of t W (get_or ws (index e) 0)) ranked
  agrees = All-sort_by le _ (enumerate mk 0 ws) (
      enumerate_agrees t W index remainder mk index-mk remainder-mk 0 ws (λ j. get_or ws j 0)
        (λ j. ap (λ k. get_or ws k 0) (omega arith)))

  small : All (λ e. remainder e < W) ranked
  small = All-map (λ e q. rw q (mod-lt _ some_weight)) ranked agrees

  leftover_le : leftover ≤ count_positive t W index remainder mk index-mk remainder-mk ranked
  leftover_le =
      le_of_mul-le-mul_left {k = W}
        (omega (
          arith,
          leftover_parts,
          sum_of-sort_by le remainder (enumerate mk 0 ws),
          sum_of-enumerate t W index remainder mk index-mk remainder-mk 0 ws,
          remainders_le t W index remainder mk index-mk remainder-mk ranked small,
        ))
        some_weight

  -- The ranked entries suffice for what is left, and all that get a paisa have a remainder.
  served : All (λ e. 0 < remainder e) (take leftover ranked) × (leftover ≤ length ranked)
  served =
      first_positive t W index remainder mk index-mk remainder-mk leftover ranked
        (sort_by-IsFalling le remainder falls rises (enumerate mk 0 ws)) leftover_le

  pub leftover_in_range : leftover ≤ length ranked
  leftover_in_range = served.1

  abbrev pub shares : List ℕ
  shares = bump_all index (take leftover ranked) floors

  indices_in_range : All (λ e. index e < length floors) (take leftover ranked)
  indices_in_range = All-take _ leftover ranked (
      All-sort_by le _ (enumerate mk 0 ws) (
        enumerate_in_range t W index remainder mk index-mk remainder-mk 0 ws (length floors)
          (omega (arith, length-map (floor_share t W) ws))))

  pub length-shares : length shares ≡ length ws
  length-shares =
      length-bump_all index (take leftover ranked) floors ∙ length-map (floor_share t W) ws

  pub sum-shares : sum shares ≡ t
  sum-shares = omega (
    arith,
    sum-bump_all index (take leftover ranked) floors indices_in_range,
    length-take leftover ranked leftover_in_range,
    floors_le,
  )

  occurs_le : (j : ℕ) → occurs index j (take leftover ranked) ≤ 1
  occurs_le j = omega (
    arith,
    occurs-take-le index leftover j ranked,
    sum_of-sort_by le (λ e. one_if (index e) j) (enumerate mk 0 ws),
    occurs_once t W index remainder mk index-mk remainder-mk 0 j ws,
  )

  due : (j : ℕ) → 0 < occurs index j (take leftover ranked) → 0 < remainder_of t W (get_or ws j 0)
  due j =
      occurs-All index (λ i. 0 < remainder_of t W (get_or ws i 0)) j (take leftover ranked)
        (both (take leftover ranked) served.0 (All-take _ leftover ranked agrees))
    where
      both :
          (es : List A)
          → All (λ e. 0 < remainder e) es
          → All (λ e. remainder e ≡ remainder_of t W (get_or ws (index e) 0)) es
          → All (λ e. 0 < remainder_of t W (get_or ws (index e) 0)) es
      both [] p q = tt
      both (e ∷ es) p q = (rw q.0 at p.0, both es p.1 q.1)

  pub shares-IsQuota : (j : ℕ) → IsQuota t W (get_or ws j 0) (get_or shares j 0)
  shares-IsQuota j =
      rw
        (
          get_or-bump_all index (take leftover ranked) j floors indices_in_range,
          get_or-floor_share t W ws j,
        )
        (IsQuota-of_floor t W (get_or ws j 0) _ _ _ (share_parts t W (get_or ws j 0))
          (mod-lt _ some_weight) (occurs_le j) (due j))
