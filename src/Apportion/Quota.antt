-- ===== src/Apportion/Quota.antt =====
-- The parts of the largest-remainder rule: floors and remainders of a total over weights, the
-- numbered entries, and which of the ranked entries have a remainder at all.
use native.Mathlib.Nat.{div-add-mod}
use ecom_platform.Base.{
  ℕ, zero, suc, ◌+◌, ◌*◌, ◌/◌, ◌%◌, ◌≤◌, ◌<◌, ◌≡◌, refl, ap, ◌∙◌, List, [], ◌∷◌, arith, length,
  get_or, sum, sum_of, take, All, All-map, map, ltb, if◌then◌else◌, false, inl, inr, Bool-cases,
  IsFalling,
}
use ecom_platform.Apportion.{enumerate}
use ecom_platform.Apportion.Bump.{occurs}

module _ (t W : ℕ) where
  abbrev pub floor_share : ℕ → ℕ
  floor_share w = t * w / W

  abbrev pub remainder_of : ℕ → ℕ
  remainder_of w = t * w % W

  pub share_parts : (w : ℕ) → t * w ≡ W * floor_share w + remainder_of w
  share_parts w = omega (arith, div-add-mod (t * w) W)

  pub sum_parts :
      (ws : List ℕ) → t * sum ws ≡ W * sum (map floor_share ws) + sum (map remainder_of ws)
  sum_parts [] = grind arith
  sum_parts (w ∷ ws) = grind (arith, share_parts w, sum_parts ws)

  pub get_or-floor_share :
      (ws : List ℕ) (j : ℕ) → get_or (map floor_share ws) j 0 ≡ floor_share (get_or ws j 0)
  get_or-floor_share [] j = omega arith
  get_or-floor_share (w ∷ ws) zero = refl
  get_or-floor_share (w ∷ ws) (suc j) = get_or-floor_share ws j

  module _ {A : Type 0} (index remainder : A → ℕ) (mk : ℕ → ℕ → A)
      (index-mk : (i w : ℕ) → index (mk i w) ≡ i)
      (remainder-mk : (i w : ℕ) → remainder (mk i w) ≡ remainder_of w) where
    pub sum_of-enumerate :
        (i : ℕ) (ws : List ℕ) → sum_of remainder (enumerate mk i ws) ≡ sum (map remainder_of ws)
    unfolding enumerate
    sum_of-enumerate i [] = refl
    sum_of-enumerate i (w ∷ ws) = omega (arith, remainder-mk i w, sum_of-enumerate (suc i) ws)

    pub length-enumerate : (i : ℕ) (ws : List ℕ) → length (enumerate mk i ws) ≡ length ws
    unfolding enumerate
    length-enumerate i [] = refl
    length-enumerate i (w ∷ ws) = ap suc (length-enumerate (suc i) ws)

    pub enumerate_in_range :
        (i : ℕ) (ws : List ℕ) (n : ℕ)
        → i + length ws ≤ n
        → All (λ e. index e < n) (enumerate mk i ws)
    unfolding enumerate
    enumerate_in_range i [] n h = tt
    enumerate_in_range i (w ∷ ws) n h =
        (omega (arith, index-mk i w), enumerate_in_range (suc i) ws n (omega arith))

    -- An entry's remainder is that of the weight at its index.
    pub enumerate_agrees :
        (i : ℕ) (ws : List ℕ) (g : ℕ → ℕ)
        → ((j : ℕ) → get_or ws j 0 ≡ g (i + j))
        → All (λ e. remainder e ≡ remainder_of (g (index e))) (enumerate mk i ws)
    unfolding enumerate
    enumerate_agrees i [] g h = tt
    enumerate_agrees i (w ∷ ws) g h = (
      rw (remainder-mk i w, index-mk i w) (ap remainder_of (h 0 ∙ ap g (omega arith))),
      enumerate_agrees (suc i) ws g (λ j. h (suc j) ∙ ap g (omega arith)),
    )

    occurs_below : (i j : ℕ) (ws : List ℕ) → j < i → occurs index j (enumerate mk i ws) ≡ 0
    unfolding enumerate
    occurs_below i j [] h = refl
    occurs_below i j (w ∷ ws) h = ground (arith, index-mk i w, occurs_below (suc i) j ws)

    pub occurs_once : (i j : ℕ) (ws : List ℕ) → occurs index j (enumerate mk i ws) ≤ 1
    unfolding enumerate
    occurs_once i j [] = omega arith
    occurs_once i j (w ∷ ws) =
        ground (arith, index-mk i w, occurs_below (suc i) j ws, occurs_once (suc i) j ws)

    -- How many entries have a remainder at all.
    abbrev pub count_positive : List A → ℕ
    count_positive = sum_of (λ e. if ltb 0 (remainder e) then 1 else 0)

    pub remainders_le :
        (es : List A) → All (λ e. remainder e < W) es → sum_of remainder es ≤ W * count_positive es
    remainders_le [] h = omega arith
    remainders_le (e ∷ es) h = grind (arith, remainders_le es h.1)

    count_positive-zero : (es : List A) → All (λ e. remainder e ≤ 0) es → count_positive es ≡ 0
    count_positive-zero [] h = refl
    count_positive-zero (e ∷ es) h = ground (arith, count_positive-zero es h.1)

    -- Where the remainders fall, those that are positive come first.
    pub first_positive :
        (k : ℕ) (es : List A)
        → IsFalling remainder es
        → k ≤ count_positive es
        → All (λ e. 0 < remainder e) (take k es) × (k ≤ length es)
    first_positive zero es s h = (tt, omega arith)
    first_positive (suc k) [] s h = absurd (omega arith)
    first_positive (suc k) (e ∷ es) s h = elim (Bool-cases (ltb 0 (remainder e))) [
      | inl some_left ↦ (
        (ground arith, (first_positive k es s.1 (ground arith)).0),
        omega (arith, (first_positive k es s.1 (ground arith)).1),
      )
      | inr none_left ↦
          absurd
            (ground (arith, count_positive-zero es (All-map (λ a p. later a none_left p) es s.0)))
    ]
      where
        later : (a : A) → ltb 0 (remainder e) ≡ false → remainder a ≤ remainder e → remainder a ≤ 0
        later a q p = ground arith
