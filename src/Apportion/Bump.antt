-- ===== src/Apportion/Bump.antt =====
-- What a paisa more at some indices does to the shares.
use ecom_platform.Base.{
  ℕ, zero, suc, ◌+◌, ◌≤◌, ◌<◌, ◌≡◌, refl, ap, ◌∙◌, List, [], ◌∷◌, arith, length, get_or, sum,
  sum_of, take, All, All-map, ◌==◌, if◌then◌else◌, true, inl, inr, Bool-cases,
}
use ecom_platform.Apportion.{bump, bump_all}

pub length-bump : (i : ℕ) (xs : List ℕ) → length (bump i xs) ≡ length xs
unfolding bump
length-bump i [] = refl
length-bump zero (x ∷ xs) = refl
length-bump (suc i) (x ∷ xs) = ap suc (length-bump i xs)

sum-bump : (i : ℕ) (xs : List ℕ) → i < length xs → sum (bump i xs) ≡ suc (sum xs)
unfolding bump
sum-bump i [] h = absurd (omega arith)
sum-bump zero (x ∷ xs) h = omega arith
sum-bump (suc i) (x ∷ xs) h = omega (arith, sum-bump i xs)

abbrev pub one_if : ℕ → ℕ → ℕ
one_if i j = if i == j then 1 else 0

get_or-bump :
    (i j : ℕ) (xs : List ℕ) → i < length xs → get_or (bump i xs) j 0 ≡ get_or xs j 0 + one_if i j
unfolding bump
get_or-bump i j [] h = absurd (omega arith)
get_or-bump zero zero (x ∷ xs) h = ground arith
get_or-bump zero (suc j) (x ∷ xs) h = ground arith
get_or-bump (suc i) zero (x ∷ xs) h = ground arith
get_or-bump (suc i) (suc j) (x ∷ xs) h = ground (arith, get_or-bump i j xs)

module _ {ℓ} {A : Type ℓ} (index : A → ℕ) where
  -- How many of the entries stand at index `j`.
  abbrev pub occurs : ℕ → List A → ℕ
  occurs j = sum_of (λ e. one_if (index e) j)

  pub length-bump_all : (es : List A) (xs : List ℕ) → length (bump_all index es xs) ≡ length xs
  unfolding bump_all
  length-bump_all [] xs = refl
  length-bump_all (e ∷ es) xs = length-bump_all es (bump (index e) xs) ∙ length-bump (index e) xs

  in_range :
      (i : ℕ) (es : List A) (xs : List ℕ)
      → All (λ e. index e < length xs) es
      → All (λ e. index e < length (bump i xs)) es
  in_range i es xs h = All-map (λ e p. rw (length-bump i xs) p) es h

  -- Each entry adds one paisa to the sum.
  pub sum-bump_all :
      (es : List A) (xs : List ℕ)
      → All (λ e. index e < length xs) es
      → sum (bump_all index es xs) ≡ sum xs + length es
  unfolding bump_all
  sum-bump_all [] xs h = omega arith
  sum-bump_all (e ∷ es) xs h = omega (
    arith,
    sum-bump_all es (bump (index e) xs) (in_range (index e) es xs h.1),
    sum-bump (index e) xs h.0,
  )

  -- And each share grows by the number of entries at its index.
  pub get_or-bump_all :
      (es : List A) (j : ℕ) (xs : List ℕ)
      → All (λ e. index e < length xs) es
      → get_or (bump_all index es xs) j 0 ≡ get_or xs j 0 + occurs j es
  unfolding bump_all
  get_or-bump_all [] j xs h = omega arith
  get_or-bump_all (e ∷ es) j xs h = omega (
    arith,
    get_or-bump_all es j (bump (index e) xs) (in_range (index e) es xs h.1),
    get_or-bump (index e) j xs h.0,
  )

  pub occurs-take-le : (k j : ℕ) (es : List A) → occurs j (take k es) ≤ occurs j es
  occurs-take-le zero j es = omega arith
  occurs-take-le (suc k) j [] = omega arith
  occurs-take-le (suc k) j (e ∷ es) = omega (arith, occurs-take-le k j es)

  -- What holds of every entry as a fact about its index holds of an index that occurs.
  pub occurs-All {κ} :
      (P : ℕ → Type κ) (j : ℕ) (es : List A) → All (λ e. P (index e)) es → 0 < occurs j es → P j
  occurs-All P j [] h p = absurd (omega arith)
  occurs-All P j (e ∷ es) h p = elim (Bool-cases (index e == j)) [
    | inl hit ↦ rw (same hit) at h.0
    | inr miss ↦ occurs-All P j es h.1 (ground arith)
  ]
    where
      same : (index e == j) ≡ true → index e ≡ j
      same q = ground arith
