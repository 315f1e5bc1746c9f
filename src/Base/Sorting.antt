-- ===== src/Base/Sorting.antt =====
-- `Array.prototype.sort` with a comparator: the stable sort, by insertion. `le a b` is
-- `compare(a, b) <= 0`.
use Prim.Native.Nat.{ℕ, suc, ◌+◌, ◌≤◌}
use mathlib.Core.Path.{◌≡◌, refl, ap, ◌∙◌}
use mathlib.Core.Logic.{inl, inr}
use mathlib.Core.Bool.{Bool, true, false}
use mathlib.Core.List.{List, [], ◌∷◌}
use native.Mathlib.Omega.{arith}
use ecom_platform.Base.Tests.{if◌then◌else◌, Bool-cases}
use ecom_platform.Base.Lists.{length, sum_of, All, All-map}

module _ {ℓ} {A : Type ℓ} (R : A → A → Type 0) where
  -- Each element is related to all that follow it.
  abbrev pub IsOrdered : List A → Type 0
  IsOrdered [] = Unit
  IsOrdered (x ∷ xs) = All (R x) xs × IsOrdered xs

-- The keys fall along the list.
abbrev pub IsFalling {ℓ} : {A : Type ℓ} → (A → ℕ) → List A → Type 0
IsFalling key = IsOrdered (λ x y. key y ≤ key x)

module _ {ℓ} {A : Type ℓ} (le : A → A → Bool) where
  abbrev pub insert_by : A → List A → List A
  insert_by x [] = x ∷ []
  insert_by x (y ∷ ys) = if le x y then x ∷ y ∷ ys else y ∷ insert_by x ys

  unfoldable pub sort_by : List A → List A
  sort_by [] = []
  sort_by (x ∷ xs) = insert_by x (sort_by xs)

  sum_of-insert_by :
      (f : A → ℕ) (x : A) (xs : List A) → sum_of f (insert_by x xs) ≡ f x + sum_of f xs
  sum_of-insert_by f x [] = refl
  sum_of-insert_by f x (y ∷ ys) = ground (arith, sum_of-insert_by f x ys)

  -- Sorting keeps every sum, and so the number of elements and of those with any property.
  pub sum_of-sort_by : (f : A → ℕ) (xs : List A) → sum_of f (sort_by xs) ≡ sum_of f xs
  unfolding sort_by
  sum_of-sort_by f [] = refl
  sum_of-sort_by f (x ∷ xs) = omega (arith, sum_of-insert_by f x (sort_by xs), sum_of-sort_by f xs)

  length-insert_by : (x : A) (xs : List A) → length (insert_by x xs) ≡ suc (length xs)
  length-insert_by x [] = refl
  length-insert_by x (y ∷ ys) = ground (arith, length-insert_by x ys)

  pub length-sort_by : (xs : List A) → length (sort_by xs) ≡ length xs
  unfolding sort_by
  length-sort_by [] = refl
  length-sort_by (x ∷ xs) = length-insert_by x (sort_by xs) ∙ ap suc (length-sort_by xs)

  All-insert_by {κ} :
      (P : A → Type κ) (x : A) (xs : List A) → P x → All P xs → All P (insert_by x xs)
  All-insert_by P x [] p h = (p, tt)
  All-insert_by P x (y ∷ ys) p h =
      elim (le x y) as (λ b. All P (if b then x ∷ y ∷ ys else y ∷ insert_by x ys)) [
        | true ↦ (p, h)
        | false ↦ (h.0, All-insert_by P x ys p h.1)
      ]

  pub All-sort_by {κ} : (P : A → Type κ) (xs : List A) → All P xs → All P (sort_by xs)
  unfolding sort_by
  All-sort_by P [] h = tt
  All-sort_by P (x ∷ xs) h = All-insert_by P x (sort_by xs) h.0 (All-sort_by P xs h.1)

  -- The sorted list is in any order that the comparator decides.
  module _ (R : A → A → Type 0) (first : (a b : A) → le a b ≡ true → R a b)
      (second : (a b : A) → le a b ≡ false → R b a)
      (R_trans : (a b c : A) → R a b → R b c → R a c) where
    insert_by-IsOrdered : (x : A) (xs : List A) → IsOrdered R xs → IsOrdered R (insert_by x xs)
    insert_by-IsOrdered x [] h = (tt, tt)
    insert_by-IsOrdered x (y ∷ ys) h = elim (Bool-cases (le x y)) [
      | inl e ↦ rw e ((first x y e, All-map (λ a p. R_trans x y a (first x y e) p) ys h.0), h)
      | inr e ↦ rw e (All-insert_by (R y) x ys (second x y e) h.0, insert_by-IsOrdered x ys h.1)
    ]

    pub sort_by-IsOrdered : (xs : List A) → IsOrdered R (sort_by xs)
    unfolding sort_by
    sort_by-IsOrdered [] = tt
    sort_by-IsOrdered (x ∷ xs) = insert_by-IsOrdered x (sort_by xs) (sort_by-IsOrdered xs)

  -- A comparator that goes by the falling key first sorts into falling order.
  pub sort_by-IsFalling :
      (key : A → ℕ)
      → ((a b : A) → le a b ≡ true → key b ≤ key a)
      → ((a b : A) → le a b ≡ false → key a ≤ key b)
      → (xs : List A) → IsFalling key (sort_by xs)
  sort_by-IsFalling key falls rises =
      sort_by-IsOrdered (λ x y. key y ≤ key x) falls rises (λ a b c p q. (omega (arith, p, q)))
