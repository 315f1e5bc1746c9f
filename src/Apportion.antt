-- ===== src/Apportion.antt =====
-- Largest-remainder allocation, as far as the tax engine (packages/core/src/tax/index.ts,
-- allocateProportionally) and the promotions (packages/core/src/promotions/index.ts,
-- applyDiscountToLines) share it: numbered entries, and a paisa more at an index.
pub mod Bump
pub mod Quota
pub mod Total
use ecom_platform.Base.{ℕ, zero, suc, ◌+◌, List, [], ◌∷◌}

-- `shares[index] = (shares[index] ?? 0) + 1`, at an index in range.
unfoldable pub bump : ℕ → List ℕ → List ℕ
bump i [] = []
bump zero (x ∷ xs) = (x + 1) ∷ xs
bump (suc i) (x ∷ xs) = x ∷ bump i xs

module _ {ℓ} {A : Type ℓ} where
  -- `list.forEach((value, index) => …)`, collecting `mk index value`.
  unfoldable pub enumerate : (ℕ → ℕ → A) → ℕ → List ℕ → List A
  enumerate mk i [] = []
  enumerate mk i (w ∷ ws) = mk i w ∷ enumerate mk (suc i) ws

  -- One paisa more for each entry.
  unfoldable pub bump_all : (A → ℕ) → List A → List ℕ → List ℕ
  bump_all index [] xs = xs
  bump_all index (e ∷ es) xs = bump_all index es (bump (index e) xs)
