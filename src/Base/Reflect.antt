-- ===== src/Base/Reflect.antt =====
-- Boolean tests and the statements that they decide.
use mathlib.Core.Path.{◌≡◌, refl}
use mathlib.Core.Bool.{Bool, true, false, not, ◌&&◌, ◌||◌}
use mathlib.Core.List.{List, [], ◌∷◌}
use mathlib.Core.Logic.{◌⊎◌, inl, inr}
use ecom_platform.Base.Lists.{any, all, All}

-- The test is true exactly where the statement holds.
abbrev pub Reflects {ℓ} : Type ℓ → Bool → Type ℓ
Reflects P b = (b ≡ true → P) × (P → b ≡ true)

pub Reflects-false {ℓ} : (P : Type ℓ) (b : Bool) → Reflects P b → b ≡ false → P → ⊥
Reflects-false P true r e p = cc
Reflects-false P false r e p = let wrong = r.1 p in cc

pub and-Reflects {ℓ κ} :
    (P : Type ℓ) (Q : Type κ) (a b : Bool) → Reflects P a → Reflects Q b → Reflects (P × Q) (a && b)
and-Reflects P Q true true r s = (λ h. (r.0 refl, s.0 refl), λ h. refl)
and-Reflects P Q true false r s = (λ h. absurd (cc), λ h. s.1 h.1)
and-Reflects P Q false b r s = (λ h. absurd (cc), λ h. r.1 h.0)

pub not-Reflects {ℓ} : (P : Type ℓ) (b : Bool) → Reflects P b → Reflects (P → ⊥) (not b)
not-Reflects P true r = (λ h. absurd (cc), λ h. absurd (h (r.0 refl)))
not-Reflects P false r = (λ h p. Reflects-false P false r refl p, λ h. refl)

module _ {ℓ} {A : Type ℓ} where
  -- Some entry of the list satisfies the statement.
  abbrev pub Somewhere : (A → Type 0) → List A → Type 0
  Somewhere P [] = ⊥
  Somewhere P (x ∷ xs) = P x ⊎ Somewhere P xs

  pub any-Reflects :
      (P : A → Type 0) (p : A → Bool)
      → ((a : A) → Reflects (P a) (p a))
      → (xs : List A) → Reflects (Somewhere P xs) (any p xs)
  any-Reflects P p r [] = (λ h. absurd (cc), λ h. absurd h)
  any-Reflects P p r (x ∷ xs) =
      or_Reflects (P x) (Somewhere P xs) (p x) (any p xs) (r x) (any-Reflects P p r xs)
    where
      or_Reflects :
          (P Q : Type 0) (a b : Bool) → Reflects P a → Reflects Q b → Reflects (P ⊎ Q) (a || b)
      or_Reflects P Q true b r s = (λ h. inl (r.0 refl), λ h. refl)
      or_Reflects P Q false true r s = (λ h. inr (s.0 refl), λ h. refl)
      or_Reflects P Q false false r s =
          (λ h. absurd (cc), λ h. elim h [ inl x ↦ r.1 x | inr y ↦ s.1 y ])

  pub all-Reflects :
      (P : A → Type 0) (p : A → Bool)
      → ((a : A) → Reflects (P a) (p a))
      → (xs : List A) → Reflects (All P xs) (all p xs)
  all-Reflects P p r [] = (λ h. tt, λ h. refl)
  all-Reflects P p r (x ∷ xs) =
      and-Reflects (P x) (All P xs) (p x) (all p xs) (r x) (all-Reflects P p r xs)
