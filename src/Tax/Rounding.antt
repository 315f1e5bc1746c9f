-- ===== src/Tax/Rounding.antt =====
-- Rounding to the nearest whole paisa, halves away from zero (divHalfUp).
use native.Mathlib.Nat.{div-add-mod, mod-lt}
use ecom_platform.Base.{
  ℕ, zero, suc, ◌+◌, ◌*◌, ◌/◌, ◌%◌, ◌≤◌, ◌<◌, ◌≡◌, refl, Bool, true, false, ok, arith, ℤ, pos,
  max_safe_integer, leb, Bool-cases, inl, inr,
}
use ecom_platform.Tax.{half_up, div_half_up, magnitude, is_below_zero, differ, signed}

-- `q` is the whole number nearest to `n / d`, the larger of two equally near.
abbrev pub IsNearest : (n d q : ℕ) → Type 0
IsNearest n d q = (2 * (q * d) ≤ 2 * n + d) × (2 * n < 2 * (q * d) + d)

rounded_up : (n d q r : ℕ) → n ≡ d * q + r → r < d → d ≤ r * 2 → IsNearest n d (q + 1)
rounded_up n d q r e s h = (grind arith, grind arith)

rounded_down : (n d q r : ℕ) → n ≡ d * q + r → r < d → r * 2 < d → IsNearest n d q
rounded_down n d q r e s h = (grind arith, grind arith)

pub half_up-IsNearest : (n d : ℕ) → 0 < d → IsNearest n d (half_up n d)
unfolding half_up
half_up-IsNearest n d h = elim (Bool-cases (leb d (n % d * 2))) [
  | inl e ↦ rw e (rounded_up n d (n / d) (n % d) parts (mod-lt n h) (ground arith))
  | inr e ↦ rw e (rounded_down n d (n / d) (n % d) parts (mod-lt n h) (ground arith))
]
  where
    parts : n ≡ d * (n / d) + n % d
    parts = omega (arith, div-add-mod n d)

magnitude-signed : (b : Bool) (n : ℕ) → magnitude (signed b n) ≡ n
magnitude-signed true zero = refl
magnitude-signed true (suc n) = refl
magnitude-signed false n = refl

sign-signed : (b : Bool) (n : ℕ) → 0 < n → is_below_zero (signed b n) ≡ b
sign-signed true zero h = absurd (omega arith)
sign-signed true (suc n) h = refl
sign-signed false n h = refl

-- What a call that returned has computed.
pub record IsRounded (numer denom quotient : ℤ) : Type 0 where
  pub nearest : IsNearest (magnitude numer) (magnitude denom) (magnitude quotient)
  pub sign :
      0 < magnitude quotient
      → is_below_zero quotient ≡ differ (is_below_zero numer) (is_below_zero denom)
  pub safe : magnitude quotient ≤ max_safe_integer

pub div_half_up-inverts :
    (n d z : ℤ)
    → div_half_up n d ≡ ok z
    → (0 < magnitude d)
      × (half_up (magnitude n) (magnitude d) ≤ max_safe_integer)
      × (z
          ≡ signed
              (differ (is_below_zero n) (is_below_zero d))
              (half_up (magnitude n) (magnitude d)))
unfolding div_half_up
div_half_up-inverts n d z h = ground arith

-- Whenever divHalfUp returns, the magnitude of its result is the whole number nearest to the exact
-- quotient's (the larger one when two are equally near, so halves go away from zero), its sign is
-- that of the quotient unless it is zero, and it is a safe integer.
pub div_half_up-IsRounded : (n d z : ℤ) → div_half_up n d ≡ ok z → IsRounded n d z
div_half_up-IsRounded n d z h =
    let (pos_d, bound, e) = div_half_up-inverts n d z h in
    rw e (record {
      nearest = rw magnitude-signed (half_up-IsNearest (magnitude n) (magnitude d) pos_d);
      sign = λ p. sign-signed _ _ (rw magnitude-signed at p);
      safe = rw magnitude-signed bound;
    })

-- On non-negative numbers.
pub div_half_up-pos :
    (n d : ℕ)
    → 0 < d
    → half_up n d ≤ max_safe_integer
    → div_half_up (pos n) (pos d) ≡ ok (pos (half_up n d))
unfolding div_half_up
div_half_up-pos n d h s = ground arith
