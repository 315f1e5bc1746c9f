-- ===== src/Base/Number.antt =====
-- The numbers of the source language, as far as validation tells them apart: an integer, or a
-- value that is none (a fraction, NaN, an infinity).
use Prim.Native.Nat.{ℕ, ◌≤◌}
use mathlib.Core.Path.{◌≡◌}
use mathlib.Core.Bool.{Bool, true, false, ◌&&◌, not}
use native.Mathlib.Omega.{arith}
use ecom_platform.Base.Tests.{ltb, leb}

-- `negsuc n` is -(n + 1).
pub data ℤ : Type 0 where
  pos : ℕ → ℤ
  negsuc : ℕ → ℤ

pub data JsNumber : Type 0 where
  int : ℤ → JsNumber
  non_integer : JsNumber

-- Number.MAX_SAFE_INTEGER
abbrev pub max_safe_integer : ℕ
max_safe_integer = 9007199254740991

abbrev pub is_safe_integer : JsNumber → Bool
is_safe_integer (int (pos n)) = leb n max_safe_integer
is_safe_integer (int (negsuc n)) = ltb n max_safe_integer
is_safe_integer non_integer = false

abbrev pub is_integer : JsNumber → Bool
is_integer (int z) = true
is_integer non_integer = false

-- `x < 0`, of an integer.
abbrev pub is_negative : JsNumber → Bool
is_negative (int (negsuc n)) = true
is_negative (int (pos n)) = false
is_negative non_integer = false

-- The value of a number that validation has let through.
abbrev pub nat_value : JsNumber → ℕ
nat_value (int (pos n)) = n
nat_value (int (negsuc n)) = 0
nat_value non_integer = 0

-- `Number.isSafeInteger(x) && x >= 0`
abbrev pub is_amount : JsNumber → Bool
is_amount x = is_safe_integer x && not (is_negative x)

pub is_amount-int : (n : ℕ) → n ≤ max_safe_integer → is_amount (int (pos n)) ≡ true
is_amount-int n h = ground arith

pub is_amount→bound : (x : JsNumber) → is_amount x ≡ true → nat_value x ≤ max_safe_integer
is_amount→bound (int (pos n)) h = ground arith
is_amount→bound (int (negsuc n)) h = ground arith
is_amount→bound non_integer h = ground arith
