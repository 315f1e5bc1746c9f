-- ===== src/Base/Outcome.antt =====
-- What a function that may throw returns. The codes are those of the program's AppError values
-- (packages/core/src/errors.ts and the throws of packages/core/src); `internal` is a plain Error.
use mathlib.Core.Path.{◌≡◌, refl, ap}
use mathlib.Core.Bool.{Bool, true, false}
use mathlib.Core.Logic.{◌≢◌}

pub data ErrorCode : Type 0 where
  invalid_payload : ErrorCode
  advance_not_configured : ErrorCode
  not_found : ErrorCode
  untracked_variant : ErrorCode
  insufficient_stock : ErrorCode
  stock_held : ErrorCode
  idempotency_key_reuse : ErrorCode
  concurrent_modification : ErrorCode
  invalid_transition : ErrorCode
  coupon_exhausted : ErrorCode
  coupon_not_applicable : ErrorCode
  unique_violation : ErrorCode
  forbidden : ErrorCode
  check_violation : ErrorCode
  internal : ErrorCode

pub data Result {ℓ} (A : Type ℓ) : Type ℓ where
  err : ErrorCode → Result A
  ok : A → Result A

module _ {ℓ κ} {A : Type ℓ} {B : Type κ} where
  infixl 5 ◌>>=◌
  -- A throw ends the chain.
  abbrev pub ◌>>=◌ : Result A → (A → Result B) → Result B
  err code >>= next = err code
  ok value >>= next = next value

  -- A chain that returns has got a value from its first part.
  pub bound_value :
      (first : Result A) (next : A → Result B) {b : B}
      → (first >>= next) ≡ ok b
      → (value : A) × (first ≡ ok value) × (next value ≡ ok b)
  bound_value (err code) next h = cc
  bound_value (ok value) next h = (value, refl, h)

infixl 5 ◌>>◌
abbrev pub ◌>>◌ {ℓ} : {B : Type ℓ} → Result (Unit {0}) → Result B → Result B
check >> rest = check >>= λ _. rest

-- `if (bad) throw …`
abbrev pub refuse_if : Bool → ErrorCode → Result (Unit {0})
refuse_if bad code = elim bad [ false ↦ ok tt | true ↦ err code ]

pub refuse_if-eq-ok : (b : Bool) (e : ErrorCode) → refuse_if b e ≡ ok tt → b ≡ false
refuse_if-eq-ok true e h = cc
refuse_if-eq-ok false e h = refl

pub ok-injective {ℓ} : {A : Type ℓ} {a b : A} → ok a ≡ ok b → a ≡ b
ok-injective h = cc

pub ok-ne-err {ℓ} : {A : Type ℓ} {a : A} {c : ErrorCode} → err c ≡ ok a → ⊥
ok-ne-err h = cc

module _ {ℓ κ} {A : Type ℓ} {B : Type κ} {a a' : A} {b b' : B} where
  pub ok_first : ◌≡◌ {A = Result (A × B)} (ok (a, b)) (ok (a', b')) → a ≡ a'
  ok_first h = cc

  pub ok_second : ◌≡◌ {A = Result (A × B)} (ok (a, b)) (ok (a', b')) → b ≡ b'
  ok_second h = cc

-- A call that returns has passed its test.
pub past_refusal {ℓ} :
    {A : Type ℓ} (bad : Bool) (code : ErrorCode) (rest : Result A) {a : A}
    → (refuse_if bad code >> rest) ≡ ok a
    → (bad ≡ false) × (rest ≡ ok a)
past_refusal true code rest h = cc
past_refusal false code rest h = (refl, h)

-- A chain throws what one of its parts throws.
pub bind-ne {ℓ κ} :
    {A : Type ℓ} {B : Type κ} (first : Result A) (next : A → Result B) (code : ErrorCode)
    → first ≢ err code
    → ((a : A) → first ≡ ok a → next a ≢ err code)
    → (first >>= next) ≢ err code
bind-ne (err c) next code p q h = let same : c ≡ code = cc in p (ap (λ x. err x) same)
bind-ne (ok a) next code p q h = q a refl h

pub refuse_if-ne : (b : Bool) (code other : ErrorCode) → code ≢ other → refuse_if b code ≢ err other
refuse_if-ne true code other p h = p (cc)
refuse_if-ne false code other p h = cc
