-- ===== src/Logistics/Weight.antt =====
-- Billed weight (packages/core/src/logistics/weight.ts). The volumetric weight is computed in floating
-- point and comes in as a number of grams.
use native.Mathlib.Nat.{div-add-mod, mod-lt}
use ecom_platform.Base.{
  ℕ, ◌+◌, ◌*◌, ◌/◌, ◌%◌, ◌≤◌, ◌<◌, ◌≡◌, ◌⊎◌, refl, max, true, false, ltb, ◌==◌, if◌then◌else◌,
  arith, Bool-cases, inl, inr,
}

-- `Math.ceil(grams / slabGrams) * slabGrams`
unfoldable pub apply_slab : ℕ → ℕ → ℕ
apply_slab grams slab =
    if slab == 0 then grams else (grams / slab + (if grams % slab == 0 then 0 else 1)) * slab

pub data WeightBasis : Type 0 where
  dead volumetric : WeightBasis

pub record BillableWeight : Type 0 where
  pub dead_weight_grams : ℕ
  pub volumetric_weight_grams : ℕ
  pub chargeable_weight_grams : ℕ
  pub billable_weight_grams : ℕ
  pub basis : WeightBasis

unfoldable pub compute_billable_weight : (dead_grams volumetric_grams slab : ℕ) → BillableWeight
unfolding apply_slab
compute_billable_weight dead_grams volumetric_grams slab = record {
  dead_weight_grams = dead_grams;
  volumetric_weight_grams = volumetric_grams;
  chargeable_weight_grams = max dead_grams volumetric_grams;
  billable_weight_grams = apply_slab (max dead_grams volumetric_grams) slab;
  basis = if ltb dead_grams volumetric_grams then volumetric else dead;
}

-- Whole slabs that hold the weight, without one to spare.
pub record IsSlabbed (grams slab billed : ℕ) : Type 0 where
  pub whole : (n : ℕ) × (billed ≡ n * slab)
  pub enough : grams ≤ billed
  pub tight : billed < grams + slab

apply_slab-IsSlabbed : (grams slab : ℕ) → 0 < slab → IsSlabbed grams slab (apply_slab grams slab)
unfolding apply_slab
apply_slab-IsSlabbed grams slab p =
    let positive : (slab == 0) ≡ false = ground arith in
    let parts = div-add-mod grams slab in
    let small = mod-lt grams p in
    elim (Bool-cases (grams % slab == 0)) [
      | inl even ↦
          rw (positive, even)
            (record { whole = (_, refl); enough = grind arith; tight = grind arith })
      | inr odd ↦
          rw (positive, odd)
            (record { whole = (_, refl); enough = grind arith; tight = grind arith })
    ]

abbrev pub IsBilled : (dead_grams volumetric_grams slab : ℕ) → BillableWeight → Type 0
IsBilled d v slab w =
    (d ≤ w.chargeable_weight_grams)
    × (v ≤ w.chargeable_weight_grams)
    × (((w.basis ≡ dead) × (w.chargeable_weight_grams ≡ d))
        ⊎ ((w.basis ≡ volumetric) × (w.chargeable_weight_grams ≡ v)))
    × (0 < slab → IsSlabbed w.chargeable_weight_grams slab w.billable_weight_grams)
    × (slab ≡ 0 → w.billable_weight_grams ≡ w.chargeable_weight_grams)

no_slab : (grams slab : ℕ) → slab ≡ 0 → apply_slab grams slab ≡ grams
unfolding apply_slab
no_slab grams slab h = let e : (slab == 0) ≡ true = ground arith in rw e refl

-- computeBillableWeight charges on the greater of the two weights, names it, and bills it in whole
-- slabs of the carrier: at least the weight, and less than one slab more. Without a slab it bills the
-- greater weight itself.
pub compute_billable_weight-IsBilled :
    (dead_grams volumetric_grams slab : ℕ)
    → IsBilled dead_grams volumetric_grams slab
        (compute_billable_weight dead_grams volumetric_grams slab)
unfolding compute_billable_weight
compute_billable_weight-IsBilled d v slab = (
  omega arith,
  omega arith,
  basis_of,
  (λ p. apply_slab-IsSlabbed (max d v) slab p),
  (λ p. no_slab (max d v) slab p),
)
  where
    basis_of :
        (((if ltb d v then volumetric else dead) ≡ dead) × (max d v ≡ d))
        ⊎ (((if ltb d v then volumetric else dead) ≡ volumetric) × (max d v ≡ v))
    basis_of = elim (Bool-cases (ltb d v)) [
      | inl bulky ↦ inr (rw bulky refl, ground arith)
      | inr dense ↦ inl (rw dense refl, ground arith)
    ]
