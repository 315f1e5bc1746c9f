-- ===== src/Inventory/Fit.antt =====
-- Hold lines that fit, each variant at most once, together stay within what is on hand.
use ecom_platform.Base.{
  ℕ, ◌+◌, ◌-◌, ◌≤◌, ◌≡◌, refl, Bool, true, false, List, [], ◌∷◌, keep, length, arith, ◌==◌,
  Bool-cases, inl, inr,
}
use ecom_platform.Inventory.Ledger.{ReservationRow, reserved}
use ecom_platform.Inventory.Holds.{HoldLine, has_bad_line, seen_before, fit_lines, drop_expired}
use ecom_platform.Inventory.Sums.{requested, reserved-drop_expired}

-- No later line asks for a variant that has been seen.
pub unrequested :
    (p : HoldLine → Bool) (v : ℕ) (seen : List ℕ) (ls : List HoldLine)
    → has_bad_line seen ls ≡ false
    → seen_before seen v ≡ true
    → requested v (keep p ls) ≡ 0
unfolding has_bad_line
unrequested p v seen [] h b = refl
unrequested p v seen (l ∷ ls) h b =
    let (distinct, rest) = split_bad h in
    let ih = unrequested p v (l.variant_id ∷ seen) ls rest (ground arith) in ground (arith, ih)
  where
    split_bad :
        has_bad_line seen (l ∷ ls) ≡ false
        → (seen_before seen l.variant_id ≡ false) × (has_bad_line (l.variant_id ∷ seen) ls ≡ false)
    split_bad h = (ground arith, ground arith)

pub reserved-fit_lines :
    (now : ℕ) (on_hand : ℕ → ℕ) (v : ℕ) (ls : List HoldLine) (rs : List ReservationRow)
    → reserved now v (fit_lines now on_hand ls rs).1 ≡ reserved now v rs
unfolding fit_lines
reserved-fit_lines now on_hand v [] rs = refl
reserved-fit_lines now on_hand v (l ∷ ls) rs = omega (
  arith,
  reserved-fit_lines now on_hand v ls (drop_expired now l.variant_id rs),
  reserved-drop_expired now v l.variant_id rs,
)

-- The first line fits, and so do the others.
fit_step :
    (now : ℕ) (on_hand : ℕ → ℕ) (l : HoldLine) (ls : List HoldLine) (rs : List ReservationRow)
    → (length (fit_lines now on_hand (l ∷ ls) rs).0 == 0) ≡ true
    → (l.quantity ≤ on_hand l.variant_id - reserved now l.variant_id rs)
      × ((length (fit_lines now on_hand ls (drop_expired now l.variant_id rs)).0 == 0) ≡ true)
unfolding fit_lines
fit_step now on_hand l ls rs h =
    let same = reserved-drop_expired now l.variant_id l.variant_id rs in
    (ground (arith, same), ground (arith, same))

pub fit_lines-covered :
    (now : ℕ) (on_hand : ℕ → ℕ) (p : HoldLine → Bool) (seen : List ℕ) (ls : List HoldLine)
    (rs : List ReservationRow)
    → has_bad_line seen ls ≡ false
    → (length (fit_lines now on_hand (keep p ls) rs).0 == 0) ≡ true
    → ((v : ℕ) → reserved now v rs ≤ on_hand v)
    → (v : ℕ) → requested v (keep p ls) + reserved now v rs ≤ on_hand v
unfolding has_bad_line
fit_lines-covered now on_hand p seen [] rs h fits c v = omega (arith, c v)
fit_lines-covered now on_hand p seen (l ∷ ls) rs h fits c v = elim (Bool-cases (p l)) [
  | inl kept ↦
      let none_left =
        unrequested p l.variant_id (l.variant_id ∷ seen) ls (ground arith) (ground arith) in
      let (fit, fits_rest) = fit_step now on_hand l (keep p ls) rs (rw kept at fits) in
      let live = drop_expired now l.variant_id rs in
      let same = reserved-drop_expired now v l.variant_id rs in
      let ih =
        fit_lines-covered now on_hand p (l.variant_id ∷ seen) ls live (ground arith) fits_rest
          (λ w. (omega (arith, c w, reserved-drop_expired now w l.variant_id rs))) v in
      elim (Bool-cases (l.variant_id == v)) [
        | inl hit ↦
            let at : l.variant_id ≡ v = ground arith in
            let none_left_here : requested v (keep p ls) ≡ 0 = cc in
            let fit_here : l.quantity ≤ on_hand v - reserved now v rs = rw at at fit in
            ground (arith, kept, hit, none_left_here, fit_here, c v)
        | inr miss ↦ ground (arith, kept, miss, ih, same)
      ]
  | inr dropped ↦
      let ih =
        fit_lines-covered now on_hand p (l.variant_id ∷ seen) ls rs (ground arith)
          (rw dropped at fits) c v in
      rw dropped ih
]
