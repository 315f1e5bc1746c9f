-- ===== src/Inventory/Placement.antt =====
-- Placing a hold: what it leaves, and that it keeps the tables consistent.
use ecom_platform.Base.{
  map, ◌++◌, ◌+◌, ℕ, ◌≤◌, ◌≡◌, refl, sym, Bool, false, not, List, [], keep, length, arith, ltb,
  ◌==◌, invalid_payload, insufficient_stock, ok, bound_value, ok_second, past_refusal, ok-injective,
  refuse_if-eq-ok,
}
use ecom_platform.Inventory.Ledger.{
  Stock, ReservationReference, ReservationRow, same_reference, reserved_by, ensure_default_location,
  reserved,
}
use ecom_platform.Inventory.Holds.{
  HoldLine, hold_row, HoldResult, fit_lines, place_hold, hold_stock, is_tracked, has_bad_line,
  validate_lines, load_line_variants, drop_reference,
}
use ecom_platform.Inventory.Invariant.{
  IsConsistent, IsReady, ensure_default_location-IsReady, on_hand, on_hand_at,
}
use ecom_platform.Inventory.Sums.{sum_of-keep, requested, reserved-hold_row}
use ecom_platform.Inventory.Fit.{fit_lines-covered, reserved-fit_lines}

-- A hold that is placed: the rows it leaves, and that its lines fit beside the rows of others.
pub place_hold_inverts :
    (now location : ℕ) (ref : ReservationReference) (p : HoldLine → Bool) (ls : List HoldLine)
    (s s' : Stock)
    → IsReady now location s
    → has_bad_line [] ls ≡ false
    → place_hold now location ref (keep p ls) s ≡ ok s'
    → (rest : List ReservationRow) × (s'
        ≡ record s { reservations = map (hold_row now location ref) (keep p ls) ++ rest })
      × ((w : ℕ) → requested w (keep p ls) + reserved now w rest ≤ on_hand_at s w location)
unfolding place_hold
place_hold_inverts now location ref p ls s s' v distinct h =
    let level_at : ℕ → ℕ = λ w. on_hand_at s w location in
    let rs = drop_reference ref s.reservations in
    let fitted = fit_lines now level_at (keep p ls) rs in
    let (fits, f) = past_refusal (not (length fitted.0 == 0)) insufficient_stock _ h in
    let fewer : (w : ℕ) → reserved now w rs ≤ on_hand_at s w location = λ w.
      (let held : reserved now w s.reservations ≤ on_hand_at s w location =
          rw v.0 at (v.1.covered w) in
        omega (
          arith,
          held,
          sum_of-keep (reserved_by now w) (λ r. not (same_reference r.reference ref))
              s.reservations,
        )) in
    (
      fitted.1,
      sym (ok-injective f),
      λ w.
          (omega (
            arith,
            fit_lines-covered now level_at p [] ls rs distinct (ground arith) fewer w,
            reserved-fit_lines now level_at w (keep p ls) rs,
          )),
    )

place_hold-IsConsistent :
    (now location : ℕ) (ref : ReservationReference) (p : HoldLine → Bool) (ls : List HoldLine)
    (s s' : Stock)
    → IsReady now location s
    → has_bad_line [] ls ≡ false
    → place_hold now location ref (keep p ls) s ≡ ok s'
    → IsConsistent now s'
place_hold-IsConsistent now location ref p ls s s' v distinct h =
    let (rest, placed, fits) = place_hold_inverts now location ref p ls s s' v distinct h in
    rw placed (record {
      reconciled = v.1.reconciled;
      covered = λ w.
          (let here : on_hand s w ≡ on_hand_at s w location = rw v.0 refl in
            omega (arith, fits w, reserved-hold_row now location w ref (keep p ls) rest, here));
    })

pub valid_lines :
    (ls : List HoldLine) (u : Unit) → validate_lines ls ≡ ok u → has_bad_line [] ls ≡ false
unfolding validate_lines
valid_lines ls u h =
    refuse_if-eq-ok (has_bad_line [] ls) invalid_payload
      (past_refusal (ltb 100 (length ls)) invalid_payload _
        (past_refusal (length ls == 0) invalid_payload _ h).1).1

pub hold_stock-IsConsistent :
    (now : ℕ) (ref : ReservationReference) (ls : List HoldLine) (s s' : Stock) (r : HoldResult)
    → IsConsistent now s
    → hold_stock now ref ls s ≡ ok (r, s')
    → IsConsistent now s'
unfolding hold_stock
hold_stock-IsConsistent now ref ls s s' r v h =
    let (a, b, c) = bound_value (validate_lines ls) _ h in
    let (a', b', c') = bound_value (load_line_variants s ls) _ c in
    let located = ensure_default_location s in
    let (done, e, f) =
      bound_value (place_hold now located.0 ref (keep (is_tracked s) ls) located.1) _ c' in
    rw (sym (ok_second f)) (
      place_hold-IsConsistent now _ ref (is_tracked s) ls _ done
        (ensure_default_location-IsReady now s v) (valid_lines ls a b) e)
