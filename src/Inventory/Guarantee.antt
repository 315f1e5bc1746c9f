-- ===== src/Inventory/Guarantee.antt =====
-- What a hold is for: the sale that it guarantees.
use ecom_platform.Base.{
  ℕ, ◌+◌, ◌≤◌, ◌≡◌, refl, ap, ◌∙◌, Bool, true, not, Option, none, some, List, [], ◌∷◌, ◌++◌, map,
  keep, any, arith, ◌==◌, if◌then◌else◌, ok, refuse_if, bound_value, ok_second, sort_by,
  sum_of-sort_by, not_found,
}
use ecom_platform.Inventory.Ledger.{
  Stock, ReservationReference, ReservationRow, same_reference, reserved, reserved_by, live_variant,
  existing_or_new, ensure_default_location,
}
use ecom_platform.Inventory.Holds.{
  HoldLine, HoldResult, LineResult, place_hold, hold_stock, hold_row, is_tracked, is_missing,
  validate_lines, load_line_variants,
}
use ecom_platform.Inventory.Sales.{consume_stock_within, consume_stock, by_variant}
use ecom_platform.Inventory.Invariant.{IsConsistent, on_hand_at, ensure_default_location-IsReady}
use ecom_platform.Inventory.Sums.{requested, sum_of-keep, later_reserved}
use ecom_platform.Inventory.Placement.{place_hold_inverts, valid_lines}
use ecom_platform.Inventory.Selling.{others, IsCovered, consume_lines_go_through}

-- Lists searched and filtered by tests that agree.
module _ {ℓ} {A : Type ℓ} (p q : A → Bool) (same : (a : A) → p a ≡ q a) where
  any-agree : (xs : List A) → any p xs ≡ any q xs
  any-agree [] = refl
  any-agree (x ∷ xs) = rw (same x, any-agree xs) refl

  keep-agree : (xs : List A) → keep p xs ≡ keep q xs
  keep-agree [] = refl
  keep-agree (x ∷ xs) = rw (same x, keep-agree xs) refl

same_variants :
    (existing : Option ℕ) (s : Stock) → (existing_or_new existing s).1.variant ≡ s.variant
same_variants none s = refl
same_variants (some l) s = refl

located_again :
    (existing : Option ℕ) (s : Stock)
    → s.default_location ≡ existing
    → (existing_or_new existing s).1.default_location ≡ some (existing_or_new existing s).0
located_again none s e = refl
located_again (some l) s e = e

module _ (s s' : Stock) (same : s'.variant ≡ s.variant) where
  same_live_variant : (v : ℕ) → live_variant s' v ≡ live_variant s v
  unfolding live_variant
  same_live_variant v = rw (same, live_variant) refl

  same_tracking : (l : HoldLine) → is_tracked s' l ≡ is_tracked s l
  unfolding is_tracked
  same_tracking l = rw (is_tracked, same_live_variant l.variant_id) refl

  same_missing : (l : HoldLine) → is_missing s' l ≡ is_missing s l
  same_missing l = rw (is_missing, same_live_variant l.variant_id) refl

-- The reference's own rows do not count among the others'.
others_of_new :
    (now now' location v : ℕ) (ref : ReservationReference) (ls : List HoldLine)
    (rs : List ReservationRow)
    → others now' ref v (map (hold_row now location ref) ls ++ rs) ≡ others now' ref v rs
others_of_new now now' location v ref [] rs = refl
others_of_new now now' location v ref (l ∷ ls) rs =
    let own : same_reference ref ref ≡ true = ground arith in
    rw own (others_of_new now now' location v ref ls rs)

placed-IsCovered :
    (now now' location : ℕ) (ref : ReservationReference) (ls : List HoldLine) (s : Stock)
    (rest : List ReservationRow)
    → now ≤ now'
    → ((w : ℕ) → requested w ls + reserved now w rest ≤ on_hand_at s w location)
    → IsCovered now' location ref ls
        (record s { reservations = map (hold_row now location ref) ls ++ rest })
placed-IsCovered now now' location ref ls s rest later fits w = omega (
  arith,
  fits w,
  others_of_new now now' location w ref ls rest,
  sum_of-keep (reserved_by now' w) (λ r. not (same_reference r.reference ref)) rest,
  later_reserved now now' w rest later,
)

sorted-IsCovered :
    (now location : ℕ) (ref : ReservationReference) (ls : List HoldLine) (s : Stock)
    → IsCovered now location ref ls s
    → IsCovered now location ref (sort_by by_variant ls) s
sorted-IsCovered now location ref ls s h w =
    omega
      (arith, h w, sum_of-sort_by by_variant (λ l. if l.variant_id == w then l.quantity else 0) ls)

found_location :
    (s : Stock) (location : ℕ)
    → s.default_location ≡ some location
    → ensure_default_location s ≡ (location, s)
unfolding ensure_default_location
found_location s location h = ap (λ existing. existing_or_new existing s) h

-- Consumption goes through wherever the lines are valid, known and covered.
consume_goes_through :
    (now location : ℕ) (ref : ReservationReference) (ls tracked : List HoldLine) (s : Stock)
    → validate_lines ls ≡ ok tt
    → load_line_variants s ls ≡ ok tt
    → s.default_location ≡ some location
    → keep (is_tracked s) ls ≡ tracked
    → IsCovered now location ref tracked s
    → (sold : List LineResult × Stock) × (consume_stock now ref ls s ≡ ok sold)
unfolding consume_stock consume_stock_within
consume_goes_through now location ref ls tracked s valid known loc same h =
    let (rs, s', done) =
      consume_lines_go_through now location ref (sort_by by_variant tracked) s
        (sorted-IsCovered now location ref tracked s h) in
    rw (valid, known, found_location s location loc, same, done) (_, refl)

-- A successful hold has valid and known lines, and has placed its rows.
hold_stock_inverts :
    (now : ℕ) (ref : ReservationReference) (ls : List HoldLine) (s s' : Stock) (r : HoldResult)
    → hold_stock now ref ls s ≡ ok (r, s')
    → (validate_lines ls ≡ ok tt)
      × (load_line_variants s ls ≡ ok tt)
      × (place_hold now
            (ensure_default_location s).0
            ref
            (keep (is_tracked s) ls)
            (ensure_default_location s).1
          ≡ ok s')
unfolding hold_stock
hold_stock_inverts now ref ls s s' r h =
    let (a, valid, f) = bound_value (validate_lines ls) _ h in
    let (b, known, g) = bound_value (load_line_variants s ls) _ f in
    let located = ensure_default_location s in
    let (placed, e, k) =
      bound_value (place_hold now located.0 ref (keep (is_tracked s) ls) located.1) _ g in
    (valid, known, rw (ok_second k) at e)

-- A hold guarantees its sale. If holdStock succeeds on consistent tables, then consumeStock with the
-- same lines and reference, at that time or any later one, succeeds on the tables that the hold has
-- left: no line is short and no other checkout's hold stands in its way.
pub hold_stock-consume_stock :
    (now now' : ℕ) (ref : ReservationReference) (ls : List HoldLine) (s s' : Stock) (r : HoldResult)
    → now ≤ now'
    → IsConsistent now s
    → hold_stock now ref ls s ≡ ok (r, s')
    → (sold : List LineResult × Stock) × (consume_stock now' ref ls s' ≡ ok sold)
unfolding ensure_default_location load_line_variants
hold_stock-consume_stock now now' ref ls s s' r later v h =
    let (valid, known, placing) = hold_stock_inverts now ref ls s s' r h in
    let located = ensure_default_location s in
    let ready = ensure_default_location-IsReady now s v in
    let (rest, placed, fits) =
      place_hold_inverts now located.0 ref (is_tracked s) ls located.1 s' ready
        (valid_lines ls tt valid) placing in
    let after : Stock = record (located.1) {
      reservations = map (hold_row now located.0 ref) (keep (is_tracked s) ls) ++ rest;
    } in
    let variants : after.variant ≡ s.variant = same_variants s.default_location s in
    let tracking =
      keep-agree (is_tracked after) (is_tracked s) (same_tracking s after variants) ls in
    let missing = any-agree (is_missing after) (is_missing s) (same_missing s after variants) ls in
    let covered =
      placed-IsCovered now now' located.0 ref (keep (is_tracked s) ls) located.1 rest later fits in
    rw placed (
      consume_goes_through now' located.0 ref ls (keep (is_tracked s) ls) after valid
        (ap (λ b. refuse_if b not_found) missing ∙ known) ready.0 tracking covered)
