-- ===== src/Inventory/Selling.antt =====
-- Lines that are covered beside what others hold can all be sold.
use ecom_platform.Base.{
  ℕ, zero, suc, ◌+◌, ◌-◌, ◌≤◌, ◌≡◌, refl, true, false, not, some, List, [], ◌∷◌, keep, arith, ltb,
  leb, ◌==◌, if◌then◌else◌, ok, Bool-cases, inl, inr,
}
use ecom_platform.Inventory.Ledger.{
  Stock, Applied, ReservationReference, ReservationRow, apply_movement, add_delta, written, or_zero,
  reserved, set_level, sale,
}
use ecom_platform.Inventory.Holds.{HoldLine, held, unheld, LineResult, drop_reference}
use ecom_platform.Inventory.Sales.{
  consume_line, consume_lines, drop_hold, was_held, line_result, movement_of, minus, is_hold_of,
}
use ecom_platform.Inventory.Sums.{requested}

-- What the other references hold of a variant.
abbrev pub others : ℕ → ReservationReference → ℕ → List ReservationRow → ℕ
others now ref v rs = reserved now v (drop_reference ref rs)

others_after_drop :
    (now v w : ℕ) (ref : ReservationReference) (rs : List ReservationRow)
    → others now ref v (keep (λ r. not (is_hold_of ref w r)) rs) ≡ others now ref v rs
others_after_drop now v w ref [] = refl
others_after_drop now v w ref (r ∷ rs) = ground (arith, others_after_drop now v w ref rs)

reserved_after_drop :
    (now v : ℕ) (ref : ReservationReference) (rs : List ReservationRow)
    → reserved now v (keep (λ r. not (is_hold_of ref v r)) rs) ≡ others now ref v rs
reserved_after_drop now v ref [] = refl
reserved_after_drop now v ref (r ∷ rs) = ground (arith, reserved_after_drop now v ref rs)

-- A sale that leaves what others hold goes through.
sale_goes_through :
    (now location n q : ℕ) (ref : ReservationReference) (l : HoldLine) (s : Stock)
    → n + q ≡ or_zero (s.level l.variant_id location)
    → reserved now l.variant_id s.reservations ≤ n
    → (a : Applied) × (apply_movement now (movement_of sale location ref l (minus q)) s
        ≡ ok (a, written (movement_of sale location ref l (minus q)) n s))
unfolding apply_movement add_delta
sale_goes_through now location n zero ref l s e h =
    let same : or_zero (s.level l.variant_id location) + 0 ≡ n = omega (arith, e) in
    (record { movement_id = s.next_id; on_hand = n }, rw same refl)
sale_goes_through now location n (suc q) ref l s e h =
    let enough : leb (suc q) (or_zero (s.level l.variant_id location)) ≡ true = ground arith in
    let same : or_zero (s.level l.variant_id location) - suc q ≡ n = omega (arith, e) in
    let free : ltb n (reserved now l.variant_id s.reservations) ≡ false = ground arith in
    (record { movement_id = s.next_id; on_hand = n }, rw (enough, same, free) refl)

-- Every line can still be sold beside what others hold.
abbrev pub IsCovered : ℕ → ℕ → ReservationReference → List HoldLine → Stock → Type 0
IsCovered now location ref ls s =
    (v : ℕ) → requested v ls + others now ref v s.reservations ≤ or_zero (s.level v location)

consume_line_goes_through :
    (now location : ℕ) (ref : ReservationReference) (l : HoldLine) (ls : List HoldLine) (s : Stock)
    → IsCovered now location ref (l ∷ ls) s
    → (r : LineResult) × (s' : Stock) × (consume_line now location ref l s ≡ ok (r, s'))
      × IsCovered now location ref ls s'
unfolding consume_line
consume_line_goes_through now location ref l ls s h =
    let n = or_zero (s.level l.variant_id location) - l.quantity in
    let own = h l.variant_id in
    let same : (l.variant_id == l.variant_id) ≡ true = ground arith in
    let fits : l.quantity + requested l.variant_id ls + others now ref l.variant_id s.reservations
        ≤ or_zero (s.level l.variant_id location) =
      rw same at own in
    let still_held = reserved_after_drop now l.variant_id ref s.reservations in
    let (a, sold) =
      sale_goes_through now location n l.quantity ref l (drop_hold ref l.variant_id s)
        (omega (arith, fits)) (omega (arith, fits, still_held)) in
    (
      line_result l (if was_held now ref l s then held else unheld) (some a.movement_id),
      written (movement_of sale location ref l (minus l.quantity)) n (drop_hold ref l.variant_id s),
      rw sold refl,
      λ v. after v fits,
    )
  where
    after :
        (v : ℕ)
        → l.quantity + requested l.variant_id ls + others now ref l.variant_id s.reservations
          ≤ or_zero (s.level l.variant_id location)
        → requested v ls + others now ref v (drop_hold ref l.variant_id s).reservations
          ≤ or_zero (
              set_level l.variant_id location
                (or_zero (s.level l.variant_id location) - l.quantity)
                s.level
                v
                location)
    after v fits =
        let dropped = others_after_drop now v l.variant_id ref s.reservations in
        elim (Bool-cases (l.variant_id == v)) [
          | inl hit ↦
              let at : l.variant_id ≡ v = ground arith in
              let loc : (location == location) ≡ true = ground arith in
              let here : l.quantity + requested v ls + others now ref v s.reservations
                  ≤ or_zero (s.level v location) =
                rw at at fits in
              let same_level : or_zero (s.level l.variant_id location)
                  ≡ or_zero (s.level v location) =
                cc in
              rw (hit, loc) (omega (arith, here, same_level, dropped))
          | inr miss ↦
              let skip : requested v (l ∷ ls) ≡ requested v ls = rw miss (omega arith) in
              rw miss (omega (arith, h v, skip, dropped))
        ]

pub consume_lines_go_through :
    (now location : ℕ) (ref : ReservationReference) (ls : List HoldLine) (s : Stock)
    → IsCovered now location ref ls s
    → (rs : List LineResult) × (s' : Stock) × (consume_lines now location ref ls s ≡ ok (rs, s'))
unfolding consume_lines
consume_lines_go_through now location ref [] s h = ([], s, refl)
consume_lines_go_through now location ref (l ∷ ls) s h =
    let (r, s', one, rest_covered) = consume_line_goes_through now location ref l ls s h in
    let (rs, s'', rest) = consume_lines_go_through now location ref ls s' rest_covered in
    (r ∷ rs, s'', rw (one, rest) refl)
