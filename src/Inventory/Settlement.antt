-- ===== src/Inventory/Settlement.antt =====
-- Each operation of the inventory keeps the tables consistent.
use ecom_platform.Base.{
  ℕ, ◌≡◌, sym, not, Option, none, some, List, [], ◌∷◌, invalid_payload, untracked_variant, Result,
  ok, err, bound_value, ok_second, past_refusal, ErrorCode, check_violation, pos, ok-ne-err,
}
use ecom_platform.Inventory.Ledger.{
  Stock, ReservationReference, MovementRow, apply_movement, VariantRow, sale, cancellation_restock,
}
use ecom_platform.Inventory.Adjustment.{
  record_movement, record_for, apply_or_replay, is_adjustment, adjust, replay, map_violation,
  MovementInput, MovementResult,
}
use ecom_platform.Inventory.Holds.{
  HoldLine, LineResult, release_stock, validate_lines, load_line_variants, drop_reference,
}
use ecom_platform.Inventory.Sales.{
  consume_line, consume_lines, consume_stock_within, consume_stock, restock_lines, restock_within,
  drop_hold, movement_of, minus,
}
use ecom_platform.Inventory.Invariant.{
  IsConsistent, IsReady, apply_movement-IsReady, ensure_default_location-IsReady,
}
use ecom_platform.Inventory.Sums.{fewer-IsConsistent, sum_of-keep}

pub map_violation-ok {ℓ} :
    {A : Type ℓ} (code : ErrorCode) (r : Result A) {a : A} → map_violation code r ≡ ok a → r ≡ ok a
map_violation-ok code (ok a) h = h
map_violation-ok code (err check_violation) h = cc
map_violation-ok code (err other) h = absurd (ok-ne-err h)

pub release_stock-IsConsistent :
    (now : ℕ) (ref : ReservationReference) (s : Stock)
    → IsConsistent now s
    → IsConsistent now (release_stock ref s).1
unfolding release_stock
release_stock-IsConsistent now ref s v =
    fewer-IsConsistent now s (drop_reference ref s.reservations)
      (λ w. sum_of-keep _ _ s.reservations) v

consume_line-IsReady :
    (now location : ℕ) (ref : ReservationReference) (l : HoldLine) (s s' : Stock) (r : LineResult)
    → IsReady now location s
    → consume_line now location ref l s ≡ ok (r, s')
    → IsReady now location s'
unfolding consume_line
consume_line-IsReady now location ref l s s' r v h =
    let (done, e, f) =
      bound_value
        (apply_movement now (movement_of sale location ref l (minus l.quantity))
          (drop_hold ref l.variant_id s))
        _ h in
    let dropped =
      fewer-IsConsistent now s (drop_hold ref l.variant_id s).reservations
        (λ w. sum_of-keep _ _ s.reservations) v.1 in
    rw (sym (ok_second f)) (
      apply_movement-IsReady now (movement_of sale location ref l (minus l.quantity))
        (drop_hold ref l.variant_id s) done.1 done.0 (v.0, dropped) e)

consume_lines-IsReady :
    (now location : ℕ) (ref : ReservationReference) (ls : List HoldLine) (s s' : Stock)
    (rs : List LineResult)
    → IsReady now location s
    → consume_lines now location ref ls s ≡ ok (rs, s')
    → IsReady now location s'
unfolding consume_lines
consume_lines-IsReady now location ref [] s s' rs v h = rw (sym (ok_second h)) v
consume_lines-IsReady now location ref (l ∷ ls) s s' rs v h =
    let (one, e, f) = bound_value (consume_line now location ref l s) _ h in
    let (rest, g, k) = bound_value (consume_lines now location ref ls one.1) _ f in
    rw (sym (ok_second k)) (
      consume_lines-IsReady now location ref ls one.1 rest.1 rest.0
        (consume_line-IsReady now location ref l s one.1 one.0 v e) g)

restock_lines-IsReady :
    (now location : ℕ) (ref : ReservationReference) (ls : List HoldLine) (s s' : Stock)
    (rs : List LineResult)
    → IsReady now location s
    → restock_lines now location ref ls s ≡ ok (rs, s')
    → IsReady now location s'
unfolding restock_lines
restock_lines-IsReady now location ref [] s s' rs v h = rw (sym (ok_second h)) v
restock_lines-IsReady now location ref (l ∷ ls) s s' rs v h =
    let m = movement_of cancellation_restock location ref l (pos l.quantity) in
    let (one, e, f) = bound_value (apply_movement now m s) _ h in
    let (rest, g, k) = bound_value (restock_lines now location ref ls one.1) _ f in
    rw (sym (ok_second k)) (
      restock_lines-IsReady now location ref ls one.1 rest.1 rest.0
        (apply_movement-IsReady now m s one.1 one.0 v e) g)

pub consume_stock_within-IsConsistent :
    (now : ℕ) (ref : ReservationReference) (ls : List HoldLine) (s s' : Stock)
    (rs : List LineResult)
    → IsConsistent now s
    → consume_stock_within now ref ls s ≡ ok (rs, s')
    → IsConsistent now s'
unfolding consume_stock_within
consume_stock_within-IsConsistent now ref ls s s' rs v h =
    let (a, b, c) = bound_value (validate_lines ls) _ h in
    let (a', b', c') = bound_value (load_line_variants s ls) _ c in
    let (done, e, f) = bound_value _ _ c' in
    let ready =
      consume_lines-IsReady now _ ref _ _ done.1 done.0 (ensure_default_location-IsReady now s v)
        e in
    rw (sym (ok_second f)) (
      fewer-IsConsistent now done.1 (drop_reference ref done.1.reservations)
        (λ w. sum_of-keep _ _ done.1.reservations) ready.1)

pub consume_stock-IsConsistent :
    (now : ℕ) (ref : ReservationReference) (ls : List HoldLine) (s s' : Stock)
    (rs : List LineResult)
    → IsConsistent now s
    → consume_stock now ref ls s ≡ ok (rs, s')
    → IsConsistent now s'
unfolding consume_stock
consume_stock-IsConsistent now ref ls s s' rs v h =
    let (a, b, c) = bound_value (validate_lines ls) _ h in
    consume_stock_within-IsConsistent now ref ls s s' rs v (map_violation-ok _ _ c)

pub restock_within-IsConsistent :
    (now : ℕ) (ref : ReservationReference) (ls : List HoldLine) (s s' : Stock)
    (rs : List LineResult)
    → IsConsistent now s
    → restock_within now ls ref s ≡ ok (rs, s')
    → IsConsistent now s'
unfolding restock_within
restock_within-IsConsistent now ref ls s s' rs v h =
    let (a, b, c) = bound_value (validate_lines ls) _ h in
    let (a', b', c') = bound_value (load_line_variants s ls) _ c in
    let (done, e, f) = bound_value _ _ c' in
    let ready =
      restock_lines-IsReady now _ ref _ _ done.1 done.0 (ensure_default_location-IsReady now s v)
        e in
    rw (sym (ok_second f)) ready.1

adjust-IsConsistent :
    (now : ℕ) (input : MovementInput) (s s' : Stock) (r : MovementResult)
    → IsConsistent now s
    → adjust now input s ≡ ok (r, s')
    → IsConsistent now s'
unfolding adjust
adjust-IsConsistent now input s s' r v h =
    let (done, e, f) = bound_value _ _ h in
    let ready =
      apply_movement-IsReady now _ _ done.1 done.0 (ensure_default_location-IsReady now s v) e in
    rw (sym (ok_second f)) (record { reconciled = ready.1.reconciled; covered = ready.1.covered })

replay_same :
    (input : MovementInput) (m : MovementRow) (s s' : Stock) (r : MovementResult)
    → replay input m s ≡ ok (r, s')
    → s ≡ s'
unfolding replay
replay_same input m s s' r h = ok_second (past_refusal _ _ _ h).1

apply_or_replay-IsConsistent :
    (now : ℕ) (input : MovementInput) (s s' : Stock) (earlier : Option MovementRow)
    (r : MovementResult)
    → IsConsistent now s
    → apply_or_replay now input s earlier ≡ ok (r, s')
    → IsConsistent now s'
unfolding apply_or_replay
apply_or_replay-IsConsistent now input s s' none r v h =
    adjust-IsConsistent now input s s' r v (map_violation-ok _ _ h)
apply_or_replay-IsConsistent now input s s' (some m) r v h = rw⁻¹ (replay_same input m s s' r h) v

record_for-IsConsistent :
    (now : ℕ) (input : MovementInput) (s s' : Stock) (row : Option VariantRow) (r : MovementResult)
    → IsConsistent now s
    → record_for now input s row ≡ ok (r, s')
    → IsConsistent now s'
unfolding record_for
record_for-IsConsistent now input s s' none r v h = absurd (ok-ne-err h)
record_for-IsConsistent now input s s' (some row) r v h =
    apply_or_replay-IsConsistent now input s s' _ r v
      (past_refusal (not row.tracks_inventory) untracked_variant _ h).1

pub record_movement-IsConsistent :
    (now : ℕ) (input : MovementInput) (s s' : Stock) (r : MovementResult)
    → IsConsistent now s
    → record_movement now input s ≡ ok (r, s')
    → IsConsistent now s'
unfolding record_movement
record_movement-IsConsistent now input s s' r v h =
    record_for-IsConsistent now input s s' _ r v
      (past_refusal (not (is_adjustment input.delta)) invalid_payload _ h).1
