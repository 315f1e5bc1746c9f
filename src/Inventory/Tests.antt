-- ===== src/Inventory/Tests.antt =====
-- A shop with one tracked variant, and the theorems there.
use ecom_platform.Base.{
  ℕ, List, sort_by, ◌≡◌, refl, true, false, none, some, [], ◌∷◌, arith, ok, ◌==◌, if◌then◌else◌,
  pos, int, Result, err,
}
use ecom_platform.Inventory.Ledger.{
  Stock, ReservationReference, opening_balance, apply_movement, add_delta, set_level, live_variant,
  or_zero, ensure_default_location,
}
use ecom_platform.Inventory.Adjustment.{
  MovementInput, MovementResult, record_movement, record_for, apply_or_replay, adjust,
  find_by_idempotency_key,
}
use ecom_platform.Inventory.Holds.{
  HoldLine, HoldResult, LineResult, hold_row, held, hold_stock, place_hold, validate_lines,
  load_line_variants, is_tracked, has_bad_line, fit_lines,
}
use ecom_platform.Inventory.Sales.{
  consume_stock, consume_stock_within, consume_lines, consume_line, result_for, restock_within,
  restock_lines,
}
use ecom_platform.Inventory.Invariant.{IsConsistent}
use ecom_platform.Inventory.Sums.{passing-IsConsistent}
use ecom_platform.Inventory.Settlement.{record_movement-IsConsistent}
use ecom_platform.Inventory.Guarantee.{hold_stock-consume_stock}
use ecom_platform.Inventory.History.{
  Call, move, hold, consume, restock, run, last_time, run-IsConsistent,
}
use ecom_platform.Inventory.Replay.{keyed}
use ecom_platform.Inventory.Recall.{Recall, record_movement-Recall}

abbrev shop : Stock
shop = record {
  variant = λ v.
      if v == 7
      then some (record { product_id = 1; tracks_inventory = true; is_deleted = false })
      else none;
  default_location = none;
  movements = [];
  level = λ v l. none;
  reservations = [];
  audit = [];
  next_id = 1;
}

shop-IsConsistent : IsConsistent 0 shop
shop-IsConsistent = record { reconciled = λ v l. refl; covered = λ v. (omega arith) }

abbrev checkout : ReservationReference
checkout = record { type = 1; id = 44 }

abbrev cart_lines : List HoldLine
cart_lines = record { variant_id = 7; quantity = 2 } ∷ []

abbrev opening : MovementInput
opening = keyed 7 (int (pos 5)) 9

-- Opening stock, a hold, a hold that does not fit, the sale, and the sale put back.
abbrev week : List (ℕ × Call)
week =
    (10, move opening)
    ∷ (20, hold checkout cart_lines)
    ∷ (25, hold (record { type = 1; id = 45 }) (record { variant_id = 7; quantity = 4 } ∷ []))
    ∷ (30, consume checkout cart_lines)
    ∷ (40, restock checkout cart_lines)
    ∷ []

on_hand_after_week : (run week shop).level 7 1 ≡ some 5
unfolding record_movement record_for apply_or_replay adjust apply_movement add_delta live_variant
    find_by_idempotency_key ensure_default_location hold_stock place_hold validate_lines
    load_line_variants is_tracked has_bad_line fit_lines consume_stock consume_stock_within
    consume_lines consume_line result_for restock_within restock_lines sort_by
on_hand_after_week = refl

run-IsConsistent_example : IsConsistent (last_time 0 week) (run week shop)
run-IsConsistent_example =
    run-IsConsistent 0 week shop
      (omega arith, (omega arith, (omega arith, (omega arith, (omega arith, tt)))))
      shop-IsConsistent

abbrev stocked : Stock
stocked = record shop {
  default_location = some 1;
  movements =
      record {
        id = 2;
        variant_id = 7;
        location_id = 1;
        delta = pos 5;
        reason = opening_balance;
        idempotency_key = some 9;
        reference = none;
      }
      ∷ [];
  level = set_level 7 1 5 (λ v l. none);
  audit = record { entity_id = 7; before = 0; after = 5 } ∷ [];
  next_id = 3;
}

abbrev opened : MovementResult
opened = record {
  movement_id = 2;
  variant_id = 7;
  reason = opening_balance;
  delta = pos 5;
  on_hand = 5;
  replayed = false;
}

opening_runs : record_movement 10 opening shop ≡ ok (opened, stocked)
unfolding record_movement record_for apply_or_replay adjust apply_movement add_delta live_variant
    find_by_idempotency_key ensure_default_location
opening_runs = refl

abbrev tables_of : Result (MovementResult × Stock) → Stock
tables_of (ok done) = done.1
tables_of (err code) = shop

-- Three more, under another key.
abbrev topped_up : Stock
unfolding record_movement record_for apply_or_replay adjust apply_movement live_variant
    find_by_idempotency_key ensure_default_location
topped_up = tables_of (record_movement 400 (keyed 7 (int (pos 3)) 10) stocked)

topped_up-kept :
    find_by_idempotency_key (some 9) topped_up.movements
    ≡ find_by_idempotency_key (some 9) stocked.movements
unfolding find_by_idempotency_key add_delta topped_up
topped_up-kept = refl

topped_up_level : topped_up.level 7 1 ≡ some 8
unfolding add_delta topped_up
topped_up_level = refl

record_movement-Recall_example :
    (l : ℕ) × (5 ≡ or_zero (stocked.level 7 l)) × Recall 500 7 9 (int (pos 5)) opened l topped_up
record_movement-Recall_example =
    record_movement-Recall 10 500 7 9 (int (pos 5)) shop stocked topped_up opened opening_runs
      topped_up-kept

abbrev held_stock : Stock
held_stock = record stocked {
  reservations = hold_row 20 1 checkout (record { variant_id = 7; quantity = 2 }) ∷ [];
}

abbrev hold_answer : HoldResult
hold_answer = record {
  lines = record { variant_id = 7; quantity = 2; status = held; movement_id = none } ∷ [];
  expires_at = 900020;
}

hold_runs : hold_stock 20 checkout cart_lines stocked ≡ ok (hold_answer, held_stock)
unfolding ensure_default_location live_variant hold_stock place_hold validate_lines
    load_line_variants is_tracked has_bad_line fit_lines
hold_runs = refl

stocked-IsConsistent : IsConsistent 20 stocked
unfolding record_movement record_for apply_or_replay adjust apply_movement add_delta live_variant
    find_by_idempotency_key ensure_default_location
stocked-IsConsistent =
    record_movement-IsConsistent 20 opening shop stocked opened
      (passing-IsConsistent 0 20 shop (omega arith) shop-IsConsistent) opening_runs_later
  where
    opening_runs_later : record_movement 20 opening shop ≡ ok (opened, stocked)
    opening_runs_later = refl

-- Even a day later, when the hold has lapsed.
hold_stock-consume_stock_example :
    (sold : List LineResult × Stock) × (consume_stock 90000000 checkout cart_lines held_stock
      ≡ ok sold)
hold_stock-consume_stock_example =
    hold_stock-consume_stock 20 90000000 checkout cart_lines stocked held_stock hold_answer
      (omega arith) stocked-IsConsistent hold_runs
