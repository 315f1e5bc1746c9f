-- ===== src/Inventory/Sales.antt =====
-- Holds turned into sales and cancelled lines put back: consumeStockWithin, consumeStock and
-- restockWithin.
use ecom_platform.Base.{
  ℕ, zero, suc, Bool, not, ◌&&◌, Option, none, some, List, [], ◌∷◌, any, keep, map, ltb, leb, ◌==◌,
  if◌then◌else◌, Result, ok, ◌>>=◌, ◌>>◌, insufficient_stock, sort_by, ℤ, pos, negsuc,
}
use ecom_platform.Inventory.Ledger.{
  Stock, Movement, ReservationRow, ReservationReference, StockMovementReason, sale,
  cancellation_restock, same_reference, ensure_default_location, apply_movement,
}
use ecom_platform.Inventory.Adjustment.{map_violation}
use ecom_platform.Inventory.Holds.{
  HoldLine, LineResult, LineStatus, held, unheld, untracked, restocked, validate_lines,
  load_line_variants, is_tracked, drop_reference,
}

abbrev pub by_variant : HoldLine → HoldLine → Bool
by_variant a b = leb a.variant_id b.variant_id

abbrev pub is_hold_of : ReservationReference → ℕ → ReservationRow → Bool
is_hold_of ref v r = same_reference r.reference ref && r.variant_id == v

-- `-quantity`
abbrev pub minus : ℕ → ℤ
minus zero = pos 0
minus (suc n) = negsuc n

abbrev pub movement_of : StockMovementReason → ℕ → ReservationReference → HoldLine → ℤ → Movement
movement_of reason location ref l delta = record {
  variant_id = l.variant_id;
  location_id = location;
  delta = delta;
  reason = reason;
  idempotency_key = none;
  reference = some ref;
}

-- Whether the hold still stands when it is turned into a sale.
abbrev pub was_held : ℕ → ReservationReference → HoldLine → Stock → Bool
was_held now ref l s =
    any (λ r. is_hold_of ref l.variant_id r && ltb now r.expires_at) s.reservations

abbrev pub drop_hold : ReservationReference → ℕ → Stock → Stock
drop_hold ref v s = record s { reservations = keep (λ r. not (is_hold_of ref v r)) s.reservations }

abbrev pub line_result : HoldLine → LineStatus → Option ℕ → LineResult
line_result l status id = record {
  variant_id = l.variant_id;
  quantity = l.quantity;
  status = status;
  movement_id = id;
}

-- One line: the hold goes first, so that the guard no longer counts it.
unfoldable pub consume_line :
    ℕ → ℕ → ReservationReference → HoldLine → Stock → Result (LineResult × Stock)
consume_line now location ref l s = do
  done ←
      apply_movement now (movement_of sale location ref l (minus l.quantity))
        (drop_hold ref l.variant_id s)
  ok (
    line_result l (if was_held now ref l s then held else unheld) (some done.0.movement_id),
    done.1,
  )

unfoldable pub consume_lines :
    ℕ → ℕ → ReservationReference → List HoldLine → Stock → Result (List LineResult × Stock)
consume_lines now location ref [] s = ok ([], s)
consume_lines now location ref (l ∷ ls) s = do
  one ← consume_line now location ref l s
  rest ← consume_lines now location ref ls one.1
  ok (one.0 ∷ rest.0, rest.1)

-- `results.get(line.variantId)`, where untracked lines have been entered first.
unfoldable pub result_for : List LineResult → HoldLine → LineResult
result_for [] l = line_result l untracked none
result_for (r ∷ rs) l = if r.variant_id == l.variant_id then r else result_for rs l

-- In the caller's transaction; a violated CHECK is left for the caller to report.
unfoldable pub consume_stock_within :
    ℕ → ReservationReference → List HoldLine → Stock → Result (List LineResult × Stock)
consume_stock_within now ref lines s = do
  validate_lines lines
  load_line_variants s lines
  let located = ensure_default_location s
  done ← consume_lines now located.0 ref (sort_by by_variant (keep (is_tracked s) lines)) located.1
  ok (
    map (result_for done.0) lines,
    record (done.1) { reservations = drop_reference ref (done.1).reservations },
  )

unfoldable pub consume_stock :
    ℕ → ReservationReference → List HoldLine → Stock → Result (List LineResult × Stock)
consume_stock now ref lines s =
    validate_lines lines >> map_violation insufficient_stock (consume_stock_within now ref lines s)

unfoldable pub restock_lines :
    ℕ → ℕ → ReservationReference → List HoldLine → Stock → Result (List LineResult × Stock)
restock_lines now location ref [] s = ok ([], s)
restock_lines now location ref (l ∷ ls) s = do
  done ← apply_movement now (movement_of cancellation_restock location ref l (pos l.quantity)) s
  rest ← restock_lines now location ref ls done.1
  ok (line_result l restocked (some done.0.movement_id) ∷ rest.0, rest.1)

unfoldable pub restock_within :
    ℕ → List HoldLine → ReservationReference → Stock → Result (List LineResult × Stock)
restock_within now lines ref s = do
  validate_lines lines
  load_line_variants s lines
  let located = ensure_default_location s
  done ← restock_lines now located.0 ref (sort_by by_variant (keep (is_tracked s) lines)) located.1
  ok (map (result_for done.0) lines, done.1)
