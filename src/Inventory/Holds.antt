-- ===== src/Inventory/Holds.antt =====
-- Checkout holds: holdStock and releaseStock. Quantities are naturals, so the test for a whole number
-- is met; row locks, which keep concurrent transactions apart, leave no trace in one transaction.
use ecom_platform.Base.{
  ℕ, ◌+◌, ◌-◌, ◌*◌, Bool, true, false, not, ◌&&◌, ◌||◌, Option, none, some, List, [], ◌∷◌, ◌++◌,
  any, keep, map, length, ltb, leb, ◌==◌, if◌then◌else◌, Result, ok, ◌>>=◌, ◌>>◌, refuse_if,
  invalid_payload, not_found, insufficient_stock,
}
use ecom_platform.Inventory.Ledger.{
  Stock, ReservationRow, ReservationReference, same_reference, live_variant,
  ensure_default_location, or_zero, reserved, stock_adjustment_max,
}

abbrev pub reservation_ttl_minutes : ℕ
reservation_ttl_minutes = 15

-- In milliseconds.
abbrev pub reservation_ttl : ℕ
reservation_ttl = reservation_ttl_minutes * 60000

pub record HoldLine : Type 0 where
  pub variant_id : ℕ
  pub quantity : ℕ

pub data LineStatus : Type 0 where
  held unheld untracked restocked : LineStatus

pub record LineResult : Type 0 where
  pub variant_id : ℕ
  pub quantity : ℕ
  pub status : LineStatus
  pub movement_id : Option ℕ

abbrev pub seen_before : List ℕ → ℕ → Bool
seen_before seen v = any (λ w. w == v) seen

-- The loop over the lines, with the set of the variants seen.
unfoldable pub has_bad_line : List ℕ → List HoldLine → Bool
has_bad_line seen [] = false
has_bad_line seen (l ∷ ls) =
    l.quantity == 0
    || ltb stock_adjustment_max l.quantity
    || seen_before seen l.variant_id
    || has_bad_line (l.variant_id ∷ seen) ls

unfoldable pub validate_lines : List HoldLine → Result (Unit {0})
validate_lines lines =
    refuse_if (length lines == 0) invalid_payload
    >> (refuse_if (ltb 100 (length lines)) invalid_payload
        >> refuse_if (has_bad_line [] lines) invalid_payload)

abbrev pub is_missing : Stock → HoldLine → Bool
is_missing s l = elim (live_variant s l.variant_id) [ none ↦ true | some v ↦ false ]

-- Throws on any unknown id.
unfoldable pub load_line_variants : Stock → List HoldLine → Result (Unit {0})
load_line_variants s lines = refuse_if (any (is_missing s) lines) not_found

unfoldable pub is_tracked : Stock → HoldLine → Bool
is_tracked s l = elim (live_variant s l.variant_id) [ none ↦ false | some v ↦ v.tracks_inventory ]

abbrev pub drop_reference : ReservationReference → List ReservationRow → List ReservationRow
drop_reference ref = keep (λ r. not (same_reference r.reference ref))

-- The lapsed holds of one variant.
abbrev pub drop_expired : ℕ → ℕ → List ReservationRow → List ReservationRow
drop_expired now v = keep (λ r. not (r.variant_id == v && leb r.expires_at now))

pub record Failure : Type 0 where
  pub variant_id : ℕ
  pub requested : ℕ
  pub available : ℕ

abbrev pub failure_at : HoldLine → ℕ → List Failure → List Failure
failure_at l available failures =
    if ltb available l.quantity
    then record { variant_id = l.variant_id; requested = l.quantity; available = available }
      ∷ failures
    else failures

-- Line by line: the lapsed holds go, and what is left of the stock is compared with the request.
unfoldable pub fit_lines :
    ℕ → (ℕ → ℕ) → List HoldLine → List ReservationRow → List Failure × List ReservationRow
fit_lines now on_hand [] rs = ([], rs)
fit_lines now on_hand (l ∷ ls) rs =
    let live = drop_expired now l.variant_id rs in
    let rest = fit_lines now on_hand ls live in
    (failure_at l (on_hand l.variant_id - reserved now l.variant_id live) rest.0, rest.1)

abbrev pub hold_row : ℕ → ℕ → ReservationReference → HoldLine → ReservationRow
hold_row now location ref l = record {
  variant_id = l.variant_id;
  location_id = location;
  quantity = l.quantity;
  reference = ref;
  expires_at = now + reservation_ttl;
}

abbrev pub hold_result : Stock → HoldLine → LineResult
hold_result s l = record {
  variant_id = l.variant_id;
  quantity = l.quantity;
  status = if is_tracked s l then held else untracked;
  movement_id = none;
}

pub record HoldResult : Type 0 where
  pub lines : List LineResult
  pub expires_at : ℕ

-- The hold over the lines that are tracked: the reference's earlier set goes, all lines must fit, and
-- one row is inserted for each.
unfoldable pub place_hold : ℕ → ℕ → ReservationReference → List HoldLine → Stock → Result Stock
unfolding fit_lines
place_hold now location ref tracked s = do
  let fitted =
      fit_lines now (λ v. or_zero (s.level v location)) tracked (drop_reference ref s.reservations)
  refuse_if (not (length fitted.0 == 0)) insufficient_stock
  ok (record s { reservations = map (hold_row now location ref) tracked ++ fitted.1 })

unfoldable pub hold_stock :
    ℕ → ReservationReference → List HoldLine → Stock → Result (HoldResult × Stock)
unfolding validate_lines load_line_variants
hold_stock now ref lines s = do
  validate_lines lines
  load_line_variants s lines
  let located = ensure_default_location s
  s' ← place_hold now located.0 ref (keep (is_tracked s) lines) located.1
  ok (record { lines = map (hold_result s) lines; expires_at = now + reservation_ttl }, s')

-- How many holds were dropped, and the tables.
unfoldable pub release_stock : ReservationReference → Stock → ℕ × Stock
release_stock ref s = (
  length (keep (λ r. same_reference r.reference ref) s.reservations),
  record s { reservations = drop_reference ref s.reservations },
)
