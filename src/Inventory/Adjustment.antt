-- ===== src/Inventory/Adjustment.antt =====
-- recordMovement: a merchant's adjustment, which may carry an idempotency key.
use ecom_platform.Base.{
  ℕ, suc, ◌+◌, ◌-◌, Bool, true, false, not, ◌&&◌, ◌||◌, Option, none, some, List, [], ◌∷◌, any, ltb,
  leb, ◌==◌, if◌then◌else◌, Result, ok, err, ◌>>=◌, ◌>>◌, refuse_if, ErrorCode, invalid_payload,
  not_found, untracked_variant, insufficient_stock, idempotency_key_reuse, check_violation,
  JsNumber, ℤ, pos, negsuc, int, non_integer,
}
use ecom_platform.Inventory.Ledger.{
  Movement, MovementRow, Stock, StockMovementReason, VariantRow, apply_movement,
  ensure_default_location, live_variant, or_zero, same_number, stock_adjustment_max,
  opening_balance, adjustment,
}

-- A nonzero integer within the bound.
abbrev pub is_adjustment : JsNumber → Bool
is_adjustment (int (pos d)) = ltb 0 d && leb d stock_adjustment_max
is_adjustment (int (negsuc d)) = leb (suc d) stock_adjustment_max
is_adjustment non_integer = false

abbrev pub integer_value : JsNumber → ℤ
integer_value (int z) = z
integer_value non_integer = pos 0

pub record MovementInput : Type 0 where
  pub variant_id : ℕ
  pub delta : JsNumber
  pub idempotency_key : Option ℕ

pub record MovementResult : Type 0 where
  pub movement_id : ℕ
  pub variant_id : ℕ
  pub reason : StockMovementReason
  pub delta : ℤ
  pub on_hand : ℕ
  pub replayed : Bool

abbrev pub has_key : ℕ → MovementRow → Bool
has_key key m = elim m.idempotency_key [ none ↦ false | some k ↦ k == key ]

unfoldable pub find_by_idempotency_key : Option ℕ → List MovementRow → Option MovementRow
find_by_idempotency_key none ms = none
find_by_idempotency_key (some key) [] = none
find_by_idempotency_key (some key) (m ∷ ms) =
    if has_key key m then some m else find_by_idempotency_key (some key) ms

-- The key must match the full request; then the earlier result is returned again.
unfoldable pub replay : MovementInput → MovementRow → Stock → Result (MovementResult × Stock)
replay input m s = do
  refuse_if
      (not (m.variant_id == input.variant_id)
        || not (same_number m.delta (integer_value input.delta)))
      idempotency_key_reuse
  ok (
    record {
      movement_id = m.id;
      variant_id = m.variant_id;
      reason = m.reason;
      delta = m.delta;
      on_hand = or_zero (s.level m.variant_id m.location_id);
      replayed = true;
    },
    s,
  )

-- The first movement of a variant is its opening balance.
abbrev pub reason_for : ℕ → Stock → StockMovementReason
reason_for v s = if any (λ m. m.variant_id == v) s.movements then adjustment else opening_balance

-- on_hand - delta
abbrev pub before_delta : ℕ → ℤ → ℕ
before_delta on_hand (pos d) = on_hand - d
before_delta on_hand (negsuc d) = on_hand + suc d

abbrev pub adjustment_of : MovementInput → ℕ → Stock → Movement
adjustment_of input location s = record {
  variant_id = input.variant_id;
  location_id = location;
  delta = integer_value input.delta;
  reason = reason_for input.variant_id s;
  idempotency_key = input.idempotency_key;
  reference = none;
}

-- The movement, its audit row and the response.
unfoldable pub adjust : ℕ → MovementInput → Stock → Result (MovementResult × Stock)
unfolding ensure_default_location
adjust now input s = do
  let located = ensure_default_location s
  let m = adjustment_of input located.0 located.1
  done ← apply_movement now m located.1
  ok (
    record {
      movement_id = done.0.movement_id;
      variant_id = input.variant_id;
      reason = m.reason;
      delta = m.delta;
      on_hand = done.0.on_hand;
      replayed = false;
    },
    record (done.1) {
      audit =
          record {
            entity_id = input.variant_id;
            before = before_delta done.0.on_hand m.delta;
            after = done.0.on_hand;
          }
          ∷ done.1.audit;
    },
  )

-- The CHECK's violation is reported as insufficient stock.
abbrev pub map_violation {ℓ} : {A : Type ℓ} → ErrorCode → Result A → Result A
map_violation code (ok a) = ok a
map_violation code (err check_violation) = err code
map_violation code (err other) = err other

unfoldable pub apply_or_replay :
    ℕ → MovementInput → Stock → Option MovementRow → Result (MovementResult × Stock)
apply_or_replay now input s none = map_violation insufficient_stock (adjust now input s)
apply_or_replay now input s (some earlier) = replay input earlier s

unfoldable pub record_for :
    ℕ → MovementInput → Stock → Option VariantRow → Result (MovementResult × Stock)
record_for now input s none = err not_found
record_for now input s (some v) =
    refuse_if (not v.tracks_inventory) untracked_variant
    >> apply_or_replay now input s (find_by_idempotency_key input.idempotency_key s.movements)

unfoldable pub record_movement : ℕ → MovementInput → Stock → Result (MovementResult × Stock)
unfolding live_variant
record_movement now input s =
    refuse_if (not (is_adjustment input.delta)) invalid_payload
    >> record_for now input s (live_variant s input.variant_id)
