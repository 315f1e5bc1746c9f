-- ===== src/Inventory/Ledger.antt =====
-- The tables, and the one door by which stock moves: applyMovement.
use ecom_platform.Base.{
  ℕ, suc, ◌+◌, ◌-◌, Bool, true, false, ◌&&◌, Option, none, some, List, ◌∷◌, sum_of, ltb, leb, ◌==◌,
  if◌then◌else◌, Result, ok, err, ◌>>=◌, ◌>>◌, refuse_if, stock_held, check_violation, ℤ, pos,
  negsuc,
}

pub data StockMovementReason : Type 0 where
  opening_balance adjustment sale cancellation_restock : StockMovementReason

pub record ReservationReference : Type 0 where
  pub type : ℕ
  pub id : ℕ

abbrev pub same_reference : ReservationReference → ReservationReference → Bool
same_reference a b = a.type == b.type && a.id == b.id

pub record VariantRow : Type 0 where
  pub product_id : ℕ
  pub tracks_inventory : Bool
  pub is_deleted : Bool

pub record MovementRow : Type 0 where
  pub id : ℕ
  pub variant_id : ℕ
  pub location_id : ℕ
  pub delta : ℤ
  pub reason : StockMovementReason
  pub idempotency_key : Option ℕ
  pub reference : Option ReservationReference

pub record ReservationRow : Type 0 where
  pub variant_id : ℕ
  pub location_id : ℕ
  pub quantity : ℕ
  pub reference : ReservationReference
  pub expires_at : ℕ

-- The audit row of an adjustment.
pub record AuditRow : Type 0 where
  pub entity_id : ℕ
  pub before : ℕ
  pub after : ℕ

-- `level` is the projection `stock_levels`, keyed by variant and location. Rows that are inserted
-- take fresh ids.
pub record Stock : Type 0 where
  pub variant : ℕ → Option VariantRow
  pub default_location : Option ℕ
  pub movements : List MovementRow
  pub level : ℕ → ℕ → Option ℕ
  pub reservations : List ReservationRow
  pub audit : List AuditRow
  pub next_id : ℕ

abbrev pub stock_adjustment_max : ℕ
stock_adjustment_max = 1000000

abbrev pub same_number : ℤ → ℤ → Bool
same_number (pos a) (pos b) = a == b
same_number (pos a) (negsuc b) = false
same_number (negsuc a) (pos b) = false
same_number (negsuc a) (negsuc b) = a == b

-- A variant that is not deleted.
unfoldable pub live_variant : Stock → ℕ → Option VariantRow
live_variant s v = elim (s.variant v) [
  | none ↦ none
  | some r ↦ if r.is_deleted then none else some r
]

-- `level?.onHand ?? 0`
abbrev pub or_zero : Option ℕ → ℕ
or_zero none = 0
or_zero (some n) = n

-- The location, which is created where there is none.
abbrev pub existing_or_new : Option ℕ → Stock → ℕ × Stock
existing_or_new none s =
    (s.next_id, record s { default_location = some s.next_id; next_id = s.next_id + 1 })
existing_or_new (some location) s = (location, s)

-- Get or create, in the caller's transaction.
unfoldable pub ensure_default_location : Stock → ℕ × Stock
ensure_default_location s = existing_or_new s.default_location s

-- on_hand + delta under CHECK (on_hand >= 0).
unfoldable pub add_delta : ℕ → ℤ → Result ℕ
add_delta on_hand (pos d) = ok (on_hand + d)
add_delta on_hand (negsuc d) =
    if leb (suc d) on_hand then ok (on_hand - suc d) else err check_violation

abbrev pub is_decrease : ℤ → Bool
is_decrease (pos d) = false
is_decrease (negsuc d) = true

-- What active checkouts hold of a variant: `expires_at > now()`.
abbrev pub reserved_by : ℕ → ℕ → ReservationRow → ℕ
reserved_by now v r = if r.variant_id == v && ltb now r.expires_at then r.quantity else 0

abbrev pub reserved : ℕ → ℕ → List ReservationRow → ℕ
reserved now v = sum_of (reserved_by now v)

abbrev pub set_level : ℕ → ℕ → ℕ → (ℕ → ℕ → Option ℕ) → ℕ → ℕ → Option ℕ
set_level v l n level w m = if v == w && l == m then some n else level w m

pub record Movement : Type 0 where
  pub variant_id : ℕ
  pub location_id : ℕ
  pub delta : ℤ
  pub reason : StockMovementReason
  pub idempotency_key : Option ℕ
  pub reference : Option ReservationReference

abbrev pub movement_row : ℕ → Movement → MovementRow
movement_row id m = record {
  id = id;
  variant_id = m.variant_id;
  location_id = m.location_id;
  delta = m.delta;
  reason = m.reason;
  idempotency_key = m.idempotency_key;
  reference = m.reference;
}

pub record Applied : Type 0 where
  pub movement_id : ℕ
  pub on_hand : ℕ

-- The tables with the movement written and the projection at `on_hand`.
abbrev pub written : Movement → ℕ → Stock → Stock
written m on_hand s = record s {
  movements = movement_row s.next_id m ∷ s.movements;
  level = set_level m.variant_id m.location_id on_hand s.level;
  next_id = s.next_id + 1;
}

-- The ledger row, the projection (an UPDATE, or an INSERT of the delta where no row exists), and for a
-- decrease the guard of what active checkouts hold.
unfoldable pub apply_movement : ℕ → Movement → Stock → Result (Applied × Stock)
unfolding add_delta
apply_movement now m s = do
  on_hand ← add_delta (or_zero (s.level m.variant_id m.location_id)) m.delta
  refuse_if (is_decrease m.delta && ltb on_hand (reserved now m.variant_id s.reservations))
      stock_held
  ok (record { movement_id = s.next_id; on_hand = on_hand }, written m on_hand s)
