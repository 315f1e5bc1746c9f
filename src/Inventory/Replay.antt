-- ===== src/Inventory/Replay.antt =====
-- A movement that is sent again with its idempotency key.
use ecom_platform.Base.{
  ℕ, ◌≡◌, refl, sym, true, false, not, ◌||◌, Option, none, some, ◌∷◌, arith, ◌==◌, ok, bound_value,
  ok_first, ok_second, past_refusal, ok-ne-err, JsNumber, ℤ, pos, negsuc, invalid_payload,
  untracked_variant, idempotency_key_reuse,
}
use ecom_platform.Inventory.Ledger.{
  Stock, MovementRow, VariantRow, apply_movement, live_variant, ensure_default_location,
  existing_or_new, same_number, written,
}
use ecom_platform.Inventory.Adjustment.{
  adjust, replay, record_for, apply_or_replay, record_movement, MovementInput, MovementResult,
  find_by_idempotency_key, reason_for, before_delta, adjustment_of, integer_value, is_adjustment,
}
use ecom_platform.Inventory.Invariant.{apply_movement_inverts}
use ecom_platform.Inventory.Settlement.{map_violation-ok}

same_number_refl : (z : ℤ) → same_number z z ≡ true
same_number_refl (pos n) = ground arith
same_number_refl (negsuc n) = ground arith

existing_keeps :
    (o : Option ℕ) (s : Stock) (v : ℕ) → (existing_or_new o s).1.variant v ≡ s.variant v
existing_keeps none s v = refl
existing_keeps (some l) s v = refl

-- A request that carries a key.
abbrev pub keyed : ℕ → JsNumber → ℕ → MovementInput
keyed v d key = record { variant_id = v; delta = d; idempotency_key = some key }

abbrev adjusted : MovementInput → ℕ → ℕ → Stock → Stock
adjusted input location n s = record (written (adjustment_of input location s) n s) {
  audit =
      record {
        entity_id = input.variant_id;
        before = before_delta n (integer_value input.delta);
        after = n;
      }
      ∷ s.audit;
}

abbrev adjusted_result : MovementInput → ℕ → ℕ → Stock → MovementResult
adjusted_result input location n s = record {
  movement_id = s.next_id;
  variant_id = input.variant_id;
  reason = reason_for input.variant_id s;
  delta = integer_value input.delta;
  on_hand = n;
  replayed = false;
}

-- What an adjustment returns and leaves.
pub adjust_inverts :
    (now : ℕ) (input : MovementInput) (s s' : Stock) (r : MovementResult)
    → adjust now input s ≡ ok (r, s')
    → (n : ℕ) × (r
        ≡ adjusted_result input (ensure_default_location s).0 n (ensure_default_location s).1)
      × (s' ≡ adjusted input (ensure_default_location s).0 n (ensure_default_location s).1)
unfolding adjust
adjust_inverts now input s s' r h =
    let located = ensure_default_location s in
    let m = adjustment_of input located.0 located.1 in
    let (done, e, f) = bound_value (apply_movement now m located.1) _ h in
    let (n, _, _, w, a) = apply_movement_inverts now m located.1 done.1 done.0 e in
    (n, (rw (sym (ok_first f), a) refl), (rw (sym (ok_second f), w, a) refl))

answers_again :
    (now v key : ℕ) (d : JsNumber) (location n : ℕ) (s : Stock)
    → apply_or_replay now
        (keyed v d key)
        (adjusted (keyed v d key) location n s)
        (find_by_idempotency_key (some key) (adjusted (keyed v d key) location n s).movements)
      ≡ ok (
        record (adjusted_result (keyed v d key) location n s) { replayed = true },
        adjusted (keyed v d key) location n s,
      )
unfolding apply_or_replay find_by_idempotency_key replay
answers_again now v key d location n s =
    let k : (key == key) ≡ true = ground arith in
    let w : (v == v) ≡ true = ground arith in
    let l : (location == location) ≡ true = ground arith in
    simp (k, w, l, same_number_refl (integer_value d)) refl

-- A replay marks its result and writes nothing.
replay_inverts :
    (input : MovementInput) (m : MovementRow) (s s' : Stock) (r : MovementResult)
    → replay input m s ≡ ok (r, s')
    → (s ≡ s') × (record r { replayed = true } ≡ r)
unfolding replay
replay_inverts input m s s' r h =
    let f =
      (past_refusal
        (not (m.variant_id == input.variant_id)
          || not (same_number m.delta (integer_value input.delta)))
        idempotency_key_reuse _ h).1 in
    (ok_second f, (rw (sym (ok_first f)) refl))

same_live :
    (s s' : Stock) (v : ℕ) → s'.variant v ≡ s.variant v → live_variant s' v ≡ live_variant s v
unfolding live_variant
same_live s s' v h = rw (h, live_variant) refl

apply_or_replay_again :
    (now now' v key : ℕ) (d : JsNumber) (s s' : Stock) (r : MovementResult)
    (earlier : Option MovementRow)
    → find_by_idempotency_key (some key) s.movements ≡ earlier
    → apply_or_replay now (keyed v d key) s earlier ≡ ok (r, s')
    → (live_variant s' v ≡ live_variant s v)
      × (apply_or_replay now' (keyed v d key) s' (find_by_idempotency_key (some key) s'.movements)
          ≡ ok (record r { replayed = true }, s'))
unfolding apply_or_replay ensure_default_location
apply_or_replay_again now now' v key d s s' r none found h =
    let (n, r_is, s_is) = adjust_inverts now (keyed v d key) s s' r (map_violation-ok _ _ h) in
    let located = ensure_default_location s in
    rw (s_is, r_is)
      (
        same_live s (adjusted (keyed v d key) located.0 n located.1) v
            (existing_keeps s.default_location s v),
        answers_again now' v key d located.0 n located.1,
      )
apply_or_replay_again now now' v key d s s' r (some m) found h =
    let (same, marked) = replay_inverts (keyed v d key) m s s' r h in
    rw (marked, sym same, found) (refl, (rw (sym same) at h))

record_for_again :
    (now now' v key : ℕ) (d : JsNumber) (s s' : Stock) (r : MovementResult)
    (row : Option VariantRow)
    → live_variant s v ≡ row
    → record_for now (keyed v d key) s row ≡ ok (r, s')
    → record_for now' (keyed v d key) s' (live_variant s' v) ≡ ok (record r { replayed = true }, s')
unfolding record_for
record_for_again now now' v key d s s' r none live h = absurd (ok-ne-err h)
record_for_again now now' v key d s s' r (some row) live h =
    let (tracked, f) = past_refusal (not row.tracks_inventory) untracked_variant _ h in
    let (kept, again) = apply_or_replay_again now now' v key d s s' r _ refl f in
    rw (kept, live, tracked) again

-- Sent again on the very tables that the answer left, the request is answered as before.
pub record_movement-replayed :
    (now now' v key : ℕ) (d : JsNumber) (s s' : Stock) (r : MovementResult)
    → record_movement now (keyed v d key) s ≡ ok (r, s')
    → record_movement now' (keyed v d key) s' ≡ ok (record r { replayed = true }, s')
unfolding record_movement
record_movement-replayed now now' v key d s s' r h =
    let (valid, f) = past_refusal (not (is_adjustment d)) invalid_payload _ h in
    rw valid (record_for_again now now' v key d s s' r _ refl f)
