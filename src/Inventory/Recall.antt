-- ===== src/Inventory/Recall.antt =====
-- A movement that is sent again with its idempotency key, after whatever has happened since
-- (packages/core/src/inventory/server.ts, recordMovement).
use ecom_platform.Base.{
  ℕ, ◌≡◌, ◌⊎◌, inl, inr, refl, sym, ap, ◌∙◌, Bool, true, false, not, ◌||◌, Option, none, some,
  Option-cases, Bool-cases, arith, ◌==◌, ok, err, ok_first, past_refusal, ok-ne-err, JsNumber,
  invalid_payload, not_found, untracked_variant, idempotency_key_reuse,
}
use ecom_platform.Inventory.Ledger.{
  Stock, MovementRow, VariantRow, live_variant, same_number, or_zero,
}
use ecom_platform.Inventory.Adjustment.{
  replay, record_for, apply_or_replay, record_movement, MovementResult, find_by_idempotency_key,
  integer_value, is_adjustment,
}
use ecom_platform.Inventory.Settlement.{map_violation-ok}
use ecom_platform.Inventory.Replay.{keyed, adjust_inverts, record_movement-replayed}

-- What a movement of the log answers with, on the tables of the moment.
abbrev answer_of : MovementRow → Stock → MovementResult
answer_of m s = record {
  movement_id = m.id;
  variant_id = m.variant_id;
  reason = m.reason;
  delta = m.delta;
  on_hand = or_zero (s.level m.variant_id m.location_id);
  replayed = true;
}

abbrev is_other : MovementRow → ℕ → JsNumber → Bool
is_other m v d = not (m.variant_id == v) || not (same_number m.delta (integer_value d))

-- The movement of the key is in the log, it is this request's, and it is what was answered.
record IsRemembered (v key : ℕ) (d : JsNumber) (s : Stock) (q : MovementResult) (m : MovementRow)
    : Type 0 where
  found : find_by_idempotency_key (some key) s.movements ≡ some m
  own : is_other m v d ≡ false
  same_answer : answer_of m s ≡ q

apply_or_replay-IsRemembered :
    (now v key : ℕ) (d : JsNumber) (s s' : Stock) (q : MovementResult) (o : Option MovementRow)
    → find_by_idempotency_key (some key) s.movements ≡ o
    → q.replayed ≡ true
    → apply_or_replay now (keyed v d key) s o ≡ ok (q, s')
    → (m : MovementRow) × IsRemembered v key d s q m
unfolding apply_or_replay replay
apply_or_replay-IsRemembered now v key d s s' q none found marked h =
    let (n, q_is, _) = adjust_inverts now (keyed v d key) s s' q (map_violation-ok _ _ h) in
    absurd (unmarked (ap (λ x. x.replayed) q_is) marked)
  where
    unmarked : q.replayed ≡ false → q.replayed ≡ true → ⊥
    unmarked a b = cc
apply_or_replay-IsRemembered now v key d s s' q (some m) found marked h =
    let (own, f) = past_refusal (is_other m v d) idempotency_key_reuse _ h in
    (m, record { found = found; own = own; same_answer = ok_first f })

record_for-IsRemembered :
    (now v key : ℕ) (d : JsNumber) (s s' : Stock) (q : MovementResult) (row : Option VariantRow)
    → q.replayed ≡ true
    → record_for now (keyed v d key) s row ≡ ok (q, s')
    → (m : MovementRow) × IsRemembered v key d s q m
unfolding record_for
record_for-IsRemembered now v key d s s' q none marked h = absurd (ok-ne-err h)
record_for-IsRemembered now v key d s s' q (some row) marked h =
    let (_, f) = past_refusal (not row.tracks_inventory) untracked_variant _ h in
    apply_or_replay-IsRemembered now v key d s s' q _ refl marked f

record_movement-IsRemembered :
    (now v key : ℕ) (d : JsNumber) (s s' : Stock) (q : MovementResult)
    → q.replayed ≡ true
    → record_movement now (keyed v d key) s ≡ ok (q, s')
    → (is_adjustment d ≡ true) × ((m : MovementRow) × IsRemembered v key d s q m)
unfolding record_movement
record_movement-IsRemembered now v key d s s' q marked h =
    let (valid, f) = past_refusal (not (is_adjustment d)) invalid_payload _ h in
    (ground (arith, valid), record_for-IsRemembered now v key d s s' q _ marked f)

-- How the request ends when it is sent again on the tables `s`, with the stock at the location `l`.
abbrev pub Recall : (now v key : ℕ) → JsNumber → MovementResult → ℕ → Stock → Type 0
Recall now v key d r l s =
    ((live_variant s v ≡ none) × (record_movement now (keyed v d key) s ≡ err not_found))
    ⊎ ((row : VariantRow) × (live_variant s v ≡ some row)
        × (row.tracks_inventory ≡ false)
        × (record_movement now (keyed v d key) s ≡ err untracked_variant))
    ⊎ ((row : VariantRow) × (live_variant s v ≡ some row)
        × (row.tracks_inventory ≡ true)
        × (record_movement now (keyed v d key) s
            ≡ ok (record r { on_hand = or_zero (s.level v l); replayed = true }, s)))

recalled :
    (now v key : ℕ) (d : JsNumber) (s : Stock) (m : MovementRow)
    → is_adjustment d ≡ true
    → is_other m v d ≡ false
    → find_by_idempotency_key (some key) s.movements ≡ some m
    → Recall now v key d (answer_of m s) m.location_id s
unfolding record_movement record_for apply_or_replay replay
recalled now v key d s m valid own found =
    let at_home : m.variant_id ≡ v = ground (arith, own) in
    elim (Option-cases (live_variant s v)) [
      | inl gone ↦ inl (gone, rw (valid, gone) refl)
      | inr (row, live) ↦ elim (Bool-cases row.tracks_inventory) [
        | inr off ↦ inr (inl (row, live, off, rw (valid, live, off) refl))
        | inl on ↦ inr (inr (row, live, on, rw (valid, live, on, found, own, at_home) refl))
      ]
    ]

-- A request with a key that recordMovement has answered can be sent again on any tables `u` where the
-- key still finds the same movement in the log. Nothing is written. If the variant is gone, it is
-- `not_found`; if it no longer tracks its stock, `untracked_variant`; otherwise the answer is the first
-- one, marked as replayed, with the stock that the movement's location has now. The first answer's
-- stock was that location's as well.
pub record_movement-Recall :
    (now now' v key : ℕ) (d : JsNumber) (s s' u : Stock) (r : MovementResult)
    → record_movement now (keyed v d key) s ≡ ok (r, s')
    → find_by_idempotency_key (some key) u.movements
      ≡ find_by_idempotency_key (some key) s'.movements
    → (l : ℕ) × (r.on_hand ≡ or_zero (s'.level v l)) × Recall now' v key d r l u
record_movement-Recall now now' v key d s s' u r h kept =
    let again = record_movement-replayed now now' v key d s s' r h in
    let (valid, (m, k)) =
      record_movement-IsRemembered now' v key d s' s' (record r { replayed = true }) refl again in
    let home : m.variant_id ≡ v = own_variant m k.own in
    let stock : r.on_hand ≡ or_zero (s'.level v m.location_id) =
      rw (← home) (sym (ap (λ x. x.on_hand) k.same_answer)) in
    let here = recalled now' v key d u m valid k.own (kept ∙ k.found) in
    (m.location_id, stock, rename m k.same_answer here)
  where
    own_variant : (m : MovementRow) → is_other m v d ≡ false → m.variant_id ≡ v
    own_variant m own = ground (arith, own)

    rename :
        (m : MovementRow)
        → answer_of m s' ≡ record r { replayed = true }
        → Recall now' v key d (answer_of m u) m.location_id u
        → Recall now' v key d r m.location_id u
    rename m same (inl gone) = inl gone
    rename m same (inr (inl off)) = inr (inl off)
    rename m same (inr (inr (row, live, on, e))) = inr (
        inr (
          row,
          live,
          on,
          e
              ∙ ap
                  (λ (x : MovementResult).
                    ok (
                      record x { on_hand = or_zero (u.level v m.location_id); replayed = true },
                      u,
                    ))
                  same,
        ))
