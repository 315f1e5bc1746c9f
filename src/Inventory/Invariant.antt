-- ===== src/Inventory/Invariant.antt =====
-- What holds of the tables between transactions: the projection is the sum of the ledger, and active
-- holds never exceed what is on hand. Here: the movement that keeps both.
use ecom_platform.Base.{
  ℕ, suc, ◌+◌, ◌≤◌, ◌≡◌, refl, Bool, false, ◌&&◌, Option, none, some, List, sum_of, arith, ltb,
  ◌==◌, if◌then◌else◌, ok, bound_value, ok_first, ok_second, past_refusal, sym, ℤ, pos, negsuc,
  Bool-cases, inl, inr,
}
use ecom_platform.Inventory.Ledger.{
  Stock, Movement, MovementRow, Applied, or_zero, reserved, add_delta, is_decrease, apply_movement,
  ensure_default_location, existing_or_new, written,
}

abbrev pub at_key : ℕ → ℕ → MovementRow → Bool
at_key v l m = m.variant_id == v && m.location_id == l

abbrev pub increase_of : ℤ → ℕ
increase_of (pos d) = d
increase_of (negsuc d) = 0

abbrev pub decrease_of : ℤ → ℕ
decrease_of (pos d) = 0
decrease_of (negsuc d) = suc d

-- What the ledger has brought in and taken out at a variant and location.
abbrev pub incoming : ℕ → ℕ → List MovementRow → ℕ
incoming v l = sum_of (λ m. if at_key v l m then increase_of m.delta else 0)

abbrev pub outgoing : ℕ → ℕ → List MovementRow → ℕ
outgoing v l = sum_of (λ m. if at_key v l m then decrease_of m.delta else 0)

abbrev pub on_hand_at : Stock → ℕ → ℕ → ℕ
on_hand_at s v l = or_zero (s.level v l)

-- On hand at the tenant's one location.
abbrev pub on_hand : Stock → ℕ → ℕ
on_hand s v = elim s.default_location [ none ↦ 0 | some l ↦ on_hand_at s v l ]

pub record IsConsistent (now : ℕ) (s : Stock) : Type 0 where
  pub reconciled :
      (v l : ℕ) → on_hand_at s v l + outgoing v l s.movements ≡ incoming v l s.movements
  pub covered : (v : ℕ) → reserved now v s.reservations ≤ on_hand s v

pub add_delta_parts :
    (n : ℕ) (d : ℤ) (m : ℕ) → add_delta n d ≡ ok m → m + decrease_of d ≡ n + increase_of d
unfolding add_delta
add_delta_parts n (pos d) m h = ground arith
add_delta_parts n (negsuc d) m h = ground arith

-- What an applied movement has done.
pub apply_movement_inverts :
    (now : ℕ) (m : Movement) (s s' : Stock) (a : Applied)
    → apply_movement now m s ≡ ok (a, s')
    → (n : ℕ) × (add_delta (or_zero (s.level m.variant_id m.location_id)) m.delta ≡ ok n)
      × ((is_decrease m.delta && ltb n (reserved now m.variant_id s.reservations)) ≡ false)
      × (s' ≡ written m n s)
      × (a ≡ record { movement_id = s.next_id; on_hand = n })
unfolding apply_movement
apply_movement_inverts now m s s' a h =
    let (n, e, f) =
      bound_value (add_delta (or_zero (s.level m.variant_id m.location_id)) m.delta) _ h in
    let (g, k) = past_refusal _ _ _ f in (n, e, g, sym (ok_second k), sym (ok_first k))

written_reconciled :
    (m : Movement) (n : ℕ) (s : Stock)
    → n + decrease_of m.delta ≡ or_zero (s.level m.variant_id m.location_id) + increase_of m.delta
    → ((v l : ℕ) → on_hand_at s v l + outgoing v l s.movements ≡ incoming v l s.movements)
    → (v l : ℕ)
    → on_hand_at (written m n s) v l + outgoing v l (written m n s).movements
      ≡ incoming v l (written m n s).movements
written_reconciled m n s parts h v l = elim (Bool-cases (m.variant_id == v && m.location_id == l)) [
  | inl hit ↦ rw hit (here (ground arith) (ground arith))
  | inr miss ↦ rw miss (omega (arith, h v l))
]
  where
    here :
        m.variant_id ≡ v
        → m.location_id ≡ l
        → n + (decrease_of m.delta + outgoing v l s.movements)
          ≡ increase_of m.delta + incoming v l s.movements
    here p q =
        let same : or_zero (s.level v l) ≡ or_zero (s.level m.variant_id m.location_id) = cc in
        omega (arith, h v l, same)

-- With the guard of the holds, a movement leaves enough on hand.
written_covered :
    (now : ℕ) (m : Movement) (n : ℕ) (s : Stock)
    → s.default_location ≡ some m.location_id
    → n + decrease_of m.delta ≡ or_zero (s.level m.variant_id m.location_id) + increase_of m.delta
    → (is_decrease m.delta && ltb n (reserved now m.variant_id s.reservations)) ≡ false
    → ((v : ℕ) → reserved now v s.reservations ≤ on_hand s v)
    → (v : ℕ) → reserved now v (written m n s).reservations ≤ on_hand (written m n s) v
written_covered now m n s loc parts guard h v = rw loc (elim (Bool-cases (m.variant_id == v)) [
  | inl hit ↦ let e = enough m.delta parts guard (ground arith) in ground (arith, e, hit)
  | inr miss ↦ rw miss held_before
])
  where
    held_before : reserved now v s.reservations ≤ or_zero (s.level v m.location_id)
    held_before = rw loc at (h v)

    enough :
        (d : ℤ)
        → n + decrease_of d ≡ or_zero (s.level m.variant_id m.location_id) + increase_of d
        → (is_decrease d && ltb n (reserved now m.variant_id s.reservations)) ≡ false
        → m.variant_id ≡ v
        → reserved now v s.reservations ≤ n
    enough (pos d) parts guard same =
        let at : or_zero (s.level v m.location_id) ≡ or_zero (s.level m.variant_id m.location_id) =
          cc in
        omega (arith, held_before, at, parts)
    enough (negsuc d) parts guard same =
        let at : reserved now m.variant_id s.reservations ≡ reserved now v s.reservations = cc in
        ground (arith, at)

-- Consistent, with the location in use known.
abbrev pub IsReady : ℕ → ℕ → Stock → Type 0
IsReady now location s = (s.default_location ≡ some location) × IsConsistent now s

pub apply_movement-IsReady :
    (now : ℕ) (m : Movement) (s s' : Stock) (a : Applied)
    → IsReady now m.location_id s
    → apply_movement now m s ≡ ok (a, s')
    → IsReady now m.location_id s'
apply_movement-IsReady now m s s' a v h =
    let (n, e, g, f, _) = apply_movement_inverts now m s s' a h in
    let parts = add_delta_parts _ m.delta n e in
    rw f (
      v.0,
      record {
        reconciled = written_reconciled m n s parts v.1.reconciled;
        covered = written_covered now m n s v.0 parts g v.1.covered;
      },
    )

existing_or_new-IsReady :
    (now : ℕ) (existing : Option ℕ) (s : Stock)
    → s.default_location ≡ existing
    → IsConsistent now s
    → IsReady now (existing_or_new existing s).0 (existing_or_new existing s).1
existing_or_new-IsReady now none s absent v = (
  refl,
  record {
    reconciled = v.reconciled;
    covered = λ w.
        (let held_none : reserved now w s.reservations ≤ 0 = rw absent at (v.covered w) in
          omega (arith, held_none));
  },
)
existing_or_new-IsReady now (some l) s present v = (present, v)

-- Getting or creating the location keeps the tables consistent.
pub ensure_default_location-IsReady :
    (now : ℕ) (s : Stock)
    → IsConsistent now s
    → IsReady now (ensure_default_location s).0 (ensure_default_location s).1
unfolding ensure_default_location
ensure_default_location-IsReady now s v = existing_or_new-IsReady now s.default_location s refl v
