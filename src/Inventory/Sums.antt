-- ===== src/Inventory/Sums.antt =====
-- What active holds add up to, under the changes that the operations make to the reservation rows.
use ecom_platform.Base.{
  ℕ, ◌+◌, ◌≤◌, ◌≡◌, refl, Bool, List, [], ◌∷◌, ◌++◌, map, keep, sum_of, sum_of-le, arith, ◌==◌,
  if◌then◌else◌,
}
use ecom_platform.Inventory.Ledger.{
  Stock, ReservationRow, ReservationReference, reserved, reserved_by,
}
use ecom_platform.Inventory.Holds.{HoldLine, drop_expired, hold_row}
use ecom_platform.Inventory.Invariant.{IsConsistent}

pub sum_of-keep {ℓ} :
    {A : Type ℓ} (f : A → ℕ) (p : A → Bool) (xs : List A) → sum_of f (keep p xs) ≤ sum_of f xs
sum_of-keep f p [] = omega arith
sum_of-keep f p (x ∷ xs) = ground (arith, sum_of-keep f p xs)

-- Removing a lapsed hold changes nothing that counts.
pub reserved-drop_expired :
    (now v w : ℕ) (rs : List ReservationRow)
    → reserved now v (drop_expired now w rs) ≡ reserved now v rs
reserved-drop_expired now v w [] = refl
reserved-drop_expired now v w (r ∷ rs) = ground (arith, reserved-drop_expired now v w rs)

-- What the lines ask of a variant.
abbrev pub requested : ℕ → List HoldLine → ℕ
requested v = sum_of (λ l. if l.variant_id == v then l.quantity else 0)

pub reserved-hold_row :
    (now location v : ℕ) (ref : ReservationReference) (ls : List HoldLine)
    (rs : List ReservationRow)
    → reserved now v (map (hold_row now location ref) ls ++ rs) ≡ requested v ls + reserved now v rs
reserved-hold_row now location v ref [] rs = omega arith
reserved-hold_row now location v ref (l ∷ ls) rs =
    ground (arith, reserved-hold_row now location v ref ls rs)

pub later_reserved :
    (now now' v : ℕ) (rs : List ReservationRow)
    → now ≤ now'
    → reserved now' v rs ≤ reserved now v rs
later_reserved now now' v rs h =
    sum_of-le (reserved_by now' v) (reserved_by now v) rs (λ r. ground arith)

pub passing-IsConsistent :
    (now now' : ℕ) (s : Stock) → now ≤ now' → IsConsistent now s → IsConsistent now' s
passing-IsConsistent now now' s h v = record {
  reconciled = v.reconciled;
  covered = λ w. (omega (arith, v.covered w, later_reserved now now' w s.reservations h));
}

pub fewer-IsConsistent :
    (now : ℕ) (s : Stock) (rs : List ReservationRow)
    → ((v : ℕ) → reserved now v rs ≤ reserved now v s.reservations)
    → IsConsistent now s
    → IsConsistent now (record s { reservations = rs })
fewer-IsConsistent now s rs fewer v = record {
  reconciled = v.reconciled;
  covered = λ w. (omega (arith, v.covered w, fewer w));
}
