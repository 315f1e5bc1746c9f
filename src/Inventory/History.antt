-- ===== src/Inventory/History.antt =====
-- The inventory over time: calls at times that never go back, each in its own transaction, so that a
-- call that throws leaves the tables as they were.
use ecom_platform.Base.{ℕ, ◌≤◌, ◌≡◌, refl, List, [], ◌∷◌, Result, ok, err}
use ecom_platform.Inventory.Ledger.{Stock, ReservationReference}
use ecom_platform.Inventory.Adjustment.{MovementInput, record_movement}
use ecom_platform.Inventory.Holds.{HoldLine, hold_stock, release_stock}
use ecom_platform.Inventory.Sales.{consume_stock, restock_within}
use ecom_platform.Inventory.Invariant.{IsConsistent}
use ecom_platform.Inventory.Sums.{passing-IsConsistent}
use ecom_platform.Inventory.Placement.{hold_stock-IsConsistent}
use ecom_platform.Inventory.Settlement.{
  record_movement-IsConsistent, release_stock-IsConsistent, consume_stock-IsConsistent,
  restock_within-IsConsistent,
}

pub data Call : Type 0 where
  move : MovementInput → Call
  hold : ReservationReference → List HoldLine → Call
  release : ReservationReference → Call
  consume : ReservationReference → List HoldLine → Call
  restock : ReservationReference → List HoldLine → Call

-- The tables after a transaction.
abbrev pub committed {ℓ} : {A : Type ℓ} → Stock → Result (A × Stock) → Stock
committed s (ok a) = a.1
committed s (err code) = s

abbrev pub perform : ℕ → Call → Stock → Stock
perform now (move input) s = committed s (record_movement now input s)
perform now (hold ref ls) s = committed s (hold_stock now ref ls s)
perform now (release ref) s = (release_stock ref s).1
perform now (consume ref ls) s = committed s (consume_stock now ref ls s)
perform now (restock ref ls) s = committed s (restock_within now ls ref s)

abbrev pub run : List (ℕ × Call) → Stock → Stock
run [] s = s
run (c ∷ cs) s = run cs (perform c.0 c.1 s)

-- The times never go back.
abbrev pub IsTimed : ℕ → List (ℕ × Call) → Type 0
IsTimed now [] = Unit
IsTimed now (c ∷ cs) = (now ≤ c.0) × IsTimed c.0 cs

abbrev pub last_time : ℕ → List (ℕ × Call) → ℕ
last_time now [] = now
last_time now (c ∷ cs) = last_time c.0 cs

committed-IsConsistent {ℓ} :
    {A : Type ℓ} (now : ℕ) (s : Stock) (r : Result (A × Stock))
    → ((a : A) (s' : Stock) → r ≡ ok (a, s') → IsConsistent now s')
    → IsConsistent now s
    → IsConsistent now (committed s r)
committed-IsConsistent now s (ok a) kept v = kept a.0 a.1 refl
committed-IsConsistent now s (err code) kept v = v

pub perform-IsConsistent :
    (now : ℕ) (c : Call) (s : Stock) → IsConsistent now s → IsConsistent now (perform now c s)
perform-IsConsistent now (move input) s v =
    committed-IsConsistent now s _ (λ r s' h. record_movement-IsConsistent now input s s' r v h) v
perform-IsConsistent now (hold ref ls) s v =
    committed-IsConsistent now s _ (λ r s' h. hold_stock-IsConsistent now ref ls s s' r v h) v
perform-IsConsistent now (release ref) s v = release_stock-IsConsistent now ref s v
perform-IsConsistent now (consume ref ls) s v =
    committed-IsConsistent now s _ (λ r s' h. consume_stock-IsConsistent now ref ls s s' r v h) v
perform-IsConsistent now (restock ref ls) s v =
    committed-IsConsistent now s _ (λ r s' h. restock_within-IsConsistent now ref ls s s' r v h) v

-- Whatever sequence of recordMovement, holdStock, releaseStock, consumeStock and restockWithin calls
-- is made, succeed or throw, at times that never go back: from consistent tables they lead to
-- consistent tables. So the projection is at every key the sum of the ledger's deltas, and the holds
-- that are active never exceed what is on hand at the tenant's location: no oversell.
pub run-IsConsistent :
    (now : ℕ) (calls : List (ℕ × Call)) (s : Stock)
    → IsTimed now calls
    → IsConsistent now s
    → IsConsistent (last_time now calls) (run calls s)
run-IsConsistent now [] s timed v = v
run-IsConsistent now (c ∷ cs) s timed v =
    run-IsConsistent c.0 cs (perform c.0 c.1 s) timed.1
      (perform-IsConsistent c.0 c.1 s (passing-IsConsistent now c.0 s timed.0 v))
