-- ===== src/Logistics/Regression.antt =====
-- Which carrier events isStatusRegression drops.
use ecom_platform.Base.{
  ℕ, ◌≡◌, refl, sym, Bool, true, false, not, ◌&&◌, ◌||◌, some, List, [], ◌∷◌, all, get_elem?, zero,
  suc, ltb, arith,
}
use ecom_platform.Logistics.Status.{
  ShipmentStatus, created, manifested, pickup_scheduled, pickup_failed, picked_up, in_transit,
  reached_destination_hub, out_for_delivery, delivery_failed, delivered, rto_initiated,
  rto_in_transit, rto_delivered, cancelled, lost, damaged, on_hold, shipment_statuses, status_code,
  same_shipment_status, one_of, terminal_statuses, status_rank, is_status_regression,
}

status_code-position : (s : ShipmentStatus) → get_elem? shipment_statuses (status_code s) ≡ some s
status_code-position created = refl
status_code-position manifested = refl
status_code-position pickup_scheduled = refl
status_code-position pickup_failed = refl
status_code-position picked_up = refl
status_code-position in_transit = refl
status_code-position reached_destination_hub = refl
status_code-position out_for_delivery = refl
status_code-position delivery_failed = refl
status_code-position delivered = refl
status_code-position rto_initiated = refl
status_code-position rto_in_transit = refl
status_code-position rto_delivered = refl
status_code-position cancelled = refl
status_code-position lost = refl
status_code-position damaged = refl
status_code-position on_hold = refl

all-get_elem? :
    (p : ShipmentStatus → Bool) (xs : List ShipmentStatus) (i : ℕ) (s : ShipmentStatus)
    → all p xs ≡ true
    → get_elem? xs i ≡ some s
    → p s ≡ true
all-get_elem? p [] i s h e = absurd cc
all-get_elem? p (x ∷ xs) zero s h e = let same : x ≡ s = cc in rw (sym same) (ground arith)
all-get_elem? p (x ∷ xs) (suc i) s h e = all-get_elem? p xs i s (ground arith) e

-- What holds of every status in the list holds of every status.
pub for_every_status :
    (p : ShipmentStatus → Bool) → all p shipment_statuses ≡ true → (s : ShipmentStatus) → p s ≡ true
for_every_status p h s =
    all-get_elem? p shipment_statuses (status_code s) s h (status_code-position s)

abbrev pub is_terminal : ShipmentStatus → Bool
is_terminal = one_of terminal_statuses

-- Progress by rank, or a shipment put on hold at the destination hub or on its way out.
abbrev pub is_progress : ShipmentStatus → ShipmentStatus → Bool
is_progress current incoming =
    not (is_terminal current)
    && (ltb (status_rank current) (status_rank incoming)
        || (same_shipment_status incoming on_hold
            && one_of (reached_destination_hub ∷ out_for_delivery ∷ []) current))

abbrev same_truth : Bool → Bool → Bool
same_truth true b = b
same_truth false b = not b

same_truth-equal : (a b : Bool) → same_truth a b ≡ true → a ≡ b
same_truth-equal true true h = refl
same_truth-equal true false h = sym h
same_truth-equal false true h = h
same_truth-equal false false h = refl

abbrev agrees : ShipmentStatus → ShipmentStatus → Bool
agrees c i = same_truth (is_status_regression c i) (not (is_progress c i))

agrees-everywhere : all (λ c. all (agrees c) shipment_statuses) shipment_statuses ≡ true
unfolding is_status_regression
agrees-everywhere = refl

-- isStatusRegression drops an event exactly where the shipment's status is terminal or the event is no
-- progress: its rank does not exceed the current one, and it does not put on hold a shipment that has
-- reached the destination hub or is out for delivery.
pub is_status_regression_lem :
    (current incoming : ShipmentStatus)
    → is_status_regression current incoming ≡ not (is_progress current incoming)
is_status_regression_lem c i = same_truth-equal _ _ (
    for_every_status (agrees c)
      (for_every_status (λ s. all (agrees s) shipment_statuses) agrees-everywhere c) i)
