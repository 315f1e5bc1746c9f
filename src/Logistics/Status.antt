-- ===== src/Logistics/Status.antt =====
-- Shipment statuses and the test for stale events (packages/core/src/logistics/status.ts, with the
-- vocabulary of packages/core/src/logistics/types.ts).
use ecom_platform.Base.{ℕ, Bool, true, false, ◌||◌, List, [], ◌∷◌, any, ◌==◌, leb, if◌then◌else◌}

pub data ShipmentStatus : Type 0 where
  created manifested pickup_scheduled pickup_failed picked_up in_transit reached_destination_hub
        out_for_delivery delivery_failed delivered rto_initiated rto_in_transit rto_delivered
        cancelled lost damaged on_hold :
      ShipmentStatus

abbrev pub shipment_statuses : List ShipmentStatus
shipment_statuses =
    created ∷ manifested ∷ pickup_scheduled ∷ pickup_failed ∷ picked_up ∷ in_transit
    ∷ reached_destination_hub ∷ out_for_delivery ∷ delivery_failed ∷ delivered ∷ rto_initiated
    ∷ rto_in_transit ∷ rto_delivered ∷ cancelled ∷ lost ∷ damaged ∷ on_hold ∷ []

-- The place in the list of statuses, by which two are compared.
abbrev pub status_code : ShipmentStatus → ℕ
status_code created = 0
status_code manifested = 1
status_code pickup_scheduled = 2
status_code pickup_failed = 3
status_code picked_up = 4
status_code in_transit = 5
status_code reached_destination_hub = 6
status_code out_for_delivery = 7
status_code delivery_failed = 8
status_code delivered = 9
status_code rto_initiated = 10
status_code rto_in_transit = 11
status_code rto_delivered = 12
status_code cancelled = 13
status_code lost = 14
status_code damaged = 15
status_code on_hold = 16

abbrev pub same_shipment_status : ShipmentStatus → ShipmentStatus → Bool
same_shipment_status a b = status_code a == status_code b

abbrev pub one_of : List ShipmentStatus → ShipmentStatus → Bool
one_of xs s = any (λ x. same_shipment_status x s) xs

abbrev pub terminal_statuses : List ShipmentStatus
terminal_statuses = delivered ∷ rto_delivered ∷ cancelled ∷ lost ∷ []

abbrev pub status_rank : ShipmentStatus → ℕ
status_rank created = 0
status_rank manifested = 10
status_rank pickup_scheduled = 20
status_rank pickup_failed = 25
status_rank picked_up = 30
status_rank in_transit = 40
status_rank reached_destination_hub = 50
status_rank out_for_delivery = 60
status_rank delivery_failed = 65
status_rank delivered = 100
status_rank rto_initiated = 70
status_rank rto_in_transit = 80
status_rank rto_delivered = 100
status_rank on_hold = 45
status_rank damaged = 90
status_rank cancelled = 100
status_rank lost = 100

-- By the incoming status: the current ones it may follow whatever the ranks. A missing key is the
-- empty list.
abbrev pub allowed_backward : ShipmentStatus → List ShipmentStatus
allowed_backward delivery_failed = out_for_delivery ∷ in_transit ∷ reached_destination_hub ∷ []
allowed_backward on_hold = in_transit ∷ reached_destination_hub ∷ out_for_delivery ∷ picked_up ∷ []
allowed_backward rto_initiated =
    delivery_failed ∷ out_for_delivery ∷ in_transit ∷ reached_destination_hub ∷ on_hold ∷ []
allowed_backward rto_in_transit = rto_initiated ∷ []
allowed_backward pickup_failed = pickup_scheduled ∷ manifested ∷ []
allowed_backward damaged = in_transit ∷ reached_destination_hub ∷ out_for_delivery ∷ picked_up ∷ []
allowed_backward lost =
    in_transit ∷ reached_destination_hub ∷ out_for_delivery ∷ picked_up ∷ on_hold ∷ []
allowed_backward cancelled = created ∷ manifested ∷ pickup_scheduled ∷ pickup_failed ∷ []
allowed_backward other = []

unfoldable pub is_status_regression : ShipmentStatus → ShipmentStatus → Bool
is_status_regression current incoming =
    if same_shipment_status current incoming
    then true
    else (if one_of terminal_statuses current
        then true
        else (if one_of (allowed_backward incoming) current
            then false
            else leb (status_rank incoming) (status_rank current)))

unfoldable pub is_revenue_loss : ShipmentStatus → Bool
is_revenue_loss status =
    same_shipment_status status rto_delivered
    || same_shipment_status status lost
    || same_shipment_status status damaged

pub data FulfilmentStatus : Type 0 where
  to_ship shipping out_now done returning returned called_off exception : FulfilmentStatus

-- ready_to_ship, shipped, out_for_delivery, delivered, rto_initiated, rto_delivered, cancelled and
-- exception.
unfoldable pub to_fulfilment_status : ShipmentStatus → FulfilmentStatus
to_fulfilment_status created = to_ship
to_fulfilment_status manifested = to_ship
to_fulfilment_status pickup_scheduled = to_ship
to_fulfilment_status pickup_failed = to_ship
to_fulfilment_status picked_up = shipping
to_fulfilment_status in_transit = shipping
to_fulfilment_status reached_destination_hub = shipping
to_fulfilment_status on_hold = shipping
to_fulfilment_status out_for_delivery = out_now
to_fulfilment_status delivery_failed = out_now
to_fulfilment_status delivered = done
to_fulfilment_status rto_initiated = returning
to_fulfilment_status rto_in_transit = returning
to_fulfilment_status rto_delivered = returned
to_fulfilment_status cancelled = called_off
to_fulfilment_status lost = exception
to_fulfilment_status damaged = exception
