-- ===== src/Orders/Tests.antt =====
-- An order on the ladder, and the theorems there.
use ecom_platform.Base.{
  ◌≤◌, ◌<◌, ◌≡◌, ◌≢◌, refl, none, some, [], ◌∷◌, arith, ok, ◌==◌, if◌then◌else◌,
}
use ecom_platform.Orders.{
  out_for_delivery, delivered, pending_payment, confirmed, processing, OrderRow, OrderEvent, Tables,
  cod, pending, customer, system, staff, order_placed, order_confirmed, order_delivered,
  order_processing, event_row, moved, transition_order, update_status, manual_transition,
  move_by_staff, conclude, collects_cod, can_transition, is_manual,
}
use ecom_platform.Orders.Table.{Moves, here, next, Moves-bounded}
use ecom_platform.Orders.Door.{after_move}
use ecom_platform.Orders.Effects.{Promise, transition_order-Promise}
use ecom_platform.Orders.Staff.{StaffPromise, manual_transition-StaffPromise}
use ecom_platform.Orders.Trail.{IsTrail, transition_order-IsTrail, manual_transition-IsTrail}

abbrev parcel : OrderRow
parcel = record {
  status = out_for_delivery;
  payment_mode = cod;
  payment_status = pending;
  total_paise = 129900;
  amount_paid_paise = 0;
  cod_due_paise = 129900;
  confirmed_at = some 10;
  cancelled_at = none;
  expires_at = none;
  updated_at = 50;
}

abbrev desk : Tables
desk = record { order = λ id. if id == 1 then some parcel else none; order_events = []; audit = [] }

-- Delivery of a COD order settles it.
delivery_settles :
    manual_transition 60 1 delivered desk
    ≡ ok (
      event_row 60 1 out_for_delivery delivered order_delivered staff (some 129900),
      conclude 60 1 parcel delivered (
          after_move 60 1 delivered
            (event_row 60 1 out_for_delivery delivered order_delivered staff (some 129900))
            parcel
            desk),
    )
unfolding manual_transition move_by_staff transition_order update_status can_transition is_manual
    collects_cod
delivery_settles = refl

-- A new order, placed and awaiting payment.
abbrev placed : OrderRow
placed = record parcel { status = pending_payment; confirmed_at = none; expires_at = some 90 }

abbrev placement : OrderEvent
placement = record {
  order_id = 7;
  event = order_placed;
  from_status = none;
  to_status = some pending_payment;
  actor_type = customer;
  cod_collected_paise = none;
  created_at = 5;
}

abbrev shop : Tables
shop = record {
  order = λ id. if 7 == id then some placed else none;
  order_events = placement ∷ [];
  audit = [];
}

shop-IsTrail : IsTrail shop
shop-IsTrail = record { current = λ id. ground arith; chain = ((refl, λ f e. cc), tt) }

confirm_run :
    transition_order 12 7 pending_payment confirmed order_confirmed system none shop
    ≡ ok (
      event_row 12 7 pending_payment confirmed order_confirmed system none,
      after_move 12 7 confirmed
          (event_row 12 7 pending_payment confirmed order_confirmed system none)
          placed
          shop,
    )
unfolding transition_order update_status can_transition
confirm_run = refl

abbrev confirmed_shop : Tables
confirmed_shop =
    after_move 12 7 confirmed (event_row 12 7 pending_payment confirmed order_confirmed system none)
      placed shop

confirmed_shop-IsTrail : IsTrail confirmed_shop
confirmed_shop-IsTrail =
    transition_order-IsTrail 12 7 pending_payment confirmed order_confirmed system none shop
      confirmed_shop (event_row 12 7 pending_payment confirmed order_confirmed system none)
      shop-IsTrail confirm_run

abbrev processing_shop : Tables
processing_shop = conclude 20 7 (moved 12 confirmed placed) processing (
    after_move 20 7 processing (event_row 20 7 confirmed processing order_processing staff none)
      (moved 12 confirmed placed) confirmed_shop)

process_run :
    manual_transition 20 7 processing confirmed_shop
    ≡ ok (event_row 20 7 confirmed processing order_processing staff none, processing_shop)
unfolding manual_transition move_by_staff transition_order update_status can_transition is_manual
    collects_cod moved
process_run = refl

manual_transition-IsTrail_example : IsTrail processing_shop
manual_transition-IsTrail_example =
    manual_transition-IsTrail 20 7 processing confirmed_shop processing_shop
      (event_row 20 7 confirmed processing order_processing staff none) confirmed_shop-IsTrail
      process_run

transition_order-IsTrail_example : IsTrail confirmed_shop
transition_order-IsTrail_example =
    transition_order-IsTrail 12 7 pending_payment confirmed order_confirmed system none shop
      confirmed_shop (event_row 12 7 pending_payment confirmed order_confirmed system none)
      shop-IsTrail confirm_run

transition_order-Promise_example :
    Promise 12 7 pending_payment confirmed order_confirmed system none shop
transition_order-Promise_example =
    transition_order-Promise 12 7 pending_payment confirmed order_confirmed system none shop

manual_transition-StaffPromise_example : StaffPromise 60 1 delivered desk
manual_transition-StaffPromise_example = manual_transition-StaffPromise 60 1 delivered desk

two-Moves : Moves pending_payment 2 processing
unfolding can_transition
two-Moves = next {s = confirmed} (next {s = pending_payment} here refl) refl

Moves-bounded_example : (2 ≤ 9) × (0 < 2 → pending_payment ≢ processing)
Moves-bounded_example = Moves-bounded two-Moves
