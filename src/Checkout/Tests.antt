-- ===== src/Checkout/Tests.antt =====
-- A shop with one order, its payment, and the gateway's event.
use ecom_platform.Base.{
  ℕ, ◌≡◌, refl, none, some, List, [], ◌∷◌, map, ok, if◌then◌else◌, ◌==◌, true, false, sort_by,
}
use ecom_platform.Orders.{
  OrderRow, pending_payment, prepaid, pending, processing, transition_order, assert_transition,
  can_transition, update_status,
}
use ecom_platform.Payments.Records.{insert_payment, mark_payment_captured, create_refund_intent}
use ecom_platform.Tax.{regular}
use ecom_platform.Inventory.Ledger.{
  Stock, live_variant, ensure_default_location, apply_movement, add_delta,
}
use ecom_platform.Inventory.Holds.{validate_lines, has_bad_line, load_line_variants, is_tracked}
use ecom_platform.Inventory.Sales.{consume_stock_within, consume_lines, consume_line}
use ecom_platform.Checkout.{
  Shop, OrderLine, OrderDetails, CheckoutSettings, GatewayEvent, item, converted, lock_order,
  edit_order, hold_lines_of, open_refund,
}
use ecom_platform.Checkout.Webhook.{
  CaptureResult, oversold, on_captured, process_captured, find_payment_by_gateway_order, capture_tx,
  capture_and_confirm, capture_onto_payment, oversold_cancel, oversold_tx, record_capture,
  close_oversold, cancel_oversold,
}
use ecom_platform.Checkout.Start.{start_payment, store_gateway_order}
use ecom_platform.Checkout.Confirm.{confirm_order_core, move_to}
use ecom_platform.Checkout.Redelivery
use ecom_platform.Checkout.Delivered.{is_quiet}
use ecom_platform.Checkout.History.{ShopCall, start, webhook, expire, cancel, by_hand, run, perform}
use ecom_platform.Checkout.History
use ecom_platform.Checkout.Safety.{IsSafe}

abbrev order_row : OrderRow
order_row = record {
  status = pending_payment;
  payment_mode = prepaid;
  payment_status = pending;
  total_paise = 500;
  amount_paid_paise = 0;
  cod_due_paise = 0;
  confirmed_at = none;
  cancelled_at = none;
  expires_at = some 900000;
  updated_at = 0;
}

abbrev order_line : OrderLine
order_line = record {
  kind = item;
  variant_id = some 7;
  quantity = 2;
  cgst_paise = 0;
  sgst_paise = 0;
  igst_paise = 0;
  total_paise = 500;
}

abbrev order_details : OrderDetails
order_details = record {
  id = 1;
  gateway_order_ref = none;
  cart_id = some 4;
  promotion_id = none;
  customer_id = some 8;
  discount_paise = 0;
  cancel_reason = none;
  lines = order_line ∷ [];
}

abbrev stock_of : ℕ → Stock
stock_of on_hand = record {
  variant = λ v. some (record { product_id = 3; tracks_inventory = true; is_deleted = false });
  default_location = some 1;
  movements = [];
  level = λ v l. some on_hand;
  reservations = [];
  audit = [];
  next_id = 2;
}

abbrev shop_with : ℕ → Shop
shop_with on_hand = record {
  tables = record {
    order = λ id. if id == 1 then some order_row else none;
    order_events = [];
    audit = [];
  };
  details = order_details ∷ [];
  carts = λ c. if c == 4 then some converted else none;
  stock = stock_of on_hand;
  payments = [];
  refunds = [];
  promotions = λ p. none;
  redemptions = [];
  book = record { series = []; invoices = [] };
  first_order_at = λ c. none;
  next_id = 10;
}

abbrev settings : CheckoutSettings
settings = record { tax_registration_type = regular; invoice_prefix = none; financial_year = 2026 }

abbrev capture : GatewayEvent
capture = record {
  event_id = 70;
  gateway_order_id = 60;
  gateway_payment_id = some 71;
  gateway_refund_id = none;
  amount_paise = 500;
  fee_paise = some 10;
}

abbrev calls : List (ℕ × ShopCall)
calls =
    (5, start 1 60)
    ∷ (9, webhook settings on_captured capture)
    ∷ (12, by_hand 1 processing)
    ∷ (20, cancel 1 none)
    ∷ []

run-IsSafe_example : IsSafe (run calls (shop_with 5))
run-IsSafe_example = History.run-IsSafe calls (shop_with 5) (tt, tt)

-- One item is left of the two that were sold, so that the capture cancels the order.
abbrev started : Shop
started = perform 5 (start 1 60) (shop_with 1)

abbrev sold_out : Shop
sold_out = (process_captured 9 settings capture started).0

sold_out_runs : process_captured 9 settings capture started ≡ (sold_out, ok oversold)
unfolding start_payment store_gateway_order lock_order insert_payment find_payment_by_gateway_order
    process_captured capture_tx capture_and_confirm capture_onto_payment mark_payment_captured
    edit_order confirm_order_core hold_lines_of consume_stock_within validate_lines has_bad_line
    load_line_variants live_variant is_tracked ensure_default_location consume_lines consume_line
    apply_movement add_delta oversold_cancel oversold_tx record_capture close_oversold
    cancel_oversold move_to transition_order assert_transition can_transition update_status
    open_refund create_refund_intent sort_by
sold_out_runs = refl

process_captured-IsQuiet_example :
    (again : CaptureResult) × (process_captured 500 settings capture sold_out
      ≡ (sold_out, ok again))
    × (is_quiet again ≡ true)
process_captured-IsQuiet_example =
    Redelivery.process_captured-IsQuiet 9 500 settings settings capture started sold_out oversold
      (History.perform-IsSafe 5 (start 1 60) (shop_with 1) (tt, tt)) sold_out_runs refl

-- What is refunded is the amount that was captured.
refunded_runs : map (λ r. r.amount_paise) sold_out.refunds ≡ 500 ∷ []
unfolding start_payment store_gateway_order lock_order insert_payment find_payment_by_gateway_order
    process_captured capture_tx capture_and_confirm capture_onto_payment mark_payment_captured
    edit_order confirm_order_core hold_lines_of consume_stock_within validate_lines has_bad_line
    load_line_variants live_variant is_tracked ensure_default_location consume_lines consume_line
    apply_movement add_delta oversold_cancel oversold_tx record_capture close_oversold
    cancel_oversold move_to transition_order assert_transition can_transition update_status
    open_refund create_refund_intent sort_by
refunded_runs = refl
