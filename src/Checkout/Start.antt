-- ===== src/Checkout/Start.antt =====
-- startGatewayPayment: what it writes once the gateway, which is not part of the program, has answered
-- with an order of its own ([TX-D]).
use ecom_platform.Base.{
  ℕ, ◌+◌, Bool, not, ◌&&◌, Option, none, some, List, any, ◌==◌, if◌then◌else◌, Result, ok, ◌>>=◌,
  ◌>>◌, refuse_if, unique_violation, not_found, err, ◌-◌, update_where, find_first,
}
use ecom_platform.Orders.{OrderRow}
use ecom_platform.Payments.Records.{PaymentRow, insert_payment}
use ecom_platform.Checkout.{Shop, OrderDetails, is_order, has_ref, lock_order}
use ecom_platform.Checkout.Webhook.{find_payment_by_gateway_order}

-- An attempt that is there is used again.
abbrev pub insert_unless : ℕ → ℕ → ℕ → ℕ → Option PaymentRow → Shop → Result Shop
insert_unless now id ref amount (some p) s = ok s
insert_unless now id ref amount none s =
    insert_payment now s.next_id id amount ref s.payments >>= λ ps.
    ok (record s { payments = ps; next_id = s.next_id + 1 })

-- orders_gateway_ref_key
abbrev pub ref_taken : ℕ → ℕ → List OrderDetails → Bool
ref_taken id ref = any (λ d. not (is_order id d) && has_ref ref d)

abbrev pub store_ref : ℕ → ℕ → Shop → Result Shop
store_ref id ref s =
    refuse_if (ref_taken id ref s.details) unique_violation
    >> ok (record s {
      details =
          update_where (is_order id) (λ d. record d { gateway_order_ref = some ref }) s.details;
    })

abbrev pub ref_of : Option OrderDetails → Option ℕ
ref_of none = none
ref_of (some d) = d.gateway_order_ref

-- The first writer wins: another reference that is stored is kept.
abbrev pub write_payment : ℕ → ℕ → ℕ → ℕ → Shop → Result (ℕ × Shop)
write_payment now id amount ref s = do
  paid ← insert_unless now id ref amount (find_payment_by_gateway_order id ref s.payments) s
  stored ← store_ref id ref paid
  ok (ref, stored)

abbrev pub keep_or_write : ℕ → ℕ → ℕ → ℕ → Option ℕ → Shop → Result (ℕ × Shop)
keep_or_write now id amount ref none s = write_payment now id amount ref s
keep_or_write now id amount ref (some stored) s =
    if stored == ref then write_payment now id amount ref s else ok (stored, s)

-- [TX-D], on the tables as they are when the gateway has answered with `ref`: another payment-start
-- may have run since this one found no reference.
unfoldable pub store_gateway_order : ℕ → ℕ → ℕ → ℕ → Shop → Result (ℕ × Shop)
store_gateway_order now id amount ref s =
    keep_or_write now id amount ref (ref_of (find_first (is_order id) s.details)) s

-- The refusals of replayCheckout that stand before are left out: an order of any status starts a
-- payment here, and so more orders do than in the source.
abbrev pub start_row : ℕ → ℕ → ℕ → Option (OrderRow × OrderDetails) → Shop → Result (ℕ × Shop)
start_row now id ref none s = err not_found
start_row now id ref (some (r, d)) s =
    store_gateway_order now id (r.total_paise - r.cod_due_paise) ref s

-- The payment of an order that is there: what is not due at the door is asked for.
unfoldable pub start_payment : ℕ → ℕ → ℕ → Shop → Result (ℕ × Shop)
start_payment now id ref s = start_row now id ref (lock_order id s) s
