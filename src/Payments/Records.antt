-- ===== src/Payments/Records.antt =====
-- The rows of `payments` and `refunds` (packages/core/src/payments/server.ts), newest first. Money is
-- a natural number of paise, so the tests for a whole number are met; ids are drawn by the caller.
use ecom_platform.Base.{
  ℕ, Bool, true, false, not, ◌&&◌, Option, none, some, List, ◌∷◌, any, ◌==◌, Result, ok, ◌>>◌,
  refuse_if, invalid_payload, not_found, unique_violation, find_first, update_where,
}

pub data PaymentStatus : Type 0 where
  created authorized captured failed : PaymentStatus

pub data RefundStatus : Type 0 where
  pending processing processed failed_refund : RefundStatus

pub data RefundReason : Type 0 where
  merchant_cancelled stock_shortfall late_capture_abandoned : RefundReason

-- The columns that the operations read or write.
pub record PaymentRow : Type 0 where
  pub id : ℕ
  pub order_id : ℕ
  pub status : PaymentStatus
  pub amount_paise : ℕ
  pub gateway_order_id : ℕ
  pub gateway_payment_id : Option ℕ
  pub fee_paise : Option ℕ
  pub captured_at : Option ℕ
  pub updated_at : ℕ

pub record RefundRow : Type 0 where
  pub id : ℕ
  pub order_id : ℕ
  pub payment_id : ℕ
  pub amount_paise : ℕ
  pub status : RefundStatus
  pub reason : RefundReason
  pub gateway_refund_id : Option ℕ
  pub updated_at : ℕ

abbrev pub is_captured : PaymentStatus → Bool
is_captured captured = true
is_captured other = false

abbrev pub is_pending : RefundStatus → Bool
is_pending pending = true
is_pending other = false

-- `inArray(refunds.status, ["pending", "processing"])`
abbrev pub is_open : RefundStatus → Bool
is_open pending = true
is_open processing = true
is_open processed = false
is_open failed_refund = false

abbrev pub is_some_of : ℕ → Option ℕ → Bool
is_some_of n none = false
is_some_of n (some m) = m == n

abbrev pub created_row : (now id order_id amount_paise gateway_order_id : ℕ) → PaymentRow
created_row now id order_id amount_paise gateway_order_id = record {
  id = id;
  order_id = order_id;
  status = created;
  amount_paise = amount_paise;
  gateway_order_id = gateway_order_id;
  gateway_payment_id = none;
  fee_paise = none;
  captured_at = none;
  updated_at = now;
}

unfoldable pub insert_payment :
    (now id order_id amount_paise gateway_order_id : ℕ) → List PaymentRow → Result (List PaymentRow)
insert_payment now id order_id amount_paise gateway_order_id ps = do
  refuse_if (amount_paise == 0) invalid_payload
  ok (created_row now id order_id amount_paise gateway_order_id ∷ ps)

abbrev pub has_id : ℕ → PaymentRow → Bool
has_id id p = p.id == id

-- The row with the capture on it.
abbrev pub captured_row : (now gateway_payment_id : ℕ) → Option ℕ → PaymentRow → PaymentRow
captured_row now gateway_payment_id fee p = record p {
  status = captured;
  gateway_payment_id = some gateway_payment_id;
  fee_paise = fee;
  captured_at = some now;
  updated_at = now;
}

-- payments_gateway_payment_key: the gateway's payment id is on one row at most.
abbrev pub taken_elsewhere : (id gateway_payment_id : ℕ) → List PaymentRow → Bool
taken_elsewhere id gateway_payment_id =
    any (λ p. not (has_id id p) && is_some_of gateway_payment_id p.gateway_payment_id)

unfoldable pub mark_payment_captured :
    (now id gateway_payment_id : ℕ) → Option ℕ → List PaymentRow → Result (List PaymentRow)
mark_payment_captured now id gateway_payment_id fee ps = do
  refuse_if (not (any (has_id id) ps)) not_found
  refuse_if (taken_elsewhere id gateway_payment_id ps) unique_violation
  ok (update_where (has_id id) (captured_row now gateway_payment_id fee) ps)

abbrev pub failed_row : ℕ → PaymentRow → PaymentRow
failed_row now p = record p { status = failed; updated_at = now }

unfoldable pub mark_payment_failed : (now id : ℕ) → List PaymentRow → Result (List PaymentRow)
mark_payment_failed now id ps =
    refuse_if (not (any (has_id id) ps)) not_found
    >> ok (update_where (has_id id) (failed_row now) ps)

abbrev pub refunds_payment : ℕ → RefundRow → Bool
refunds_payment payment_id r = r.payment_id == payment_id

abbrev pub refund_row : (now id order_id payment_id amount_paise : ℕ) → RefundReason → RefundRow
refund_row now id order_id payment_id amount_paise reason = record {
  id = id;
  order_id = order_id;
  payment_id = payment_id;
  amount_paise = amount_paise;
  status = pending;
  reason = reason;
  gateway_refund_id = none;
  updated_at = now;
}

pub record RefundIntent : Type 0 where
  pub refund_id : ℕ
  pub created : Bool

-- INSERT .. ON CONFLICT DO NOTHING on the payment, then the row that is there.
abbrev pub insert_once :
    Option RefundRow → RefundRow → List RefundRow → RefundIntent × List RefundRow
insert_once none r rs = (record { refund_id = r.id; created = true }, r ∷ rs)
insert_once (some old) r rs = (record { refund_id = old.id; created = false }, rs)

unfoldable pub create_refund_intent :
    (now id order_id payment_id amount_paise : ℕ)
    → RefundReason
    → List RefundRow
    → Result (RefundIntent × List RefundRow)
create_refund_intent now id order_id payment_id amount_paise reason rs = do
  refuse_if (amount_paise == 0) invalid_payload
  let new = refund_row now id order_id payment_id amount_paise reason
  ok (insert_once (find_first (refunds_payment payment_id) rs) new rs)

-- Only a pending row moves.
unfoldable pub mark_refund_processing :
    (now id gateway_refund_id : ℕ) → List RefundRow → List RefundRow
mark_refund_processing now id gateway_refund_id =
    update_where (λ r. r.id == id && is_pending r.status)
      (λ r. record r {
        status = processing;
        gateway_refund_id = some gateway_refund_id;
        updated_at = now;
      })

abbrev pub awaits : ℕ → RefundRow → Bool
awaits gateway_refund_id r = is_some_of gateway_refund_id r.gateway_refund_id && is_open r.status

-- The refund that was brought to its end, if any, and the rows.
unfoldable pub mark_refund_processed :
    (now gateway_refund_id : ℕ) → List RefundRow → Option RefundRow × List RefundRow
mark_refund_processed now gateway_refund_id rs = (
  find_first (awaits gateway_refund_id) rs,
  update_where (awaits gateway_refund_id) (λ r. record r { status = processed; updated_at = now })
      rs,
)
