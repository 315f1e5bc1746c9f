-- ===== src/Payments.antt =====
-- The split of an order's total by payment mode (packages/core/src/payments/index.ts). What a policy
-- holds comes from stored settings, so it is checked where it is used: its numbers are JsNumbers.
pub mod Records
pub mod Split
mod Tests
use ecom_platform.Base.{
  ℕ, ◌+◌, ◌-◌, ◌*◌, ◌/◌, min, max, Bool, true, false, not, ◌&&◌, ◌||◌, Option, none, some, leb, ltb,
  if◌then◌else◌, Result, ok, err, ◌>>=◌, ◌>>◌, refuse_if, invalid_payload, advance_not_configured,
  internal, JsNumber, max_safe_integer, is_safe_integer, is_integer, is_negative, nat_value,
  is_amount, ◌==◌,
}

-- `advance_bps` is absent where the partial mode is unavailable.
pub record AdvancePolicy : Type 0 where
  pub cod_enabled : Bool
  pub advance_bps : Option JsNumber
  pub min_advance_paise : JsNumber

pub data PaymentMode : Type 0 where
  prepaid : PaymentMode
  cod : PaymentMode
  cod_advance : PaymentMode

pub record AdvanceSplit : Type 0 where
  pub advance_paise : ℕ
  pub cod_due_paise : ℕ

abbrev pub gateway_min_order_paise : ℕ
gateway_min_order_paise = 100

-- A safe non-negative total, small enough that total × bps stays exact.
abbrev pub is_payable : JsNumber → Bool
is_payable total = is_amount total && leb (nat_value total) (max_safe_integer / 10000)

-- HALF_UP from bps, clamped to [minAdvance, total], and raised to the gateway's floor.
unfoldable pub advance_of : (total bps min_advance : ℕ) → ℕ
advance_of total bps min_advance =
    let raw = (total * bps + 5000) / 10000 in
    let clamped = min (max raw min_advance) total in
    if ltb 0 clamped && ltb clamped gateway_min_order_paise
    then min gateway_min_order_paise total
    else clamped

-- The partial mode, over a configured percentage.
unfoldable pub partial_split : ℕ → JsNumber → JsNumber → Result AdvanceSplit
partial_split total bps min_advance = do
  refuse_if (not (is_integer bps) || is_negative bps || ltb 10000 (nat_value bps)) invalid_payload
  refuse_if (not (is_amount min_advance)) invalid_payload
  let advance = advance_of total (nat_value bps) (nat_value min_advance)
  let due = total - advance
  refuse_if (not (advance + due == total)) internal
  ok (record { advance_paise = advance; cod_due_paise = due })

unfoldable pub advance_split : ℕ → Option JsNumber → JsNumber → Result AdvanceSplit
unfolding partial_split
advance_split total none min_advance = err advance_not_configured
advance_split total (some bps) min_advance = partial_split total bps min_advance

unfoldable pub split_by_mode : ℕ → AdvancePolicy → PaymentMode → Result AdvanceSplit
unfolding advance_split
split_by_mode total policy prepaid = ok (record { advance_paise = total; cod_due_paise = 0 })
split_by_mode total policy cod = do
  refuse_if (not policy.cod_enabled) invalid_payload
  ok (record { advance_paise = 0; cod_due_paise = total })
split_by_mode total policy cod_advance = do
  refuse_if (not policy.cod_enabled) invalid_payload
  advance_split total policy.advance_bps policy.min_advance_paise

unfoldable pub compute_advance_split : JsNumber → AdvancePolicy → PaymentMode → Result AdvanceSplit
unfolding split_by_mode
compute_advance_split total policy mode =
    refuse_if (not (is_payable total)) invalid_payload
    >> split_by_mode (nat_value total) policy mode
