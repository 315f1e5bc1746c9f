-- ===== src/Orders/Table.antt =====
-- The transition table as a state machine: every move is progress.
use ecom_platform.Base.{ℕ, suc, ◌+◌, ◌≤◌, ◌<◌, ◌≡◌, ◌≢◌, ap, true, arith}
use ecom_platform.Orders.{
  OrderStatus, pending_payment, confirmed, processing, ready_to_ship, shipped, out_for_delivery,
  delivered, rto_initiated, rto_delivered, return_requested, return_picked, refunded, cancelled,
  abandoned, can_transition, is_manual,
}

-- How far an order has come.
abbrev pub progress : OrderStatus → ℕ
progress pending_payment = 0
progress confirmed = 1
progress abandoned = 1
progress processing = 2
progress ready_to_ship = 3
progress cancelled = 3
progress shipped = 4
progress out_for_delivery = 5
progress delivered = 6
progress rto_initiated = 6
progress return_requested = 7
progress rto_delivered = 7
progress return_picked = 8
progress refunded = 9

progress_le : (s : OrderStatus) → progress s ≤ 9
progress_le s = ground arith

pub can_transition-progress :
    (from to : OrderStatus) → can_transition from to ≡ true → progress from < progress to
unfolding can_transition
can_transition-progress pending_payment to h = ground arith
can_transition-progress _ to h = ground arith

-- The console's ladder is a part of the table.
pub is_manual-can_transition :
    (from to : OrderStatus) → is_manual from to ≡ true → can_transition from to ≡ true
unfolding is_manual can_transition
is_manual-can_transition pending_payment to h = ground arith
is_manual-can_transition _ to h = ground arith

-- A history of `n` moves.
pub data Moves (from : OrderStatus) : ℕ → OrderStatus → Type 0 where
  here : Moves from 0 from
  next :
      {n : ℕ} {s to : OrderStatus}
      → Moves from n s
      → can_transition s to ≡ true
      → Moves from (suc n) to

Moves-progress : {from to : OrderStatus} {n : ℕ} → Moves from n to → progress from + n ≤ progress to
Moves-progress here = omega arith
Moves-progress (next {s = s} {to = to} m h) =
    omega (arith, Moves-progress m, can_transition-progress s to h)

-- However an order is moved along the table, it makes at most nine moves, and after one or more it is
-- not in the status that it began in.
pub Moves-bounded :
    {from to : OrderStatus} {n : ℕ} → Moves from n to → (n ≤ 9) × (0 < n → from ≢ to)
Moves-bounded {from} {to} {n} m = (
  omega (arith, Moves-progress m, progress_le to),
  λ p e. absurd (omega (arith, Moves-progress m, ap progress e)),
)
