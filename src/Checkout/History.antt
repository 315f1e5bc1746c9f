-- ===== src/Checkout/History.antt =====
-- The tenant's shop over time: payment-starts, the gateway's events, confirmations at the door,
-- expiries, and what staff do, each in its own transactions and in any order.
use ecom_platform.Base.{
  ℕ, ◌≡◌, refl, sym, ◌∙◌, inl, inr, true, if◌then◌else◌, Option, none, some, List, [], ◌∷◌, ◌-◌,
  arith, Bool-cases, Option-cases, Result, ok, err, ok-ne-err, ok_second, bound_value,
}
use ecom_platform.Orders.{
  OrderStatus, OrderRow, OrderEvent, OrderEventName, Tables, pending_payment, confirmed, processing,
  ready_to_ship, shipped, out_for_delivery, delivered, rto_initiated, rto_delivered,
  return_requested, return_picked, refunded, cancelled, abandoned, staff, collect, collects_cod,
  conclude, settled, event_row, manual_event_by_target, manual_transition, move_by_staff,
  transition_order,
}
use ecom_platform.Orders.Door.{transition_order-DoorOutcome}
use ecom_platform.Orders.Trail.{manual_transition_inverts}
use ecom_platform.Checkout.{Shop, CheckoutSettings, GatewayEvent, edit_order}
use ecom_platform.Checkout.Webhook.{GatewayEventType, confirm_from_webhook_event}
use ecom_platform.Checkout.Start.{start_payment}
use ecom_platform.Checkout.Closing.{ExpiryOutcome, expire_checkout, confirm_cod_order, cancel_order}
use ecom_platform.Checkout.Growth.{Grows, Grows-trans, same-Grows, same_books-Grows, is_sold}
use ecom_platform.Checkout.Moves.{edit_order-Grows, after_move-Grows}
use ecom_platform.Checkout.Safety.{IsSafe, Grows-IsSafe}
use ecom_platform.Checkout.Money.{none_lost}
use ecom_platform.Checkout.Events.{confirm_from_webhook_event-IsSafe}
use ecom_platform.Checkout.Closings.{expire_checkout-Grows, confirm_cod_order-Grows}
use ecom_platform.Checkout.Cancelling.{cancel_order-IsSafe}
use ecom_platform.Checkout.Starting.{start_payment-IsSafe}

-- The times and the settings are those of each call.
pub data ShopCall : Type 0 where
  start : (id ref : ℕ) → ShopCall
  webhook : CheckoutSettings → GatewayEventType → GatewayEvent → ShopCall
  place_cod : CheckoutSettings → ℕ → ShopCall
  expire : ℕ → ShopCall
  cancel : ℕ → Option ℕ → ShopCall
  by_hand : ℕ → OrderStatus → ShopCall

abbrev after_pair {ℓ} : {A : Type ℓ} → Shop → Result (A × Shop) → Shop
after_pair s (ok done) = done.1
after_pair s (err code) = s

abbrev after_shop : Shop → Result Shop → Shop
after_shop s (ok s') = s'
after_shop s (err code) = s

abbrev after_tables : Shop → Result (OrderEvent × Tables) → Shop
after_tables s (ok done) = record s { tables = done.1 }
after_tables s (err code) = s

abbrev pub perform : ℕ → ShopCall → Shop → Shop
perform now (start id ref) s = after_pair s (start_payment now id ref s)
perform now (webhook settings type ev) s = confirm_from_webhook_event now settings type ev s
perform now (place_cod settings id) s = (confirm_cod_order now settings id s).0
perform now (expire id) s = after_pair s (expire_checkout now id s)
perform now (cancel id reason) s = after_shop s (cancel_order now id reason s)
perform now (by_hand id to) s = after_tables s (manual_transition now id to s.tables)

abbrev pub run : List (ℕ × ShopCall) → Shop → Shop
run [] s = s
run (c ∷ cs) s = run cs (perform c.0 c.1 s)

-- Staff move an order between states in which it is sold.
manual_sold :
    (to : OrderStatus) (name : OrderEventName)
    → manual_event_by_target to ≡ some name
    → is_sold to ≡ true
manual_sold processing name h = refl
manual_sold ready_to_ship name h = refl
manual_sold shipped name h = refl
manual_sold out_for_delivery name h = refl
manual_sold delivered name h = refl
manual_sold pending_payment name h = absurd (cc)
manual_sold confirmed name h = refl
manual_sold rto_initiated name h = refl
manual_sold rto_delivered name h = refl
manual_sold return_requested name h = refl
manual_sold return_picked name h = refl
manual_sold refunded name h = refl
manual_sold cancelled name h = absurd (cc)
manual_sold abandoned name h = absurd (cc)

collect-Grows :
    (now id : ℕ) (s : Shop) → Grows none_lost s (record s { tables = collect now id s.tables })
unfolding edit_order collect
collect-Grows now id s = elim (Option-cases (s.tables.order id)) [
  | inl missing ↦ same-Grows none_lost s _ (rw (missing, collect) refl)
  | inr (r, found) ↦
      let edited =
        edit_order-Grows none_lost id (settled now) s (λ x. refl) (λ x. refl)
          (λ x w. ground (arith, w)) in
      rw (found, collect) (rw (found) at edited)
]

conclude-Grows :
    (now id : ℕ) (r : OrderRow) (to : OrderStatus) (s : Shop)
    → Grows none_lost s (record s { tables = conclude now id r to s.tables })
unfolding conclude
conclude-Grows now id r to s = elim (Bool-cases (collects_cod r to)) [
  | inr e ↦ rw e (same_books-Grows none_lost s _ refl refl refl refl (omega arith))
  | inl e ↦
      let collected = record s { tables = collect now id s.tables } in
      rw e (
        Grows-trans none_lost s collected _ (collect-Grows now id s)
          (same_books-Grows none_lost collected _ refl refl refl refl (omega arith)))
]

manual_transition-Grows :
    (now id : ℕ) (to : OrderStatus) (s : Shop) (t : Tables) (e : OrderEvent)
    → manual_transition now id to s.tables ≡ ok (e, t)
    → Grows none_lost s (record s { tables = t })
unfolding move_by_staff
manual_transition-Grows now id to s t e h =
    let (r, name, _, named, _, moved) = manual_transition_inverts now id to s.tables t e h in
    let collected =
      if collects_cod r to then some (r.total_paise - r.amount_paid_paise) else none in
    let (done, f, g) =
      bound_value (transition_order now id r.status to name staff collected s.tables) _ moved in
    elim (transition_order-DoorOutcome now id r.status to name staff collected s.tables) [
      | inl (_, bad) ↦ absurd (ok-ne-err (sym bad ∙ f))
      | inr (inl (_, _, bad)) ↦ absurd (ok-ne-err (sym bad ∙ f))
      | inr (inr (_, (row, found, _, made))) ↦
          let step : Grows none_lost s (record s { tables = done.1 }) =
            rw (ok_second (sym made ∙ f)) at (
              after_move-Grows none_lost now id to
                (event_row now id r.status to name staff collected) row s found
                (λ _ _. manual_sold to name named)) in
          rw (sym (ok_second g)) (
            Grows-trans none_lost s (record s { tables = done.1 }) _ step
              (conclude-Grows now id r to (record s { tables = done.1 })))
    ]

-- One call, whether it succeeds or throws.
pub perform-IsSafe : (now : ℕ) (c : ShopCall) (s : Shop) → IsSafe s → IsSafe (perform now c s)
perform-IsSafe now (start id ref) s v = by_result (start_payment now id ref s) refl
  where
    by_result :
        (done : Result (ℕ × Shop)) → start_payment now id ref s ≡ done → IsSafe (after_pair s done)
    by_result (ok (kept, s')) e = start_payment-IsSafe now id ref s s' kept v e
    by_result (err code) e = v
perform-IsSafe now (webhook settings type ev) s v =
    confirm_from_webhook_event-IsSafe now settings type ev s v
perform-IsSafe now (place_cod settings id) s v =
    Grows-IsSafe s _ (confirm_cod_order-Grows now settings id s) v
perform-IsSafe now (expire id) s v = by_result (expire_checkout now id s) refl
  where
    by_result :
        (done : Result (ExpiryOutcome × Shop))
        → expire_checkout now id s ≡ done
        → IsSafe (after_pair s done)
    by_result (ok (kind, s')) e = Grows-IsSafe s s' (expire_checkout-Grows now id s s' kind e) v
    by_result (err code) e = v
perform-IsSafe now (cancel id reason) s v = by_result (cancel_order now id reason s) refl
  where
    by_result :
        (done : Result Shop) → cancel_order now id reason s ≡ done → IsSafe (after_shop s done)
    by_result (ok s') e = cancel_order-IsSafe now id reason s s' v e
    by_result (err code) e = v
perform-IsSafe now (by_hand id to) s v = by_result (manual_transition now id to s.tables) refl
  where
    by_result :
        (done : Result (OrderEvent × Tables))
        → manual_transition now id to s.tables ≡ done
        → IsSafe (after_tables s done)
    by_result (ok (e, t)) q = Grows-IsSafe s _ (manual_transition-Grows now id to s t e q) v
    by_result (err code) q = v

-- Whatever sequence of payment-starts, gateway events of any type in any order and any number of
-- times, cash-on-delivery confirmations, expiries, console cancellations and manual transitions is
-- run, succeed or throw: a safe shop stays safe. So every payment that was captured belongs to an
-- order that says it was paid for, and that order is sold, or the payment has its refund intent; no
-- order has two payments.
pub run-IsSafe : (calls : List (ℕ × ShopCall)) (s : Shop) → IsSafe s → IsSafe (run calls s)
run-IsSafe [] s v = v
run-IsSafe (c ∷ cs) s v = run-IsSafe cs (perform c.0 c.1 s) (perform-IsSafe c.0 c.1 s v)
