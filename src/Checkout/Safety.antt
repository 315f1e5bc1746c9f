-- ===== src/Checkout/Safety.antt =====
-- Money: every payment that was captured stands for goods that are sold, or has its refund intent.
use ecom_platform.Base.{
  ℕ, ◌<◌, ◌≡◌, ◌≢◌, refl, sym, ◌∙◌, ◌⊎◌, inl, inr, true, false, some, ltb, All, All-map, IsOrdered,
  arith, find_first-apart, find_first-passes, find_first-All,
}
use ecom_platform.Orders.{OrderRow}
use ecom_platform.Payments.Records.{PaymentRow, is_captured}
use ecom_platform.Checkout.{Shop}
use ecom_platform.Checkout.Webhook.{find_payment_by_gateway_order}
use ecom_platform.Checkout.Growth.{Grows, row_sold, row_paid, row_charged, ref_at, is_refunded}

-- No two rows of `payments` share an id or an order.
abbrev pub Apart : PaymentRow → PaymentRow → Type 0
Apart p q = (p.id ≢ q.id) × (p.order_id ≢ q.order_id)

abbrev pub IsFiled : Shop → PaymentRow → Type 0
IsFiled s p =
    (ref_at p.order_id s.details ≡ some p.gateway_order_id)
    × (0 < p.amount_paise)
    × (p.id < s.next_id)
    × (row_charged (s.tables.order p.order_id) ≡ true)

-- The order says that it was paid for, and is sold unless the payment is being refunded.
abbrev pub IsSettled : Shop → PaymentRow → Type 0
IsSettled s p =
    is_captured p.status ≡ true
    → (row_paid (s.tables.order p.order_id) ≡ true)
      × ((row_sold (s.tables.order p.order_id) ≡ true) ⊎ (is_refunded p.id s.refunds ≡ true))

abbrev pub IsSafe : Shop → Type 0
IsSafe s = IsOrdered Apart s.payments × All (λ p. IsFiled s p × IsSettled s p) s.payments

abbrev pub IsOne : ℕ → ℕ → PaymentRow → Type 0
IsOne x o p = (p.id ≡ x) × (p.order_id ≡ o)

-- Within a transaction, one payment may not be settled yet.
abbrev pub IsSafeBut : ℕ → ℕ → Shop → Type 0
IsSafeBut x o s =
    IsOrdered Apart s.payments × All (λ p. IsFiled s p × (IsOne x o p ⊎ IsSettled s p)) s.payments

pub Apart-sym : (p q : PaymentRow) → Apart p q → Apart q p
Apart-sym p q h = (λ e. h.0 (sym e), λ e. h.1 (sym e))

module _ (s s' : Shop) (g : Grows (λ j. false) s s') where
  Grows-IsFiled : (p : PaymentRow) → IsFiled s p → IsFiled s' p
  Grows-IsFiled p f =
      (g.refs p.order_id ∙ f.0, f.1, omega (arith, f.2, g.ids), g.charged p.order_id f.3)

  Grows-IsSettled : (p : PaymentRow) → IsSettled s p → IsSettled s' p
  Grows-IsSettled p v e =
      let (paid, cover) = v e in
      (
        g.paid p.order_id paid,
        elim cover [
          | inl sold ↦ inl (g.sold p.order_id refl sold)
          | inr refunded ↦ inr (g.refunds p.id refunded)
        ],
      )

  pub Grows-IsSafe : IsSafe s → IsSafe s'
  Grows-IsSafe v =
      rw g.payments
        (v.0, All-map (λ p w. (Grows-IsFiled p w.0, Grows-IsSettled p w.1)) s.payments v.1)

  pub Grows-IsSafeBut : (x o : ℕ) → IsSafeBut x o s → IsSafeBut x o s'
  Grows-IsSafeBut x o v = rw g.payments (
    v.0,
    All-map
        (λ p w. (
          Grows-IsFiled p w.0,
          elim w.1 [ inl one ↦ inl one | inr settled ↦ inr (Grows-IsSettled p settled) ],
        ))
        s.payments v.1,
  )

-- What makes the payment settled again.
pub settle-IsSafe :
    (x o : ℕ) (s : Shop)
    → IsSafeBut x o s
    → row_paid (s.tables.order o) ≡ true
    → (row_sold (s.tables.order o) ≡ true) ⊎ (is_refunded x s.refunds ≡ true)
    → IsSafe s
settle-IsSafe x o s v paid cover = (
  v.0,
  All-map (λ p w. (w.0, elim w.1 [ inl one ↦ at_one p one | inr settled ↦ settled ])) s.payments
      v.1,
)
  where
    at_one : (p : PaymentRow) → IsOne x o p → IsSettled s p
    at_one p one e = rw (one.0, one.1) (paid, cover)

-- The row that the gateway's order leads to is the only one with its id.
module _ (s : Shop) (o ref : ℕ) (p : PaymentRow) (v : IsSafe s)
    (found : find_payment_by_gateway_order o ref s.payments ≡ some p) where
  pub found_order : p.order_id ≡ o
  unfolding find_payment_by_gateway_order
  found_order = let test = find_first-passes _ s.payments p found in ground (arith, test)

  pub found-Apart : All (λ q. (q ≡ p) ⊎ Apart p q) s.payments
  unfolding find_payment_by_gateway_order
  found-Apart = find_first-apart Apart _ s.payments p Apart-sym v.0 found

  pub found-IsFiled : IsFiled s p
  unfolding find_payment_by_gateway_order
  found-IsFiled = (find_first-All _ _ s.payments p found v.1).0

  pub found-IsSettled : IsSettled s p
  unfolding find_payment_by_gateway_order
  found-IsSettled = (find_first-All _ _ s.payments p found v.1).1

  -- The order's row, which is there, was charged.
  pub found_charged : (r : OrderRow) → s.tables.order o ≡ some r → ltb 0 r.total_paise ≡ true
  found_charged r row = rw (found_order, row) at (found-IsFiled.3)
