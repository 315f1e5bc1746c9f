-- ===== src/Checkout/Growth.antt =====
-- What the steps of a checkout leave as it was: the payments, the refunds, the orders' references, and
-- which orders are sold or paid for.
use ecom_platform.Base.{
  ℕ, ◌≤◌, ◌≡◌, refl, ap, ◌∙◌, Bool, true, false, not, ◌&&◌, ◌||◌, Option, none, some, List, any,
  ltb, arith, find_first,
}
use ecom_platform.Orders.{OrderStatus, OrderRow, pending_payment, cancelled, abandoned, same_status}
use ecom_platform.Payments.Records.{RefundRow, refunds_payment}
use ecom_platform.Checkout.{Shop, OrderDetails, is_order, has_ref}
use ecom_platform.Checkout.Start.{ref_of}

-- The goods have been promised to the buyer: the order was confirmed, and has not been cancelled.
abbrev pub is_sold : OrderStatus → Bool
is_sold st =
    not (same_status st pending_payment || same_status st cancelled || same_status st abandoned)

abbrev pub row_sold : Option OrderRow → Bool
row_sold none = false
row_sold (some r) = is_sold r.status

abbrev pub row_paid : Option OrderRow → Bool
row_paid none = false
row_paid (some r) = ltb 0 r.amount_paid_paise && ltb 0 r.total_paise

abbrev pub row_charged : Option OrderRow → Bool
row_charged none = false
row_charged (some r) = ltb 0 r.total_paise

abbrev pub ref_at : ℕ → List OrderDetails → Option ℕ
ref_at id ds = ref_of (find_first (is_order id) ds)

abbrev pub id_of : Option OrderDetails → Option ℕ
id_of none = none
id_of (some d) = some d.id

-- A refund intent has been written for the payment.
abbrev pub is_refunded : ℕ → List RefundRow → Bool
is_refunded p rs = any (refunds_payment p) rs

-- From `s` to `s'` no payment or reference changes, no refund goes, no order is less paid for, and only those
-- orders stop being sold that `loses` names.
pub record Grows (loses : ℕ → Bool) (s s' : Shop) : Type 0 where
  pub payments : s'.payments ≡ s.payments
  pub refunds : (p : ℕ) → is_refunded p s.refunds ≡ true → is_refunded p s'.refunds ≡ true
  pub refs : (j : ℕ) → ref_at j s'.details ≡ ref_at j s.details
  pub lookups :
      (ref : ℕ)
      → id_of (find_first (has_ref ref) s'.details) ≡ id_of (find_first (has_ref ref) s.details)
  pub ids : s.next_id ≤ s'.next_id
  pub sold :
      (j : ℕ)
      → loses j ≡ false
      → row_sold (s.tables.order j) ≡ true
      → row_sold (s'.tables.order j) ≡ true
  pub paid : (j : ℕ) → row_paid (s.tables.order j) ≡ true → row_paid (s'.tables.order j) ≡ true
  pub charged :
      (j : ℕ) → row_charged (s.tables.order j) ≡ true → row_charged (s'.tables.order j) ≡ true

module _ (loses : ℕ → Bool) where
  pub Grows-refl : (s : Shop) → Grows loses s s
  Grows-refl s = record {
    payments = refl;
    refunds = λ p v. v;
    refs = λ j. refl;
    lookups = λ ref. refl;
    ids = omega arith;
    sold = λ j e v. v;
    paid = λ j v. v;
    charged = λ j v. v;
  }

  pub same-Grows : (s s' : Shop) → s ≡ s' → Grows loses s s'
  same-Grows s s' e = rw e (Grows-refl s')

  pub Grows-trans : (a b c : Shop) → Grows loses a b → Grows loses b c → Grows loses a c
  Grows-trans a b c g h = record {
    payments = h.payments ∙ g.payments;
    refunds = λ p v. h.refunds p (g.refunds p v);
    refs = λ j. h.refs j ∙ g.refs j;
    lookups = λ ref. h.lookups ref ∙ g.lookups ref;
    ids = omega (arith, g.ids, h.ids);
    sold = λ j e v. h.sold j e (g.sold j e v);
    paid = λ j v. h.paid j (g.paid j v);
    charged = λ j v. h.charged j (g.charged j v);
  }

  -- A step on the other tables.
  pub same_books-Grows :
      (s s' : Shop)
      → s'.payments ≡ s.payments
      → s'.refunds ≡ s.refunds
      → s'.details ≡ s.details
      → s'.tables.order ≡ s.tables.order
      → s.next_id ≤ s'.next_id
      → Grows loses s s'
  same_books-Grows s s' ps rs ds os ids = record {
    payments = ps;
    refunds = λ p v. rw rs v;
    refs = λ j. ap (ref_at j) ds;
    lookups = λ ref. ap (λ rows. id_of (find_first (has_ref ref) rows)) ds;
    ids = ids;
    sold = λ j e v. rw os v;
    paid = λ j v. rw os v;
    charged = λ j v. rw os v;
  }
