-- ===== src/Checkout/Starting.antt =====
-- A payment-start keeps the money safe.
use ecom_platform.Base.{
  ℕ, ◌+◌, ◌<◌, ◌≡◌, ◌≢◌, refl, sym, ap, ◌∙◌, inl, inr, true, false, Option, none, some, List, [],
  ◌∷◌, IsOrdered, update_where, unique_violation, invalid_payload, ◌-◌, All, All-map, All-both,
  find_first-none, ◌==◌, ==_iff, arith, Bool-cases, ok, ok-injective, ok-ne-err, bound_value,
  past_refusal, find_first, ok_second,
}
use ecom_platform.Orders.{OrderRow}
use ecom_platform.Payments.Records.{PaymentRow}
use ecom_platform.Checkout.{Shop, OrderDetails, lock_order, whole_row, is_order}
use ecom_platform.Checkout.Webhook.{find_payment_by_gateway_order}
use ecom_platform.Checkout.Growth.{row_charged, ref_at}
use ecom_platform.Checkout.Safety.{Apart, IsSettled, IsSafe}
use ecom_platform.Checkout.Start.{
  insert_unless, ref_taken, store_ref, write_payment, keep_or_write, store_gateway_order, start_row,
  start_payment,
}
use ecom_platform.Payments.Records.{insert_payment, created_row}

abbrev with_ref : ℕ → OrderDetails → OrderDetails
with_ref ref d = record d { gateway_order_ref = some ref }

ref_at_stored :
    (id ref : ℕ) (ds : List OrderDetails) (d : OrderDetails)
    → find_first (is_order id) ds ≡ some d
    → ref_at id (update_where (is_order id) (with_ref ref) ds) ≡ some ref
ref_at_stored id ref [] d h = absurd (cc)
ref_at_stored id ref (x ∷ xs) d h = elim (Bool-cases (is_order id x)) [
  | inl here ↦ rw (here, here) refl
  | inr away ↦ rw (away, away) (ref_at_stored id ref xs d (rw away at h))
]

ref_at_elsewhere :
    (id ref j : ℕ) (ds : List OrderDetails)
    → j ≢ id
    → ref_at j (update_where (is_order id) (with_ref ref) ds) ≡ ref_at j ds
ref_at_elsewhere id ref j [] apart = refl
ref_at_elsewhere id ref j (x ∷ xs) apart = elim (Bool-cases (is_order id x)) [
  | inl here ↦ elim (Bool-cases (is_order j x)) [
    | inl both ↦ absurd (apart (sym ((==_iff x.id j).0 both) ∙ (==_iff x.id id).0 here))
    | inr away ↦ rw (here, away) (ref_at_elsewhere id ref j xs apart)
  ]
  | inr off ↦ elim (Bool-cases (is_order j x)) [
    | inl here ↦ rw (off, here) refl
    | inr away ↦ rw (off, away) (ref_at_elsewhere id ref j xs apart)
  ]
]

-- Before the reference `ref` of the order `id` is stored, only that order's payments may miss it.
abbrev IsFiledBut : ℕ → ℕ → Shop → PaymentRow → Type 0
IsFiledBut id ref s p =
    ((p.order_id ≡ id → p.gateway_order_id ≡ ref)
      × (p.order_id ≢ id → ref_at p.order_id s.details ≡ some p.gateway_order_id))
    × (0 < p.amount_paise)
    × (p.id < s.next_id)
    × (row_charged (s.tables.order p.order_id) ≡ true)

abbrev IsReady : ℕ → ℕ → Shop → Type 0
IsReady id ref s =
    IsOrdered Apart s.payments × All (λ p. IsFiledBut id ref s p × IsSettled s p) s.payments

store_ref-IsSafe :
    (id ref : ℕ) (d : OrderDetails) (s s' : Shop)
    → find_first (is_order id) s.details ≡ some d
    → IsReady id ref s
    → store_ref id ref s ≡ ok s'
    → IsSafe s'
store_ref-IsSafe id ref d s s' there v h =
    let (_, k) = past_refusal (ref_taken id ref s.details) unique_violation _ h in
    rw (sym (ok-injective k))
      (v.0, All-map (λ p w. ((linked p w.0.0, w.0.1, w.0.2, w.0.3), w.1)) s.payments v.1)
  where
    linked :
        (p : PaymentRow)
        → (p.order_id ≡ id → p.gateway_order_id ≡ ref)
          × (p.order_id ≢ id → ref_at p.order_id s.details ≡ some p.gateway_order_id)
        → ref_at p.order_id (update_where (is_order id) (with_ref ref) s.details)
          ≡ some p.gateway_order_id
    linked p w = elim (Bool-cases (p.order_id == id)) [
      | inl e ↦
          let same : p.order_id ≡ id = (==_iff p.order_id id).0 e in
          rw (same, w.0 same) (ref_at_stored id ref s.details d there)
      | inr e ↦
          let apart : p.order_id ≢ id = λ q. absurd (ground (arith, e, q)) in
          ref_at_elsewhere id ref p.order_id s.details apart ∙ w.1 apart
    ]

-- A new attempt for an order that has none.
insert-IsReady :
    (now id amount ref : ℕ) (s s' : Shop)
    → All (λ p. p.order_id ≢ id) s.payments
    → ((amount == 0) ≡ false → row_charged (s.tables.order id) ≡ true)
    → IsSafe s
    → insert_unless now id ref amount none s ≡ ok s'
    → IsReady id ref s' × (s'.details ≡ s.details)
unfolding insert_payment
insert-IsReady now id amount ref s s' apart charged v h =
    let (ps, f, g) = bound_value (insert_payment now s.next_id id amount ref s.payments) _ h in
    let (priced, k) = past_refusal (amount == 0) invalid_payload _ f in
    let made : s' ≡ record s {
      payments = created_row now s.next_id id amount ref ∷ s.payments;
      next_id = s.next_id + 1;
    } =
      sym (ok-injective g)
      ∙ ap (λ rows. record s { payments = rows; next_id = s.next_id + 1 }) (sym (ok-injective k)) in
    rw made (
      (
        (
          All-map (λ p w. (λ e. omega (arith, e, w.0.0.2), λ e. w.1 (sym e))) s.payments
              (All-both _ _ s.payments v.1 apart),
          v.0,
        ),
        (
          (
            (
              (λ _. refl, λ bad. absurd (bad refl)),
              ground (arith, priced),
              omega arith,
              charged priced,
            ),
            λ bad. absurd (cc),
          ),
          All-map
              (λ p w. (
                ((λ e. absurd (w.1 e), λ _. w.0.0.0), w.0.0.1, omega (arith, w.0.0.2), w.0.0.3),
                w.0.1,
              ))
              s.payments (All-both _ _ s.payments v.1 apart),
        ),
      ),
      refl,
    )

module _ (now id amount ref : ℕ) (d : OrderDetails) (s : Shop)
    (there : find_first (is_order id) s.details ≡ some d)
    (charged : (amount == 0) ≡ false → row_charged (s.tables.order id) ≡ true) (v : IsSafe s)
    (agreed : All (λ p. p.order_id ≡ id → p.gateway_order_id ≡ ref) s.payments) where
  attempt-IsReady :
      (o : Option PaymentRow) (s' : Shop)
      → find_payment_by_gateway_order id ref s.payments ≡ o
      → insert_unless now id ref amount o s ≡ ok s'
      → IsReady id ref s' × (s'.details ≡ s.details)
  unfolding find_payment_by_gateway_order
  attempt-IsReady (some p) s' e h = rw (sym (ok-injective h)) (
    (
      v.0,
      All-map (λ q w. (((w.1, λ _. w.0.0.0), w.0.0.1, w.0.0.2, w.0.0.3), w.0.1)) s.payments
          (All-both _ _ s.payments v.1 agreed),
    ),
    refl,
  )
  attempt-IsReady none s' e h =
      insert-IsReady now id amount ref s s'
        (All-map (λ p w q. absurd (ground (arith, w.0, w.1 q, q))) s.payments
          (All-both _ _ s.payments (find_first-none _ s.payments e) agreed))
        charged v h

  write_payment-IsSafe :
      (s' : Shop) (kept : ℕ) → write_payment now id amount ref s ≡ ok (kept, s') → IsSafe s'
  write_payment-IsSafe s' kept h =
      let found = find_payment_by_gateway_order id ref s.payments in
      let (paid, f, g) = bound_value (insert_unless now id ref amount found s) _ h in
      let (ready, same) = attempt-IsReady found paid refl f in
      let (stored, k, l) = bound_value (store_ref id ref paid) _ g in
      rw (ok_second l) at (store_ref-IsSafe id ref d paid stored (rw same there) ready k)

-- A payment-start keeps the money safe: the order gets one attempt at most, under one reference.
store_gateway_order-IsSafe :
    (now id amount ref : ℕ) (d : OrderDetails) (s s' : Shop) (kept : ℕ)
    → find_first (is_order id) s.details ≡ some d
    → ((amount == 0) ≡ false → row_charged (s.tables.order id) ≡ true)
    → IsSafe s
    → store_gateway_order now id amount ref s ≡ ok (kept, s')
    → IsSafe s'
unfolding store_gateway_order
store_gateway_order-IsSafe now id amount ref d s s' kept there charged v h =
    by_ref (ref_at id s.details) refl h
  where
    by_ref :
        (o : Option ℕ)
        → ref_at id s.details ≡ o
        → keep_or_write now id amount ref o s ≡ ok (kept, s')
        → IsSafe s'
    by_ref none e k =
        write_payment-IsSafe now id amount ref d s there charged v
          (All-map
            (λ p w q.
              let missing : some p.gateway_order_id ≡ none =
                sym w.0.0 ∙ ap (λ j. ref_at j s.details) q ∙ e in
              absurd (cc))
            s.payments v.1)
          s' kept k
    by_ref (some stored) e k = elim (Bool-cases (stored == ref)) [
      | inr other ↦ rw (ok_second (rw other at k)) at v
      | inl same ↦
          write_payment-IsSafe now id amount ref d s there charged v
            (All-map
              (λ p w q.
                let one : some p.gateway_order_id ≡ some stored =
                  sym w.0.0 ∙ ap (λ j. ref_at j s.details) q ∙ e in
                let two : stored ≡ ref = (==_iff stored ref).0 same in cc)
              s.payments v.1)
            s' kept (rw same at k)
    ]

pub start_payment-IsSafe :
    (now id ref : ℕ) (s s' : Shop) (kept : ℕ)
    → IsSafe s
    → start_payment now id ref s ≡ ok (kept, s')
    → IsSafe s'
unfolding start_payment lock_order
start_payment-IsSafe now id ref s s' kept v h =
    by_rows (s.tables.order id) refl (find_first (is_order id) s.details) refl h
  where
    by_rows :
        (o : Option OrderRow)
        → s.tables.order id ≡ o
        → (f : Option OrderDetails) → find_first (is_order id) s.details ≡ f
        → start_row now id ref (whole_row o f) s ≡ ok (kept, s')
        → IsSafe s'
    by_rows none e f k h = absurd (ok-ne-err h)
    by_rows (some r) e none k h = absurd (ok-ne-err h)
    by_rows (some r) e (some d) k h =
        store_gateway_order-IsSafe now id (r.total_paise - r.cod_due_paise) ref d s s' kept k
          (λ priced. rw e (ground (arith, priced))) v h
