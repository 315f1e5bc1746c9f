-- ===== src/Checkout/Moves.antt =====
-- The updates of an order's row, and its moves, grow the books.
use ecom_platform.Base.{
  ℕ, ◌≡◌, refl, sym, ap, ◌∙◌, inl, inr, Bool, true, false, Option, none, some, List, [], ◌∷◌, ◌==◌,
  arith, Bool-cases, ok-ne-err, ok, ok-injective, ok_second, bound_value, ==_iff, find_first,
  update_where,
}
use ecom_platform.Orders.{
  OrderStatus, OrderRow, OrderEvent, OrderEventName, ActorType, Tables, can_transition, event_row,
  moved, put, transition_order,
}
use ecom_platform.Orders.Door.{after_move, transition_order-DoorOutcome}
use ecom_platform.Checkout.{
  Shop, OrderDetails, CancelReason, is_order, has_ref, edit_row, edit_order, set_cancel_reason,
}
use ecom_platform.Checkout.Confirm.{move_to}
use ecom_platform.Checkout.Growth.{Grows, is_sold, row_sold, row_paid, row_charged, ref_at, id_of}

module _ (loses : ℕ → Bool) where
  edit_row_paid :
      (id : ℕ) (f : OrderRow → OrderRow) (t : Tables)
      → ((r : OrderRow) → row_paid (some r) ≡ true → row_paid (some (f r)) ≡ true)
      → (o : Option OrderRow) → t.order id ≡ o
      → (j : ℕ) → row_paid (t.order j) ≡ true
      → row_paid ((edit_row id f o t).order j) ≡ true
  edit_row_paid id f t more none e j v = v
  edit_row_paid id f t more (some r) e j v = elim (Bool-cases (id == j)) [
    | inr off ↦ rw off v
    | inl on ↦ let same : id ≡ j = (==_iff id j).0 on in rw on (more r (rw (sym same, e) at v))
  ]

  edit_row_charged :
      (id : ℕ) (f : OrderRow → OrderRow) (t : Tables)
      → ((r : OrderRow) → (f r).total_paise ≡ r.total_paise)
      → (o : Option OrderRow) → t.order id ≡ o
      → (j : ℕ) → row_charged (t.order j) ≡ true
      → row_charged ((edit_row id f o t).order j) ≡ true
  edit_row_charged id f t same_total none e j v = v
  edit_row_charged id f t same_total (some r) e j v = elim (Bool-cases (id == j)) [
    | inr off ↦ rw off v
    | inl on ↦
        let same : id ≡ j = (==_iff id j).0 on in rw (on, same_total r) (rw (sym same, e) at v)
  ]

  edit_row_sold :
      (id : ℕ) (f : OrderRow → OrderRow) (t : Tables)
      → ((r : OrderRow) → (f r).status ≡ r.status)
      → (o : Option OrderRow) → t.order id ≡ o
      → (j : ℕ) → row_sold (t.order j) ≡ true
      → row_sold ((edit_row id f o t).order j) ≡ true
  edit_row_sold id f t same_state none e j v = v
  edit_row_sold id f t same_state (some r) e j v = elim (Bool-cases (id == j)) [
    | inr off ↦ rw off v
    | inl on ↦
        let same : id ≡ j = (==_iff id j).0 on in rw (on, same_state r) (rw (sym same, e) at v)
  ]

  -- An UPDATE that keeps the status and the total, and takes no payment away.
  pub edit_order-Grows :
      (id : ℕ) (f : OrderRow → OrderRow) (s : Shop)
      → ((r : OrderRow) → (f r).status ≡ r.status)
      → ((r : OrderRow) → (f r).total_paise ≡ r.total_paise)
      → ((r : OrderRow) → row_paid (some r) ≡ true → row_paid (some (f r)) ≡ true)
      → Grows loses s (edit_order id f s)
  unfolding edit_order
  edit_order-Grows id f s same_state same_total more = record {
    payments = refl;
    refunds = λ p v. v;
    refs = λ j. refl;
    lookups = λ ref. refl;
    ids = omega arith;
    sold = λ j e v. edit_row_sold id f s.tables same_state (s.tables.order id) refl j v;
    paid = λ j v. edit_row_paid id f s.tables more (s.tables.order id) refl j v;
    charged = λ j v. edit_row_charged id f s.tables same_total (s.tables.order id) refl j v;
  }

  ref_at-update_where :
      (j : ℕ) (test : OrderDetails → Bool) (f : OrderDetails → OrderDetails)
      → ((d : OrderDetails) → (f d).id ≡ d.id)
      → ((d : OrderDetails) → (f d).gateway_order_ref ≡ d.gateway_order_ref)
      → (ds : List OrderDetails) → ref_at j (update_where test f ds) ≡ ref_at j ds
  ref_at-update_where j test f ids refs [] = refl
  ref_at-update_where j test f ids refs (d ∷ ds) = elim (Bool-cases (test d)) [
    | inr e ↦ elim (Bool-cases (is_order j d)) [
      | inl here ↦ rw (e, here) refl
      | inr away ↦ rw (e, away) (ref_at-update_where j test f ids refs ds)
    ]
    | inl e ↦ elim (Bool-cases (is_order j d)) [
      | inl here ↦ rw (e, ids d, here) (refs d)
      | inr away ↦ rw (e, ids d, away) (ref_at-update_where j test f ids refs ds)
    ]
  ]

  lookup-update_where :
      (ref : ℕ) (test : OrderDetails → Bool) (f : OrderDetails → OrderDetails)
      → ((d : OrderDetails) → (f d).id ≡ d.id)
      → ((d : OrderDetails) → (f d).gateway_order_ref ≡ d.gateway_order_ref)
      → (ds : List OrderDetails)
      → id_of (find_first (has_ref ref) (update_where test f ds))
        ≡ id_of (find_first (has_ref ref) ds)
  lookup-update_where ref test f ids refs [] = refl
  lookup-update_where ref test f ids refs (d ∷ ds) = elim (Bool-cases (test d)) [
    | inr e ↦ elim (Bool-cases (has_ref ref d)) [
      | inl here ↦ rw (e, here) refl
      | inr away ↦ rw (e, away) (lookup-update_where ref test f ids refs ds)
    ]
    | inl e ↦ elim (Bool-cases (has_ref ref d)) [
      | inl here ↦ rw (e, refs d, here) (ap some (ids d))
      | inr away ↦ rw (e, refs d, away) (lookup-update_where ref test f ids refs ds)
    ]
  ]

  pub set_cancel_reason-Grows :
      (id : ℕ) (reason : CancelReason) (s : Shop) → Grows loses s (set_cancel_reason id reason s)
  set_cancel_reason-Grows id reason s = record {
    payments = refl;
    refunds = λ p v. v;
    refs = λ j. ref_at-update_where j (is_order id) _ (λ d. refl) (λ d. refl) s.details;
    lookups = λ ref. lookup-update_where ref (is_order id) _ (λ d. refl) (λ d. refl) s.details;
    ids = omega arith;
    sold = λ j e v. v;
    paid = λ j v. v;
    charged = λ j v. v;
  }

-- What a move that returned has gone through.
pub move_to_inverts :
    (now id : ℕ) (from to : OrderStatus) (name : OrderEventName) (actor : ActorType) (s s' : Shop)
    → move_to now id from to name actor s ≡ ok s'
    → (r : OrderRow) × (s.tables.order id ≡ some r)
      × (r.status ≡ from)
      × (can_transition from to ≡ true)
      × (s' ≡ record s {
        tables = after_move now id to (event_row now id from to name actor none) r s.tables;
      })
unfolding move_to
move_to_inverts now id from to name actor s s' h =
    let (done, f, g) = bound_value (transition_order now id from to name actor none s.tables) _ h in
    elim (transition_order-DoorOutcome now id from to name actor none s.tables) [
      | inl (_, bad) ↦ absurd (ok-ne-err (sym bad ∙ f))
      | inr (inl (_, _, bad)) ↦ absurd (ok-ne-err (sym bad ∙ f))
      | inr (inr (legal, (r, found, here, made))) ↦ (
        r,
        found,
        here,
        legal,
        sym (ok-injective g) ∙ ap (λ t. record s { tables = t }) (ok_second (sym f ∙ made)),
      )
    ]

module _ (loses : ℕ → Bool) where
  -- The tables after a move: no order but the one that moved can stop being sold, and that one only
  -- where the target says so.
  pub after_move-Grows :
      (now id : ℕ) (to : OrderStatus) (e : OrderEvent) (r : OrderRow) (s : Shop)
      → s.tables.order id ≡ some r
      → (loses id ≡ false → is_sold r.status ≡ true → is_sold to ≡ true)
      → Grows loses s (record s { tables = after_move now id to e r s.tables })
  unfolding moved
  after_move-Grows now id to e r s found kept = record {
    payments = refl;
    refunds = λ p v. v;
    refs = λ j. refl;
    lookups = λ ref. refl;
    ids = omega arith;
    sold = moved_sold;
    paid = moved_paid;
    charged = moved_charged;
  }
    where
      moved_sold :
          (j : ℕ)
          → loses j ≡ false
          → row_sold (s.tables.order j) ≡ true
          → row_sold (put id (moved now to r) s.tables.order j) ≡ true
      moved_sold j e v = elim (Bool-cases (id == j)) [
        | inr off ↦ rw off v
        | inl on ↦
            let same : id ≡ j = (==_iff id j).0 on in
            rw on (kept (rw (sym same) at e) (rw (sym same, found) at v))
      ]

      moved_paid :
          (j : ℕ)
          → row_paid (s.tables.order j) ≡ true
          → row_paid (put id (moved now to r) s.tables.order j) ≡ true
      moved_paid j v = elim (Bool-cases (id == j)) [
        | inr off ↦ rw off v
        | inl on ↦ let same : id ≡ j = (==_iff id j).0 on in rw on (rw (sym same, found) at v)
      ]

      moved_charged :
          (j : ℕ)
          → row_charged (s.tables.order j) ≡ true
          → row_charged (put id (moved now to r) s.tables.order j) ≡ true
      moved_charged j v = elim (Bool-cases (id == j)) [
        | inr off ↦ rw off v
        | inl on ↦ let same : id ≡ j = (==_iff id j).0 on in rw on (rw (sym same, found) at v)
      ]

  -- A move that returned.
  pub move_to-Grows :
      (now id : ℕ) (from to : OrderStatus) (name : OrderEventName) (actor : ActorType) (s s' : Shop)
      → (loses id ≡ false → is_sold from ≡ true → is_sold to ≡ true)
      → move_to now id from to name actor s ≡ ok s'
      → Grows loses s s'
  move_to-Grows now id from to name actor s s' kept h =
      let (r, found, here, _, made) = move_to_inverts now id from to name actor s s' h in
      rw made (after_move-Grows now id to _ r s found (λ e w. kept e (rw here at w)))
