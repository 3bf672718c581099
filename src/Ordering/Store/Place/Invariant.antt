-- ===== src/Ordering/Store/Place/Invariant.antt =====
-- Placing an order keeps the tables well formed.
use b46_ordering_app_backend.Base.{
  ◌≡◌, inl, inr, refl, sym, subst, String, Bool, true, false, ◌||◌, none, List, ◌++◌, arith, eq_iff,
  ◌=s=◌, Bool-cases, find_first, map,
}
use b46_ordering_app_backend.Base.Keys.{
  Absent, Distinct-snoc, Absent-find_first, find_key-snoc, find_key-Absent,
}
use b46_ordering_app_backend.Ordering.Domain.{OrderDraft}
use b46_ordering_app_backend.Ordering.Store.Tables.{Db, Env}
use b46_ordering_app_backend.Ordering.Store.WellFormed.{
  IsWellFormed, ShapeAt, fulfillment_of_order, order_of,
}
use b46_ordering_app_backend.Ordering.Store.Place.{
  order_collides, operation_collides, outbox_collides, placed, place_order, has, order_row_of,
  operation_row_of, outbox_row_of, line_row_of,
}
use b46_ordering_app_backend.Ordering.Store.Place.Outcome.{IsPlaced, place_order-Leaves}

no_row {ℓ} : {A : Type ℓ} (p : A → Bool) (xs : List A) → has p xs ≡ false → find_first p xs ≡ none
no_row p xs h = ground arith

or_left : (a b : Bool) → a ≡ true → (a || b) ≡ true
or_left a b h = ground arith

or_right : (a b : Bool) → b ≡ true → (a || b) ≡ true
or_right a b h = ground arith

no_fulfillment :
    (db : Db) (id : String)
    → ShapeAt db id
    → order_of id db ≡ none
    → fulfillment_of_order id db ≡ none
no_fulfillment db id s h = ground arith

module _ (draft : OrderDraft) (db : Db) where
  pub new_order_id : order_collides draft db ≡ false → Absent (λ o. o.id) draft.order.id db.orders
  unfolding order_collides
  new_order_id h =
      Absent-find_first (λ o. o.id) draft.order.id _
        (λ o e. or_left _ _ ((eq_iff o.id draft.order.id).1 e)) db.orders (no_row _ db.orders h)

  pub new_checkout_id :
      order_collides draft db ≡ false
      → Absent (λ o. o.checkout_id) draft.order.checkout_id db.orders
  unfolding order_collides
  new_checkout_id h =
      Absent-find_first (λ o. o.checkout_id) draft.order.checkout_id _
        (λ o e. or_right _ _ ((eq_iff o.checkout_id draft.order.checkout_id).1 e)) db.orders
        (no_row _ db.orders h)

  new_operation_id :
      operation_collides draft db ≡ false
      → Absent (λ r. r.operation_id) draft.operation_id db.operations
  unfolding operation_collides
  new_operation_id h =
      Absent-find_first (λ r. r.operation_id) draft.operation_id _
        (λ r e. or_left _ _ ((eq_iff r.operation_id draft.operation_id).1 e)) db.operations
        (no_row _ db.operations h)

  new_operation_order :
      operation_collides draft db ≡ false → Absent (λ r. r.order_id) draft.order.id db.operations
  unfolding operation_collides
  new_operation_order h =
      Absent-find_first (λ r. r.order_id) draft.order.id _
        (λ r e. or_right _ _ ((eq_iff r.order_id draft.order.id).1 e)) db.operations
        (no_row _ db.operations h)

  new_event_id :
      outbox_collides draft db ≡ false → Absent (λ r. r.event_id) draft.event_id db.outbox
  unfolding outbox_collides
  new_event_id h =
      Absent-find_first (λ r. r.event_id) draft.event_id _
        (λ r e. or_left _ _ (or_left _ _ ((eq_iff r.event_id draft.event_id).1 e))) db.outbox
        (no_row _ db.outbox h)

  new_box_operation :
      outbox_collides draft db ≡ false → Absent (λ r. r.operation_id) draft.operation_id db.outbox
  unfolding outbox_collides
  new_box_operation h =
      Absent-find_first (λ r. r.operation_id) draft.operation_id _
        (λ r e. or_left _ _ (or_right _ _ ((eq_iff r.operation_id draft.operation_id).1 e)))
        db.outbox (no_row _ db.outbox h)

  new_box_order :
      outbox_collides draft db ≡ false → Absent (λ r. r.order_id) draft.order.id db.outbox
  unfolding outbox_collides
  new_box_order h =
      Absent-find_first (λ r. r.order_id) draft.order.id _
        (λ r e. or_right _ _ ((eq_iff r.order_id draft.order.id).1 e)) db.outbox
        (no_row _ db.outbox h)

  placed-ShapeAt :
      (db' : Db) (id : String)
      → order_collides draft db ≡ false
      → operation_collides draft db ≡ false
      → outbox_collides draft db ≡ false
      → db' ≡ placed draft (db.lines ++ map (line_row_of draft) draft.order.lines) db
      → ShapeAt db id
      → ShapeAt db' id
  placed-ShapeAt db' id h1 h2 h3 e s = rw e (
      rw
        (
          find_key-snoc (λ o. o.id) id db.orders (order_row_of draft) (new_order_id h1),
          find_key-snoc (λ r. r.order_id) id db.operations (operation_row_of draft)
              (new_operation_order h2),
          find_key-snoc (λ r. r.order_id) id db.outbox (outbox_row_of draft) (new_box_order h3),
        )
        (elim (Bool-cases (draft.order.id =s= id)) [
          | inr other ↦ rw other s
          | inl same ↦ rw same (
            no_fulfillment db id s (
                find_key-Absent (λ o. o.id) id db.orders
                  (subst (λ k. Absent (λ o. o.id) k db.orders) ((eq_iff draft.order.id id).0 same)
                    (new_order_id h1))),
            (refl, refl, refl),
            refl,
          )
        ]))

  -- A placed order keeps the tables well formed.
  pub IsPlaced-IsWellFormed :
      (db' : Db) → IsPlaced draft db db' → IsWellFormed db → IsWellFormed db'
  IsPlaced-IsWellFormed db' (h1, h2, h3, e) w = subst IsWellFormed (sym e) (record {
    order_ids =
        Distinct-snoc (λ o. o.id) db.orders (order_row_of draft) w.order_ids (new_order_id h1);
    checkout_ids =
        Distinct-snoc (λ o. o.checkout_id) db.orders (order_row_of draft) w.checkout_ids
          (new_checkout_id h1);
    fulfillment_ids = w.fulfillment_ids;
    operation_ids =
        Distinct-snoc (λ r. r.operation_id) db.operations (operation_row_of draft) w.operation_ids
          (new_operation_id h2);
    operation_orders =
        Distinct-snoc (λ r. r.order_id) db.operations (operation_row_of draft) w.operation_orders
          (new_operation_order h2);
    event_ids =
        Distinct-snoc (λ r. r.event_id) db.outbox (outbox_row_of draft) w.event_ids
          (new_event_id h3);
    box_operations =
        Distinct-snoc (λ r. r.operation_id) db.outbox (outbox_row_of draft) w.box_operations
          (new_box_operation h3);
    box_orders =
        Distinct-snoc (λ r. r.order_id) db.outbox (outbox_row_of draft) w.box_orders
          (new_box_order h3);
    shapes = λ id. placed-ShapeAt _ id h1 h2 h3 refl (w.shapes id);
  })

-- Whatever the environment does, PlaceOrder keeps the tables well formed, when they were before
-- and the other transactions leave them so: in particular no two orders share a checkout, also
-- when another transaction places the same one in between.
pub place_order-IsWellFormed :
    (env again : Env) (between : Db → Db) (draft : OrderDraft) (db : Db)
    → IsWellFormed db
    → IsWellFormed (between db)
    → IsWellFormed (place_order env again between draft db).1
place_order-IsWellFormed env again between draft db w w' =
    elim (place_order-Leaves env again between draft db) [
      | inl same ↦ subst IsWellFormed (sym same) w
      | inr (inl other) ↦ subst IsWellFormed (sym other) w'
      | inr (inr new) ↦ IsPlaced-IsWellFormed draft (between db) _ new w'
    ]
