-- ===== src/Ordering/Store/Outbox/Invariant.antt =====
-- Applying an inventory result keeps the tables well formed.
use b46_ordering_app_backend.Base.{
  ◌≡◌, inl, inr, refl, sym, ◌∙◌, ap, subst, String, Bool, true, false, ◌&&◌, none, some, arith,
  eq_iff, eq_refl, ◌=s=◌, Bool-cases, update_where, if◌then◌else◌,
}
use b46_ordering_app_backend.Base.Keys.{
  apart, Absent, Distinct-snoc, Distinct-update, Absent-find_key, find_key-snoc, find_key-update,
  find_key_sound, find_key, same_row, changed, changed_none,
}
use b46_ordering_app_backend.Ordering.Domain.{
  Time, confirmed, rejected, rejection_items_unavailable, InventoryResult, InventoryResultStatus,
  ClaimedInventoryWork, inventory_committed, inventory_items_unavailable, other_result,
}
use b46_ordering_app_backend.Ordering.Store.Tables.{
  Db, Env, OrderRow, OperationRow, OutboxRow, is_null,
}
use b46_ordering_app_backend.Ordering.Store.Load.{is_submitted}
use b46_ordering_app_backend.Ordering.Store.WellFormed.{
  IsWellFormed, Shape, ShapeAt, order_of, operation_of_order, box_of_order, fulfillment_of_order,
}
use b46_ordering_app_backend.Ordering.Store.Outbox.{
  apply_inventory_result, holds_claim, published_row, moved_order, completed_operation,
  new_fulfillment, is_business_status,
}
use b46_ordering_app_backend.Ordering.Store.Outbox.Apply.{
  applied, with_status, apply_inventory_result-Leaves,
}
use b46_ordering_app_backend.Ordering.Store.Outbox.Target.{
  IsGenuine, Target, target, held_event, submitted-Shape,
}

module _ (env : Env) (claimed : ClaimedInventoryWork) (result : InventoryResult) (now : Time)
    (db : Db) (w : IsWellFormed db) (g : IsGenuine claimed db) (t : Target claimed result db) where
  abbrev moves : OrderRow → Bool
  moves o = o.id =s= result.order_id && is_submitted o.status

  abbrev completes : OperationRow → Bool
  completes op = op.operation_id =s= result.operation_id && is_null op.result_status

  -- No row of another order is changed.
  order_elsewhere :
      (f : OrderRow → OrderRow) (id : String)
      → (result.order_id =s= id) ≡ false
      → changed moves f (order_of id db) ≡ order_of id db
  order_elsewhere f id n = changed_none moves f (order_of id db) λ o e.
      let named = find_key_sound (λ x. x.id) id db.orders e in
      ground (arith, n, eq_iff result.order_id id, eq_iff o.id result.order_id)

  operation_elsewhere :
      (f : OperationRow → OperationRow) (id : String)
      → (result.order_id =s= id) ≡ false
      → changed completes f (operation_of_order id db) ≡ operation_of_order id db
  operation_elsewhere f id n = changed_none completes f (operation_of_order id db) λ op e.
      elim (Bool-cases (op.operation_id =s= result.operation_id)) [
        | inr other ↦ rw other
        | inl same ↦
            let named = (eq_iff op.operation_id result.operation_id).0 same in
            let one =
              same_row (λ x. x.operation_id) _ _ db.operations op t.operation w.operation_ids e
                t.operation_found (named ∙ sym t.operation_named) in
            let at =
              find_key_sound (λ x. x.order_id) result.order_id db.operations t.operation_found in
            let here = find_key_sound (λ x. x.order_id) id db.operations e in
            absurd (apart n (sym at ∙ sym (ap (λ x. x.order_id) one) ∙ here))
      ]

  box_elsewhere :
      (f : OutboxRow → OutboxRow) (id : String)
      → (result.order_id =s= id) ≡ false
      → changed (holds_claim claimed) f (box_of_order id db) ≡ box_of_order id db
  box_elsewhere f id n = changed_none (holds_claim claimed) f (box_of_order id db) λ r e.
      elim (Bool-cases (holds_claim claimed r)) [
        | inr other ↦ other
        | inl held ↦
            let one =
              same_row (λ x. x.event_id) _ _ db.outbox r t.box w.event_ids e t.box_found
                (held_event claimed r held ∙ sym (held_event claimed t.box t.box_held)) in
            let at = find_key_sound (λ x. x.order_id) result.order_id db.outbox t.box_found in
            let here = find_key_sound (λ x. x.order_id) id db.outbox e in
            absurd (apart n (sym at ∙ sym (ap (λ x. x.order_id) one) ∙ here))
      ]

  -- What each table holds for an order afterwards.
  order_after :
      (f : OrderRow → OrderRow) (id : String)
      → ((o : OrderRow) → (f o).id ≡ o.id)
      → find_key (λ o. o.id) id (update_where moves f db.orders) ≡ changed moves f (order_of id db)
  order_after f id same = find_key-update (λ o. o.id) id moves f same db.orders

  operation_after :
      (id : String)
      → find_key
          (λ op. op.order_id)
          id
          (update_where completes (completed_operation result) db.operations)
        ≡ changed completes (completed_operation result) (operation_of_order id db)
  operation_after id =
      find_key-update (λ op. op.order_id) id completes (completed_operation result) (λ op. refl)
        db.operations

  box_after :
      (id : String)
      → find_key
          (λ r. r.order_id)
          id
          (update_where (holds_claim claimed) (published_row now) db.outbox)
        ≡ changed (holds_claim claimed) (published_row now) (box_of_order id db)
  box_after id =
      find_key-update (λ r. r.order_id) id (holds_claim claimed) (published_row now) (λ r. refl)
        db.outbox

  abbrev final : InventoryResultStatus → Db
  final status = record (with_status env result status db) {
    outbox = update_where (holds_claim claimed) (published_row now) db.outbox;
  }

  old :
      (fulfillment_of_order result.order_id db ≡ none)
      × (t.operation.operation_id ≡ t.box.operation_id)
      × (t.order.rejection_code ≡ none)
  old =
      submitted-Shape t.order (fulfillment_of_order result.order_id db) t.operation t.box
        t.is_waiting
        (subst
          (λ o. Shape o (fulfillment_of_order result.order_id db) (some t.operation) (some t.box))
          t.order_found
          (subst
            (λ op.
              Shape (order_of result.order_id db) (fulfillment_of_order result.order_id db) op
                (some t.box))
            t.operation_found
            (subst
              (λ r.
                Shape (order_of result.order_id db) (fulfillment_of_order result.order_id db)
                  (operation_of_order result.order_id db) r)
              t.box_found (w.shapes result.order_id))))

  absent : Absent (λ f. f.order_id) result.order_id db.fulfillments
  absent = Absent-find_key (λ f. f.order_id) result.order_id db.fulfillments old.0

  order_here :
      (f : OrderRow → OrderRow)
      → ((o : OrderRow) → (f o).id ≡ o.id)
      → find_key (λ o. o.id) result.order_id (update_where moves f db.orders) ≡ some (f t.order)
  order_here f same =
      let named = find_key_sound (λ x. x.id) result.order_id db.orders t.order_found in
      order_after f result.order_id same
      ∙ ap (changed moves f) t.order_found
      ∙ ground (arith, t.is_waiting, (eq_iff t.order.id result.order_id).1 named)

  operation_here :
      find_key
        (λ op. op.order_id)
        result.order_id
        (update_where completes (completed_operation result) db.operations)
      ≡ some (completed_operation result t.operation)
  operation_here =
      operation_after result.order_id
      ∙ ap (changed completes (completed_operation result)) t.operation_found
      ∙ ap (λ c. some (if c then completed_operation result t.operation else t.operation))
          completing
    where
      completing : completes t.operation ≡ true
      completing = ground (
        arith,
        t.is_pending,
        (eq_iff t.operation.operation_id result.operation_id).1 t.operation_named,
      )

  box_here :
      find_key
        (λ r. r.order_id)
        result.order_id
        (update_where (holds_claim claimed) (published_row now) db.outbox)
      ≡ some (published_row now t.box)
  box_here =
      box_after result.order_id
      ∙ ap (changed (holds_claim claimed) (published_row now)) t.box_found
      ∙ ap (λ c. some (if c then published_row now t.box else t.box)) t.box_held

  -- The order that the result is about.
  shape_here :
      (status : InventoryResultStatus)
      → is_business_status status ≡ true
      → result.status ≡ status
      → ShapeAt (final status) result.order_id
  shape_here inventory_committed b s =
      rw
        (
          order_here (moved_order env confirmed none) (λ o. refl),
          operation_here,
          box_here,
          find_key-snoc (λ f. f.order_id) result.order_id db.fulfillments (new_fulfillment result)
              absent,
          eq_refl result.order_id,
        )
        ((refl, refl, (refl, refl)), (ap some s, refl, old.1), refl)
  shape_here inventory_items_unavailable b s =
      rw
        (
          order_here (moved_order env rejected (some rejection_items_unavailable)) (λ o. refl),
          operation_here,
          box_here,
        )
        (old.0, (ap some s, refl, old.1), refl)
  shape_here (other_result x) b s = cc b

  shape_elsewhere :
      (status : InventoryResultStatus) (id : String)
      → (result.order_id =s= id) ≡ false
      → ShapeAt (final status) id
  shape_elsewhere inventory_committed id n =
      rw
        (
          order_after (moved_order env confirmed none) id (λ o. refl),
          operation_after id,
          box_after id,
          order_elsewhere (moved_order env confirmed none) id n,
          operation_elsewhere (completed_operation result) id n,
          box_elsewhere (published_row now) id n,
          find_key-snoc (λ f. f.order_id) id db.fulfillments (new_fulfillment result) absent,
          n,
        )
        (w.shapes id)
  shape_elsewhere _ id n =
      rw
        (
          order_after (moved_order env rejected (some rejection_items_unavailable)) id (λ o. refl),
          operation_after id,
          box_after id,
          order_elsewhere (moved_order env rejected (some rejection_items_unavailable)) id n,
          operation_elsewhere (completed_operation result) id n,
          box_elsewhere (published_row now) id n,
        )
        (w.shapes id)

  shape_after :
      (status : InventoryResultStatus)
      → is_business_status status ≡ true
      → result.status ≡ status
      → (id : String) → ShapeAt (final status) id
  shape_after status b s id = elim (Bool-cases (result.order_id =s= id)) [
    | inl same ↦
        subst (λ k. ShapeAt (final status) k) ((eq_iff result.order_id id).0 same)
          (shape_here status b s)
    | inr other ↦ shape_elsewhere status id other
  ]

  final-IsWellFormed :
      (status : InventoryResultStatus)
      → is_business_status status ≡ true
      → result.status ≡ status
      → IsWellFormed (final status)
  final-IsWellFormed inventory_committed b s = record {
    order_ids =
        Distinct-update (λ o. o.id) moves (moved_order env confirmed none) (λ o. refl) db.orders
          w.order_ids;
    checkout_ids =
        Distinct-update (λ o. o.checkout_id) moves (moved_order env confirmed none) (λ o. refl)
          db.orders w.checkout_ids;
    fulfillment_ids =
        Distinct-snoc (λ f. f.order_id) db.fulfillments (new_fulfillment result) w.fulfillment_ids
          absent;
    operation_ids =
        Distinct-update (λ op. op.operation_id) completes (completed_operation result) (λ op. refl)
          db.operations w.operation_ids;
    operation_orders =
        Distinct-update (λ op. op.order_id) completes (completed_operation result) (λ op. refl)
          db.operations w.operation_orders;
    event_ids =
        Distinct-update (λ r. r.event_id) (holds_claim claimed) (published_row now) (λ r. refl)
          db.outbox w.event_ids;
    box_operations =
        Distinct-update (λ r. r.operation_id) (holds_claim claimed) (published_row now) (λ r. refl)
          db.outbox w.box_operations;
    box_orders =
        Distinct-update (λ r. r.order_id) (holds_claim claimed) (published_row now) (λ r. refl)
          db.outbox w.box_orders;
    shapes = shape_after inventory_committed b s;
  }
  final-IsWellFormed inventory_items_unavailable b s = record {
    order_ids =
        Distinct-update (λ o. o.id) moves
          (moved_order env rejected (some rejection_items_unavailable)) (λ o. refl) db.orders
          w.order_ids;
    checkout_ids =
        Distinct-update (λ o. o.checkout_id) moves
          (moved_order env rejected (some rejection_items_unavailable)) (λ o. refl) db.orders
          w.checkout_ids;
    fulfillment_ids = w.fulfillment_ids;
    operation_ids =
        Distinct-update (λ op. op.operation_id) completes (completed_operation result) (λ op. refl)
          db.operations w.operation_ids;
    operation_orders =
        Distinct-update (λ op. op.order_id) completes (completed_operation result) (λ op. refl)
          db.operations w.operation_orders;
    event_ids =
        Distinct-update (λ r. r.event_id) (holds_claim claimed) (published_row now) (λ r. refl)
          db.outbox w.event_ids;
    box_operations =
        Distinct-update (λ r. r.operation_id) (holds_claim claimed) (published_row now) (λ r. refl)
          db.outbox w.box_operations;
    box_orders =
        Distinct-update (λ r. r.order_id) (holds_claim claimed) (published_row now) (λ r. refl)
          db.outbox w.box_orders;
    shapes = shape_after inventory_items_unavailable b s;
  }
  final-IsWellFormed (other_result x) b s = cc b

  applied-IsWellFormed : IsWellFormed (applied env claimed result now db)
  applied-IsWellFormed =
      let f = final-IsWellFormed result.status t.is_business refl in
      record {
        order_ids = f.order_ids;
        checkout_ids = f.checkout_ids;
        fulfillment_ids = f.fulfillment_ids;
        operation_ids = f.operation_ids;
        operation_orders = f.operation_orders;
        event_ids = f.event_ids;
        box_operations = f.box_operations;
        box_orders = f.box_orders;
        shapes = f.shapes;
      }

-- Whatever the call returns, it leaves well-formed tables well formed, when the claimed work carries
-- the ids of the message it was claimed from.
pub apply_inventory_result-IsWellFormed :
    (env : Env) (claimed : ClaimedInventoryWork) (result : InventoryResult) (now : Time) (db : Db)
    → IsWellFormed db
    → IsGenuine claimed db
    → IsWellFormed ((apply_inventory_result env claimed result now db).1)
apply_inventory_result-IsWellFormed env claimed result now db w g =
    elim (apply_inventory_result-Leaves env claimed result now db) [
      | inl same ↦ subst IsWellFormed (sym same) w
      | inr (a, same) ↦
          subst IsWellFormed (sym same)
            (applied-IsWellFormed env claimed result now db w g (target claimed result db w g a))
    ]
