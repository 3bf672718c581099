-- ===== src/Ordering/Store/Outbox/Target.antt =====
-- The rows that an inventory result is about, once Store.ApplyInventoryResult applies it.
use b46_ordering_app_backend.Base.{
  ◌≡◌, inl, inr, sym, ◌∙◌, subst, String, true, Option, none, some, arith, eq_iff, ◌=s=◌,
  Option-cases, find_first, and-eq-true,
}
use b46_ordering_app_backend.Base.Keys.{find_key, found_by_key, found_passes}
use b46_ordering_app_backend.Ordering.Domain.{InventoryResult, ClaimedInventoryWork}
use b46_ordering_app_backend.Ordering.Store.Tables.{
  Db, OrderRow, OperationRow, OutboxRow, FulfillmentRow,
}
use b46_ordering_app_backend.Ordering.Store.Load.{order_row, is_submitted}
use b46_ordering_app_backend.Ordering.Store.WellFormed.{
  IsWellFormed, Shape, order_of, operation_of_order, box_of_order,
}
use b46_ordering_app_backend.Ordering.Store.Outbox.{
  well_addressed, operation_row, claim_is_held, holds_claim, order_is_submitted, is_business_status,
}
use b46_ordering_app_backend.Ordering.Store.Outbox.Apply.{Applies}

-- The claimed work names the operation and the order of the message with its event id, as all work
-- does that was claimed from these tables.
abbrev pub IsGenuine : ClaimedInventoryWork → Db → Type 0
IsGenuine claimed db =
    (r : OutboxRow)
    → find_key (λ x. x.event_id) claimed.commit.event_id db.outbox ≡ some r
    → (r.operation_id ≡ claimed.commit.operation_id) × (r.order_id ≡ claimed.commit.order_id)

address :
    (claimed : ClaimedInventoryWork) (result : InventoryResult)
    → well_addressed claimed result ≡ true
    → (result.order_id ≡ claimed.commit.order_id) × (is_business_status result.status ≡ true)
unfolding well_addressed
address claimed result h = ground (arith, eq_iff result.order_id claimed.commit.order_id)

pub held_event :
    (claimed : ClaimedInventoryWork) (r : OutboxRow)
    → holds_claim claimed r ≡ true
    → r.event_id ≡ claimed.commit.event_id
unfolding holds_claim
held_event claimed r h = ground (arith, eq_iff r.event_id claimed.commit.event_id)

operation_fields :
    (result : InventoryResult) (db : Db) (op : OperationRow)
    → operation_row result db ≡ some op
    → (op.operation_id ≡ result.operation_id) × (op.order_id ≡ result.order_id)
unfolding operation_row
operation_fields result db op h =
    let both =
      and-eq-true (op.operation_id =s= result.operation_id) (op.order_id =s= result.order_id)
        (found_passes _ db.operations op h) in
    (
      (eq_iff op.operation_id result.operation_id).0 both.0,
      (eq_iff op.order_id result.order_id).0 both.1,
    )

operation_by_order :
    (result : InventoryResult) (db : Db) (op : OperationRow)
    → IsWellFormed db
    → operation_row result db ≡ some op
    → operation_of_order op.order_id db ≡ some op
unfolding operation_row
operation_by_order result db op w h =
    found_by_key (λ x. x.order_id) _ db.operations op w.operation_orders h

held_row :
    (claimed : ClaimedInventoryWork) (db : Db)
    → claim_is_held claimed db ≡ true
    → (r : OutboxRow) × (find_first (holds_claim claimed) db.outbox ≡ some r)
unfolding claim_is_held
held_row claimed db h = elim (Option-cases (find_first (holds_claim claimed) db.outbox)) [
  | inl e ↦ absurd (ground (arith, e))
  | inr found ↦ found
]

submitted_row :
    (id : String) (db : Db)
    → order_is_submitted id db ≡ true
    → (o : OrderRow) × (order_of id db ≡ some o) × (is_submitted o.status ≡ true)
unfolding order_row
submitted_row id db h = elim (Option-cases (order_of id db)) [
  | inl e ↦ absurd (ground (arith, e))
  | inr (o, e) ↦ (o, e, ground (arith, e))
]

-- The rows of the order that the result is about.
pub record Target (claimed : ClaimedInventoryWork) (result : InventoryResult) (db : Db)
    : Type 0 where
  pub order : OrderRow
  pub operation : OperationRow
  pub box : OutboxRow
  pub order_found : order_of result.order_id db ≡ some order
  pub is_waiting : is_submitted order.status ≡ true
  pub operation_found : operation_of_order result.order_id db ≡ some operation
  pub operation_named : operation.operation_id ≡ result.operation_id
  pub is_pending : operation.result_status ≡ none
  pub box_found : box_of_order result.order_id db ≡ some box
  pub box_held : holds_claim claimed box ≡ true
  pub is_business : is_business_status result.status ≡ true

pub target :
    (claimed : ClaimedInventoryWork) (result : InventoryResult) (db : Db)
    → IsWellFormed db
    → IsGenuine claimed db
    → Applies claimed result db
    → Target claimed result db
target claimed result db w g a =
    let (same_order, business) = address claimed result a.addressed in
    let (o, order_found, waiting) = submitted_row result.order_id db a.waiting in
    let (op_id, op_order) = operation_fields result db a.operation a.found in
    let (r, found) = held_row claimed db a.held in
    let held = found_passes (holds_claim claimed) db.outbox r found in
    let by_event =
      subst (λ k. find_key (λ x. x.event_id) k db.outbox ≡ some r) (held_event claimed r held)
        (found_by_key (λ x. x.event_id) (holds_claim claimed) db.outbox r w.event_ids found) in
    record {
      order = o;
      operation = a.operation;
      box = r;
      order_found = order_found;
      is_waiting = waiting;
      operation_found =
          subst (λ k. operation_of_order k db ≡ some a.operation) op_order
            (operation_by_order result db a.operation w a.found);
      operation_named = op_id;
      is_pending = a.pending;
      box_found =
          subst (λ k. box_of_order k db ≡ some r) ((g r by_event).1 ∙ sym same_order)
            (found_by_key (λ x. x.order_id) (holds_claim claimed) db.outbox r w.box_orders found);
      box_held = held;
      is_business = business;
    }

pub submitted-Shape :
    (o : OrderRow) (f : Option FulfillmentRow) (op : OperationRow) (r : OutboxRow)
    → is_submitted o.status ≡ true
    → Shape (some o) f (some op) (some r)
    → (f ≡ none) × (op.operation_id ≡ r.operation_id) × (o.rejection_code ≡ none)
submitted-Shape o f op r h s = ground arith
