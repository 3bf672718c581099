-- ===== src/Ordering/Store/WellFormed.antt =====
-- The invariant of the tables: unique keys, and for each order the rows that its status calls for.
use b46_ordering_app_backend.Base.{◌≡◌, String, false, Option, none, some}
use b46_ordering_app_backend.Base.Keys.{Distinct, find_key}
use b46_ordering_app_backend.Ordering.Domain.{
  Time, FulfillmentStatus, OrderStatus, submitted, confirmed, rejected, other_status, preparing,
  delivering, delivered, other, InventoryResultStatus, inventory_committed,
  inventory_items_unavailable, rejection_items_unavailable,
}
use b46_ordering_app_backend.Ordering.Domain.Lifecycle.{rank}
use b46_ordering_app_backend.Ordering.Store.Tables.{
  Db, OrderRow, FulfillmentRow, OperationRow, OutboxRow, is_null,
}

abbrev pub operation_of_order : String → Db → Option OperationRow
operation_of_order id db = find_key (λ op. op.order_id) id db.operations

abbrev pub box_of_order : String → Db → Option OutboxRow
box_of_order id db = find_key (λ r. r.order_id) id db.outbox

abbrev pub order_of : String → Db → Option OrderRow
order_of id db = find_key (λ o. o.id) id db.orders

abbrev pub fulfillment_of_order : String → Db → Option FulfillmentRow
fulfillment_of_order id db = find_key (λ f. f.order_id) id db.fulfillments

-- The times that a fulfilment of a status has: `delivering_at` and `delivered_at`.
abbrev pub TimesFor : FulfillmentStatus → Option Time → Option Time → Type 0
TimesFor preparing a b = (a ≡ none) × (b ≡ none)
TimesFor delivering a b = (is_null a ≡ false) × (b ≡ none)
TimesFor delivered a b = (is_null a ≡ false) × (is_null b ≡ false)
TimesFor (other s) a b = ⊥

-- The times of a fulfilment go with its status, its version counts its states, and it has a reader
-- exactly when it was read.
abbrev pub IsOnTime : FulfillmentRow → Type 0
IsOnTime f =
    (f.version ≡ rank f.status)
    × (is_null f.cashier_read_at ≡ is_null f.cashier_read_by)
    × TimesFor f.status f.delivering_at f.delivered_at

abbrev pub HasFulfillment : Option FulfillmentRow → Type 0
HasFulfillment none = ⊥
HasFulfillment (some f) = IsOnTime f

-- The operation has the given result, and its message is published exactly when there is one.
abbrev pub Settled : Option OperationRow → Option OutboxRow → Option InventoryResultStatus → Type 0
Settled (some op) (some r) s =
    (op.result_status ≡ s)
    × (is_null r.published_at ≡ is_null s)
    × (op.operation_id ≡ r.operation_id)
Settled _ _ s = ⊥

-- The rows that go with an order of a status and a rejection code.
abbrev pub ShapeFor :
    OrderStatus
    → Option String
    → Option FulfillmentRow
    → Option OperationRow
    → Option OutboxRow
    → Type 0
ShapeFor submitted code f op r = (f ≡ none) × Settled op r none × (code ≡ none)
ShapeFor confirmed code f op r =
    HasFulfillment f × Settled op r (some inventory_committed) × (code ≡ none)
ShapeFor rejected code f op r =
    (f ≡ none)
    × Settled op r (some inventory_items_unavailable)
    × (code ≡ some rejection_items_unavailable)
ShapeFor (other_status s) code f op r = ⊥

abbrev pub Shape :
    Option OrderRow → Option FulfillmentRow → Option OperationRow → Option OutboxRow → Type 0
Shape none f op r = (f ≡ none) × (op ≡ none) × (r ≡ none)
Shape (some o) f op r = ShapeFor o.status o.rejection_code f op r

abbrev pub ShapeAt : Db → String → Type 0
ShapeAt db id =
    Shape (order_of id db) (fulfillment_of_order id db) (operation_of_order id db)
      (box_of_order id db)

pub record IsWellFormed (db : Db) : Type 0 where
  pub order_ids : Distinct (λ o. o.id) db.orders
  pub checkout_ids : Distinct (λ o. o.checkout_id) db.orders
  pub fulfillment_ids : Distinct (λ f. f.order_id) db.fulfillments
  pub operation_ids : Distinct (λ op. op.operation_id) db.operations
  pub operation_orders : Distinct (λ op. op.order_id) db.operations
  pub event_ids : Distinct (λ r. r.event_id) db.outbox
  pub box_operations : Distinct (λ r. r.operation_id) db.outbox
  pub box_orders : Distinct (λ r. r.order_id) db.outbox
  pub shapes : (id : String) → ShapeAt db id
