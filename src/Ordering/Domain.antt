-- ===== src/Ordering/Domain.antt =====
-- services/ordering/internal/ordering/domain/order.go: the data of orders and the rules of the
-- fulfilment lifecycle. A string type with constants is a data type with `other` for any other
-- text. `time.Time` is a number of nanoseconds since the zero time; `int64` and `int` are integers.

pub mod Lifecycle
use b46_ordering_app_backend.Base.{
  ℕ, ℤ, String, Bool, true, false, ◌&&◌, ◌||◌, Option, none, some, List, Result, ok, err,
  if◌then◌else◌, ◌=s=◌,
}

abbrev pub Time : Type 0
Time = ℕ

pub data OrderStatus : Type 0 where
  submitted confirmed rejected : OrderStatus
  other_status : String → OrderStatus

pub data FulfillmentStatus : Type 0 where
  preparing delivering delivered : FulfillmentStatus
  other : String → FulfillmentStatus

pub data CustomerState : Type 0 where
  customer_preparing on_the_way customer_delivered customer_rejected : CustomerState

abbrev pub rejection_items_unavailable : String
rejection_items_unavailable = "ITEMS_UNAVAILABLE"

-- The steps of the services that can fail for a technical reason, which the wrapped errors name.
pub data Call : Type 0 where
  begin_tx find_checkout insert_order insert_operation insert_outbox insert_audit commit_tx : Call
  insert_line new_line_id : ℕ → Call
  load_order load_lines list_ids mark_read advance_row claim decode_claimed lock_operation
        set_operation :
      Call
  set_order insert_fulfillment publish release resolve_products new_order_id new_event_id : Call
  new_operation_id claim_work schedule_retry apply_result : Call

pub data OrderError : Type 0 where
  invalid_input cart_changed checkout_conflict not_found invalid_transition : OrderError
  operation_conflict claim_lost : OrderError
  technical : Call → OrderError
  wrapped : Call → OrderError → OrderError

pub record OrderLine : Type 0 where
  pub id : String
  pub product_id : String
  pub product_name : String
  pub unit_price_centavos : ℤ
  pub quantity : ℤ
  pub line_total_centavos : ℤ

pub record Fulfillment : Type 0 where
  pub status : FulfillmentStatus
  pub version : ℕ
  pub unread : Bool
  pub preparing_at : Time
  pub delivering_at : Option Time
  pub delivered_at : Option Time
  pub cashier_read_at : Option Time
  pub cashier_read_by : String
  pub updated_by : String

pub record UnavailableItem : Type 0 where
  pub order_line_id : String
  pub product_id : String
  pub requested_quantity : ℤ
  pub available_quantity : ℤ

pub record Order : Type 0 where
  pub id : String
  pub checkout_id : String
  pub customer_id : String
  pub customer_name : String
  pub status : OrderStatus
  pub rejection_code : String
  pub subtotal_centavos : ℤ
  pub delivery_fee_centavos : ℤ
  pub total_centavos : ℤ
  pub delivery_address : String
  pub delivery_notes : String
  pub lines : List OrderLine
  pub fulfillment : Option Fulfillment
  pub unavailable_items : List UnavailableItem
  pub created_at : Time
  pub updated_at : Time

pub record InventoryItem : Type 0 where
  pub order_line_id : String
  pub product_id : String
  pub quantity : ℤ

pub record InventoryCommit : Type 0 where
  pub event_id : String
  pub operation_id : String
  pub order_id : String
  pub occurred_at : Time
  pub items : List InventoryItem

pub data InventoryResultStatus : Type 0 where
  inventory_committed inventory_items_unavailable : InventoryResultStatus
  other_result : String → InventoryResultStatus

pub record InventoryResult : Type 0 where
  pub event_id : String
  pub operation_id : String
  pub order_id : String
  pub status : InventoryResultStatus
  pub occurred_at : Time
  pub unavailable_items : List UnavailableItem

pub record ClaimedInventoryWork : Type 0 where
  pub commit : InventoryCommit
  pub claim_token : String
  pub attempt_count : ℕ

pub record CheckoutLine : Type 0 where
  pub product_id : String
  pub quantity : ℤ
  pub expected_unit_price_centavos : ℤ

pub record PlaceOrderCommand : Type 0 where
  pub customer_id : String
  pub checkout_id : String
  pub lines : List CheckoutLine
  pub delivery_address : String
  pub delivery_notes : String

pub record ProductSnapshot : Type 0 where
  pub product_id : String
  pub name : String
  pub unit_price_centavos : ℤ
  pub orderable : Bool

pub record OrderDraft : Type 0 where
  pub order : Order
  pub checkout_fingerprint : String
  pub event_id : String
  pub operation_id : String
  pub occurred_at : Time

pub record PlaceOrderResult : Type 0 where
  pub order : Order
  pub replayed : Bool

pub data NotificationKind : Type 0 where
  order_accepted order_on_the_way order_delivered : NotificationKind

pub record Notification : Type 0 where
  pub event_id : String
  pub kind : NotificationKind
  pub order_id : String
  pub recipient_user_id : String
  pub audience : String
  pub occurred_at : Time

-- The inner switch of `Order.CustomerState`, over `order.Fulfillment`.
customer_state_of : Option Fulfillment → Result OrderError CustomerState
customer_state_of none = err invalid_transition
customer_state_of (some f) = elim f.status [
  | preparing ↦ ok customer_preparing
  | delivering ↦ ok on_the_way
  | delivered ↦ ok customer_delivered
  | other s ↦ err invalid_transition
]

unfoldable pub customer_state : Order → Result OrderError CustomerState
unfolding customer_state_of
customer_state order = elim order.status [
  | submitted ↦ ok customer_preparing
  | rejected ↦ ok customer_rejected
  | confirmed ↦ customer_state_of order.fulfillment
  | other_status s ↦ err invalid_transition
]

unfoldable pub next_action : Fulfillment → FulfillmentStatus
next_action f = elim f.status [
  | preparing ↦ delivering
  | delivering ↦ delivered
  | delivered ↦ other ""
  | other s ↦ other ""
]

unfoldable pub status_eq : FulfillmentStatus → FulfillmentStatus → Bool
status_eq preparing preparing = true
status_eq delivering delivering = true
status_eq delivered delivered = true
status_eq (other s) (other t) = s =s= t
status_eq _ _ = false

unfoldable pub validate_fulfillment_target :
    FulfillmentStatus → FulfillmentStatus → Result OrderError (Unit {0})
unfolding status_eq
validate_fulfillment_target current target =
    if status_eq current target && (status_eq current delivering || status_eq current delivered)
    then ok tt
    else if status_eq current preparing && status_eq target delivering
    then ok tt
    else if status_eq current delivering && status_eq target delivered
    then ok tt
    else err invalid_transition
