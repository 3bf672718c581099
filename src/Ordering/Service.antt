-- ===== src/Ordering/Service.antt =====
-- services/ordering/internal/ordering/application/service.go: the queries and the cashiers' two
-- operations, over adapters/postgres/store.go. Both services are built with a store, so
-- `service.queries == nil` does not arise.
use b46_ordering_app_backend.Base.{
  String, Bool, true, false, not, ◌&&◌, ◌||◌, List, [], ◌∷◌, Result, ok, err, if◌then◌else◌, ◌=s=◌,
  ℤ, pos, int_lt, pos_part, concat,
}
use b46_ordering_app_backend.Ordering.Domain.{
  Time, Order, FulfillmentStatus, delivering, delivered, other, OrderError, invalid_input,
  Notification, NotificationKind, order_accepted, order_on_the_way, order_delivered,
}
use b46_ordering_app_backend.Ordering.Store.Tables.{Db, Env}
use b46_ordering_app_backend.Ordering.Store.Load.{
  customer_order, customer_orders, cashier_order, cashier_orders,
}
use b46_ordering_app_backend.Ordering.Store.Fulfil.{mark_cashier_read, advance_fulfillment}
use b46_ordering_app_backend.Ordering.Checkout.{valid_uuid}

abbrev page_is_valid : ℤ → String → Bool
page_is_valid limit after_id =
    not (int_lt limit (pos 1))
    && not (int_lt (pos 100) limit)
    && (after_id =s= "" || valid_uuid after_id)

unfoldable pub service_customer_order : Env → String → String → Db → Result OrderError Order
service_customer_order env customer_id order_id db =
    if valid_uuid customer_id && valid_uuid order_id
    then customer_order env customer_id order_id db
    else err invalid_input

unfoldable pub service_customer_orders :
    Env → String → ℤ → String → Db → Result OrderError (List Order)
service_customer_orders env customer_id limit after_id db =
    if valid_uuid customer_id && page_is_valid limit after_id
    then customer_orders env customer_id (pos_part limit) after_id db
    else err invalid_input

unfoldable pub service_cashier_order : Env → String → Db → Result OrderError Order
service_cashier_order env order_id db =
    if valid_uuid order_id then cashier_order env order_id db else err invalid_input

abbrev is_queue_filter : FulfillmentStatus → Bool
is_queue_filter (other s) = s =s= ""
is_queue_filter _ = true

unfoldable pub service_cashier_orders :
    Env → FulfillmentStatus → ℤ → String → Db → Result OrderError (List Order)
service_cashier_orders env status limit after_id db =
    if page_is_valid limit after_id && is_queue_filter status
    then cashier_orders env status (pos_part limit) after_id db
    else err invalid_input

unfoldable pub service_mark_cashier_read :
    Env → String → String → Time → Db → Result OrderError Order × Db
service_mark_cashier_read env cashier_id order_id now db =
    if valid_uuid cashier_id && valid_uuid order_id
    then mark_cashier_read env cashier_id order_id now db
    else (err invalid_input, db)

abbrev is_advance_target : FulfillmentStatus → Bool
is_advance_target delivering = true
is_advance_target delivered = true
is_advance_target _ = false

-- string(kind).
abbrev pub kind_text : NotificationKind → String
kind_text order_accepted = "ORDER_ACCEPTED"
kind_text order_on_the_way = "ORDER_ON_THE_WAY"
kind_text order_delivered = "ORDER_DELIVERED"

abbrev kind_of : FulfillmentStatus → NotificationKind
kind_of delivered = order_delivered
kind_of _ = order_on_the_way

abbrev notification_of : FulfillmentStatus → Order → Time → Notification
notification_of target order now = record {
  event_id = concat order.id (concat ":" (kind_text (kind_of target)));
  kind = kind_of target;
  order_id = order.id;
  recipient_user_id = order.customer_id;
  audience = "CUSTOMER";
  occurred_at = now;
}

-- What the service returns, the database after it, and the notifications sent; a notifier's error is
-- ignored.
unfoldable pub service_advance_fulfillment :
    Env
    → String
    → String
    → FulfillmentStatus
    → Time
    → Time
    → Db
    → Result OrderError Order × Db × List Notification
service_advance_fulfillment env cashier_id order_id target now notified_at db =
    if valid_uuid cashier_id && valid_uuid order_id && is_advance_target target
    then (let (r, db') = advance_fulfillment env cashier_id order_id target now db in
        (r, db', elim r [ ok order ↦ notification_of target order notified_at ∷ [] | err e ↦ [] ]))
    else (err invalid_input, db, [])
