-- ===== src/Ordering/Store/Load.antt =====
-- findCheckout, loadOrder and the list queries of adapters/postgres/store.go.
use b46_ordering_app_backend.Base.{
  ℕ, String, Bool, true, false, not, ◌&&◌, ◌||◌, Option, none, some, List, [], ◌∷◌, Result, ok,
  ◌>>=◌, ◌>>◌, or_fail, fail_if, ◌=s=◌, text_lt, ltb, ◌==◌, keep, find_first, map, take,
}
use b46_ordering_app_backend.Base.Sort.{sort_by}
use b46_ordering_app_backend.Ordering.Domain.{
  Order, OrderLine, OrderStatus, submitted, confirmed, Fulfillment, FulfillmentStatus, status_eq,
  other, UnavailableItem, OrderError, not_found, load_order, load_lines, list_ids, find_checkout,
}
use b46_ordering_app_backend.Ordering.Store.Tables.{
  Db, Env, UserRow, OrderRow, LineRow, FulfillmentRow, OperationRow, attempt, is_null,
}

abbrev pub is_confirmed : OrderStatus → Bool
is_confirmed confirmed = true
is_confirmed _ = false

abbrev pub is_submitted : OrderStatus → Bool
is_submitted submitted = true
is_submitted _ = false

unfoldable pub order_row : String → Db → Option OrderRow
order_row id db = find_first (λ o. o.id =s= id) db.orders

unfoldable pub checkout_row : String → Db → Option OrderRow
checkout_row id db = find_first (λ o. o.checkout_id =s= id) db.orders

unfoldable pub fulfillment_row : String → Db → Option FulfillmentRow
fulfillment_row id db = find_first (λ f. f.order_id =s= id) db.fulfillments

unfoldable pub find_checkout_row : Env → String → Db → Result OrderError (Option OrderRow)
find_checkout_row env id db = do attempt env find_checkout; ok (checkout_row id db)

abbrev pub line_of : LineRow → OrderLine
line_of l = record {
  id = l.id;
  product_id = l.product_id;
  product_name = l.product_name;
  unit_price_centavos = l.unit_price_centavos;
  quantity = l.quantity;
  line_total_centavos = l.line_total_centavos;
}

abbrev or_empty : Option String → String
or_empty none = ""
or_empty (some s) = s

abbrev pub fulfillment_of : FulfillmentRow → Fulfillment
fulfillment_of f = record {
  status = f.status;
  version = f.version;
  unread = is_null f.cashier_read_at;
  preparing_at = f.preparing_at;
  delivering_at = f.delivering_at;
  delivered_at = f.delivered_at;
  cashier_read_at = f.cashier_read_at;
  cashier_read_by = or_empty f.cashier_read_by;
  updated_by = or_empty f.updated_by;
}

-- LEFT JOIN inventory_operations, with COALESCE(unavailable_items, '[]').
unavailable_of : Option OperationRow → List UnavailableItem
unavailable_of none = []
unavailable_of (some op) = elim op.unavailable_items [ none ↦ [] | some items ↦ items ]

pub line_lt : LineRow → LineRow → Bool
line_lt a b =
    text_lt a.product_id b.product_id || (a.product_id =s= b.product_id && text_lt a.id b.id)

abbrev has_fulfillment : Option FulfillmentRow → Bool
has_fulfillment none = false
has_fulfillment (some f) = true

-- The WHERE clause of loadOrder.
unfoldable pub visible : OrderRow → Option FulfillmentRow → String → Bool → Bool
visible o f customer_id cashier =
    (customer_id =s= "" || o.customer_id =s= customer_id)
    && (not cashier || (is_confirmed o.status && has_fulfillment f))

unfoldable pub assemble : Db → OrderRow → UserRow → Option FulfillmentRow → Order
unfolding unavailable_of line_lt
assemble db o customer f = record {
  id = o.id;
  checkout_id = o.checkout_id;
  customer_id = o.customer_id;
  customer_name = customer.name;
  status = o.status;
  rejection_code = or_empty o.rejection_code;
  subtotal_centavos = o.subtotal_centavos;
  delivery_fee_centavos = o.delivery_fee_centavos;
  total_centavos = o.total_centavos;
  delivery_address = o.delivery_address;
  delivery_notes = o.delivery_notes;
  lines = map line_of (sort_by line_lt (keep (λ l. l.order_id =s= o.id) db.lines));
  fulfillment = elim f [ none ↦ none | some row ↦ some (fulfillment_of row) ];
  unavailable_items = unavailable_of (find_first (λ op. op.order_id =s= o.id) db.operations);
  created_at = o.created_at;
  updated_at = o.updated_at;
}

unfoldable pub load_order_row : Env → String → String → Bool → Db → Result OrderError Order
unfolding order_row fulfillment_row visible assemble
load_order_row env order_id customer_id cashier db = do
  attempt env load_order
  o ← or_fail (order_row order_id db) not_found
  customer ← or_fail (find_first (λ u. u.id =s= o.customer_id) db.users) not_found
  let f = fulfillment_row o.id db
  fail_if (not (visible o f customer_id cashier)) not_found
  attempt env load_lines
  ok (assemble db o customer f)

-- `ORDER BY o.created_at DESC, o.id DESC`: the row that stands first.
later : OrderRow → OrderRow → Bool
later a b = ltb b.created_at a.created_at || (a.created_at == b.created_at && text_lt b.id a.id)

-- `$2 = '' OR (o.created_at, o.id) < (SELECT ... anchor)`: with no anchor the comparison is NULL.
after_anchor : String → Option OrderRow → OrderRow → Bool
unfolding later
after_anchor after_id none o = after_id =s= ""
after_anchor after_id (some a) o = after_id =s= "" || later a o

load_orders : Env → List OrderRow → String → Bool → Db → Result OrderError (List Order)
load_orders env [] customer_id cashier db = ok []
load_orders env (o ∷ os) customer_id cashier db = do
  order ← load_order_row env o.id customer_id cashier db
  orders ← load_orders env os customer_id cashier db
  ok (order ∷ orders)

unfoldable pub customer_page : String → ℕ → String → Db → List OrderRow
unfolding after_anchor
customer_page customer_id limit after_id db =
    let anchor = find_first (λ o. o.id =s= after_id && o.customer_id =s= customer_id) db.orders in
    take limit (
      sort_by later
        (keep (λ o. o.customer_id =s= customer_id && after_anchor after_id anchor o) db.orders))

unfoldable pub customer_orders : Env → String → ℕ → String → Db → Result OrderError (List Order)
unfolding load_orders customer_page
customer_orders env customer_id limit after_id db = do
  attempt env list_ids
  load_orders env (customer_page customer_id limit after_id db) customer_id false db

-- `$1 = '' OR f.status = $1`.
status_matches : FulfillmentStatus → Option FulfillmentRow → Bool
status_matches status none = false
status_matches status (some f) = status_eq status (other "") || status_eq f.status status

unfoldable pub cashier_page : FulfillmentStatus → ℕ → String → Db → List OrderRow
unfolding after_anchor status_matches
cashier_page status limit after_id db =
    let anchor = find_first (λ o. o.id =s= after_id) db.orders in
    take limit (
      sort_by later (
        keep
          (λ o.
            is_confirmed o.status
            && status_matches status (fulfillment_row o.id db)
            && after_anchor after_id anchor o)
          db.orders))

unfoldable pub cashier_orders :
    Env → FulfillmentStatus → ℕ → String → Db → Result OrderError (List Order)
unfolding load_orders cashier_page
cashier_orders env status limit after_id db = do
  attempt env list_ids
  load_orders env (cashier_page status limit after_id db) "" true db

unfoldable pub customer_order : Env → String → String → Db → Result OrderError Order
customer_order env customer_id order_id db = load_order_row env order_id customer_id false db

unfoldable pub cashier_order : Env → String → Db → Result OrderError Order
cashier_order env order_id db = load_order_row env order_id "" true db
