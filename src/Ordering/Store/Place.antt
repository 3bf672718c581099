-- ===== src/Ordering/Store/Place.antt =====
-- Store.PlaceOrder and Store.checkoutAfterConflict of adapters/postgres/store.go.
pub mod Outcome
pub mod Whole
pub mod Invariant
pub mod Stored
pub mod Recorded
pub mod Replay
use b46_ordering_app_backend.Base.{
  ℕ, zero, suc, String, Bool, true, false, not, ◌&&◌, ◌||◌, Option, none, some, List, [], ◌∷◌, ◌++◌,
  Result, ok, err, ◌>>=◌, ◌>>◌, fail_if, if◌then◌else◌, ◌=s=◌, map, find_first,
}
use b46_ordering_app_backend.Ordering.Domain.{
  Order, OrderLine, submitted, OrderDraft, PlaceOrderResult, InventoryItem, OrderError,
  checkout_conflict, technical, begin_tx, insert_order, insert_line, insert_operation,
  insert_outbox, insert_audit, find_checkout, load_order,
}
use b46_ordering_app_backend.Ordering.Store.Tables.{
  Db, Env, OrderRow, LineRow, OperationRow, OutboxRow, AuditRow, CommitRequested, order_placed,
  attempt, finish,
}
use b46_ordering_app_backend.Ordering.Store.Load.{find_checkout_row, load_order_row}

abbrev pub schema_version : String
schema_version = "1.0"

abbrev pub has {ℓ} : {A : Type ℓ} → (A → Bool) → List A → Bool
has p rows = elim (find_first p rows) [ none ↦ false | some row ↦ true ]

abbrev pub order_row_of : OrderDraft → OrderRow
order_row_of draft = record {
  id = draft.order.id;
  checkout_id = draft.order.checkout_id;
  checkout_fingerprint = draft.checkout_fingerprint;
  customer_id = draft.order.customer_id;
  status = submitted;
  rejection_code = none;
  subtotal_centavos = draft.order.subtotal_centavos;
  delivery_fee_centavos = draft.order.delivery_fee_centavos;
  total_centavos = draft.order.total_centavos;
  delivery_address = draft.order.delivery_address;
  delivery_notes = draft.order.delivery_notes;
  created_at = draft.occurred_at;
  updated_at = draft.occurred_at;
}

-- The primary key of `orders` and the unique constraint on `checkout_id`.
unfoldable pub order_collides : OrderDraft → Db → Bool
order_collides draft db =
    has (λ o. o.id =s= draft.order.id || o.checkout_id =s= draft.order.checkout_id) db.orders

abbrev pub line_row_of : OrderDraft → OrderLine → LineRow
line_row_of draft line = record {
  id = line.id;
  order_id = draft.order.id;
  product_id = line.product_id;
  product_name = line.product_name;
  unit_price_centavos = line.unit_price_centavos;
  quantity = line.quantity;
  line_total_centavos = line.line_total_centavos;
  created_at = draft.occurred_at;
}

-- The primary key of `order_lines` and its `UNIQUE (order_id, product_id)`.
line_collides : LineRow → List LineRow → Bool
line_collides l rows =
    has (λ r. r.id =s= l.id || (r.order_id =s= l.order_id && r.product_id =s= l.product_id)) rows

-- The loop over `draft.Lines`; `k` counts its rounds.
insert_lines :
    Env → OrderDraft → ℕ → List OrderLine → List LineRow → Result OrderError (List LineRow)
unfolding line_collides
insert_lines env draft k [] rows = ok rows
insert_lines env draft k (line ∷ lines) rows = do
  attempt env (insert_line k)
  fail_if (line_collides (line_row_of draft line) rows) (technical (insert_line k))
  insert_lines env draft (suc k) lines (rows ++ line_row_of draft line ∷ [])

abbrev pub item_of : OrderLine → InventoryItem
item_of line = record {
  order_line_id = line.id;
  product_id = line.product_id;
  quantity = line.quantity;
}

abbrev pub payload_of : OrderDraft → CommitRequested
payload_of draft = record {
  schema_version = schema_version;
  event_id = draft.event_id;
  operation_id = draft.operation_id;
  order_id = draft.order.id;
  occurred_at = draft.occurred_at;
  items = map item_of draft.order.lines;
}

abbrev pub operation_row_of : OrderDraft → OperationRow
operation_row_of draft = record {
  operation_id = draft.operation_id;
  order_id = draft.order.id;
  result_status = none;
  result_event_id = none;
  unavailable_items = none;
  created_at = draft.occurred_at;
  completed_at = none;
}

abbrev pub outbox_row_of : OrderDraft → OutboxRow
outbox_row_of draft = record {
  event_id = draft.event_id;
  operation_id = draft.operation_id;
  order_id = draft.order.id;
  payload = payload_of draft;
  occurred_at = draft.occurred_at;
  published_at = none;
  attempt_count = 0;
  next_attempt_at = draft.occurred_at;
  locked_at = none;
  claim_token = none;
  last_error_code = none;
}

-- The primary key of `inventory_operations` and its unique `order_id`.
unfoldable pub operation_collides : OrderDraft → Db → Bool
operation_collides draft db =
    has (λ r. r.operation_id =s= draft.operation_id || r.order_id =s= draft.order.id) db.operations

-- The primary key of `ordering_outbox` and its unique `operation_id` and `order_id`.
unfoldable pub outbox_collides : OrderDraft → Db → Bool
outbox_collides draft db =
    has
      (λ r.
        r.event_id =s= draft.event_id
        || r.operation_id =s= draft.operation_id
        || r.order_id =s= draft.order.id)
      db.outbox

abbrev pub placed : OrderDraft → List LineRow → Db → Db
placed draft lines db = record db {
  orders = db.orders ++ order_row_of draft ∷ [];
  lines = lines;
  operations = db.operations ++ operation_row_of draft ∷ [];
  outbox = db.outbox ++ outbox_row_of draft ∷ [];
  audit =
      db.audit
      ++ record {
        actor_user_id = some draft.order.customer_id;
        action = order_placed draft.order.checkout_id;
        target_id = draft.order.id;
        occurred_at = draft.occurred_at;
      }
        ∷ [];
}

-- The inserts that follow the one into `orders`.
unfoldable pub insert_rows : Env → OrderDraft → Db → Result OrderError (PlaceOrderResult × Db)
unfolding insert_lines operation_collides outbox_collides
insert_rows env draft db = do
  lines ← insert_lines env draft 0 draft.order.lines db.lines
  attempt env insert_operation
  fail_if (operation_collides draft db) (technical insert_operation)
  attempt env insert_outbox
  fail_if (outbox_collides draft db) (technical insert_outbox)
  attempt env insert_audit
  ok (record { order = draft.order; replayed = false }, placed draft lines db)

-- What both replay paths do with the stored order.
unfoldable pub replay : Env → OrderDraft → OrderRow → Db → Result OrderError PlaceOrderResult
replay env draft row db = do
  fail_if
      (not (row.checkout_fingerprint =s= draft.checkout_fingerprint)
        || not (row.customer_id =s= draft.order.customer_id))
      checkout_conflict
  order ← load_order_row env row.id draft.order.customer_id false db
  ok (record { order = order; replayed = true })

unfoldable pub checkout_after_conflict : Env → OrderDraft → Db → Result OrderError PlaceOrderResult
unfolding replay
checkout_after_conflict env draft db = elim (find_checkout_row env draft.order.checkout_id db) [
  | err e ↦ err e
  | ok none ↦ err (technical find_checkout)
  | ok (some row) ↦ replay env draft row db
]

unfoldable pub replay_in_transaction :
    Env → OrderDraft → OrderRow → Db → Result OrderError (PlaceOrderResult × Db)
unfolding replay
replay_in_transaction env draft row db = do r ← replay env draft row db; ok (r, db)

unfoldable pub place_new : Env → Env → OrderDraft → Db → Result OrderError PlaceOrderResult × Db
unfolding order_collides insert_rows checkout_after_conflict finish
place_new env again draft db =
    if env.fails insert_order
    then (err (technical insert_order), db)
    else if order_collides draft db
    then (checkout_after_conflict again draft db, db)
    else finish env db (insert_rows env draft db)

-- `between` is what other transactions commit after the checkout was looked for and before the
-- order is inserted; `again` is the environment of the reads after a unique violation.
unfoldable pub place_order :
    Env → Env → (Db → Db) → OrderDraft → Db → Result OrderError PlaceOrderResult × Db
unfolding place_new replay_in_transaction finish
place_order env again between draft db =
    if env.fails begin_tx
    then (err (technical begin_tx), db)
    else elim (find_checkout_row env draft.order.checkout_id db) [
      | err e ↦ (err e, db)
      | ok (some row) ↦ finish env db (replay_in_transaction env draft row db)
      | ok none ↦ place_new env again draft (between db)
    ]
