-- ===== src/Ordering/Store/Fulfil.antt =====
-- Store.MarkCashierRead and Store.AdvanceFulfillment of adapters/postgres/store.go.
pub mod Forward
pub mod Advances
pub mod Invariant
use b46_ordering_app_backend.Base.{
  ◌+◌, String, Bool, true, false, not, ◌&&◌, Option, none, some, [], ◌∷◌, ◌++◌, Result, ok, ◌>>=◌,
  ◌>>◌, or_fail, fail_if, if◌then◌else◌, ◌=s=◌, update_where,
}
use b46_ordering_app_backend.Ordering.Domain.{
  Time, Order, FulfillmentStatus, preparing, delivering, delivered, status_eq, OrderError,
  not_found, invalid_transition, validate_fulfillment_target, mark_read, insert_audit, advance_row,
  lock_operation,
}
use b46_ordering_app_backend.Ordering.Store.Tables.{
  Db, Env, FulfillmentRow, AuditAction, cashier_order_read, fulfillment_advanced, attempt,
  transaction,
}
use b46_ordering_app_backend.Ordering.Store.Load.{
  is_confirmed, order_row, fulfillment_row, load_order_row,
}

-- `FROM orders o WHERE o.id = f.order_id AND o.status = 'CONFIRMED'`.
unfoldable pub order_is_confirmed : String → Db → Bool
unfolding order_row
order_is_confirmed id db = elim (order_row id db) [ none ↦ false | some o ↦ is_confirmed o.status ]

abbrev is_unread : Option FulfillmentRow → Bool
is_unread none = false
is_unread (some f) = elim f.cashier_read_at [ none ↦ true | some t ↦ false ]

abbrev pub audited : String → AuditAction → String → Time → Db → Db
audited actor action target now db = record db {
  audit =
      db.audit
      ++ record {
        actor_user_id = some actor;
        action = action;
        target_id = target;
        occurred_at = now;
      }
        ∷ [];
}

-- The UPDATE of one fulfilment row, by its primary key.
abbrev pub set_fulfillment : String → (FulfillmentRow → FulfillmentRow) → Db → Db
set_fulfillment id change db = record db {
  fulfillments = update_where (λ f. f.order_id =s= id) change db.fulfillments;
}

-- `RowsAffected() == 1` of the UPDATE in MarkCashierRead.
abbrev pub read_applies : String → Db → Bool
read_applies id db = order_is_confirmed id db && is_unread (fulfillment_row id db)

abbrev pub marked : String → Time → FulfillmentRow → FulfillmentRow
marked cashier_id now f = record f { cashier_read_at = some now; cashier_read_by = some cashier_id }

unfoldable pub audited_read : Env → String → String → Time → Db → Result OrderError Db
audited_read env cashier_id order_id now db = do
  attempt env insert_audit
  ok (
      audited cashier_id cashier_order_read order_id now
        (set_fulfillment order_id (marked cashier_id now) db))

unfoldable pub read_once : Env → String → String → Time → Db → Result OrderError Db
unfolding audited_read
read_once env cashier_id order_id now db = do
  attempt env mark_read
  if read_applies order_id db then audited_read env cashier_id order_id now db else ok db

unfoldable pub mark_cashier_read_body :
    Env → String → String → Time → Db → Result OrderError (Order × Db)
unfolding read_once order_is_confirmed fulfillment_row
mark_cashier_read_body env cashier_id order_id now db = do
  after ← read_once env cashier_id order_id now db
  order ← load_order_row env order_id "" true after
  ok (order, after)

unfoldable pub mark_cashier_read : Env → String → String → Time → Db → Result OrderError Order × Db
unfolding mark_cashier_read_body transaction
mark_cashier_read env cashier_id order_id now =
    transaction env (mark_cashier_read_body env cashier_id order_id now)

-- The SET clauses of the two UPDATEs.
unfoldable pub advanced : FulfillmentStatus → String → Time → FulfillmentRow → FulfillmentRow
advanced delivering cashier_id now f = record f {
  status = delivering;
  version = f.version + 1;
  delivering_at = some now;
  updated_by = some cashier_id;
}
advanced delivered cashier_id now f = record f {
  status = delivered;
  version = f.version + 1;
  delivered_at = some now;
  updated_by = some cashier_id;
}
advanced _ cashier_id now f = f

-- The WHERE clauses of the two UPDATEs; no other target has one.
unfoldable pub update_applies : FulfillmentStatus → FulfillmentStatus → Bool
update_applies delivering current = status_eq current preparing
update_applies delivered current = status_eq current delivering
update_applies _ current = false

unfoldable pub update_row :
    Env → String → String → FulfillmentStatus → Time → FulfillmentRow → Db → Result OrderError Db
unfolding update_applies
update_row env cashier_id order_id target now row db = do
  attempt env advance_row
  fail_if (not (update_applies target row.status)) invalid_transition
  attempt env insert_audit
  ok (
      audited cashier_id (fulfillment_advanced row.status target) order_id now
        (set_fulfillment order_id (advanced target cashier_id now) db))

unfoldable pub advance_step :
    Env → String → String → FulfillmentStatus → Time → FulfillmentRow → Db → Result OrderError Db
unfolding update_row
advance_step env cashier_id order_id target now row db =
    if status_eq row.status target
    then ok db
    else update_row env cashier_id order_id target now row db

unfoldable pub advance_body :
    Env → String → String → FulfillmentStatus → Time → Db → Result OrderError (Order × Db)
unfolding advance_step order_is_confirmed fulfillment_row
advance_body env cashier_id order_id target now db = do
  attempt env lock_operation
  fail_if (not (order_is_confirmed order_id db)) not_found
  row ← or_fail (fulfillment_row order_id db) not_found
  validate_fulfillment_target row.status target
  after ← advance_step env cashier_id order_id target now row db
  order ← load_order_row env order_id "" true after
  ok (order, after)

unfoldable pub advance_fulfillment :
    Env → String → String → FulfillmentStatus → Time → Db → Result OrderError Order × Db
unfolding advance_body transaction
advance_fulfillment env cashier_id order_id target now =
    transaction env (advance_body env cashier_id order_id target now)
