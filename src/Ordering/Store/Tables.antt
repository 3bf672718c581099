-- ===== src/Ordering/Store/Tables.antt =====
-- The tables that adapters/postgres/store.go reads and writes, and its transactions.
-- A table is a list of rows in insertion order. Ids are in the canonical form of their uuid column.
-- Columns that no statement of the store reads back are left out.
use b46_ordering_app_backend.Base.{
  ℕ, ℤ, String, Bool, true, false, Option, none, some, List, Result, ok, err, if◌then◌else◌,
}
use b46_ordering_app_backend.Ordering.Domain.{
  Time, OrderStatus, FulfillmentStatus, InventoryResultStatus, UnavailableItem, InventoryItem,
  OrderError, technical, Call, begin_tx, commit_tx,
}

pub record UserRow : Type 0 where
  pub id : String
  pub name : String

pub record OrderRow : Type 0 where
  pub id : String
  pub checkout_id : String
  pub checkout_fingerprint : String
  pub customer_id : String
  pub status : OrderStatus
  pub rejection_code : Option String
  pub subtotal_centavos : ℤ
  pub delivery_fee_centavos : ℤ
  pub total_centavos : ℤ
  pub delivery_address : String
  pub delivery_notes : String
  pub created_at : Time
  pub updated_at : Time

pub record LineRow : Type 0 where
  pub id : String
  pub order_id : String
  pub product_id : String
  pub product_name : String
  pub unit_price_centavos : ℤ
  pub quantity : ℤ
  pub line_total_centavos : ℤ
  pub created_at : Time

pub record FulfillmentRow : Type 0 where
  pub order_id : String
  pub status : FulfillmentStatus
  pub version : ℕ
  pub preparing_at : Time
  pub delivering_at : Option Time
  pub delivered_at : Option Time
  pub cashier_read_at : Option Time
  pub cashier_read_by : Option String
  pub updated_by : Option String

-- `result_status`: none is 'PENDING'.
pub record OperationRow : Type 0 where
  pub operation_id : String
  pub order_id : String
  pub result_status : Option InventoryResultStatus
  pub result_event_id : Option String
  pub unavailable_items : Option (List UnavailableItem)
  pub created_at : Time
  pub completed_at : Option Time

-- inventorycontract.CommitRequested, the message that the JSON column `payload` holds.
pub record CommitRequested : Type 0 where
  pub schema_version : String
  pub event_id : String
  pub operation_id : String
  pub order_id : String
  pub occurred_at : Time
  pub items : List InventoryItem

pub record OutboxRow : Type 0 where
  pub event_id : String
  pub operation_id : String
  pub order_id : String
  pub payload : CommitRequested
  pub occurred_at : Time
  pub published_at : Option Time
  pub attempt_count : ℕ
  pub next_attempt_at : Time
  pub locked_at : Option Time
  pub claim_token : Option String
  pub last_error_code : Option String

pub data AuditAction : Type 0 where
  order_placed : String → AuditAction
  cashier_order_read : AuditAction
  fulfillment_advanced : FulfillmentStatus → FulfillmentStatus → AuditAction
  inventory_was_committed order_rejected_items_unavailable : String → AuditAction

pub record AuditRow : Type 0 where
  pub actor_user_id : Option String
  pub action : AuditAction
  pub target_id : String
  pub occurred_at : Time

pub record Db : Type 0 where
  pub users : List UserRow
  pub orders : List OrderRow
  pub lines : List LineRow
  pub fulfillments : List FulfillmentRow
  pub operations : List OperationRow
  pub outbox : List OutboxRow
  pub audit : List AuditRow

-- What the database decides in one call of the store: which steps fail for a technical reason,
-- whether a commit that reported an error took effect, its clock, the uuids that it
-- draws, and the outbox rows that other transactions hold.
pub record Env : Type 0 where
  pub fails : Call → Bool
  pub commit_applied : Bool
  pub now : Time
  pub token : ℕ → String
  pub locked_elsewhere : String → Bool

abbrev pub is_null {ℓ} : {A : Type ℓ} → Option A → Bool
is_null none = true
is_null (some a) = false

-- `if err != nil { return fmt.Errorf(...) }` after a statement.
abbrev pub attempt : Env → Call → Result OrderError (Unit {0})
attempt env c = if env.fails c then err (technical c) else ok tt

-- The end of a transaction: a body that failed is rolled back, the others are committed.
unfoldable pub finish {ℓ} :
    {A : Type ℓ} → Env → Db → Result OrderError (A × Db) → Result OrderError A × Db
finish env before (err e) = (err e, before)
finish env before (ok (a, after)) =
    if env.fails commit_tx
    then (err (technical commit_tx), if env.commit_applied then after else before)
    else (ok a, after)

unfoldable pub transaction {ℓ} :
    {A : Type ℓ} → Env → (Db → Result OrderError (A × Db)) → Db → Result OrderError A × Db
unfolding finish
transaction env body db =
    if env.fails begin_tx then (err (technical begin_tx), db) else finish env db (body db)
