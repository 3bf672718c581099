-- ===== src/Inventory/Tables.antt =====
-- The tables that services/inventory-adapter/internal/inventory/adapters/postgres/store.go reads and
-- writes: the point of sale's items, components and movements, and the adapter's receipts. The
-- columns that no statement uses are left out, and an id is the canonical text of its uuid.
use b46_ordering_app_backend.Base.{
  ℕ, String, Bool, true, false, Option, none, some, List, Result, ok, err, ℤ, if◌then◌else◌,
}
use b46_ordering_app_backend.Inventory.Domain.{Time, ResultStatus, UnavailableItem, Line}

-- A row of public."Items", which is also the struct `itemState`.
pub record ItemRow : Type 0 where
  pub id : String
  pub stock : ℤ
  pub active : Bool
  pub tracks_stock : Bool
  pub composite : Bool

-- A row of public."CompositeItems"; the numeric "Quantity" is `digits / 10 ^ scale`.
pub record ComponentRow : Type 0 where
  pub parent_item_id : String
  pub component_item_id : String
  pub digits : ℤ
  pub scale : ℕ

pub record MovementRow : Type 0 where
  pub id : String
  pub item_id : String
  pub quantity : ℤ
  pub order_id : String
  pub operation_id : String
  pub created_by : String
  pub created_at : Time

-- receiptRequest.
pub record ReceiptRequest : Type 0 where
  pub schema_version : String
  pub event_id : String
  pub operation_id : String
  pub order_id : String
  pub occurred_at : Time
  pub items : List Line

-- receiptResult.
pub record ReceiptResult : Type 0 where
  pub schema_version : String
  pub event_id : String
  pub operation_id : String
  pub order_id : String
  pub result : ResultStatus
  pub occurred_at : Time
  pub items : List UnavailableItem

pub record ReceiptRow : Type 0 where
  pub operation_id : String
  pub request_event_id : String
  pub order_id : String
  pub request_fingerprint : String
  pub request_payload : ReceiptRequest
  pub result_event_id : String
  pub result_status : ResultStatus
  pub result_payload : ReceiptResult
  pub completed_at : Time

pub record Db : Type 0 where
  pub items : List ItemRow
  pub components : List ComponentRow
  pub movements : List MovementRow
  pub receipts : List ReceiptRow

pub data Call : Type 0 where
  begin_tx lock_operation load_receipt decode_receipt load_items load_components lock_items : Call
  deduct insert_movement insert_receipt commit_tx : Call

-- The kinds of error that the store tells apart: SQLSTATE 40001, SQLSTATE 23505, its own
-- ErrOperationConflict, and the others.
pub data Failure : Type 0 where
  serialization_failure unique_violation conflict other_failure : Failure

-- What one attempt meets: the statements that fail by themselves (a number out of the range of its
-- column is one reason), whether a COMMIT that reported another error than 40001 took effect, the
-- clock, and the uuids drawn.
pub record Env : Type 0 where
  pub fails : Call → Option Failure
  pub commit_applied : Bool
  pub now : Time
  pub new_id : ℕ → String

abbrev pub attempt : Env → Call → Result Failure (Unit {0})
attempt env c = elim (env.fails c) [ none ↦ ok tt | some f ↦ err f ]

abbrev pub is_serialization_failure : Failure → Bool
is_serialization_failure serialization_failure = true
is_serialization_failure _ = false

-- A body that failed is rolled back.
unfoldable pub finish {ℓ} :
    {A : Type ℓ} → Env → Db → Result Failure (A × Db) → Result Failure A × Db
finish env before (err e) = (err e, before)
finish env before (ok (a, after)) = elim (env.fails commit_tx) [
  | none ↦ (ok a, after)
  | some f ↦ (
    err f,
    if is_serialization_failure f then before else if env.commit_applied then after else before,
  )
]
