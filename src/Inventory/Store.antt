-- ===== src/Inventory/Store.antt =====
-- Store.Commit and commitOnce of adapters/postgres/store.go: a receipt replayed, or the decision, the
-- deductions and a new receipt in one serializable transaction. Such a transaction sees one state of
-- the tables, so that both loads of the items read it. The JSON payloads are kept as values.
pub mod Received
pub mod Receipts
pub mod Keeps
pub mod Stock
use b46_ordering_app_backend.Base.{
  ℕ, zero, suc, ◌+◌, String, Bool, true, false, not, ◌&&◌, ◌||◌, Option, none, some, List, [], ◌∷◌,
  ◌++◌, Result, ok, err, ◌>>=◌, ◌>>◌, fail_if, if◌then◌else◌, ◌=s=◌, ◌==◌, ℤ, pos, negsuc, ltb,
  int_lt, sub64, ◌-ℤ◌, length, keep, find_first, update_where, text_lt, map,
}
use b46_ordering_app_backend.Base.Sort.{sort_by}
use b46_ordering_app_backend.Inventory.Domain.{
  Time, CommitCommand, CommitResult, Line, UnavailableItem, ResultStatus, committed,
  items_unavailable, schema_version_1, InventoryError, operation_conflict, store_unavailable,
  validate_result,
}
use b46_ordering_app_backend.Inventory.Tables.{
  begin_tx, finish, Db, Env, ItemRow, MovementRow, ReceiptRow, ReceiptRequest, ReceiptResult,
  Failure, conflict, serialization_failure, unique_violation, other_failure,
  is_serialization_failure, attempt, lock_operation, load_receipt, decode_receipt, load_items,
  lock_items, deduct, insert_movement, insert_receipt,
}
use b46_ordering_app_backend.Inventory.Demand.{
  StockDemand, Demands, add_member, load_rows, demand_lines, recheck_lines, check_demands,
  is_physical,
}

-- requestToReceipt.
abbrev pub request_to_receipt : CommitCommand → ReceiptRequest
request_to_receipt command = record {
  schema_version = command.schema_version;
  event_id = command.event_id;
  operation_id = command.operation_id;
  order_id = command.order_id;
  occurred_at = command.occurred_at;
  items = command.lines;
}

-- resultToReceipt.
abbrev pub result_to_receipt : CommitResult → ReceiptResult
result_to_receipt result = record {
  schema_version = result.schema_version;
  event_id = result.event_id;
  operation_id = result.operation_id;
  order_id = result.order_id;
  result = result.status;
  occurred_at = result.occurred_at;
  items = result.unavailable_items;
}

abbrev pub wire_result : ReceiptResult → CommitResult
wire_result wire = record {
  schema_version = wire.schema_version;
  event_id = wire.event_id;
  operation_id = wire.operation_id;
  order_id = wire.order_id;
  status = wire.result;
  occurred_at = wire.occurred_at;
  unavailable_items = wire.items;
}

abbrev pub or_broken : Result InventoryError (Unit {0}) → Result Failure (Unit {0})
or_broken (ok u) = ok u
or_broken (err e) = err other_failure

-- decodeReceiptResult; its parsers cannot fail on what resultToReceipt wrote, unless `Env.fails` says
-- so.
unfoldable pub decode_receipt_result : ReceiptResult → Result Failure CommitResult
unfolding validate_result
decode_receipt_result wire = do
  or_broken (validate_result (wire_result wire))
  ok (wire_result wire)

unfoldable pub receipt_of : String → Db → Option ReceiptRow
receipt_of operation db = find_first (λ r. r.operation_id =s= operation) db.receipts

-- What loadReceipt makes of the row that it found.
unfoldable pub stored_result :
    Env → String → Option ReceiptRow → Result Failure (Option CommitResult)
unfolding decode_receipt_result
stored_result env fingerprint none = ok none
stored_result env fingerprint (some r) = do
  fail_if (not (r.request_fingerprint =s= fingerprint)) conflict
  attempt env decode_receipt
  result ← decode_receipt_result r.result_payload
  ok (some result)

-- loadReceipt.
unfoldable pub load_stored : Env → String → String → Db → Result Failure (Option CommitResult)
unfolding receipt_of stored_result
load_stored env operation fingerprint db = do
  attempt env load_receipt
  stored_result env fingerprint (receipt_of operation db)

-- WHERE of the deduction.
unfoldable pub can_deduct : StockDemand → ItemRow → Bool
can_deduct d r = r.id =s= d.item_id && is_physical r && not (int_lt r.stock d.quantity)

abbrev pub deducted : StockDemand → ItemRow → ItemRow
deducted d r = record r { stock = r.stock -ℤ d.quantity }

abbrev pub movement_for : Env → ℕ → String → CommitCommand → StockDemand → MovementRow
movement_for env k actor command d = record {
  id = env.new_id k;
  item_id = d.item_id;
  quantity = sub64 (pos 0) d.quantity;
  order_id = command.order_id;
  operation_id = command.operation_id;
  created_by = actor;
  created_at = env.now;
}

abbrev pub after_deduction : Env → ℕ → String → CommitCommand → StockDemand → Db → Db
after_deduction env k actor command d db = record db {
  items = update_where (can_deduct d) (deducted d) db.items;
  movements = db.movements ++ movement_for env k actor command d ∷ [];
}

-- pgx encodes a parameter of the type integer.
unfoldable pub fits_int4 : ℤ → Bool
fits_int4 (pos n) = ltb n 2147483648
fits_int4 (negsuc n) = ltb n 2147483648

-- The deductions, in the order of the item ids; `k` counts the uuids drawn.
unfoldable pub deduct_all :
    Env → ℕ → String → CommitCommand → List StockDemand → Db → Result Failure Db
unfolding can_deduct fits_int4
deduct_all env k actor command [] db = ok db
deduct_all env k actor command (d ∷ ds) db = do
  attempt env deduct
  fail_if (not (fits_int4 d.quantity)) other_failure
  fail_if (not (length (keep (can_deduct d) db.items) == 1)) other_failure
  attempt env insert_movement
  deduct_all env (suc k) actor command ds (after_deduction env k actor command d db)

abbrev pub by_item_id : StockDemand → StockDemand → Bool
by_item_id a b = text_lt a.item_id b.item_id

abbrev by_line_id : UnavailableItem → UnavailableItem → Bool
by_line_id a b = text_lt a.order_line_id b.order_line_id

abbrev pub new_result : Env → CommitCommand → ResultStatus → List UnavailableItem → CommitResult
new_result env command status items = record {
  schema_version = schema_version_1;
  event_id = env.new_id 0;
  operation_id = command.operation_id;
  order_id = command.order_id;
  status = status;
  occurred_at = env.now;
  unavailable_items = items;
}

-- `if len(unavailable) > 0 { ... } else { ... }`.
unfoldable pub decide :
    Env
    → String
    → CommitCommand
    → List UnavailableItem
    → List StockDemand
    → Db
    → Result Failure (CommitResult × Db)
unfolding deduct_all
decide env actor command [] demands db = do
  after ← deduct_all env 1 actor command (sort_by by_item_id demands) db
  ok (new_result env command committed [], after)
decide env actor command (u ∷ us) demands db =
    ok (new_result env command items_unavailable (sort_by by_line_id (u ∷ us)), db)

abbrev pub new_receipt : CommitCommand → String → CommitResult → ReceiptRow
new_receipt command fingerprint result = record {
  operation_id = command.operation_id;
  request_event_id = command.event_id;
  order_id = command.order_id;
  request_fingerprint = fingerprint;
  request_payload = request_to_receipt command;
  result_event_id = result.event_id;
  result_status = result.status;
  result_payload = result_to_receipt result;
  completed_at = result.occurred_at;
}

abbrev is_taken : (ReceiptRow → String) → String → Db → Bool
is_taken key k db = elim (find_first (λ r. key r =s= k) db.receipts) [
  | none ↦ false
  | some r ↦ true
]

-- The unique constraints of inventory_commit_receipts.
unfoldable pub receipt_collides : ReceiptRow → Db → Bool
receipt_collides r db =
    is_taken (λ x. x.operation_id) r.operation_id db
    || is_taken (λ x. x.request_event_id) r.request_event_id db
    || is_taken (λ x. x.result_event_id) r.result_event_id db

abbrev pub with_receipt : ReceiptRow → Db → Db
with_receipt r db = record db { receipts = db.receipts ++ r ∷ [] }

abbrev pub product_ids : List Line → List String
product_ids lines = map (λ l. l.product_id) lines

-- `allRelevant` before the first loop.
abbrev relevant_ids : List String → List String → List String
relevant_ids [] ids = ids
relevant_ids (p ∷ ps) ids = relevant_ids ps (add_member p ids)

abbrev pub first_demands : CommitCommand → Demands
first_demands command = record {
  demands = [];
  unavailable = [];
  composite_lines = [];
  all_relevant = relevant_ids (product_ids command.lines) [];
}

-- The map `unavailable` after the second and third loops.
unfoldable pub unserved : CommitCommand → Demands → Db → List UnavailableItem
unfolding load_rows recheck_lines check_demands
unserved command s db =
    let locked = load_rows s.all_relevant db in
    check_demands locked command.lines s.composite_lines s.demands
      (recheck_lines locked command.lines s.unavailable)

-- From the first load to the decision.
unfoldable pub fresh_commit : Env → String → CommitCommand → Db → Result Failure (CommitResult × Db)
unfolding decide load_rows demand_lines unserved
fresh_commit env actor command db = do
  attempt env load_items
  s ←
      demand_lines env db (load_rows (product_ids command.lines) db) command.lines
        (first_demands command)
  attempt env lock_items
  decide env actor command (unserved command s db) s.demands db

-- The receipt that ends a fresh commit.
unfoldable pub record_receipt :
    Env → CommitCommand → String → CommitResult → Db → Result Failure (CommitResult × Db)
unfolding receipt_collides
record_receipt env command fingerprint result db = do
  attempt env insert_receipt
  fail_if (receipt_collides (new_receipt command fingerprint result) db) unique_violation
  ok (result, with_receipt (new_receipt command fingerprint result) db)

-- `else if found { return replay, nil }`.
unfoldable pub replay_or_commit :
    Env
    → String
    → CommitCommand
    → String
    → Db
    → Option CommitResult
    → Result Failure (CommitResult × Db)
unfolding fresh_commit record_receipt
replay_or_commit env actor command fingerprint db (some replay) = ok (replay, db)
replay_or_commit env actor command fingerprint db none = do
  (result, after) ← fresh_commit env actor command db
  record_receipt env command fingerprint result after

unfoldable pub commit_body :
    Env → String → CommitCommand → String → Db → Result Failure (CommitResult × Db)
unfolding load_stored replay_or_commit
commit_body env actor command fingerprint db = do
  attempt env lock_operation
  stored ← load_stored env command.operation_id fingerprint db
  replay_or_commit env actor command fingerprint db stored

-- Whether the receipt of the operation is there and agrees.
pub replays : Env → CommitCommand → String → Db → Bool
unfolding load_stored
replays env command fingerprint db = elim (load_stored env command.operation_id fingerprint db) [
  | ok (some replay) ↦ true
  | _ ↦ false
]

-- The end of commitOnce: a replay, which has only read, is rolled back; all else is committed.
pub close : Env → Db → Bool → Result Failure (CommitResult × Db) → Result Failure CommitResult × Db
unfolding finish
close env before true (ok (replay, after)) = (ok replay, after)
close env before true (err e) = (err e, before)
close env before false body = finish env before body

-- commitOnce.
unfoldable pub commit_once :
    Env → String → CommitCommand → String → Db → Result Failure CommitResult × Db
unfolding commit_body replays close
commit_once env actor command fingerprint db = elim (env.fails begin_tx) [
  | some f ↦ (err f, db)
  | none ↦
      close env db (replays env command fingerprint db)
        (commit_body env actor command fingerprint db)
]

-- classifyStoreError.
unfoldable pub classify_store_error : Failure → InventoryError
classify_store_error conflict = operation_conflict
classify_store_error unique_violation = operation_conflict
classify_store_error _ = store_unavailable

abbrev pub max_serializable_tries : ℕ
max_serializable_tries = 3

-- One round of the loop of Store.Commit, before the rounds `again`.
unfoldable pub after_try :
    Result Failure CommitResult
    → Db
    → Result InventoryError CommitResult × Db
    → Result InventoryError CommitResult × Db
unfolding classify_store_error
after_try (ok result) after again = (ok result, after)
after_try (err e) after again =
    if is_serialization_failure e then again else (err (classify_store_error e), after)

-- The loop of Store.Commit with `tries` left. `envs` is what each attempt meets, and `between` what
-- others commit before it.
unfoldable pub commit_tries :
    ℕ
    → ℕ
    → (ℕ → Env)
    → (ℕ → Db → Db)
    → String
    → CommitCommand
    → String
    → Db
    → Result InventoryError CommitResult × Db
unfolding commit_once after_try
commit_tries zero i envs between actor command fingerprint db = (err store_unavailable, db)
commit_tries (suc n) i envs between actor command fingerprint db =
    let (r, after) = commit_once (envs i) actor command fingerprint (between i db) in
    after_try r after (commit_tries n (suc i) envs between actor command fingerprint after)

-- Store.Commit.
unfoldable pub commit :
    (ℕ → Env)
    → (ℕ → Db → Db)
    → String
    → CommitCommand
    → String
    → Db
    → Result InventoryError CommitResult × Db
unfolding commit_tries
commit envs between actor command fingerprint db =
    commit_tries max_serializable_tries 0 envs between actor command fingerprint db
