-- ===== src/Ordering/Store/Outbox.antt =====
-- Store.ClaimInventoryWork, ApplyInventoryResult and RetryInventoryWork of
-- adapters/postgres/store.go. An `UnavailableItems` list is never a nil slice here: a nil one would
-- be encoded as `null`, which the table refuses, and `Env.fails` covers that.
pub mod Apply
pub mod Settles
pub mod Target
pub mod Invariant
pub mod Claims
pub mod Leases
use b46_ordering_app_backend.Base.{
  ℕ, zero, suc, ◌+◌, ◌-◌, String, Bool, true, false, not, ◌&&◌, ◌||◌, Option, none, some, List, [],
  ◌∷◌, ◌++◌, Result, ok, err, ◌>>=◌, ◌>>◌, or_fail, fail_if, if◌then◌else◌, ◌=s=◌, ltb, leb, ◌==◌,
  int_eq, keep, take, find_first, update_where, map,
}
use b46_ordering_app_backend.Base.Sort.{sort_by}
use b46_ordering_app_backend.Ordering.Domain.{
  Time, Call, OrderStatus, confirmed, rejected, rejection_items_unavailable, preparing,
  UnavailableItem, InventoryCommit, InventoryResult, InventoryResultStatus, inventory_committed,
  inventory_items_unavailable, other_result, ClaimedInventoryWork, OrderError, operation_conflict,
  claim_lost, not_found, technical, claim, decode_claimed, lock_operation, set_operation, set_order,
  insert_fulfillment, insert_audit, publish, release,
}
use b46_ordering_app_backend.Ordering.Store.Tables.{
  Db, Env, OrderRow, FulfillmentRow, OperationRow, OutboxRow, CommitRequested, AuditAction,
  inventory_was_committed, order_rejected_items_unavailable, attempt, transaction, is_null,
}
use b46_ordering_app_backend.Ordering.Store.Load.{is_submitted, order_row}

-- The candidates' WHERE clause. `cutoff` is `now - leaseTimeout`.
unfoldable pub is_due : Time → Time → OutboxRow → Bool
is_due now cutoff r =
    elim r.published_at [ none ↦ true | some t ↦ false ]
    && leb r.next_attempt_at now
    && elim r.locked_at [ none ↦ true | some t ↦ leb t cutoff ]

-- ORDER BY next_attempt_at, occurred_at.
pub due_before : OutboxRow → OutboxRow → Bool
due_before a b =
    ltb a.next_attempt_at b.next_attempt_at
    || (a.next_attempt_at == b.next_attempt_at && ltb a.occurred_at b.occurred_at)

-- FOR UPDATE SKIP LOCKED LIMIT: rows that other transactions hold are passed over.
unfoldable pub candidates : Env → Time → Time → ℕ → Db → List OutboxRow
unfolding is_due due_before
candidates env now cutoff batch_size db = take batch_size (
    sort_by due_before
      (keep (λ r. is_due now cutoff r && not (env.locked_elsewhere r.event_id)) db.outbox))

unfoldable pub claimed_row : Time → String → OutboxRow → OutboxRow
claimed_row now token r = record r {
  locked_at = some now;
  claim_token = some token;
  attempt_count = r.attempt_count + 1;
  last_error_code = none;
}

abbrev pub commit_of : CommitRequested → InventoryCommit
commit_of w = record {
  event_id = w.event_id;
  operation_id = w.operation_id;
  order_id = w.order_id;
  occurred_at = w.occurred_at;
  items = w.items;
}

abbrev pub work_of : OutboxRow → String → ClaimedInventoryWork
work_of r token = record {
  commit = commit_of r.payload;
  claim_token = token;
  attempt_count = r.attempt_count + 1;
}

-- The UPDATE, one candidate after another; `k` counts the uuids drawn.
unfoldable pub claim_rows :
    Env → Time → ℕ → List OutboxRow → List OutboxRow → List OutboxRow × List ClaimedInventoryWork
unfolding claimed_row
claim_rows env now k [] rows = (rows, [])
claim_rows env now k (c ∷ cs) rows =
    let (rows', work) =
      claim_rows env now (suc k) cs
        (update_where (λ r. r.event_id =s= c.event_id) (claimed_row now (env.token k)) rows) in
    (rows', work_of c (env.token k) ∷ work)

-- A statement that commits by itself: when the connection fails, it may have taken effect.
abbrev pub autocommit {ℓ} :
    {A : Type ℓ} → Env → Call → Db → Result OrderError A → Db → Result OrderError A × Db
autocommit env step before answer after =
    if env.fails step
    then (err (technical step), if env.commit_applied then after else before)
    else (answer, after)

-- The statement commits by itself: an error in reading its rows leaves them claimed.
unfoldable pub claim_inventory_work :
    Env → Time → Time → ℕ → Db → Result OrderError (List ClaimedInventoryWork) × Db
unfolding claim_rows candidates
claim_inventory_work env now lease_timeout batch_size db =
    let (rows, work) =
      claim_rows env now 0 (candidates env now (now - lease_timeout) batch_size db) db.outbox in
    autocommit env claim db
      (if env.fails decode_claimed then err (technical decode_claimed) else ok work)
      (record db { outbox = rows })

abbrev pub result_status_eq : InventoryResultStatus → InventoryResultStatus → Bool
result_status_eq inventory_committed inventory_committed = true
result_status_eq inventory_items_unavailable inventory_items_unavailable = true
result_status_eq (other_result s) (other_result t) = s =s= t
result_status_eq _ _ = false

abbrev pub is_business_status : InventoryResultStatus → Bool
is_business_status inventory_committed = true
is_business_status inventory_items_unavailable = true
is_business_status (other_result s) = false

unavailable_eq : UnavailableItem → UnavailableItem → Bool
unavailable_eq a b =
    a.order_line_id =s= b.order_line_id
    && a.product_id =s= b.product_id
    && int_eq a.requested_quantity b.requested_quantity
    && int_eq a.available_quantity b.available_quantity

-- slices.Equal.
unfoldable pub all_unavailable_eq : List UnavailableItem → List UnavailableItem → Bool
unfolding unavailable_eq
all_unavailable_eq [] [] = true
all_unavailable_eq (x ∷ xs) (y ∷ ys) = unavailable_eq x y && all_unavailable_eq xs ys
all_unavailable_eq _ _ = false

abbrev pub text_is : Option String → String → Bool
text_is none s = false
text_is (some t) s = t =s= s

abbrev pub or_none {ℓ} : {A : Type ℓ} → Option (List A) → List A
or_none none = []
or_none (some l) = l

-- The stored result of an operation that is not pending agrees with the one that has come.
pub same_result : InventoryResultStatus → OperationRow → InventoryResult → Bool
unfolding all_unavailable_eq
same_result current op result =
    result_status_eq current result.status
    && text_is op.result_event_id result.event_id
    && all_unavailable_eq (or_none op.unavailable_items) result.unavailable_items

abbrev pub completed_operation : InventoryResult → OperationRow → OperationRow
completed_operation result op = record op {
  result_status = some result.status;
  result_event_id = some result.event_id;
  unavailable_items = elim result.status [
    | inventory_items_unavailable ↦ some result.unavailable_items
    | _ ↦ op.unavailable_items
  ];
  completed_at = some result.occurred_at;
}

abbrev pub set_operation_row : InventoryResult → Db → Db
set_operation_row result db = record db {
  operations =
      update_where (λ op. op.operation_id =s= result.operation_id && is_null op.result_status)
        (completed_operation result) db.operations;
}

-- The trigger on `orders` sets `updated_at` to the database's time.
abbrev pub moved_order : Env → OrderStatus → Option String → OrderRow → OrderRow
moved_order env status code o = record o {
  status = status;
  rejection_code = code;
  updated_at = env.now;
}

abbrev pub set_order_row : Env → String → OrderStatus → Option String → Db → Db
set_order_row env id status code db = record db {
  orders =
      update_where (λ o. o.id =s= id && is_submitted o.status) (moved_order env status code)
        db.orders;
}

abbrev pub order_is_submitted : String → Db → Bool
order_is_submitted id db = elim (order_row id db) [ none ↦ false | some o ↦ is_submitted o.status ]

abbrev pub new_fulfillment : InventoryResult → FulfillmentRow
new_fulfillment result = record {
  order_id = result.order_id;
  status = preparing;
  version = 1;
  preparing_at = result.occurred_at;
  delivering_at = none;
  delivered_at = none;
  cashier_read_at = none;
  cashier_read_by = none;
  updated_by = none;
}

abbrev pub add_fulfillment : InventoryResult → Db → Db
add_fulfillment result db = record db {
  fulfillments = db.fulfillments ++ new_fulfillment result ∷ [];
}

-- The unique constraint on `result_event_id`.
unfoldable pub event_collides : InventoryResult → Db → Bool
event_collides result db =
    elim (find_first (λ op. text_is op.result_event_id result.event_id) db.operations) [
      | none ↦ false
      | some op ↦ true
    ]

-- The primary key of `fulfillments`.
unfoldable pub fulfillment_collides : InventoryResult → Db → Bool
fulfillment_collides result db =
    not (is_null (find_first (λ f. f.order_id =s= result.order_id) db.fulfillments))

-- The three statements of a committed result. An UPDATE that touches no row skips what follows it,
-- and the check of `RowsAffected` after the branch reports it.
unfoldable pub confirm_order : Env → InventoryResult → Db → Result OrderError Db
confirm_order env result db = do
  attempt env set_operation
  fail_if (event_collides result db) (technical set_operation)
  attempt env set_order
  fail_if (not (order_is_submitted result.order_id db)) operation_conflict
  attempt env insert_fulfillment
  fail_if (fulfillment_collides result db) (technical insert_fulfillment)
  ok (
      add_fulfillment result
        (set_order_row env result.order_id confirmed none (set_operation_row result db)))

unfoldable pub reject_order : Env → InventoryResult → Db → Result OrderError Db
reject_order env result db = do
  attempt env set_operation
  fail_if (event_collides result db) (technical set_operation)
  attempt env set_order
  fail_if (not (order_is_submitted result.order_id db)) operation_conflict
  ok (
      set_order_row env result.order_id rejected (some rejection_items_unavailable)
        (set_operation_row result db))

abbrev audit_of : InventoryResult → AuditAction
audit_of result = elim result.status [
  | inventory_items_unavailable ↦ order_rejected_items_unavailable result.operation_id
  | _ ↦ inventory_was_committed result.operation_id
]

abbrev pub audited_result : InventoryResult → Time → Db → Db
audited_result result now db = record db {
  audit =
      db.audit
      ++ record {
        actor_user_id = none;
        action = audit_of result;
        target_id = result.order_id;
        occurred_at = now;
      }
        ∷ [];
}

-- `WHERE event_id = $1 AND claim_token = $2 AND published_at IS NULL`.
unfoldable pub holds_claim : ClaimedInventoryWork → OutboxRow → Bool
holds_claim claimed r =
    r.event_id =s= claimed.commit.event_id
    && text_is r.claim_token claimed.claim_token
    && is_null r.published_at

abbrev pub published_row : Time → OutboxRow → OutboxRow
published_row now r = record r {
  published_at = some now;
  locked_at = none;
  claim_token = none;
  last_error_code = none;
}

unfoldable pub claim_is_held : ClaimedInventoryWork → Db → Bool
unfolding holds_claim
claim_is_held claimed db = elim (find_first (holds_claim claimed) db.outbox) [
  | none ↦ false
  | some r ↦ true
]

-- `if result.Status == domain.InventoryCommitted { ... } else { ... }`.
business : Env → InventoryResult → InventoryResultStatus → Db → Result OrderError Db
unfolding confirm_order reject_order event_collides fulfillment_collides
business env result inventory_committed db = confirm_order env result db
business env result _ db = reject_order env result db

-- From the business result to the end of the transaction.
settle :
    Env → ClaimedInventoryWork → InventoryResult → Time → Db → Result OrderError (Unit {0} × Db)
unfolding business claim_is_held
settle env claimed result now db = do
  after ← business env result result.status db
  attempt env insert_audit
  attempt env publish
  fail_if (not (claim_is_held claimed db)) claim_lost
  ok (
    tt,
    audited_result result now (record after {
      outbox = update_where (holds_claim claimed) (published_row now) after.outbox;
    }),
  )

-- The row of the join of `inventory_operations` and `ordering_outbox`, already pending or not.
decide_result :
    Env
    → ClaimedInventoryWork
    → InventoryResult
    → Time
    → OperationRow
    → OutboxRow
    → Db
    → Result OrderError (Unit {0} × Db)
unfolding settle same_result
decide_result env claimed result now op box db = elim op.result_status [
  | some current ↦ if same_result current op result then ok (tt, db) else err operation_conflict
  | none ↦
      if not (is_null box.published_at) || not (text_is box.claim_token claimed.claim_token)
      then err claim_lost
      else settle env claimed result now db
]

unfoldable pub operation_row : InventoryResult → Db → Option OperationRow
operation_row result db =
    find_first (λ op. op.operation_id =s= result.operation_id && op.order_id =s= result.order_id)
      db.operations

pub apply_body :
    Env → ClaimedInventoryWork → InventoryResult → Time → Db → Result OrderError (Unit {0} × Db)
unfolding decide_result operation_row
apply_body env claimed result now db = do
  attempt env lock_operation
  op ← or_fail (operation_row result db) not_found
  box ← or_fail (find_first (λ r. r.operation_id =s= op.operation_id) db.outbox) not_found
  decide_result env claimed result now op box db

unfoldable pub well_addressed : ClaimedInventoryWork → InventoryResult → Bool
well_addressed claimed result =
    not (result.event_id =s= "")
    && result.operation_id =s= claimed.commit.operation_id
    && result.order_id =s= claimed.commit.order_id
    && is_business_status result.status

unfoldable pub apply_inventory_result :
    Env → ClaimedInventoryWork → InventoryResult → Time → Db → Result OrderError (Unit {0}) × Db
unfolding apply_body well_addressed transaction
apply_inventory_result env claimed result now db =
    if well_addressed claimed result
    then transaction env (apply_body env claimed result now) db
    else (err operation_conflict, db)

unfoldable pub retried_row : Time → String → OutboxRow → OutboxRow
retried_row next code r = record r {
  locked_at = none;
  claim_token = none;
  next_attempt_at = next;
  last_error_code = some code;
}

unfoldable pub retry_inventory_work :
    Env → ClaimedInventoryWork → Time → String → Db → Result OrderError (Unit {0}) × Db
unfolding claim_is_held holds_claim retried_row
retry_inventory_work env claimed next code db =
    if claim_is_held claimed db
    then autocommit env release db (ok tt) (record db {
      outbox = update_where (holds_claim claimed) (retried_row next code) db.outbox;
    })
    else autocommit env release db (err claim_lost) db
