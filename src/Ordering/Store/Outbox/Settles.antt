-- ===== src/Ordering/Store/Outbox/Settles.antt =====
-- Store.ApplyInventoryResult settles an order as a whole, and Store.RetryInventoryWork reschedules one
-- message, both under a claim that is held.
use b46_ordering_app_backend.Ordering.Store.Transaction.{transaction-ok}
use b46_ordering_app_backend.Base.{
  Result-cases, ◌∙◌, ◌≡◌, ◌≢◌, ◌⊎◌, inl, inr, refl, sym, ap, subst, String, true, ◌&&◌, Option,
  none, some, [], ◌∷◌, ◌++◌, List, ok, arith, eq_iff, ◌=s=◌, Bool-cases, Option-cases, find_first,
  update_where,
}
use mathlib.Core.List.{append-nil}
use b46_ordering_app_backend.Base.Keys.{found_passes}
use b46_ordering_app_backend.Ordering.Domain.{
  Time, OrderStatus, submitted, confirmed, rejected, preparing, InventoryResult,
  InventoryResultStatus, inventory_committed, inventory_items_unavailable, other_result,
  ClaimedInventoryWork, release,
}
use b46_ordering_app_backend.Ordering.Store.Tables.{
  transaction, Db, Env, OrderRow, OperationRow, OutboxRow, FulfillmentRow, inventory_was_committed,
  order_rejected_items_unavailable, is_null,
}
use b46_ordering_app_backend.Ordering.Store.Load.{order_row, is_submitted}
use b46_ordering_app_backend.Ordering.Store.Outbox.{
  apply_body, same_result, result_status_eq, apply_inventory_result, retry_inventory_work,
  well_addressed, operation_row, claim_is_held, holds_claim, order_is_submitted, text_is,
  retried_row, set_operation_row, audited_result,
}
use b46_ordering_app_backend.Ordering.Store.Outbox.Apply.{
  Applies, applied, with_status, apply_inventory_result-Leaves, apply_body-ok, IsRecorded,
}

-- What a result makes of a submitted order.
abbrev pub decided : InventoryResultStatus → OrderStatus
decided inventory_committed = confirmed
decided _ = rejected

abbrev pub reason : InventoryResultStatus → Option String
reason inventory_committed = none
reason _ = some "ITEMS_UNAVAILABLE"

-- Only a committed result starts a fulfilment.
abbrev pub started : InventoryResult → InventoryResultStatus → List FulfillmentRow
started result inventory_committed =
    record {
      order_id = result.order_id;
      status = preparing;
      version = 1;
      preparing_at = result.occurred_at;
      delivering_at = none;
      delivered_at = none;
      cashier_read_at = none;
      cashier_read_by = none;
      updated_by = none;
    }
    ∷ []
started result _ = []

-- The message of the claimed event is there, unpublished and under the token of the claim.
pub record Held (claimed : ClaimedInventoryWork) (db : Db) : Type 0 where
  pub message : OutboxRow
  pub among : find_first (holds_claim claimed) db.outbox ≡ some message
  pub event : message.event_id ≡ claimed.commit.event_id
  pub token : message.claim_token ≡ some claimed.claim_token
  pub waiting : message.published_at ≡ none

-- The rows of the claimed event, unpublished and under the token of the claim, are changed by `f`.
abbrev pub messages_changed :
    ClaimedInventoryWork → (OutboxRow → OutboxRow) → List OutboxRow → List OutboxRow
messages_changed claimed f =
    update_where
      (λ r.
        r.event_id =s= claimed.commit.event_id
        && text_is r.claim_token claimed.claim_token
        && is_null r.published_at)
      f

-- The tables before and after a result was applied. The operation was pending, the order submitted and
-- the claim held. The operation, the order and the message are changed, a committed result starts the
-- fulfilment, one audit record is added, and the rest stays.
pub record Settles (env : Env) (claimed : ClaimedInventoryWork) (result : InventoryResult)
    (now : Time) (db after : Db) : Type 0 where
  pub operation_of_claim : result.operation_id ≡ claimed.commit.operation_id
  pub order_of_claim : result.order_id ≡ claimed.commit.order_id
  pub operation : OperationRow
  pub known :
      find_first
        (λ op. op.operation_id =s= result.operation_id && op.order_id =s= result.order_id)
        db.operations
      ≡ some operation
  pub pending : operation.result_status ≡ none
  pub order : OrderRow
  pub ordered : find_first (λ o. o.id =s= result.order_id) db.orders ≡ some order
  pub is_waiting : order.status ≡ submitted
  pub held : Held claimed db
  pub operations :
      after.operations
      ≡ update_where
          (λ op. op.operation_id =s= result.operation_id && is_null op.result_status)
          (λ op. record op {
            result_status = some result.status;
            result_event_id = some result.event_id;
            unavailable_items = elim result.status [
              | inventory_items_unavailable ↦ some result.unavailable_items
              | _ ↦ op.unavailable_items
            ];
            completed_at = some result.occurred_at;
          })
          db.operations
  pub orders :
      after.orders
      ≡ update_where
          (λ o. o.id =s= result.order_id && is_submitted o.status)
          (λ o. record o {
            status = decided result.status;
            rejection_code = reason result.status;
            updated_at = env.now;
          })
          db.orders
  pub fulfillments : after.fulfillments ≡ db.fulfillments ++ started result result.status
  pub outbox :
      after.outbox
      ≡ messages_changed claimed
          (λ r. record r {
            published_at = some now;
            locked_at = none;
            claim_token = none;
            last_error_code = none;
          })
          db.outbox
  pub audit :
      after.audit
      ≡ db.audit
        ++ record {
          actor_user_id = none;
          action = elim result.status [
            | inventory_items_unavailable ↦ order_rejected_items_unavailable result.operation_id
            | _ ↦ inventory_was_committed result.operation_id
          ];
          target_id = result.order_id;
          occurred_at = now;
        }
          ∷ []
  pub lines : after.lines ≡ db.lines
  pub users : after.users ≡ db.users

text_is-some : (o : Option String) (s : String) → text_is o s ≡ true → o ≡ some s
text_is-some none s h = absurd (cc)
text_is-some (some t) s h = ap some ((eq_iff t s).0 h)

null_none : {A : Type 0} (o : Option A) → is_null o ≡ true → o ≡ none
null_none none h = refl
null_none (some a) h = absurd (cc)

claim_is_held-Held :
    (claimed : ClaimedInventoryWork) (db : Db) → claim_is_held claimed db ≡ true → Held claimed db
unfolding claim_is_held holds_claim
claim_is_held-Held claimed db h = elim (Option-cases (find_first (holds_claim claimed) db.outbox)) [
  | inl n ↦ absurd (ground (arith, n, h))
  | inr (r, e) ↦
      let passes = found_passes (holds_claim claimed) db.outbox r e in
      record {
        message = r;
        among = e;
        event = (eq_iff r.event_id claimed.commit.event_id).0 (ground (arith, passes));
        token = text_is-some r.claim_token claimed.claim_token (ground (arith, passes));
        waiting = null_none r.published_at (ground (arith, passes));
      }
]

submitted_order :
    (id : String) (db : Db)
    → order_is_submitted id db ≡ true
    → (o : OrderRow) × (find_first (λ x. x.id =s= id) db.orders ≡ some o) × (o.status ≡ submitted)
unfolding order_row
submitted_order id db h =
    elim (Option-cases (find_first (λ (x : OrderRow). x.id =s= id) db.orders)) [
      | inl n ↦ absurd (ground (arith, n, h))
      | inr (o, e) ↦ (o, e, is_it o.status (rw (e, order_is_submitted) at h))
    ]
  where
    is_it : (s : OrderStatus) → is_submitted s ≡ true → s ≡ submitted
    is_it submitted h = refl
    is_it s h = cc

status_orders :
    (env : Env) (result : InventoryResult) (s : InventoryResultStatus) (db : Db)
    → (with_status env result s db).orders
      ≡ update_where
          (λ o. o.id =s= result.order_id && is_submitted o.status)
          (λ o. record o { status = decided s; rejection_code = reason s; updated_at = env.now })
          db.orders
status_orders env result inventory_committed db = refl
status_orders env result inventory_items_unavailable db = refl
status_orders env result (other_result x) db = refl

status_fulfillments :
    (env : Env) (result : InventoryResult) (s : InventoryResultStatus) (db : Db)
    → (with_status env result s db).fulfillments ≡ db.fulfillments ++ started result s
status_fulfillments env result inventory_committed db = refl
status_fulfillments env result inventory_items_unavailable db = sym (append-nil db.fulfillments)
status_fulfillments env result (other_result x) db = sym (append-nil db.fulfillments)

-- The other tables do not depend on the status.
status_rest :
    (env : Env) (result : InventoryResult) (s : InventoryResultStatus) (db : Db)
    → ((with_status env result s db).operations ≡ (set_operation_row result db).operations)
      × ((with_status env result s db).lines ≡ db.lines)
      × ((with_status env result s db).users ≡ db.users)
      × ((with_status env result s db).audit ≡ db.audit)
status_rest env result inventory_committed db = (refl, refl, refl, refl)
status_rest env result inventory_items_unavailable db = (refl, refl, refl, refl)
status_rest env result (other_result x) db = (refl, refl, refl, refl)

addressed :
    (claimed : ClaimedInventoryWork) (result : InventoryResult)
    → well_addressed claimed result ≡ true
    → (result.operation_id ≡ claimed.commit.operation_id)
      × (result.order_id ≡ claimed.commit.order_id)
unfolding well_addressed
addressed claimed result h = (
  (eq_iff result.operation_id claimed.commit.operation_id).0 (ground (arith, h)),
  (eq_iff result.order_id claimed.commit.order_id).0 (ground (arith, h)),
)

Applies-Settles :
    (env : Env) (claimed : ClaimedInventoryWork) (result : InventoryResult) (now : Time) (db : Db)
    → Applies claimed result db
    → Settles env claimed result now db (applied env claimed result now db)
unfolding operation_row holds_claim
Applies-Settles env claimed result now db a =
    let (same_operation, same_order) = addressed claimed result a.addressed in
    let (order, placed, waits) = submitted_order result.order_id db a.waiting in
    let (operations, lines, users, audit) = status_rest env result result.status db in
    record {
      operation_of_claim = same_operation;
      order_of_claim = same_order;
      operation = a.operation;
      known = a.found;
      pending = a.pending;
      order = order;
      ordered = placed;
      is_waiting = waits;
      held = claim_is_held-Held claimed db a.held;
      operations = operations;
      orders = status_orders env result result.status db;
      fulfillments = status_fulfillments env result result.status db;
      outbox = refl;
      audit = ap (λ l. (audited_result result now (record db { audit = l })).audit) audit;
      lines = lines;
      users = users;
    }

result_status_eq_sound : (a b : InventoryResultStatus) → result_status_eq a b ≡ true → a ≡ b
result_status_eq_sound inventory_committed inventory_committed h = refl
result_status_eq_sound inventory_items_unavailable inventory_items_unavailable h = refl
result_status_eq_sound (other_result s) (other_result t) h = ap other_result ((eq_iff s t).0 h)
result_status_eq_sound a b h = cc

-- The operation has this result already.
abbrev pub Already : InventoryResult → Db → Type 0
Already result db =
    (op : OperationRow) × (find_first
        (λ op. op.operation_id =s= result.operation_id && op.order_id =s= result.order_id)
        db.operations
      ≡ some op)
    × (op.result_status ≡ some result.status)
    × (op.result_event_id ≡ some result.event_id)

recorded-Already :
    (result : InventoryResult) (db : Db) (op : OperationRow)
    → operation_row result db ≡ some op
    → IsRecorded result op
    → Already result db
unfolding operation_row same_result
recorded-Already result db op found (s, e, same) = (
  op,
  found,
  e ∙ ap some (result_status_eq_sound s result.status (ground (arith, same))),
  text_is-some op.result_event_id result.event_id (ground (arith, same)),
)

-- A call settles the order as a whole, and that only where the operation is pending, its order
-- submitted and the claim held, or it leaves the database alone; in the latter case it does not
-- succeed, unless the operation has this result already.
pub apply_inventory_result-Settles :
    (env : Env) (claimed : ClaimedInventoryWork) (result : InventoryResult) (now : Time) (db : Db)
    → (((apply_inventory_result env claimed result now db).1 ≡ db)
        × (((apply_inventory_result env claimed result now db).0 ≢ ok tt) ⊎ Already result db))
      ⊎ Settles env claimed result now db (apply_inventory_result env claimed result now db).1
unfolding apply_inventory_result
apply_inventory_result-Settles env claimed result now db =
    let run = apply_inventory_result env claimed result now db in
    let run_of : well_addressed claimed result ≡ true
        → run ≡ transaction env (apply_body env claimed result now) db =
      λ e. rw e refl in
    let settled =
      λ (end : run.1 ≡ applied env claimed result now db) (a : Applies claimed result db).
        subst (Settles env claimed result now db) (sym end)
          (Applies-Settles env claimed result now db a) in
    elim (Result-cases run.0) [
      | inr (e, refused) ↦ elim (apply_inventory_result-Leaves env claimed result now db) [
        | inl same ↦ inl (same, inl (λ h. absurd (cc (refused, h))))
        | inr (a, end) ↦ inr (settled end a)
      ]
      | inl (u, done) ↦ elim (Bool-cases (well_addressed claimed result)) [
        | inr e ↦ absurd (ground (arith, e, done))
        | inl e ↦
            let body =
              transaction-ok env (apply_body env claimed result now) db {a = u} {after = run.1}
                (sym (run_of e) ∙ ap (λ a. (a, run.1)) done) in
            elim (apply_body-ok env claimed result now db {u = u} {db' = run.1} e body) [
              | inl (same, (op, found, known)) ↦
                  inl (same, inr (recorded-Already result db op found known))
              | inr (a, end) ↦ inr (settled end a)
            ]
      ]
    ]

-- Scheduling a retry succeeds only under a held claim, and then it changes the messages of the claim:
-- they are free again, due at the given time, and carry the error code. Where it does not succeed, it
-- changes them in this way or not at all. All else stays.
pub retry_inventory_work-Held :
    (env : Env) (claimed : ClaimedInventoryWork) (next : Time) (code : String) (db : Db)
    → (((retry_inventory_work env claimed next code db).1 ≡ db)
        × ((retry_inventory_work env claimed next code db).0 ≢ ok tt))
      ⊎ (Held claimed db
          × ((retry_inventory_work env claimed next code db).1 ≡ record db {
            outbox =
                messages_changed claimed
                  (λ r. record r {
                    locked_at = none;
                    claim_token = none;
                    next_attempt_at = next;
                    last_error_code = some code;
                  })
                  db.outbox;
          }))
unfolding retry_inventory_work holds_claim retried_row
retry_inventory_work-Held env claimed next code db = elim (Bool-cases (claim_is_held claimed db)) [
  | inl h ↦ elim (Bool-cases (env.fails release)) [
    | inr e ↦ inr (claim_is_held-Held claimed db h, rw (e, h) refl)
    | inl e ↦ elim (Bool-cases env.commit_applied) [
      | inl a ↦ inr (claim_is_held-Held claimed db h, rw (e, h, a) refl)
      | inr a ↦ inl (rw (e, h, a) (refl, (λ p. absurd (cc))))
    ]
  ]
  | inr h ↦ elim (Bool-cases (env.fails release)) [
    | inr e ↦ inl (rw (e, h) (refl, (λ p. absurd (cc))))
    | inl e ↦ elim (Bool-cases env.commit_applied) [
      | inl a ↦ inl (rw (e, h, a) (refl, (λ p. absurd (cc))))
      | inr a ↦ inl (rw (e, h, a) (refl, (λ p. absurd (cc))))
    ]
  ]
]
