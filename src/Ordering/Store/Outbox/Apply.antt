-- ===== src/Ordering/Store/Outbox/Apply.antt =====
-- What Store.ApplyInventoryResult can leave behind.
use b46_ordering_app_backend.Base.{
  ◌≡◌, ◌⊎◌, inl, inr, refl, sym, ◌∙◌, ap, true, false, not, none, some, ok, bind_ok, passed,
  ok-injective, fail_if, or_fail, got, arith, ◌=s=◌, Bool-cases, Option-cases, find_first,
  update_where,
}
use b46_ordering_app_backend.Ordering.Domain.{
  Time, confirmed, rejected, rejection_items_unavailable, InventoryResult, ClaimedInventoryWork,
  inventory_committed, InventoryResultStatus, inventory_items_unavailable, other_result, claim_lost,
  not_found, operation_conflict, technical, lock_operation, set_operation, set_order,
  insert_fulfillment, insert_audit, publish,
}
use b46_ordering_app_backend.Ordering.Store.Tables.{Db, Env, OperationRow, OutboxRow, attempt}
use b46_ordering_app_backend.Ordering.Store.Transaction.{transaction_cases}
use b46_ordering_app_backend.Ordering.Store.Outbox.{
  apply_inventory_result, apply_body, decide_result, settle, business, confirm_order, reject_order,
  well_addressed, operation_row, claim_is_held, holds_claim, published_row, event_collides,
  fulfillment_collides, order_is_submitted, set_operation_row, set_order_row, add_fulfillment,
  audited_result, same_result,
}

-- The business result in the tables.
abbrev pub with_status : Env → InventoryResult → InventoryResultStatus → Db → Db
with_status env result inventory_committed db =
    add_fulfillment result
      (set_order_row env result.order_id confirmed none (set_operation_row result db))
with_status env result _ db =
    set_order_row env result.order_id rejected (some rejection_items_unavailable)
      (set_operation_row result db)

abbrev pub with_result : Env → InventoryResult → Db → Db
with_result env result db = with_status env result result.status db

-- The tables after a result was applied: the business result, its audit record, and the message
-- published.
abbrev pub applied : Env → ClaimedInventoryWork → InventoryResult → Time → Db → Db
applied env claimed result now db = audited_result result now (record (with_result env result db) {
  outbox = update_where (holds_claim claimed) (published_row now) db.outbox;
})

-- What the call has found before it changes anything.
pub record Applies (claimed : ClaimedInventoryWork) (result : InventoryResult) (db : Db)
    : Type 0 where
  pub addressed : well_addressed claimed result ≡ true
  pub operation : OperationRow
  pub found : operation_row result db ≡ some operation
  pub pending : operation.result_status ≡ none
  pub fresh : event_collides result db ≡ false
  pub waiting : order_is_submitted result.order_id db ≡ true
  pub held : claim_is_held claimed db ≡ true

confirm_order-ok :
    (env : Env) (result : InventoryResult) (db : Db) {db' : Db}
    → confirm_order env result db ≡ ok db'
    → (event_collides result db ≡ false)
      × (order_is_submitted result.order_id db ≡ true)
      × (db'
          ≡ add_fulfillment result
              (set_order_row env result.order_id confirmed none (set_operation_row result db)))
unfolding confirm_order
confirm_order-ok env result db h0 = bind_ok (attempt env set_operation) h0 λ u1 e1 h1.
    bind_ok (fail_if (event_collides result db) (technical set_operation)) h1 λ u2 e2 h2.
      bind_ok (attempt env set_order) h2 λ u3 e3 h3.
        bind_ok (fail_if (not (order_is_submitted result.order_id db)) operation_conflict) h3
          λ u4 e4 h4. bind_ok (attempt env insert_fulfillment) h4 λ u5 e5 h5.
            bind_ok (fail_if (fulfillment_collides result db) (technical insert_fulfillment)) h5
              λ u6 e6 h6. (
                passed (event_collides result db) (technical set_operation) e2,
                ground (
                  arith,
                  passed (not (order_is_submitted result.order_id db)) operation_conflict e4,
                ),
                sym (ok-injective h6),
              )

reject_order-ok :
    (env : Env) (result : InventoryResult) (db : Db) {db' : Db}
    → reject_order env result db ≡ ok db'
    → (event_collides result db ≡ false)
      × (order_is_submitted result.order_id db ≡ true)
      × (db'
          ≡ set_order_row env result.order_id rejected
              (some rejection_items_unavailable)
              (set_operation_row result db))
unfolding reject_order
reject_order-ok env result db h0 = bind_ok (attempt env set_operation) h0 λ u1 e1 h1.
    bind_ok (fail_if (event_collides result db) (technical set_operation)) h1 λ u2 e2 h2.
      bind_ok (attempt env set_order) h2 λ u3 e3 h3.
        bind_ok (fail_if (not (order_is_submitted result.order_id db)) operation_conflict) h3
          λ u4 e4 h4. (
            passed (event_collides result db) (technical set_operation) e2,
            ground
                (arith, passed (not (order_is_submitted result.order_id db)) operation_conflict e4),
            sym (ok-injective h4),
          )

-- The branch of the business result, whichever it is.
business-ok :
    (env : Env) (result : InventoryResult) (status : InventoryResultStatus) (db : Db) {db' : Db}
    → business env result status db ≡ ok db'
    → (event_collides result db ≡ false)
      × (order_is_submitted result.order_id db ≡ true)
      × (db' ≡ with_status env result status db)
business-ok env result inventory_committed db h =
    confirm_order-ok env result db (unfold business in h)
business-ok env result inventory_items_unavailable db h =
    reject_order-ok env result db (unfold business in h)
business-ok env result (other_result s) db h = reject_order-ok env result db (unfold business in h)

settle-ok :
    (env : Env) (claimed : ClaimedInventoryWork) (result : InventoryResult) (now : Time) (db : Db)
    {u : Unit {0}} {db' : Db}
    → settle env claimed result now db ≡ ok (u, db')
    → (event_collides result db ≡ false)
      × (order_is_submitted result.order_id db ≡ true)
      × (claim_is_held claimed db ≡ true)
      × (db' ≡ applied env claimed result now db)
unfolding settle
settle-ok env claimed result now db h0 =
    bind_ok (business env result result.status db) h0 λ after e1 h1.
      bind_ok (attempt env insert_audit) h1 λ u2 e2 h2. bind_ok (attempt env publish) h2 λ u3 e3 h3.
        bind_ok (fail_if (not (claim_is_held claimed db)) claim_lost) h3 λ u4 e4 h4.
          let (fresh, waiting, same) = business-ok env result result.status db e1 in
          (
            fresh,
            waiting,
            ground (arith, passed (not (claim_is_held claimed db)) claim_lost e4),
            sym (ap (λ p. p.1) (ok-injective h4))
                ∙ ap
                    (λ (a : Db). audited_result result now (record a {
                      outbox = update_where (holds_claim claimed) (published_row now) a.outbox;
                    }))
                    same
                ∙ outbox_kept result.status,
          )
  where
    outbox_kept :
        (status : InventoryResultStatus)
        → audited_result result now (record (with_status env result status db) {
          outbox =
              update_where
                (holds_claim claimed)
                (published_row now)
                (with_status env result status db).outbox;
        })
          ≡ audited_result result now (record (with_status env result status db) {
            outbox = update_where (holds_claim claimed) (published_row now) db.outbox;
          })
    outbox_kept inventory_committed = refl
    outbox_kept inventory_items_unavailable = refl
    outbox_kept (other_result s) = refl

-- The operation has a result already, and it is the one that has come.
abbrev pub IsRecorded : InventoryResult → OperationRow → Type 0
IsRecorded result op =
    (s : InventoryResultStatus) × (op.result_status ≡ some s) × (same_result s op result ≡ true)

-- A body that succeeds found the same result, or applied a new one.
decide_result-ok :
    (env : Env) (claimed : ClaimedInventoryWork) (result : InventoryResult) (now : Time)
    (op : OperationRow) (box : OutboxRow) (db : Db) {u : Unit {0}} {db' : Db}
    → decide_result env claimed result now op box db ≡ ok (u, db')
    → ((db' ≡ db) × IsRecorded result op)
      ⊎ ((op.result_status ≡ none) × (settle env claimed result now db ≡ ok (u, db')))
unfolding decide_result
decide_result-ok env claimed result now op box db h = elim (Option-cases op.result_status) [
  | inl e ↦ inr (e, ground (arith, e))
  | inr (s, e) ↦ elim (Bool-cases (same_result s op result)) [
    | inl same ↦ inl (ground (arith, e, same, h), (s, e, same))
    | inr other ↦ absurd (ground (arith, e, other, h))
  ]
]

pub apply_body-ok :
    (env : Env) (claimed : ClaimedInventoryWork) (result : InventoryResult) (now : Time) (db : Db)
    {u : Unit {0}} {db' : Db}
    → well_addressed claimed result ≡ true
    → apply_body env claimed result now db ≡ ok (u, db')
    → ((db' ≡ db)
        × ((op : OperationRow) × (operation_row result db ≡ some op) × IsRecorded result op))
      ⊎ (Applies claimed result db × (db' ≡ applied env claimed result now db))
unfolding apply_body
apply_body-ok env claimed result now db address h0 =
    bind_ok (attempt env lock_operation) h0 λ u1 e1 h1.
      bind_ok (or_fail (operation_row result db) not_found) h1 λ op e2 h2.
        bind_ok (or_fail (find_first (λ r. r.operation_id =s= op.operation_id) db.outbox) not_found)
          h2
          λ box e3 h3. elim (decide_result-ok env claimed result now op box db h3) [
            | inl (same, known) ↦
                inl (same, (op, got (operation_row result db) not_found e2, known))
            | inr (pending, settled) ↦
                let (fresh, waiting, held, same) = settle-ok env claimed result now db settled in
                inr (
                  record {
                    addressed = address;
                    operation = op;
                    found = got (operation_row result db) not_found e2;
                    pending = pending;
                    fresh = fresh;
                    waiting = waiting;
                    held = held;
                  },
                  same,
                )
          ]

-- A call either leaves the database alone or applies the whole result, and the latter only where the
-- operation is pending, its order submitted and the claim held.
pub apply_inventory_result-Leaves :
    (env : Env) (claimed : ClaimedInventoryWork) (result : InventoryResult) (now : Time) (db : Db)
    → ((apply_inventory_result env claimed result now db).1 ≡ db)
      ⊎ (Applies claimed result db
          × ((apply_inventory_result env claimed result now db).1
              ≡ applied env claimed result now db))
unfolding apply_inventory_result
apply_inventory_result-Leaves env claimed result now db =
    elim (Bool-cases (well_addressed claimed result)) [
      | inr e ↦ inl (rw e)
      | inl e ↦ rw e (elim (transaction_cases env (apply_body env claimed result now) db) [
        | inl same ↦ inl same
        | inr (u, db', done, end) ↦ elim (apply_body-ok env claimed result now db e done) [
          | inl (same, known) ↦ inl (end ∙ same)
          | inr (a, same) ↦ inr (a, end ∙ same)
        ]
      ])
    ]
